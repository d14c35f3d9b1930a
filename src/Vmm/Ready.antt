-- ===== src/Vmm/Ready.antt =====
-- `configure_vcpus` on a KVM that serves every call: all vCPUs are there, and guest memory has what
-- they boot from.
use lumper.Base.{
  ℕ, zero, suc, ◌+◌, ◌≤◌, ◌<◌, ◌≡◌, refl, ◌∙◌, sym, ap, ◌⊎◌, inl, inr, List, [], ◌∷◌, ◌++◌, arith,
  Result, ok,
}
use lumper.Memory.{GuestMemory, Covers, IsLawful}
use lumper.Memory.Laws.{Emits}
use lumper.Memory.Read.{Holds}
use lumper.Cpuid.{CpuidEntry}
use lumper.Mptable.{mptable_start, max_supported_cpus, compute_mp_size}
use lumper.Mptable.Setup.{setup_mptable}
use lumper.Mptable.Image.{mptable_image, length-mptable_image}
use lumper.Mptable.Correct.{setup_mptable-Emits}
use lumper.Vcpu.{Kvm}
use lumper.Vcpu.PageTables.{CoversBoot}
use lumper.Vcpu.BootState.{HasBootMemory}
use lumper.Vmm.{KvmVm, Machine, MachineError}
use lumper.Vmm.Indices.{indices, count_up, Created, configure_vcpus-Created}
use lumper.Vmm.Vcpus.{configure_vcpu, write_mptable, add_vcpu, add_vcpus, configure_vcpus}
use lumper.Vmm.Configured.{Obliges, returned, IsOutsideBoot, Configured, configure_vcpu-Configured}

-- Every call on the machine succeeds.
pub record Provides (K : Kvm) (V : KvmVm K) : Type 0 where
  pub cpuid_got : (vm : V.Vm) → (c : List CpuidEntry) × ((V.get_supported_cpuid vm).1 ≡ ok c)
  pub created : (i : ℕ) (vm : V.Vm) → (s : K.State) × ((V.create_vcpu i vm).1 ≡ ok s)

module _ (Cause : Type 0) (G : GuestMemory) (L : IsLawful G) (K : Kvm) (O : Obliges K) (V : KvmVm K)
    (P : Provides K V) where
  -- The rounds succeed; memory has the boot structures if it had them before, and a round is enough.
  pub record Ready (outcome : Machine Cause G K V × Result (MachineError Cause G K V) (Unit {0}))
      (m : G.State) : Type 0 where
    pub final : Machine Cause G K V
    pub returns : outcome ≡ (final, ok tt)
    pub ranges : (j : ℕ) → G.address_in_range final.memory j ≡ G.address_in_range m j
    pub outside : (j : ℕ) → IsOutsideBoot j → G.byte_at final.memory j ≡ G.byte_at m j

  add_vcpu-Ready :
      (c : List CpuidEntry) (num_vcpus kernel_load index : ℕ) (m : Machine Cause G K V)
      → CoversBoot G m.memory
      → (r : Ready (add_vcpu Cause G K V c num_vcpus kernel_load index m) m.memory) × HasBootMemory
          G r.final.memory
  unfolding add_vcpu
  add_vcpu-Ready c num_vcpus kernel_load index m covers = (
    record {
      final = record {
        memory = done.final.memory;
        vm = vm;
        vcpus = m.vcpus ++ (record { index = index; state = done.final.vcpu } ∷ []);
      };
      returns = rw (returned (V.create_vcpu index m.vm) made.0 made.1, done.returns) refl;
      ranges = done.ranges;
      outside = done.outside;
    },
    done.ready,
  )
    where
      made : (s : K.State) × ((V.create_vcpu index m.vm).1 ≡ ok s)
      made = P.created index m.vm

      vm : V.Vm
      vm = (V.create_vcpu index m.vm).0

      done :
          Configured G L K O
            (configure_vcpu G K
              (V.tsc_deadline_timer vm)
              c
              num_vcpus
              kernel_load
              index
              (record { memory = m.memory; vcpu = made.0 }))
            m.memory
      done =
          configure_vcpu-Configured G L K O (V.tsc_deadline_timer vm) c num_vcpus kernel_load index
            (record { memory = m.memory; vcpu = made.0 }) covers

  -- The first round and the others, which need no boot structures before it.
  add_vcpus-suc :
      (c : List CpuidEntry) (num_vcpus kernel_load left index : ℕ) (m : Machine Cause G K V)
      → CoversBoot G m.memory
      → ((m' : Machine Cause G K V)
          → CoversBoot G m'.memory
          → HasBootMemory G m'.memory
          → (r : Ready
              (add_vcpus Cause G K V c num_vcpus kernel_load left (index + 1) m')
              m'.memory)
            × HasBootMemory G r.final.memory)
      → (r : Ready (add_vcpus Cause G K V c num_vcpus kernel_load (suc left) index m) m.memory)
        × HasBootMemory G r.final.memory
  unfolding add_vcpus
  add_vcpus-suc c num_vcpus kernel_load left index m covers later = (
    record {
      final = rest.0.final;
      returns = rw (first.0.returns) rest.0.returns;
      ranges = λ j. rest.0.ranges j ∙ first.0.ranges j;
      outside = λ j h. rest.0.outside j h ∙ first.0.outside j h;
    },
    rest.1,
  )
    where
      first :
          (r : Ready (add_vcpu Cause G K V c num_vcpus kernel_load index m) m.memory)
          × HasBootMemory G r.final.memory
      first = add_vcpu-Ready c num_vcpus kernel_load index m covers

      rest :
          (r : Ready
            (add_vcpus Cause G K V c num_vcpus kernel_load left (index + 1) first.0.final)
            first.0.final.memory)
          × HasBootMemory G r.final.memory
      rest = later first.0.final (λ i h. first.0.ranges (0 + i) ∙ covers i h) first.1

  add_vcpus-Ready :
      (c : List CpuidEntry) (num_vcpus kernel_load left index : ℕ) (m : Machine Cause G K V)
      → CoversBoot G m.memory
      → HasBootMemory G m.memory
      → (r : Ready (add_vcpus Cause G K V c num_vcpus kernel_load left index m) m.memory)
        × HasBootMemory G r.final.memory
  unfolding add_vcpus
  add_vcpus-Ready c num_vcpus kernel_load zero index m covers had =
      (record { final = m; returns = refl; ranges = λ j. refl; outside = λ j h. refl }, had)
  add_vcpus-Ready c num_vcpus kernel_load (suc left) index m covers had =
      add_vcpus-suc c num_vcpus kernel_load left index m covers
        (λ m' c' h'. add_vcpus-Ready c num_vcpus kernel_load left (index + 1) m' c' h')

  -- What `configure_vcpus` leaves: vCPUs with the indexes from 0 on, the MP table for them and the
  -- boot structures; besides these two places, guest memory is as it was.
  pub record BootsAll (outcome : Machine Cause G K V × Result (MachineError Cause G K V) (Unit {0}))
      (m : G.State) (num_vcpus : ℕ) : Type 0 where
    pub final : Machine Cause G K V
    pub returns : outcome ≡ (final, ok tt)
    pub vcpus : indices final.vcpus ≡ count_up num_vcpus 0
    pub table : Holds G final.memory mptable_start (mptable_image num_vcpus)
    pub ready : HasBootMemory G final.memory
    pub outside :
        (j : ℕ)
        → IsOutsideBoot j × ((j < mptable_start) ⊎ (mptable_start + compute_mp_size num_vcpus ≤ j))
        → G.byte_at final.memory j ≡ G.byte_at m j

  Created-all :
      (out : Machine Cause G K V × Result (MachineError Cause G K V) (Unit {0})) (n : ℕ)
      (final : Machine Cause G K V)
      → Created Cause G K V out n
      → out ≡ (final, ok tt)
      → indices final.vcpus ≡ count_up n 0
  Created-all out n final (k, same, inl (all, h)) e =
      ap (λ o. indices (o.0).vcpus) (sym e) ∙ same ∙ ap (λ j. count_up j 0) all
  Created-all out n final (k, same, inr (few, x, h)) e = cc (ap (λ o. o.1) e)

  -- On a KVM that serves every call, and guest memory that covers the boot structures and the MP
  -- table, `configure_vcpus` for 1 to 254 vCPUs on a machine with none succeeds. By then the vCPUs
  -- 0, 1, 2 and so on are all there, memory holds the MP table for their number, and the GDT, the
  -- IDT and page tables that map the first gigabyte to itself; nothing else in memory has changed.
  pub configure_vcpus-Boots :
      (num_vcpus kernel_load : ℕ) (m : Machine Cause G K V)
      → 0 < num_vcpus
      → num_vcpus ≤ max_supported_cpus
      → m.vcpus ≡ []
      → CoversBoot G m.memory
      → Covers G m.memory mptable_start (compute_mp_size num_vcpus)
      → BootsAll (configure_vcpus Cause G K V num_vcpus kernel_load m) m.memory num_vcpus
  unfolding configure_vcpus write_mptable
  configure_vcpus-Boots zero kernel_load m pos few none_yet covers covers_table =
      absurd (omega arith)
  configure_vcpus-Boots (suc left) kernel_load m pos few none_yet covers covers_table = record {
    final = rounds.0.final;
    returns = returns;
    vcpus =
        Created-all _ (suc left) rounds.0.final
          (configure_vcpus-Created Cause G K V (suc left) kernel_load m none_yet) returns;
    table = λ i h. rounds.0.outside (mptable_start + i) (omega arith) ∙ table.wrote.inside i h;
    ready = rounds.1;
    outside = λ j h.
        rounds.0.outside j h.0
        ∙ table.wrote.outside j (omega (arith, h.1, length-mptable_image (suc left)));
  }
    where
      table :
          Emits G
            (setup_mptable G (suc left) m.memory)
            m.memory
            mptable_start
            (mptable_image (suc left))
            tt
      table = setup_mptable-Emits G L (suc left) m.memory few covers_table

      cpuid : (c : List CpuidEntry) × ((V.get_supported_cpuid m.vm).1 ≡ ok c)
      cpuid = P.cpuid_got m.vm

      start : Machine Cause G K V
      start = record m { memory = table.final; vm = (V.get_supported_cpuid m.vm).0 }

      rounds :
          (r : Ready
            (add_vcpus Cause G K V cpuid.0 (suc left) kernel_load (suc left) 0 start)
            table.final)
          × HasBootMemory G r.final.memory
      rounds =
          add_vcpus-suc cpuid.0 (suc left) kernel_load left 0 start
            (λ i h. table.wrote.ranges (0 + i) ∙ covers i h)
            (λ m' c' h'. add_vcpus-Ready cpuid.0 (suc left) kernel_load left 1 m' c' h')

      returns : configure_vcpus Cause G K V (suc left) kernel_load m ≡ (rounds.0.final, ok tt)
      returns =
          rw (table.returns, returned (V.get_supported_cpuid m.vm) cpuid.0 cpuid.1) rounds.0.returns
