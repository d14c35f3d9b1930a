-- ===== src/Vmm/Indices.antt =====
-- The vCPUs that `configure_vcpus` leaves, whatever KVM answers.
use lumper.Base.{
  ℕ, zero, suc, ◌+◌, ◌≤◌, ◌≡◌, refl, ◌∙◌, sym, ap, subst, ◌⊎◌, inl, inr, List, [], ◌∷◌, ◌++◌, arith,
  Result, ok, err, Eff, proceed,
}
use mathlib.Core.List.{append-nil, append_assoc}
use lumper.Memory.{GuestMemory}
use lumper.Cpuid.{CpuidEntry}
use lumper.Mptable
use lumper.Mptable.Setup.{setup_mptable}
use lumper.Vcpu.{Kvm, World, VcpuError}
use lumper.Vmm.{KvmVm, VcpuHandle, Machine, MachineError, with_vm}
use lumper.Vmm.Vcpus.{
  with_table, pushed, created, write_mptable, add_vcpu, add_vcpus, configure_vcpus,
}

-- The indexes of the vCPUs, in the order of the list.
abbrev pub indices : {K : Kvm} → List (VcpuHandle K) → List ℕ
indices [] = []
indices (h ∷ hs) = h.index ∷ indices hs

-- So many numbers, from the given one on.
abbrev pub count_up : ℕ → ℕ → List ℕ
count_up zero index = []
count_up (suc left) index = index ∷ count_up left (index + 1)

indices-append :
    {K : Kvm} (xs ys : List (VcpuHandle K)) → indices (xs ++ ys) ≡ indices xs ++ indices ys
indices-append [] ys = refl
indices-append (x ∷ xs) ys = ap (λ l. x.index ∷ l) (indices-append xs ys)

module _ (Cause : Type 0) (G : GuestMemory) (K : Kvm) (V : KvmVm K) where
  abbrev Outcome : Type 0
  Outcome = Machine Cause G K V × Result (MachineError Cause G K V) (Unit {0})

  -- Either `k` more vCPUs came through, the `left` that were asked for, or an error ended the rounds.
  abbrev pub Counted : Outcome → List ℕ → ℕ → ℕ → Type 0
  Counted out before left index =
      (k : ℕ) × (indices (out.0).vcpus ≡ before ++ count_up k index)
      × (((k ≡ left) × (out.1 ≡ ok tt))
          ⊎ ((k + 1 ≤ left) × (e : MachineError Cause G K V) × (out.1 ≡ err e)))

  pushed-Counted :
      (m : Machine Cause G K V) (index : ℕ) (p : World G K × Result (VcpuError G K) (Unit {0}))
      → Counted (pushed Cause G K V m index p) (indices m.vcpus) 1 index
  pushed-Counted m index (w, ok done) = (1, indices-append m.vcpus _, inl (refl, refl))
  pushed-Counted m index (w, err e) = (0, sym (append-nil _), inr (omega arith, _, refl))

  created-Counted :
      (c : List CpuidEntry) (num_vcpus kernel_load index : ℕ) (m : Machine Cause G K V)
      (p : V.Vm × Result K.KvmError K.State)
      → Counted (created Cause G K V c num_vcpus kernel_load index m p) (indices m.vcpus) 1 index
  created-Counted c num_vcpus kernel_load index m (vm, ok state) =
      pushed-Counted (record m { vm = vm }) index _
  created-Counted c num_vcpus kernel_load index m (vm, err e) =
      (0, sym (append-nil _), inr (omega arith, _, refl))

  one_more :
      (k left : ℕ) (out : Outcome)
      → ((k ≡ left) × (out.1 ≡ ok tt))
        ⊎ ((k + 1 ≤ left) × (e : MachineError Cause G K V) × (out.1 ≡ err e))
      → ((suc k ≡ suc left) × (out.1 ≡ ok tt))
        ⊎ ((suc k + 1 ≤ suc left) × (e : MachineError Cause G K V) × (out.1 ≡ err e))
  one_more k left out (inl (same, h)) = inl (ap suc same, h)
  one_more k left out (inr (less, e, h)) = inr (omega arith, e, h)

  later_rounds :
      (out : Outcome) (f : Eff (Machine Cause G K V) (MachineError Cause G K V) (Unit {0}))
      (before : List ℕ) (left index : ℕ)
      → Counted out before 1 index
      → ((m : Machine Cause G K V) → Counted (f m) (indices m.vcpus) left (index + 1))
      → Counted (proceed out (λ done. f)) before (suc left) index
  later_rounds (m, ok done) f before left index (k, same, inl (one, h)) rest =
      let r = rest m in
      (
        suc r.0,
        r.1
            ∙ ap (λ l. l ++ count_up r.0 (index + 1))
                (same ∙ ap (λ j. before ++ count_up j index) one)
            ∙ append_assoc before _ _,
        one_more r.0 left (f m) r.2,
      )
  later_rounds (m, ok done) f before left index (k, same, inr (none_done, e, h)) rest = cc
  later_rounds (m, err x) f before left index (k, same, inl (one, h)) rest = cc
  later_rounds (m, err x) f before left index (k, same, inr (none_done, e, h)) rest =
      (k, same, inr (omega arith, e, h))

  add_vcpus-Counted :
      (c : List CpuidEntry) (num_vcpus kernel_load left index : ℕ) (m : Machine Cause G K V)
      → Counted
          (add_vcpus Cause G K V c num_vcpus kernel_load left index m)
          (indices m.vcpus)
          left
          index
  unfolding add_vcpus add_vcpu
  add_vcpus-Counted c num_vcpus kernel_load zero index m = (0, sym (append-nil _), inl (refl, refl))
  add_vcpus-Counted c num_vcpus kernel_load (suc left) index m =
      later_rounds (add_vcpu Cause G K V c num_vcpus kernel_load index m)
        (add_vcpus Cause G K V c num_vcpus kernel_load left (index + 1)) (indices m.vcpus) left
        index (created-Counted c num_vcpus kernel_load index m (V.create_vcpu index m.vm))
        (λ m'. add_vcpus-Counted c num_vcpus kernel_load left (index + 1) m')

  -- All of the `num_vcpus` that were asked for, or an error.
  abbrev pub Created : Outcome → ℕ → Type 0
  Created out num_vcpus =
      (k : ℕ) × (indices (out.0).vcpus ≡ count_up k 0)
      × (((k ≡ num_vcpus) × (out.1 ≡ ok tt))
          ⊎ ((k ≤ num_vcpus) × (e : MachineError Cause G K V) × (out.1 ≡ err e)))

  Counted-Created :
      (out : Outcome) (num_vcpus : ℕ) → Counted out [] num_vcpus 0 → Created out num_vcpus
  Counted-Created out num_vcpus (k, same, inl h) = (k, same, inl h)
  Counted-Created out num_vcpus (k, same, inr (less, e, h)) = (k, same, inr (omega arith, e, h))

  after_cpuid :
      (num_vcpus kernel_load : ℕ) (m : Machine Cause G K V)
      (p : V.Vm × Result K.KvmError (List CpuidEntry))
      → m.vcpus ≡ []
      → Created
          (proceed
            (with_vm Cause G K V m p)
            (λ c. add_vcpus Cause G K V c num_vcpus kernel_load num_vcpus 0))
          num_vcpus
  after_cpuid num_vcpus kernel_load m (vm, ok c) none_yet =
      Counted-Created
        (add_vcpus Cause G K V c num_vcpus kernel_load num_vcpus 0 (record m { vm = vm })) num_vcpus
        (subst
          (λ l.
            Counted
              (add_vcpus Cause G K V c num_vcpus kernel_load num_vcpus 0 (record m { vm = vm })) l
              num_vcpus 0)
          (ap indices none_yet)
          (add_vcpus-Counted c num_vcpus kernel_load num_vcpus 0 (record m { vm = vm })))
  after_cpuid num_vcpus kernel_load m (vm, err e) none_yet =
      (0, ap indices none_yet, inr (omega arith, _, refl))

  after_table :
      (num_vcpus kernel_load : ℕ) (m : Machine Cause G K V)
      (p : G.State × Result Mptable.Error (Unit {0}))
      → m.vcpus ≡ []
      → Created
          (proceed (with_table Cause G K V m p) (λ done m'.
            proceed
              (with_vm Cause G K V m' (V.get_supported_cpuid m'.vm))
              (λ c. add_vcpus Cause G K V c num_vcpus kernel_load num_vcpus 0)))
          num_vcpus
  after_table num_vcpus kernel_load m (memory, ok done) none_yet =
      after_cpuid num_vcpus kernel_load (record m { memory = memory }) (V.get_supported_cpuid m.vm)
        none_yet
  after_table num_vcpus kernel_load m (memory, err e) none_yet =
      (0, ap indices none_yet, inr (omega arith, _, refl))

  -- Whatever KVM answers, on a machine with no vCPUs `configure_vcpus` leaves vCPUs with the indexes
  -- 0, 1, 2 and so on, in this order: exactly as many as were asked for if it succeeds, and at most
  -- so many if it fails.
  pub configure_vcpus-Created :
      (num_vcpus kernel_load : ℕ) (m : Machine Cause G K V)
      → m.vcpus ≡ []
      → Created (configure_vcpus Cause G K V num_vcpus kernel_load m) num_vcpus
  unfolding configure_vcpus write_mptable
  configure_vcpus-Created num_vcpus kernel_load m none_yet =
      after_table num_vcpus kernel_load m (setup_mptable G num_vcpus m.memory) none_yet
