-- ===== src/Lib.antt =====
-- lumper, a virtual machine monitor that boots a Linux kernel on KVM.
--
-- The program gives a guest its memory, writes the structures of the boot protocol into it, puts
-- each vCPU into 64-bit mode with paging on, and then runs the vCPUs and the devices. This library
-- models the whole configuration, what stands in guest memory and in the vCPUs when the guest starts,
-- the network device and the loop that serves it. Paths are from the root of the repository.
--
-- Parts and files
--   Memory      the crate vm-memory, which the program only calls: a record of operations, and
--               `IsLawful`, what its documentation promises. `Memory/Flat` is one region that keeps
--               the promises; `Memory/Laws` and `Memory/Read` are lemmas on writes and reads.
--   Mpspec      src/vmm/src/cpu/mpspec.rs: the structures of the MP table. `Mpspec/Repr` is the
--               layout of repr(C), `Mpspec/Structs` the structures, `Mpspec/Layout` the layout
--               tests.
--   Mptable     src/vmm/src/cpu/mptable.rs: entries and checksums; `Mptable/Setup` is
--               `setup_mptable`, block by block; `Mptable/Image` is the table as one list of bytes;
--               `Mptable/Blocks` and `Mptable/Correct` relate the two; `Mptable/Walk` is the reader
--               of the test `cpu_entry_count`, and `Mptable/Reader` what it finds.
--   Gdt         src/vmm/src/cpu/gdt.rs: descriptors, segments and the tables in memory.
--   Interrupts  src/vmm/src/cpu/interrupts.rs: byte buffers and registers of the local APIC.
--   Cpuid       src/vmm/src/cpu/cpuid.rs: `filter_cpuid`.
--   Msrs        src/vmm/src/cpu/msrs.rs and the constants of src/vmm/src/cpu/msr_index.rs that it
--               takes.
--   Vcpu        src/vmm/src/cpu/mod.rs: `configure_cpuid` to `configure_lapic`, each by its name.
--               `Vcpu/PageTables` is the outcome in memory, `Vcpu/Translate` the walk of the
--               processor, `Vcpu/Observed` and `Vcpu/Booted` the vCPU as KVM gives it back.
--               `Vcpu/Run` is `run`, the dispatch of the exits, with the ports of
--               src/vmm/src/devices/serial.rs and the loop of the thread of src/vmm/src/lib.rs.
--   Kernel      src/vmm/src/kernel.rs: `add_e820_entry` and `build_bootparams`; `Kernel/Setup` is
--               `kernel_setup`, `Kernel/Loaded` and `Kernel/Served` are on its outcome.
--   Main        src/main.rs: the options and `main`; `Main/Runs` is on the whole program.
--   Errors      `Error` of src/vmm/src/lib.rs.
--   Vmm         src/vmm/src/lib.rs: the machine; `Vmm/Vcpus` is `configure_vcpus`, `Vmm/Host` the
--               fields of `VMM` and what the host gives, `Vmm/Configure` the other configure
--               operations and `configure`, `Vmm/New` is `VMM::new`, `Vmm/Events` the event loop of
--               `run`. `Vmm/Indices`, `Vmm/Configured`, `Vmm/Ready`, `Vmm/Serving`, `Vmm/Stages`,
--               `Vmm/Booted` and `Vmm/Boot` are on the outcome of the configuration, `Vmm/MemoryMap`
--               on where the boot structures stand, `Vmm/Wired` and `Vmm/Watched` on `configure_net`
--               with the device of `Net`, `Vmm/Forwards` on the loop. `Vmm/Threads` is the main
--               thread of `run` by its steps, `Vmm/Threads/Interleaved` the steps of all the
--               threads; `Vmm/Threads/Reached` is on every order of them. `Vmm/Tally` counts what
--               the serial device has taken of what was typed.
--   Net         src/vmm/src/devices/net/mod.rs, src/vmm/src/devices/net/tap.rs and
--               src/vmm/src/devices/net/bindings.rs: feature words, interface names, the
--               configuration space, in `Net/Frame` `write_frame_to_guest`, in `Net/Device`
--               `process_tap` and the record of src/vmm/src/devices/net/interface.rs, in
--               `Net/Notify` `queue_notify`, in `Net/Mmio` `new`, `activate` and the accesses, in
--               `Net/Open` the calls of the tap interface. The files beside them are on their
--               outcomes; `Net/Chains` is what a queue promises of its chains, `Net/Rounds` and
--               `Net/Delivered` the frames that they get.
--   Epoll       src/vmm/src/epoll_context.rs: the descriptor of epoll and what it watches.
--   Serial      src/vmm/src/devices/serial.rs: the serial console with its event.
--   Base        shared names and lemmas: bits, words, bytes, slices of lists, and effects that fail.
--   Tests       runs on concrete inputs.
--
-- How they interact: `Vcpu` writes the tables of `Gdt` and its page tables through `Memory`, and gives
-- KVM the segments, the MSRs of `Msrs`, the CPUID of `Cpuid` and the registers of `Interrupts`;
-- `Mptable` writes the structures of `Mpspec` through `Memory`; `Net` writes the frames that it
-- receives through `Memory` into the buffers of the guest, and sends what it reads there. `Vmm` calls
-- all of them: `configure` makes the memory, runs `kernel_setup` of `Kernel`, and `configure_vcpus`, which
-- calls `Mptable` once and `Cpuid` and `Vcpu` for each vCPU; its loop calls `process_tap` of `Net`.
-- `Main` calls `new`, `configure` and `run` of `Vmm` in this order.
--
-- State and errors: an operation that can fail takes the state and returns it with a result, also when
-- it fails; guest memory and the vCPU behind its file descriptor are changed by shared reference, so a
-- failed operation keeps the changes before it. Machine integers are numbers with their wrap-around
-- written out; a shift to the left is cut to its word.
--
-- Bounds and fuel: `setup_mptable` takes at most 254 CPUs, as the code does. Its loops and those of the
-- page tables and the GDT are structural. The reader of the table walks with fuel, one for every entry
-- and one for the end: the table for n CPUs has n + 20 entries, so n + 21 is enough. `process_tap` needs
-- fuel above the number of frames that wait in the interface, `queue_notify` fuel for its rounds and, for
-- each round, fuel above the number of packets that wait. The event loop of `run` has no end; the model
-- runs it for a given number of rounds.
--
-- Parameters: the operations of vm-memory, the ioctls of KVM, `check_extension`,
-- `Msrs::from_entries`, the default of `boot_params`, files, linux-loader and its command line
-- (`Loader`), the calls of the host (`Host`, `Terminal`, `TunHost`), the numbers of the virtio
-- features, the queues of virtio-queue, the registers of virtio-device, the serial device of
-- vm-superio and the manager of vm-device are arguments. A chain is the list of the descriptors that
-- its iterator gives, so buffers that overlap the descriptors themselves are outside of the model.
-- In `Vmm/Threads` any thread may have the next turn and a vCPU may come back with any exit; a step
-- is what a thread does under one lock, and a panic leaves the locks of its thread poisoned. An
-- `unwrap` of the configuration that fails is an error `panic`, which `main` turns into a panic.
-- Elsewhere a vCPU is seen by itself.
--
-- Not modelled: the crates that the program calls (vm-memory, kvm-ioctls, linux-loader,
-- virtio-queue, virtio-device, vm-superio, clap), what the kernel does in an ioctl, the parsing of
-- the command line, the constants of src/vmm/src/cpu/msr_index.rs that nothing uses, and what the
-- guest writes to its memory while the monitor works on it. The configuration takes the console and
-- the network device as opaque values; `Serial` and `Net` model how they are made, and `Vmm/Wired`
-- puts the device into its place, with a panic as an error.
pub mod Epoll
pub mod Serial
pub mod Main
pub mod Errors
pub mod Vmm
pub mod Base
pub mod Memory
pub mod Mpspec
pub mod Mptable
pub mod Gdt
pub mod Interrupts
pub mod Cpuid
pub mod Msrs
pub mod Vcpu
pub mod Kernel
pub mod Net
mod Tests
