-- ===== src/Errors.antt =====
-- `Error` of src/vmm/src/lib.rs. The errors of KVM and of the vCPUs are parameters; those of all other
-- crates are kept by one type of causes.
use lumper.Kernel

-- `bootparams` stands for `E820Configuration` and `HimemStartPastMemEnd`. `panic` is no variant of the
-- source: it is an `unwrap` that fails, which nothing handles.
pub data VmmError (Cause KvmError VcpuError : Type 0) : Type 0 where
  boot_configure : Cause → VmmError Cause KvmError VcpuError
  cmdline : Cause → VmmError Cause KvmError VcpuError
  kernel_load : Cause → VmmError Cause KvmError VcpuError
  initramfs_load : VmmError Cause KvmError VcpuError
  bootparams : Kernel.Error → VmmError Cause KvmError VcpuError
  io : Cause → VmmError Cause KvmError VcpuError
  kvm_ioctl : KvmError → VmmError Cause KvmError VcpuError
  vcpu : VcpuError → VmmError Cause KvmError VcpuError
  memory : Cause → VmmError Cause KvmError VcpuError
  serial_creation : Cause → VmmError Cause KvmError VcpuError
  irq_register : Cause → VmmError Cause KvmError VcpuError
  epoll_error : Cause → VmmError Cause KvmError VcpuError
  stdin_read : KvmError → VmmError Cause KvmError VcpuError
  stdin_write : Cause → VmmError Cause KvmError VcpuError
  terminal_configure : KvmError → VmmError Cause KvmError VcpuError
  console_error : Cause → VmmError Cause KvmError VcpuError
  allocator : Cause → VmmError Cause KvmError VcpuError
  into_string_error : Cause → VmmError Cause KvmError VcpuError
  guest_memory : Cause → VmmError Cause KvmError VcpuError
  virtio_net : Cause → VmmError Cause KvmError VcpuError
  io_manager : Cause → VmmError Cause KvmError VcpuError
  panic : VmmError Cause KvmError VcpuError
