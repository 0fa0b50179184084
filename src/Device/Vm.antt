-- ===== src/Device/Vm.antt =====
-- amdgpu/amdgpu_vm.c: both calls are not supported by this port.
use libdrm.Base.{ℕ, Ret, err, enosys}

unfoldable pub vm_reserve_vmid : (flags : ℕ) → Ret
vm_reserve_vmid flags = err enosys

unfoldable pub vm_unreserve_vmid : (flags : ℕ) → Ret
vm_unreserve_vmid flags = err enosys
