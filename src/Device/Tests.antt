-- ===== src/Device/Tests.antt =====
-- Devices at concrete values: the ranges of a GPU with both parts, and an accelerant that is opened.
use libdrm.Base.{
  ℕ, ◌≡◌, refl, ◌⊎◌, true, false, none, some, some_inj, [], ◌∷◌, arith, ok, err, ebadf,
}
use libdrm.Bo.State.{done}
use libdrm.VaMgr.{init}
use libdrm.VaMgr.Holes.{is_free}
use libdrm.VaRange.{low, high, manager}
use libdrm.Gpu.Query.{DevInfo, no_device}
use libdrm.Device.Ranges.{Reported, first_managers, first_managers-apart}
use libdrm.Device.Open.{
  Node, acquire, release, Devices, Answers, Opened, find_acc, at_address, set_refcount,
  check_device, initialize, deinitialize,
}
use libdrm.Device.Undo.{Distinct, deinitialize-initialize, initialize_failed}

abbrev info : DevInfo
info = record no_device {
  virtual_address_offset = 0x20_0000;
  virtual_address_max = 0x8000_0000_0000;
  virtual_address_alignment = 4096;
  high_va_offset = 0xffff_8000_0000_0000;
  high_va_max = 0xffff_ffff_ffe0_0000;
}

info-Reported : Reported info
info-Reported = record {
  alignment = record { log = 12; log_lt = omega arith; is_pow = refl };
  low_start = omega arith;
  low_end = omega arith;
  apart = omega arith;
  high_end = omega arith;
  fits = omega arith;
}

first_managers-apart_example :
    is_free (manager (first_managers info) high).va_holes 0x1_0000_1000 ≡ false
unfolding first_managers init
first_managers-apart_example =
    first_managers-apart info low high 0x1_0000_1000 info-Reported (λ e. ground arith) refl

abbrev open_device : Node
open_device = record {
  address = 64;
  acc_base = 2;
  refcount = 1;
  major_version = 3;
  minor_version = 40;
}

abbrev devices : Devices
devices = record { dev_list = open_device ∷ []; references = acquire 2 ∷ [] }

devices-Distinct : Distinct devices.dev_list
unfolding Distinct at_address
devices-Distinct = (refl, tt)

abbrev answers : Answers
answers = record {
  fresh = 96;
  has_drm = true;
  has_amdgpu = true;
  major_version = 3;
  minor_version = 42;
  accel_working = done 1;
  gpu_info = ok;
}

abbrev second_open : Opened
second_open = record {
  ret = ok;
  device_handle = some 64;
  versions = some (3, 40);
  devices = record devices { dev_list = record open_device { refcount = 2 } ∷ [] };
}

deinitialize-initialize_example :
    (p : ℕ) × (some 64 ≡ some p)
    × (e : Devices) × (deinitialize second_open.devices p ≡ some e)
    × (e.dev_list ≡ devices.dev_list)
    × (e.references ≡ acquire 2 ∷ [])
unfolding find_acc set_refcount initialize
deinitialize-initialize_example =
    deinitialize-initialize answers devices 2 second_open devices-Distinct
      (λ n e. ground (arith, some_inj {a = open_device} {b = n} e)) refl refl

abbrev refused_open : Opened
refused_open = record {
  ret = err ebadf;
  device_handle = none;
  versions = none;
  devices = record devices { references = release 5 ∷ acquire 5 ∷ acquire 2 ∷ [] };
}

initialize_failed_example :
    (refused_open.device_handle ≡ none)
    × (refused_open.devices.dev_list ≡ devices.dev_list)
    × ((refused_open.devices.references ≡ devices.references)
        ⊎ (refused_open.devices.references ≡ release 5 ∷ acquire 5 ∷ devices.references))
unfolding find_acc initialize check_device
initialize_failed_example =
    initialize_failed (record answers { has_drm = false }) devices 5 refused_open ebadf refl refl
