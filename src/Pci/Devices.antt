-- ===== src/Pci/Devices.antt =====
-- `drmDeviceAlloc`, `drmGetDeviceInt` and `drmGetDevices2`.
use libdrm.Base.{
  ℕ, zero, suc, ◌+◌, ◌*◌, ◌^◌, ◌==◌, Bool, true, false, Option, none, some, List, [], ◌∷◌, ◌++◌,
  if◌then◌else◌, ltb, length, align64, take, Ret, ok, err, enoent, enomem,
}
use libdrm.Bo.State.{Answer, done, refused}
use libdrm.Pci.Lookup.{PciInfo, Poke, parse_dev_pci_adr, lookup_pci_device}

-- `drmDevice` with the addresses in its allocation, and the two structures that it points to, as far as
-- they are set. `path` is what nodes[DRM_NODE_RENDER] holds.
pub record DrmDevice : Type 0 where
  pub at : ℕ
  pub available_nodes : ℕ
  pub nodes : List ℕ
  pub path : List ℕ
  pub businfo : ℕ
  pub deviceinfo : ℕ
  pub domain : ℕ
  pub bus : ℕ
  pub dev : ℕ
  pub func : ℕ
  pub vendor_id : ℕ
  pub device_id : ℕ

-- The sizes that the compiler gives to drmDevice, drmPciBusInfo and drmPciDeviceInfo, and to a pointer.
pub record Sizes : Type 0 where
  pub drm_device : ℕ
  pub pci_bus_info : ℕ
  pub pci_device_info : ℕ
  pub pointer : ℕ

-- DRM_NODE_MAX and DRM_NODE_RENDER.
abbrev pub node_max : ℕ
node_max = 3

abbrev pub node_render : ℕ
node_render = 2

unfoldable pub max_node_length : Sizes → ℕ
max_node_length z = align64 256 z.pointer

-- What is asked of calloc.
unfoldable pub allocated : Sizes → ℕ
unfolding max_node_length
allocated z =
    z.drm_device + node_max * (z.pointer + max_node_length z) + z.pci_bus_info + z.pci_device_info

abbrev pub node_addresses : (n ptr step : ℕ) → List ℕ
node_addresses zero ptr step = []
node_addresses (suc n) ptr step = ptr ∷ node_addresses n (ptr + step) step

-- With what drmGetDeviceInt writes to the two structures then. `at` is what calloc gives.
unfoldable pub drm_device_alloc : Sizes → (at : ℕ) → (path : List ℕ) → PciInfo → DrmDevice
unfolding max_node_length
drm_device_alloc z at path info =
    let ptr = at + z.drm_device + node_max * z.pointer in
    let step = max_node_length z in
    record {
      at = at;
      available_nodes = 2 ^ node_render;
      nodes = node_addresses node_max ptr step;
      path = take step path;
      businfo = ptr + node_max * step;
      deviceinfo = ptr + node_max * step + z.pci_bus_info;
      domain = 0;
      bus = info.bus;
      dev = info.device;
      func = info.function;
      vendor_id = info.vendor_id;
      device_id = info.device_id;
    }

-- "/dev/graphics/".
abbrev pub dev_path : List ℕ
dev_path = 47 ∷ 100 ∷ 101 ∷ 118 ∷ 47 ∷ 103 ∷ 114 ∷ 97 ∷ 112 ∷ 104 ∷ 105 ∷ 99 ∷ 115 ∷ 47 ∷ []

-- An entry of the directory: its name, and what calloc gives if it is asked for this entry.
abbrev pub Listed : Type 0
Listed = List ℕ × ℕ

-- What follows the lookup, from its answer.
unfoldable pub after_lookup :
    Sizes → Listed → Option (Answer PciInfo) → Option (Ret × Option DrmDevice)
unfolding drm_device_alloc
after_lookup z entry none = none
after_lookup z entry (some (refused e)) = some (err e, none)
after_lookup z (name, at) (some (done info)) = some (
    if at == 0
    then (err enomem, none)
    else (ok, some (drm_device_alloc z at (dev_path ++ name) info)))

-- The next slot of the array gets a device or is used for the next entry.
unfoldable pub put_device :
    Option (Ret × Option DrmDevice)
    → (skipped later : Option (List DrmDevice)) → Option (List DrmDevice)
put_device none skipped later = none
put_device (some (r, none)) skipped later = skipped
put_device (some (r, some d)) skipped none = none
put_device (some (r, some d)) skipped (some ds) = some (d ∷ ds)

module _ (z : Sizes) (poke : Poke) (fuel : ℕ) where
  -- The result, and what `*device` holds then. The function looked for is 0.
  unfoldable pub drm_get_device_int : Listed → Option (Ret × Option DrmDevice)
  unfolding parse_dev_pci_adr lookup_pci_device after_lookup
  drm_get_device_int (name, at) = elim (parse_dev_pci_adr name) [
    | none ↦ some (err enoent, none)
    | some (bus, device) ↦ after_lookup z (name, at) (lookup_pci_device poke bus device 0 fuel 0)
  ]

  -- The devices that are written from `devices[device_cnt]` on.
  unfoldable pub get_devices : (device_cnt max_devices : ℕ) → List Listed → Option (List DrmDevice)
  unfolding drm_get_device_int put_device
  get_devices device_cnt max_devices [] = some []
  get_devices device_cnt max_devices (entry ∷ entries) =
      let skipped = get_devices device_cnt max_devices entries in
      let later = get_devices (suc device_cnt) max_devices entries in
      if ltb device_cnt max_devices
      then put_device (drm_get_device_int entry) skipped later
      else some []

  -- `devices` is whether the array is not NULL. The result is the count, and the array's contents.
  unfoldable pub drm_get_devices2 :
      (devices : Bool) (max_devices : ℕ) → List Listed → Option (ℕ × List DrmDevice)
  unfolding get_devices
  drm_get_devices2 false max_devices entries = some (0, [])
  drm_get_devices2 true max_devices entries = elim (get_devices 0 max_devices entries) [
    | none ↦ none
    | some ds ↦ some (length ds, ds)
  ]
