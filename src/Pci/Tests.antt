-- ===== src/Pci/Tests.antt =====
-- Two PCI devices, and a directory where one entry names the second of them.
use libdrm.Base.{
  Option, none, ◌⊎◌, ◌+◌, length, ℕ, ◌≤◌, ◌≡◌, ◌==◌, refl, true, some, List, [], ◌∷◌, ◌++◌,
  if◌then◌else◌, arith, enoent,
}
use libdrm.Bo.State.{Answer, done, refused}
use libdrm.AsicId.Text.{strtol, skip, skip_0x, number, digits, hex_digit}
use libdrm.Pci.Lookup.{PciInfo, Poke, part, parse_dev_pci_adr, lookup_pci_device}
use libdrm.Pci.Devices.{
  Sizes, Listed, dev_path, drm_device_alloc, after_lookup, drm_get_device_int, drm_get_devices2,
}
use libdrm.Pci.Find.{PassesAll, Stops}
use libdrm.Pci.Free.{BusDevice, drm_free_devices, drm_free_devices-once}
use libdrm.Pci.Poke.{get_nth_pci_info, lookup_pci_device-ends}
use libdrm.Pci.Nodes.{
  Stat, Entry, NodePath, First, find_entry, node_path, drm_get_render_device_name_from_fd,
  drm_get_render_device_name_from_fd_overflow,
}
use libdrm.Pci.Collect.{drm_get_devices2-take}

abbrev bridge : PciInfo
bridge = record { bus = 0; device = 0; function = 0; vendor_id = 0x8086; device_id = 0xa0 }

abbrev card : PciInfo
card = record { bus = 1; device = 2; function = 0; vendor_id = 0x1002; device_id = 0x683f }

abbrev two_devices : Poke
two_devices i = if i == 0 then done bridge else if i == 1 then done card else refused enoent

abbrev sizes : Sizes
sizes = record { drm_device = 32; pci_bus_info = 6; pci_device_info = 10; pointer = 8 }

-- "null" and "a_010200".
abbrev listing : List Listed
listing =
    (110 ∷ 117 ∷ 108 ∷ 108 ∷ [], 0x1000) ∷ (97 ∷ 95 ∷ 48 ∷ 49 ∷ 48 ∷ 50 ∷ 48 ∷ 48 ∷ [], 0x2000) ∷ []

drm_get_devices2-take_example :
    (drm_get_devices2 sizes two_devices 10 true 4 listing
      ≡ some (
        1,
        drm_device_alloc sizes 0x2000
              (dev_path ++ (97 ∷ 95 ∷ 48 ∷ 49 ∷ 48 ∷ 50 ∷ 48 ∷ 48 ∷ []))
              card
            ∷ [],
      ))
    × (1 ≤ 4)
unfolding drm_get_device_int parse_dev_pci_adr part strtol skip skip_0x number digits hex_digit
    lookup_pci_device after_lookup
drm_get_devices2-take_example =
    drm_get_devices2-take sizes two_devices 10 4 2 enoent listing refl (omega arith) (omega arith)

-- The descriptor is the second node.
abbrev nodes : List Entry
nodes =
    record {
      name = 110 ∷ 117 ∷ 108 ∷ 108 ∷ [];
      at = 0x1000;
      stat = done (record { st_dev = 1; st_ino = 7 });
    }
    ∷ record { name = 97 ∷ 98 ∷ []; at = 0x2000; stat = done (record { st_dev = 1; st_ino = 8 }) }
    ∷ []

abbrev node : Stat
node = record { st_dev = 1; st_ino = 8 }

abbrev node_name : NodePath
node_name = record { size = 15; text = dev_path ++ 97 ∷ 98 ∷ [] }

drm_get_render_device_name_from_fd_overflow_example :
    (e : Entry) × First node nodes e
    × (node_name.text ≡ dev_path ++ e.name)
    × ((e.name ≡ []) ⊎ (node_name.size + 2 ≡ length node_name.text + 1))
unfolding drm_get_render_device_name_from_fd find_entry node_path
drm_get_render_device_name_from_fd_overflow_example =
    drm_get_render_device_name_from_fd_overflow true node nodes node_name refl

lookup_pci_device-ends_example :
    (k : ℕ) × (r : Answer PciInfo) × (lookup_pci_device (get_nth_pci_info two_devices) 1 2 0 257 0
      ≡ some r)
    × (k ≤ 256)
    × PassesAll (get_nth_pci_info two_devices) 1 2 0 0 k
    × Stops (get_nth_pci_info two_devices) 1 2 0 k r
lookup_pci_device-ends_example = lookup_pci_device-ends two_devices 1 2 0

-- Two devices are freed.
abbrev two_freed : ℕ → Option BusDevice
two_freed p =
    if p == 0x1000
    then some (record { bustype = 0; compatible = none })
    else if p == 0x2000
    then some (record { bustype = 0; compatible = some none })
    else none

drm_free_devices-once_example :
    drm_free_devices two_freed (0x1000 ∷ 0x2000 ∷ []) ≡ some (0x1000 ∷ 0x2000 ∷ [], 0 ∷ 0 ∷ [])
drm_free_devices-once_example = drm_free_devices-once two_freed (0x1000 ∷ 0x2000 ∷ []) (
  omega arith,
  (record { bustype = 0; compatible = none }, refl, refl),
  refl,
  (omega arith, (record { bustype = 0; compatible = some none }, refl, refl), refl, tt),
)
