-- ===== src/Pci/Poke.antt =====
-- Poke.cpp: the poke driver takes an index of one byte, so the search for a PCI device always ends.
use libdrm.Base.{ℕ, ◌≤◌, ◌≡◌, refl, some, if◌then◌else◌, ltb, arith, enoent}
use libdrm.Bo.State.{Answer, refused}
use libdrm.Pci.Lookup.{PciInfo, Poke, lookup_pci_device}
use libdrm.Pci.Find.{PassesAll, Stops, lookup_pci_device-Stops}

-- `driver` is the answer of the ioctl, whose index is a byte: an error, or `args.status` that is one.
unfoldable pub get_nth_pci_info : (driver : ℕ → Answer PciInfo) → Poke
get_nth_pci_info driver index = if ltb 255 index then refused enoent else driver index

module _ (driver : ℕ → Answer PciInfo) (bus device function : ℕ) where
  -- Whatever the poke driver answers, the search for a PCI device ends within 257 rounds, at the first
  -- index where the driver tells of the device or refuses, and its result is that answer; behind
  -- index 255 it is ENOENT.
  pub lookup_pci_device-ends :
      (k : ℕ) × (r : Answer PciInfo) × (lookup_pci_device
          (get_nth_pci_info driver)
          bus
          device
          function
          257
          0
        ≡ some r)
      × (k ≤ 256)
      × PassesAll (get_nth_pci_info driver) bus device function 0 k
      × Stops (get_nth_pci_info driver) bus device function k r
  unfolding get_nth_pci_info
  lookup_pci_device-ends =
      lookup_pci_device-Stops (get_nth_pci_info driver) bus device function 256 enoent 257 refl
        (omega arith) (omega arith)
