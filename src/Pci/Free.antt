-- ===== src/Pci/Free.antt =====
-- `drmFreeDevices` and `drmFreeDevice`. A heap holds devices by their addresses, and the result of a
-- call tells which addresses were handed to free, in order.
use libdrm.Base.{
  ℕ, zero, suc, ◌==◌, ◌≡◌, refl, Option, none, some, List, [], ◌∷◌, ◌++◌, if◌then◌else◌, arith, ◌≢◌,
  contains, replicate, length, false,
}

-- `bustype` and `deviceinfo`: the outer `none` is a NULL there, the inner one a NULL `compatible`, and
-- else its address and those of its texts, up to the NULL at its end. platform and host1x have the
-- same layout.
pub record BusDevice : Type 0 where
  pub bustype : ℕ
  pub compatible : Option (Option (ℕ × List ℕ))

-- DRM_BUS_PLATFORM and DRM_BUS_HOST1X.
abbrev pub bus_platform : ℕ
bus_platform = 2

abbrev pub bus_host1x : ℕ
bus_host1x = 3

-- drmFreePlatformDevice and drmFreeHost1xDevice.
unfoldable pub free_compatible : Option (Option (ℕ × List ℕ)) → List ℕ
free_compatible none = []
free_compatible (some none) = []
free_compatible (some (some (array, texts))) = texts ++ array ∷ []

-- `*device` is the address, 0 for NULL; free(NULL) does nothing. `none` is a dangling pointer. The
-- second part of the result is `*device` afterwards.
unfoldable pub drm_free_device : (ℕ → Option BusDevice) → ℕ → Option (List ℕ × ℕ)
unfolding free_compatible
drm_free_device heap zero = some ([], 0)
drm_free_device heap (suc p) = elim (heap (suc p)) [
  | none ↦ none
  | some d ↦ some (
    (if d.bustype == bus_platform
          then free_compatible d.compatible
          else if d.bustype == bus_host1x
          then free_compatible d.compatible
          else [])
        ++ suc p ∷ [],
    0,
  )
]

-- A freed device may not be read again.
abbrev pub dropped : (ℕ → Option BusDevice) → ℕ → ℕ → Option BusDevice
dropped heap p q = if q == p then none else heap q

-- The loop over the array, with the array afterwards.
unfoldable pub drm_free_devices : (ℕ → Option BusDevice) → List ℕ → Option (List ℕ × List ℕ)
unfolding drm_free_device
drm_free_devices heap [] = some ([], [])
drm_free_devices heap (p ∷ ps) = elim (drm_free_device heap p) [
  | none ↦ none
  | some (freed, p') ↦ elim (drm_free_devices (dropped heap p) ps) [
    | none ↦ none
    | some (later, ps') ↦ some (freed ++ later, p' ∷ ps')
  ]
]

-- PCI devices, each at one place of the array, as drmGetDevices2 leaves it: `bustype` is 0.
abbrev pub PciDevices : (ℕ → Option BusDevice) → List ℕ → Type 0
PciDevices heap [] = Unit {0}
PciDevices heap (p ∷ ps) =
    (p ≢ 0)
    × ((d : BusDevice) × (heap p ≡ some d) × (d.bustype ≡ 0))
    × (contains ps p ≡ false)
    × PciDevices heap ps

dropped-PciDevices :
    (heap : ℕ → Option BusDevice) (p : ℕ) (ps : List ℕ)
    → PciDevices heap ps
    → contains ps p ≡ false
    → PciDevices (dropped heap p) ps
dropped-PciDevices heap p [] h n = tt
dropped-PciDevices heap p (q ∷ qs) (z, (d, e, b), once, h) n =
    (z, (d, ground arith, b), once, dropped-PciDevices heap p qs h (ground arith))

free_pci :
    (heap : ℕ → Option BusDevice) (p : ℕ) (d : BusDevice)
    → p ≢ 0
    → heap p ≡ some d
    → d.bustype ≡ 0
    → drm_free_device heap p ≡ some (p ∷ [], 0)
unfolding drm_free_device
free_pci heap zero d z e b = absurd (z refl)
free_pci heap (suc p) d z e b = rw (drm_free_device, e, b) refl

-- Freeing an array of PCI devices, each at one place of it, faults nowhere, frees each device and
-- nothing else, once and in order, and leaves NULL in every place.
pub drm_free_devices-once :
    (heap : ℕ → Option BusDevice) (ps : List ℕ)
    → PciDevices heap ps
    → drm_free_devices heap ps ≡ some (ps, replicate (length ps) 0)
unfolding drm_free_devices
drm_free_devices-once heap [] h = refl
drm_free_devices-once heap (p ∷ ps) (z, (d, e, b), once, h) =
    rw
      (
        drm_free_devices,
        free_pci heap p d z e b,
        drm_free_devices-once (dropped heap p) ps (dropped-PciDevices heap p ps h once),
      )
      refl
