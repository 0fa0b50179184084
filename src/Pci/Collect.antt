-- ===== src/Pci/Collect.antt =====
-- The list of devices that an application gets.
use libdrm.Base.{
  ℕ, zero, suc, ◌+◌, ◌≤◌, ◌<◌, ◌^◌, ◌≡◌, refl, ap, sym, ◌∙◌, ◌==◌, true, false, Bool-cases, inl,
  inr, Option, none, some, Option-cases, List, [], ◌∷◌, ◌++◌, ltb, length, take, length-take, arith,
  Errno, Ret, ok, err, enoent, enomem,
}
use libdrm.Bo.State.{Answer, done, refused}
use libdrm.Pci.Lookup.{PciInfo, Poke, parse_dev_pci_adr}
use libdrm.Pci.Devices.{
  DrmDevice, Sizes, Listed, dev_path, drm_device_alloc, after_lookup, put_device,
  drm_get_device_int, get_devices, drm_get_devices2,
}
use libdrm.Pci.Find.{lookup_pci_device-Stops}

module _ (z : Sizes) (poke : Poke) (fuel : ℕ) where
  -- The device of an entry, if it has one, and those of a directory.
  abbrev pub device_of : Option (Ret × Option DrmDevice) → Option DrmDevice
  device_of none = none
  device_of (some (r, d)) = d

  abbrev pub add_device : Option DrmDevice → List DrmDevice → List DrmDevice
  add_device none ds = ds
  add_device (some d) ds = d ∷ ds

  abbrev pub devices_of : List Listed → List DrmDevice
  devices_of [] = []
  devices_of (entry ∷ entries) =
      add_device (device_of (drm_get_device_int z poke fuel entry)) (devices_of entries)

  module _ (last : ℕ) (e : Errno) (refuses : poke last ≡ refused e) (small : last < 2 ^ 32)
      (enough : last < fuel) where
    after_lookup_returns :
        (entry : Listed) (a : Answer PciInfo)
        → (r : Ret) × (d : Option DrmDevice) × (after_lookup z entry (some a) ≡ some (r, d))
    unfolding after_lookup
    after_lookup_returns entry (refused x) = (err x, none, refl)
    after_lookup_returns (name, at) (done info) = elim (Bool-cases (at == 0)) [
      | inl w ↦ (err enomem, none, rw w refl)
      | inr w ↦ (ok, some (drm_device_alloc z at (dev_path ++ name) info), rw w refl)
    ]

    device_int_returns :
        (entry : Listed)
        → (r : Ret) × (d : Option DrmDevice) × (drm_get_device_int z poke fuel entry ≡ some (r, d))
    unfolding drm_get_device_int
    device_int_returns (name, at) = elim (Option-cases (parse_dev_pci_adr name)) [
      | inl w ↦ (err enoent, none, rw (drm_get_device_int, w) refl)
      | inr ((bus, device), w) ↦
          let (k, a, f, _, _, _) =
            lookup_pci_device-Stops poke bus device 0 last e fuel refuses small enough in
          let (r, d, g) = after_lookup_returns (name, at) a in
          (r, d, rw (drm_get_device_int, w) (ap (after_lookup z (name, at)) f ∙ g))
    ]

    put_device-some :
        (x : Option (Ret × Option DrmDevice)) (r : Ret) (d : Option DrmDevice) (n : ℕ)
        (ds : List DrmDevice)
        → x ≡ some (r, d)
        → put_device x (some (take (suc n) ds)) (some (take n ds))
          ≡ some (take (suc n) (add_device (device_of x) ds))
    unfolding put_device
    put_device-some none r d n ds h = absurd (cc h)
    put_device-some (some (r', none)) r d n ds h = refl
    put_device-some (some (r', some d')) r d n ds h = refl

    get_devices-take :
        (entries : List Listed) (device_cnt n : ℕ)
        → get_devices z poke fuel device_cnt (device_cnt + n) entries
          ≡ some (take n (devices_of entries))
    unfolding get_devices
    get_devices-take [] device_cnt zero = refl
    get_devices-take [] device_cnt (suc n) = refl
    get_devices-take (entry ∷ entries) device_cnt zero =
        let t : ltb device_cnt (device_cnt + 0) ≡ false = ground arith in rw (get_devices, t) refl
    get_devices-take (entry ∷ entries) device_cnt (suc n) =
        let t : ltb device_cnt (device_cnt + suc n) ≡ true = ground arith in
        let (r, d, f) = device_int_returns entry in
        let q : suc device_cnt + n ≡ device_cnt + suc n = omega arith in
        let later : get_devices z poke fuel (suc device_cnt) (device_cnt + suc n) entries
            ≡ some (take n (devices_of entries)) =
          ap (λ m. get_devices z poke fuel (suc device_cnt) m entries) (sym q)
          ∙ get_devices-take entries (suc device_cnt) n in
        let x = drm_get_device_int z poke fuel entry in
        let begin : get_devices z poke fuel device_cnt (device_cnt + suc n) (entry ∷ entries)
            ≡ put_device x (get_devices z poke fuel device_cnt (device_cnt + suc n) entries)
                (get_devices z poke fuel (suc device_cnt) (device_cnt + suc n) entries) =
          rw t refl in
        begin
        ∙ ap
            (λ s.
              put_device x s
                (get_devices z poke fuel (suc device_cnt) (device_cnt + suc n) entries))
            (get_devices-take entries device_cnt (suc n))
        ∙ ap (put_device x (some (take (suc n) (devices_of entries)))) later
        ∙ put_device-some x r d n (devices_of entries) f

  -- If the poke driver refuses an index below 2^32 and more rounds than this are allowed, then the
  -- enumeration ends; it gives the first `max_devices` of the devices that the entries of the directory
  -- have, in their order, and their number, which is not greater.
  pub drm_get_devices2-take :
      (max_devices last : ℕ) (e : Errno) (entries : List Listed)
      → poke last ≡ refused e
      → last < 2 ^ 32
      → last < fuel
      → let ds = take max_devices (devices_of entries) in
        (drm_get_devices2 z poke fuel true max_devices entries ≡ some (length ds, ds))
        × (length ds ≤ max_devices)
  unfolding drm_get_devices2
  drm_get_devices2-take max_devices last e entries p l g =
      let q : 0 + max_devices ≡ max_devices = omega arith in
      let h =
        ap (λ m. get_devices z poke fuel 0 m entries) (sym q)
        ∙ get_devices-take last e p l g entries 0 max_devices in
      (rw (drm_get_devices2, h) refl, length-take max_devices (devices_of entries))
