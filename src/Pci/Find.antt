-- ===== src/Pci/Find.antt =====
-- The search for a PCI device ends, and where.
use libdrm.Base.{
  ℕ, zero, suc, ◌+◌, ◌≤◌, ◌<◌, ◌^◌, ◌≡◌, ◌≢◌, refl, ap, sym, ◌∙◌, ◌⊎◌, inl, inr, true, false,
  Bool-cases, some, add32, arith, Errno,
}
use libdrm.Bo.State.{Answer, done, refused}
use libdrm.Pci.Lookup.{PciInfo, is_at, Poke, lookup_pci_device}

Answer-cases :
    {A : Type 0} (a : Answer A) → ((x : A) × (a ≡ done x)) ⊎ ((e : Errno) × (a ≡ refused e))
Answer-cases (done x) = inl (x, refl)
Answer-cases (refused e) = inr (e, refl)

module _ (poke : Poke) (bus device function : ℕ) where
  -- The poke driver tells of another device.
  abbrev pub Passes : (index : ℕ) → Type 0
  Passes index =
      (info : PciInfo) × (poke index ≡ done info) × (is_at bus device function info ≡ false)

  abbrev pub PassesAll : (index n : ℕ) → Type 0
  PassesAll index zero = Unit {0}
  PassesAll index (suc n) = Passes index × PassesAll (suc index) n

  -- It tells of the device, or of none any more.
  abbrev pub Stops : (index : ℕ) → Answer PciInfo → Type 0
  Stops index r =
      ((info : PciInfo) × (poke index ≡ done info)
        × (is_at bus device function info ≡ true)
        × (r ≡ done info))
      ⊎ ((e : Errno) × (poke index ≡ refused e) × (r ≡ refused e))

  lookup-step :
      (fuel index : ℕ) (info : PciInfo)
      → poke index ≡ done info
      → is_at bus device function info ≡ false
      → index + 1 < 2 ^ 32
      → lookup_pci_device poke bus device function (suc fuel) index
        ≡ lookup_pci_device poke bus device function fuel (suc index)
  unfolding lookup_pci_device
  lookup-step fuel index info w t l =
      let u : add32 index 1 ≡ suc index = omega arith in
      rw (lookup_pci_device, w, t) (ap (lookup_pci_device poke bus device function fuel) u)

  lookup-from :
      (last : ℕ) (e : Errno) (fuel index : ℕ)
      → poke last ≡ refused e
      → last < 2 ^ 32
      → index ≤ last
      → last < index + fuel
      → (n : ℕ) × (k : ℕ) × (r : Answer PciInfo) × (lookup_pci_device poke bus device function fuel
            index
          ≡ some r)
        × (k ≡ index + n)
        × (k ≤ last)
        × PassesAll index n
        × Stops k r
  unfolding lookup_pci_device
  lookup-from last e zero index p l g h = absurd (omega arith)
  lookup-from last e (suc fuel) index p l g h = elim (Answer-cases (poke index)) [
    | inr (x, w) ↦
        (0, index, refused x, rw (lookup_pci_device, w) refl, omega arith, g, tt, inr (x, w, refl))
    | inl (info, w) ↦ elim (Bool-cases (is_at bus device function info)) [
      | inl t ↦ (
        0,
        index,
        done info,
        rw (lookup_pci_device, w, t) refl,
        omega arith,
        g,
        tt,
        inl (info, w, t, refl),
      )
      | inr t ↦
          let d : index ≢ last = λ q. absurd (cc (sym w ∙ ap poke q ∙ p)) in
          let (n, k, r, f, a, b, c, s) =
            lookup-from last e fuel (suc index) p l (omega arith) (omega arith) in
          (
            suc n,
            k,
            r,
            lookup-step fuel index info w t (omega arith) ∙ f,
            omega arith,
            b,
            ((info, w, t), c),
            s,
          )
    ]
  ]

  -- If the poke driver refuses some index below 2^32, then the search ends within as many rounds and
  -- one more, at the first index where it tells of the device or refuses, and its result is that
  -- answer: at every index before it tells of another device.
  pub lookup_pci_device-Stops :
      (last : ℕ) (e : Errno) (fuel : ℕ)
      → poke last ≡ refused e
      → last < 2 ^ 32
      → last < fuel
      → (k : ℕ) × (r : Answer PciInfo) × (lookup_pci_device poke bus device function fuel 0
          ≡ some r)
        × (k ≤ last)
        × PassesAll 0 k
        × Stops k r
  lookup_pci_device-Stops last e fuel p l g =
      let (n, k, r, f, a, b, c, s) = lookup-from last e fuel 0 p l (omega arith) (omega arith) in
      let q : n ≡ k = omega arith in (k, r, f, b, rw⁻¹ q c, s)
