-- ===== src/Gpu/Plan.antt =====
-- The queries of `query_gpu_info_init` as a list, and the first one that fails.
use libdrm.Base.{
  ℕ, zero, suc, ◌+◌, ◌≤◌, ◌<◌, ◌^◌, ◌≡◌, refl, ap, ◌∙◌, bit_or, Bool, true, false, Bool-cases, inl,
  inr, Option, some, List, [], ◌∷◌, ◌++◌, if◌then◌else◌, ltb, leb, arith, Ret, ok, err, Ret-cases,
}
use libdrm.Gpu.Query.{Query, dev_info, read_mmr_reg, Driver, written}
use libdrm.Gpu.Init.{
  GpuInfo, Infos, set_backend, extract_backend, set_raster, set_raster1, set_addr_cfg,
  set_tile_mode, set_macro_tile_mode, set_ramcfg, family_ci, family_ai, from_device, with_units,
  Outcome, and_then, as_int, read, engine, engines, tiles, registers, finish, query_gpu_info_init,
}

-- What one engine is asked, the engines from `i` on, and all after the device's own information.
abbrev pub engine_plan : (family i : ℕ) → List Query
engine_plan family i =
    read_mmr_reg 0x263d 1 (bit_or i 0xff00) 0
    ∷ read_mmr_reg 0xa0d4 1 (bit_or i 0xff00) 0
    ∷ (if leb family_ci family then read_mmr_reg 0xa0d5 1 (bit_or i 0xff00) 0 ∷ [] else [])

abbrev pub engines_plan : (family n i : ℕ) → List Query
engines_plan family zero i = []
engines_plan family (suc n) i = engine_plan family i ++ engines_plan family n (suc i)

abbrev pub tiles_plan : (family : ℕ) → List Query
tiles_plan family =
    read_mmr_reg 0x2644 32 0xffff_ffff 0
    ∷ ((if leb family_ci family then read_mmr_reg 0x2664 16 0xffff_ffff 0 ∷ [] else [])
        ++ (read_mmr_reg 0x9d8 1 0xffff_ffff 0 ∷ []))

abbrev pub plan : (family engines : ℕ) → List Query
plan family engines =
    (if ltb family family_ai then engines_plan family engines 0 else [])
    ++ (read_mmr_reg 0x263e 1 0xffff_ffff 0
        ∷ (if ltb family family_ai then tiles_plan family else []))

module _ (driver : Driver) where
  unfoldable pub first_error : List Query → Ret
  first_error [] = ok
  first_error (q ∷ l) = elim (driver q).0 [ ok ↦ first_error l | err e ↦ err e ]

  -- A step that makes the queries of a list until one fails, and keeps the family.
  abbrev Follows : (family : ℕ) → (GpuInfo → Outcome) → List Query → Type 0
  Follows family m l =
      (i : GpuInfo)
      → i.family_id ≡ family
      → (t : GpuInfo) × (m i ≡ some (first_error l, t)) × (t.family_id ≡ family)

  first_error-append :
      (l k : List Query)
      → first_error (l ++ k) ≡ elim (first_error l) [ ok ↦ first_error k | err e ↦ err e ]
  unfolding first_error
  first_error-append [] k = refl
  first_error-append (q ∷ l) k = elim (Ret-cases (driver q).0) [
    | inl w ↦ rw (first_error, w) (first_error-append l k)
    | inr (x, w) ↦ rw (first_error, w) refl
  ]

  read-Follows :
      (family offset count instance : ℕ) (store : Option (List ℕ) → GpuInfo → GpuInfo)
      → ((a : Option (List ℕ)) (i : GpuInfo) → (store a i).family_id ≡ i.family_id)
      → Follows family
          (read driver offset count instance store)
          (read_mmr_reg offset count instance 0 ∷ [])
  unfolding read first_error
  read-Follows family offset count instance store k i e =
      let q = read_mmr_reg offset count instance 0 in
      (
        store (driver q).1 i,
        elim (Ret-cases (driver q).0) [
          | inl w ↦ rw (read, first_error, w) refl
          | inr (x, w) ↦ rw (read, first_error, w) refl
        ],
        k (driver q).1 i ∙ e,
      )

  and_then-Follows :
      (family : ℕ) (m k : GpuInfo → Outcome) (l l' : List Query)
      → Follows family m l
      → Follows family k l'
      → Follows family (λ i. and_then (m i) k) (l ++ l')
  unfolding and_then
  and_then-Follows family m k l l' f g i e =
      let (t, h, z) = f i e in
      let (t', h', z') = g t z in
      elim (Ret-cases (first_error l)) [
        | inl w ↦ (t', rw (h, first_error-append l l', w) h', z')
        | inr (x, w) ↦ (t, rw (h, first_error-append l l', w) refl, z)
      ]

  after-Follows :
      (family : ℕ) (m : GpuInfo → Outcome) (l : List Query) (f : GpuInfo → GpuInfo)
      → ((i : GpuInfo) → (f i).family_id ≡ i.family_id)
      → Follows family m l
      → Follows family (λ i. m (f i)) l
  after-Follows family m l f k g i e = g (f i) (k i ∙ e)

  if-Follows :
      (family : ℕ) (test : ℕ → Bool) (m : GpuInfo → Outcome) (l : List Query)
      → Follows family m l
      → Follows family
          (λ i. if test i.family_id then m i else some (ok, i))
          (if test family then l else [])
  unfolding first_error
  if-Follows family test m l f i e = elim (Bool-cases (test family)) [
    | inl w ↦ let t : test i.family_id ≡ true = ap test e ∙ w in rw (t, w) (f i e)
    | inr w ↦ let t : test i.family_id ≡ false = ap test e ∙ w in rw (t, w) (i, refl, e)
  ]

  engine-Follows : (family i : ℕ) → i < 4 → Follows family (engine driver i) (engine_plan family i)
  unfolding engine
  engine-Follows family i l =
      let inst = bit_or i 0xff00 in
      let q1 = read_mmr_reg 0x263d 1 inst 0 ∷ [] in
      let q2 = read_mmr_reg 0xa0d4 1 inst 0 ∷ [] in
      let q3 = read_mmr_reg 0xa0d5 1 inst 0 ∷ [] in
      let m2 : GpuInfo → Outcome =
        λ j. read driver 0xa0d4 1 inst (set_raster i) (extract_backend i j) in
      let m3 : GpuInfo → Outcome = λ j.
        if leb family_ci j.family_id
        then read driver 0xa0d5 1 inst (set_raster1 i) j
        else some (ok, j) in
      let l3 = if leb family_ci family then q3 else [] in
      let t : leb 4 i ≡ false = ground arith in
      rw (engine, t)
        (and_then-Follows family (read driver 0x263d 1 inst (set_backend i))
          (λ j. and_then (m2 j) m3) q1 (q2 ++ l3)
          (read-Follows family 0x263d 1 inst (set_backend i) (λ a j. refl))
          (and_then-Follows family m2 m3 q2 l3
            (after-Follows family (read driver 0xa0d4 1 inst (set_raster i)) q2 (extract_backend i)
              (λ j. refl) (read-Follows family 0xa0d4 1 inst (set_raster i) (λ a j. refl)))
            (if-Follows family (leb family_ci) (read driver 0xa0d5 1 inst (set_raster1 i)) q3
              (read-Follows family 0xa0d5 1 inst (set_raster1 i) (λ a j. refl)))))

  engines-Follows :
      (family n i : ℕ) → i + n ≤ 4 → Follows family (engines driver n i) (engines_plan family n i)
  unfolding engines first_error
  engines-Follows family zero i l j e = (j, refl, e)
  engines-Follows family (suc n) i l j e =
      and_then-Follows family (engine driver i) (engines driver n (suc i)) (engine_plan family i)
        (engines_plan family n (suc i)) (engine-Follows family i (omega arith))
        (engines-Follows family n (suc i) (omega arith)) j e

  tiles-Follows : (family : ℕ) → Follows family (tiles driver) (tiles_plan family)
  unfolding tiles
  tiles-Follows family =
      let q1 = read_mmr_reg 0x2644 32 0xffff_ffff 0 ∷ [] in
      let q2 = read_mmr_reg 0x2664 16 0xffff_ffff 0 ∷ [] in
      let q3 = read_mmr_reg 0x9d8 1 0xffff_ffff 0 ∷ [] in
      let m1 = read driver 0x2644 32 0xffff_ffff set_tile_mode in
      let m2 : GpuInfo → Outcome = λ j.
        if leb family_ci j.family_id
        then read driver 0x2664 16 0xffff_ffff set_macro_tile_mode j
        else some (ok, j) in
      let m3 = read driver 0x9d8 1 0xffff_ffff set_ramcfg in
      let l2 = if leb family_ci family then q2 else [] in
      and_then-Follows family m1 (λ j. and_then (m2 j) m3) q1 (l2 ++ q3)
        (read-Follows family 0x2644 32 0xffff_ffff set_tile_mode (λ a j. refl))
        (and_then-Follows family m2 m3 l2 q3
          (if-Follows family (leb family_ci) (read driver 0x2664 16 0xffff_ffff set_macro_tile_mode)
            q2 (read-Follows family 0x2664 16 0xffff_ffff set_macro_tile_mode (λ a j. refl)))
          (read-Follows family 0x9d8 1 0xffff_ffff set_ramcfg (λ a j. refl)))

  registers-plan :
      (info : GpuInfo)
      → info.num_shader_engines ≤ 4
      → (t : GpuInfo) × (registers driver info
          ≡ some (first_error (plan info.family_id info.num_shader_engines), t))
        × (t.family_id ≡ info.family_id)
  unfolding registers as_int
  registers-plan info l =
      let family = info.family_id in
      let n = info.num_shader_engines in
      let z : ltb n (2 ^ 31) ≡ true = ground arith in
      let q1 = if ltb family family_ai then engines_plan family n 0 else [] in
      let q2 = read_mmr_reg 0x263e 1 0xffff_ffff 0 ∷ [] in
      let q3 = if ltb family family_ai then tiles_plan family else [] in
      let m1 : GpuInfo → Outcome =
        λ j. if ltb j.family_id family_ai then engines driver n 0 j else some (ok, j) in
      let m2 = read driver 0x263e 1 0xffff_ffff set_addr_cfg in
      let m3 : GpuInfo → Outcome =
        λ j. if ltb j.family_id family_ai then tiles driver j else some (ok, j) in
      let below : ℕ → Bool = λ f. ltb f family_ai in
      rw (as_int, z)
        (and_then-Follows family m1 (λ j. and_then (m2 j) m3) q1 (q2 ++ q3)
          (if-Follows family below (engines driver n 0) (engines_plan family n 0)
            (engines-Follows family n 0 (omega arith)))
          (and_then-Follows family m2 m3 q2 q3
            (read-Follows family 0x263e 1 0xffff_ffff set_addr_cfg (λ a j. refl))
            (if-Follows family below (tiles driver) (tiles_plan family) (tiles-Follows family)))
          info refl)

  -- With at most four shader engines the initialisation never writes out of an array's bounds, and
  -- its result is that of the first query that fails among the device's own information and then the
  -- planned registers. In each case the copy of the device's information is what the driver wrote over
  -- the old one.
  pub query_gpu_info_init-plan :
      (s : Infos)
      → (written s.dev_info (driver dev_info).1).num_shader_engines ≤ 4
      → let d = written s.dev_info (driver dev_info).1 in
        (t : Infos) × (query_gpu_info_init driver s
          ≡ some (first_error (dev_info ∷ plan d.family d.num_shader_engines), t))
        × (t.dev_info ≡ d)
  unfolding query_gpu_info_init first_error from_device finish
  query_gpu_info_init-plan s l =
      let d = written s.dev_info (driver dev_info).1 in
      let (t, e, f) = registers-plan (from_device d s.info) l in
      elim (Ret-cases (driver dev_info).0) [
        | inl w ↦ elim (Ret-cases (first_error (plan d.family d.num_shader_engines))) [
          | inl k ↦ (
            record { dev_info = d; info = with_units d t },
            rw (query_gpu_info_init, first_error, w, e, k) refl,
            refl,
          )
          | inr (x, k) ↦ (
            record { dev_info = d; info = t },
            rw (query_gpu_info_init, first_error, w, e, k) refl,
            refl,
          )
        ]
        | inr (x, w) ↦
            (record s { dev_info = d }, rw (query_gpu_info_init, first_error, w) refl, refl)
      ]
