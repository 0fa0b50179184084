-- ===== src/Pci/Nodes.antt =====
-- `drmGetDevice2`, `drmGetRenderDeviceNameFromFd` and the two that need no driver: the node of a
-- descriptor is looked for in the directory of devices.
use libdrm.Base.{
  ℕ, ◌+◌, ◌-◌, ◌≡◌, ◌==◌, Bool, true, false, ◌&&◌, Option, none, some, List, [], ◌∷◌, ◌++◌,
  if◌then◌else◌, length, Ret, ok, err, Errno, failure, refl, arith, Bool-cases, inl, inr, some_inj,
  ◌⊎◌, sym, ◌∙◌, ap, Option-cases,
}
use libdrm.Bo.State.{Answer, done, refused}
use libdrm.Pci.Lookup.{Poke}
use libdrm.Pci.Devices.{DrmDevice, Sizes, dev_path, drm_get_device_int}

-- DRM_NODE_RENDER, and the empty text that strdup copies.
abbrev pub drm_get_node_type_from_fd : (fd : ℕ) → ℕ
drm_get_node_type_from_fd fd = 2

abbrev pub drm_get_primary_device_name_from_fd : (fd : ℕ) → List ℕ
drm_get_primary_device_name_from_fd fd = []

-- `st_dev` and `st_ino`.
pub record Stat : Type 0 where
  pub st_dev : ℕ
  pub st_ino : ℕ

abbrev pub same_file : Stat → Stat → Bool
same_file a b = (a.st_dev == b.st_dev) && (a.st_ino == b.st_ino)

-- An entry of the directory and what GetStat answers for it.
pub record Entry : Type 0 where
  pub name : List ℕ
  pub at : ℕ
  pub stat : Answer Stat

-- The loop over the entries: the outer `none` is the end of the directory, the inner one a failed
-- GetStat.
unfoldable pub find_entry : Stat → List Entry → Option (Option Entry)
find_entry st [] = none
find_entry st (entry ∷ entries) =
    let rest = find_entry st entries in
    elim entry.stat [
      | refused e ↦ some none
      | done st2 ↦ if same_file st st2 then some (some entry) else rest
    ]

-- What `*device` receives, if anything: `drmGetDeviceInt` sets it to NULL where it fails, and its
-- result is dropped. `none` if the search for the PCI device is still going after `fuel` rounds.
unfoldable pub drm_get_device2 :
    Sizes → Poke → (fuel : ℕ) → Answer Stat → List Entry → Option (Ret × Option (Option DrmDevice))
unfolding find_entry drm_get_device_int
drm_get_device2 z poke fuel (refused e) entries = some (err failure, none)
drm_get_device2 z poke fuel (done st) entries = elim (find_entry st entries) [
  | none ↦ some (err failure, none)
  | some none ↦ some (err failure, none)
  | some (some entry) ↦ elim (drm_get_device_int z poke fuel (entry.name, entry.at)) [
    | none ↦ none
    | some (r, device) ↦ some (ok, some device)
  ]
]

-- A call of malloc for `size` bytes, and what sprintf writes there, the 0 at its end not counted.
pub record NodePath : Type 0 where
  pub size : ℕ
  pub text : List ℕ

-- `strlen(entry.Name() + 1)` leaves the first character out. `none` is NULL.
unfoldable pub node_path : (allocates : Bool) → List ℕ → Option NodePath
node_path false name = none
node_path true name =
    some (record { size = length dev_path + (length name - 1); text = dev_path ++ name })

unfoldable pub drm_get_render_device_name_from_fd :
    (allocates : Bool) → Answer Stat → List Entry → Option NodePath
unfolding find_entry node_path
drm_get_render_device_name_from_fd allocates (refused e) entries = none
drm_get_render_device_name_from_fd allocates (done st) entries = elim (find_entry st entries) [
  | none ↦ none
  | some none ↦ none
  | some (some entry) ↦ node_path allocates entry.name
]

-- GetStat answers for each of the entries, and none has the file.
abbrev pub Others : Stat → List Entry → Type 0
Others st [] = Unit {0}
Others st (e ∷ es) = ((s : Stat) × (e.stat ≡ done s) × (same_file st s ≡ false)) × Others st es

-- The first entry with the file.
pub record First (st : Stat) (entries : List Entry) (e : Entry) : Type 0 where
  pub before : List Entry
  pub after : List Entry
  pub split : entries ≡ before ++ e ∷ after
  pub others : Others st before
  pub stat : Stat
  pub answered : e.stat ≡ done stat
  pub same : same_file st stat ≡ true

Answer-cases : (a : Answer Stat) → ((x : Stat) × (a ≡ done x)) ⊎ ((e : Errno) × (a ≡ refused e))
Answer-cases (done x) = inl (x, refl)
Answer-cases (refused e) = inr (e, refl)

find_entry-First :
    (st : Stat) (entries : List Entry) (e : Entry)
    → find_entry st entries ≡ some (some e)
    → First st entries e
unfolding find_entry
find_entry-First st [] e q = absurd (cc)
find_entry-First st (x ∷ xs) e q = elim (Answer-cases x.stat) [
  | inr (_, z) ↦ absurd (cc (rw (find_entry, z) at q))
  | inl (s, z) ↦ elim (Bool-cases (same_file st s)) [
    | inl t ↦
        let same : x ≡ e = some_inj (some_inj (rw (find_entry, z, t) at q)) in
        record {
          before = [];
          after = xs;
          split = ap (λ y. y ∷ xs) same;
          others = tt;
          stat = s;
          answered = ap (λ y. y.stat) (sym same) ∙ z;
          same = t;
        }
    | inr t ↦
        let f = find_entry-First st xs e (rw (find_entry, z, t) at q) in
        record {
          before = x ∷ f.before;
          after = f.after;
          split = ap (λ ys. x ∷ ys) f.split;
          others = ((s, z, t), f.others);
          stat = f.stat;
          answered = f.answered;
          same = f.same;
        }
  ]
]

node_path_short :
    (allocates : Bool) (name : List ℕ) (p : NodePath)
    → node_path allocates name ≡ some p
    → (p.text ≡ dev_path ++ name) × ((name ≡ []) ⊎ (p.size + 2 ≡ length p.text + 1))
unfolding node_path
node_path_short false name p e = absurd (cc)
node_path_short true [] p e = (ap (λ x. x.text) (sym (some_inj e)), inl refl)
node_path_short true (c ∷ cs) p e = rw (← some_inj e) (refl, inr (omega arith))

-- When a render node's name is returned for a descriptor, it is the directory's path with the name
-- of the first entry that is the descriptor's file, and, the entry's name not being empty, the
-- memory asked for is two bytes less than the name with the 0 at its end.
pub drm_get_render_device_name_from_fd_overflow :
    (allocates : Bool) (st : Stat) (entries : List Entry) (p : NodePath)
    → drm_get_render_device_name_from_fd allocates (done st) entries ≡ some p
    → (e : Entry) × First st entries e
      × (p.text ≡ dev_path ++ e.name)
      × ((e.name ≡ []) ⊎ (p.size + 2 ≡ length p.text + 1))
unfolding drm_get_render_device_name_from_fd
drm_get_render_device_name_from_fd_overflow allocates st entries p q =
    elim (Option-cases (find_entry st entries)) [
      | inl z ↦ absurd (cc (rw (drm_get_render_device_name_from_fd, z) at q))
      | inr (none, z) ↦ absurd (cc (rw (drm_get_render_device_name_from_fd, z) at q))
      | inr (some e, z) ↦
          let (text, short) =
            node_path_short allocates e.name p (rw (drm_get_render_device_name_from_fd, z) at q) in
          (e, find_entry-First st entries e z, text, short)
    ]
