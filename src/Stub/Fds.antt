-- ===== src/Stub/Fds.antt =====
-- stub/fdMapper.cpp: descriptors that stand for a buffer or a sync object. Each call holds
-- `sFdMapLock`, so it is one step.
use libdrm.Base.{
  ℕ, Bool, true, false, Option, none, some, List, ◌∷◌, Assoc, find, emplace, erase, if◌then◌else◌,
  Ret, ok, err, enoent,
}

pub data HandleType : Type 0 where
  gem syncobj : HandleType

abbrev pub same_type : HandleType → HandleType → Bool
same_type gem gem = true
same_type gem syncobj = false
same_type syncobj gem = false
same_type syncobj syncobj = true

pub record FdMapEntry : Type 0 where
  pub type : HandleType
  pub handle : ℕ

-- `closed` are the descriptors that close was called for, the last one first.
pub record Fds : Type 0 where
  pub map : Assoc FdMapEntry
  pub closed : List ℕ

unfoldable pub fd_close : Fds → ℕ → Ret × Fds
fd_close s fd = elim (find s.map fd) [
  | none ↦ (err enoent, s)
  | some e ↦ (ok, record { map = erase s.map fd; closed = fd ∷ s.closed })
]

-- `fd` is what open gives.
unfoldable pub fd_map_handle : Fds → (fd : ℕ) → HandleType → (handle : ℕ) → Ret × Fds
fd_map_handle s fd type handle =
    (ok, record s { map = emplace s.map fd (record { type = type; handle = handle }) })

-- The handle is read through a reference to the entry after the entry was erased from the map, which
-- frees it: with an entry of the asked type, the call is a fault.
unfoldable pub fd_unmap_handle : Fds → HandleType → (fd : ℕ) → Option (Ret × Option ℕ × Fds)
fd_unmap_handle s type fd = elim (find s.map fd) [
  | none ↦ some (err enoent, none, s)
  | some e ↦ if same_type e.type type then none else some (err enoent, none, s)
]

abbrev pub fd_map_gem_handle : Fds → ℕ → ℕ → Ret × Fds
fd_map_gem_handle s fd handle = fd_map_handle s fd gem handle

abbrev pub fd_unmap_gem_handle : Fds → ℕ → Option (Ret × Option ℕ × Fds)
fd_unmap_gem_handle s fd = fd_unmap_handle s gem fd

abbrev pub fd_map_syncobj_handle : Fds → ℕ → ℕ → Ret × Fds
fd_map_syncobj_handle s fd handle = fd_map_handle s fd syncobj handle

abbrev pub fd_unmap_syncobj_handle : Fds → ℕ → Option (Ret × Option ℕ × Fds)
fd_unmap_syncobj_handle s fd = fd_unmap_handle s syncobj fd
