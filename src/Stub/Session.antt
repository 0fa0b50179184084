-- ===== src/Stub/Session.antt =====
-- Any sequence of calls on the buffers, and any sequence of ioctls: handles are never given twice.
use libdrm.Base.{
  ℕ, ◌+◌, ◌≤◌, ◌<◌, ◌^◌, ◌≡◌, refl, ap, Option, none, some, some_inj, find, Ordered, find-emplace,
  find-erase, emplace-Ordered, erase-Ordered, if◌then◌else◌, ◌==◌, arith, Option-cases, inl, inr,
  Ret, ok,
}
use libdrm.Drm.Args.{
  Cmd, version, gem_close, get_cap, set_client_cap, auth_magic, prime_handle_to_fd,
  prime_fd_to_handle, syncobj_create, syncobj_destroy, syncobj_handle_to_fd, syncobj_fd_to_handle,
  syncobj_wait, syncobj_timeline_wait, syncobj_reset, syncobj_signal, syncobj_timeline_signal,
  syncobj_query, syncobj_transfer, syncobj_accumulate, Args, HandleArgs,
}
use libdrm.Drm.Syncobj.{drm_syncobj_create, on_ok}
use libdrm.Stub.Buffers.{
  GpuBuffer, Buffers, this_gpu_buffer, create_gpu_buffer, close_gpu_buffer, map_gpu_buffer,
  unmap_gpu_buffer,
}
use libdrm.Stub.Ioctl.{Stub, map_handle, unmap_handle, ioctl_stub, process_ioctl}
use libdrm.Stub.Fds.{Fds, fd_unmap_gem_handle, fd_unmap_syncobj_handle}

pub data Change : Buffers → Buffers → Type 0 where
  -- The counter of handles does not wrap.
  create :
      (s : Buffers) (area : Option ℕ) (size alignment domains flags : ℕ)
      → s.last_handle + 1 < 2 ^ 32
      → Change s (create_gpu_buffer s area size alignment domains flags).2
  close : (s : Buffers) (handle : ℕ) → Change s (close_gpu_buffer s handle).1
  map :
      (s : Buffers) (handle flags map_adr buf_offset map_size : ℕ)
      → Change s (map_gpu_buffer s handle flags map_adr buf_offset map_size).1
  unmap :
      (s : Buffers) (handle flags map_adr buf_offset map_size : ℕ)
      → Change s (unmap_gpu_buffer s handle flags map_adr buf_offset map_size).1

pub data Changes (s : Buffers) : Buffers → Type 0 where
  start : Changes s s
  next : {t u : Buffers} → Changes s t → Change t u → Changes s u

-- Both maps are in order, and no buffer has a handle that the counter has not reached.
pub record IsSound (s : Buffers) : Type 0 where
  pub handles : Ordered 0 s.handles
  pub mappings : Ordered 0 s.mappings
  pub below : (h : ℕ) (b : GpuBuffer) → find s.handles h ≡ some b → h < s.last_handle

pub Change-IsSound : {s t : Buffers} → Change s t → IsSound s → IsSound t
unfolding create_gpu_buffer close_gpu_buffer map_gpu_buffer unmap_gpu_buffer
Change-IsSound (create s none size alignment domains flags l) i = i
Change-IsSound (create s (some adr) size alignment domains flags l) i = record {
  handles = emplace-Ordered s.handles 0 s.last_handle _ i.handles (omega arith);
  mappings = i.mappings;
  below = λ h b e. ground (
    arith,
    i.below h b,
    find-emplace s.handles 0 s.last_handle
        (record { adr = adr; size = size; alignment = alignment; domains = domains; flags = flags })
        h i.handles,
  );
}
Change-IsSound (close s handle) i = elim (Option-cases (find s.handles handle)) [
  | inl z ↦ rw (close_gpu_buffer, z) i
  | inr (b, z) ↦
      rw (close_gpu_buffer, z)
        (record {
          handles = erase-Ordered s.handles 0 handle i.handles;
          mappings = i.mappings;
          below = λ h b e. ground (arith, i.below h b, find-erase s.handles 0 handle h i.handles);
        })
]
Change-IsSound (map s handle flags map_adr buf_offset map_size) i =
    elim (Option-cases (this_gpu_buffer s handle)) [
      | inl z ↦ rw (map_gpu_buffer, z) i
      | inr (b, z) ↦
          rw (map_gpu_buffer, z)
            (record {
              handles = i.handles;
              mappings = emplace-Ordered s.mappings 0 map_adr _ i.mappings (omega arith);
              below = i.below;
            })
    ]
Change-IsSound (unmap s handle flags map_adr buf_offset map_size) i =
    elim (Option-cases (find s.mappings map_adr)) [
      | inl z ↦ rw (unmap_gpu_buffer, z) i
      | inr (b, z) ↦
          rw (unmap_gpu_buffer, z)
            (record {
              handles = i.handles;
              mappings = erase-Ordered s.mappings 0 map_adr i.mappings;
              below = i.below;
            })
    ]

Changes-IsSound : {s t : Buffers} → Changes s t → IsSound s → IsSound t
Changes-IsSound start i = i
Changes-IsSound (next c x) i = Change-IsSound x (Changes-IsSound c i)

Change-mono : {s t : Buffers} → Change s t → s.last_handle ≤ t.last_handle
unfolding create_gpu_buffer close_gpu_buffer map_gpu_buffer unmap_gpu_buffer
Change-mono (create s none size alignment domains flags l) = omega arith
Change-mono (create s (some adr) size alignment domains flags l) = omega arith
Change-mono (close s handle) = ground arith
Change-mono (map s handle flags map_adr buf_offset map_size) = ground arith
Change-mono (unmap s handle flags map_adr buf_offset map_size) = ground arith

Changes-mono : {s t : Buffers} → Changes s t → s.last_handle ≤ t.last_handle
Changes-mono start = omega arith
Changes-mono (next c x) = let a = Changes-mono c in let b = Change-mono x in omega arith

-- In a state that is reached from a sound one without a wrap of the counter, a buffer is created under
-- a handle that no buffer has, which is greater than every handle given before; afterwards that
-- handle is the new buffer's, and every other handle is what it was.
pub create_gpu_buffer-fresh :
    (r s : Buffers) (adr size alignment domains flags : ℕ)
    → IsSound r
    → Changes r s
    → let b : GpuBuffer = record {
      adr = adr;
      size = size;
      alignment = alignment;
      domains = domains;
      flags = flags;
    } in
      (t : Buffers) × (create_gpu_buffer s (some adr) size alignment domains flags
        ≡ (ok, some s.last_handle, t))
      × (find s.handles s.last_handle ≡ none)
      × (r.last_handle ≤ s.last_handle)
      × ((h : ℕ) → find t.handles h ≡ (if h == s.last_handle then some b else find s.handles h))
unfolding create_gpu_buffer
create_gpu_buffer-fresh r s adr size alignment domains flags i c =
    let j = Changes-IsSound c i in
    let n : find s.handles s.last_handle ≡ none =
      elim (Option-cases (find s.handles s.last_handle)) [
        | inl z ↦ z
        | inr (b, z) ↦ absurd (omega (arith, j.below s.last_handle b z))
      ] in
    (
      _,
      refl,
      n,
      Changes-mono c,
      λ h. ground (
        arith,
        n,
        find-emplace s.handles 0 s.last_handle
            (record {
              adr = adr;
              size = size;
              alignment = alignment;
              domains = domains;
              flags = flags;
            })
            h j.handles,
      ),
    )

-- Ioctls that do not fault, while the counter of sync objects does not wrap.
pub data Ioctls (s : Stub) : Stub → Type 0 where
  start : Ioctls s s
  next :
      {t : Stub} (c : Cmd) (a : Args c)
      → Ioctls s t
      → t.next_syncobj + 1 < 2 ^ 32
      → (x : Ret × Args c × Stub) → ioctl_stub t c a ≡ some x
      → Ioctls s x.2

unmap_handle_mono :
    (call : Fds → ℕ → Option (Ret × Option ℕ × Fds)) (s : Stub) (a : HandleArgs)
    → (x : Ret × HandleArgs × Stub) → unmap_handle call s a ≡ some x
    → s.next_syncobj ≤ x.2.next_syncobj
unfolding unmap_handle
unmap_handle_mono call s a x e = elim (Option-cases (call s.fds a.fd)) [
  | inl z ↦ absurd (cc (rw (unmap_handle, z) at e))
  | inr (y, z) ↦ let q = some_inj (rw (unmap_handle, z) at e) in rw (← q) (omega arith)
]

ioctl_stub_mono :
    (s : Stub) (c : Cmd) (a : Args c)
    → s.next_syncobj + 1 < 2 ^ 32
    → (x : Ret × Args c × Stub) → ioctl_stub s c a ≡ some x
    → s.next_syncobj ≤ x.2.next_syncobj
unfolding ioctl_stub map_handle
ioctl_stub_mono s get_cap a l x e = ground arith
ioctl_stub_mono s syncobj_create a l x e = ground (arith, ap (λ y. y.2.next_syncobj) (some_inj e))
ioctl_stub_mono s version a l x e = ground (arith, ap (λ y. y.2.next_syncobj) (some_inj e))
ioctl_stub_mono s gem_close a l x e = ground (arith, ap (λ y. y.2.next_syncobj) (some_inj e))
ioctl_stub_mono s set_client_cap a l x e = ground (arith, ap (λ y. y.2.next_syncobj) (some_inj e))
ioctl_stub_mono s auth_magic a l x e = ground (arith, ap (λ y. y.2.next_syncobj) (some_inj e))
ioctl_stub_mono s prime_handle_to_fd a l x e =
    ground (arith, ap (λ y. y.2.next_syncobj) (some_inj e))
ioctl_stub_mono s prime_fd_to_handle a l x e = unmap_handle_mono fd_unmap_gem_handle s a x e
ioctl_stub_mono s syncobj_destroy a l x e = ground (arith, ap (λ y. y.2.next_syncobj) (some_inj e))
ioctl_stub_mono s syncobj_handle_to_fd a l x e =
    ground (arith, ap (λ y. y.2.next_syncobj) (some_inj e))
ioctl_stub_mono s syncobj_fd_to_handle a l x e = unmap_handle_mono fd_unmap_syncobj_handle s a x e
ioctl_stub_mono s syncobj_wait a l x e = ground (arith, ap (λ y. y.2.next_syncobj) (some_inj e))
ioctl_stub_mono s syncobj_timeline_wait a l x e =
    ground (arith, ap (λ y. y.2.next_syncobj) (some_inj e))
ioctl_stub_mono s syncobj_reset a l x e = ground (arith, ap (λ y. y.2.next_syncobj) (some_inj e))
ioctl_stub_mono s syncobj_signal a l x e = ground (arith, ap (λ y. y.2.next_syncobj) (some_inj e))
ioctl_stub_mono s syncobj_timeline_signal a l x e =
    ground (arith, ap (λ y. y.2.next_syncobj) (some_inj e))
ioctl_stub_mono s syncobj_query a l x e = ground (arith, ap (λ y. y.2.next_syncobj) (some_inj e))
ioctl_stub_mono s syncobj_transfer a l x e = ground (arith, ap (λ y. y.2.next_syncobj) (some_inj e))
ioctl_stub_mono s syncobj_accumulate a l x e =
    ground (arith, ap (λ y. y.2.next_syncobj) (some_inj e))

Ioctls-mono : {s t : Stub} → Ioctls s t → s.next_syncobj ≤ t.next_syncobj
Ioctls-mono start = omega arith
Ioctls-mono (next {t} c a r l x e) =
    let x' = Ioctls-mono r in let y = ioctl_stub_mono t c a l x e in omega arith

-- Two sync objects that are created with any ioctls in between that do not fault, without a wrap of the
-- counter, have different handles.
pub drm_syncobj_create-distinct :
    (s t : Stub) (flags flags' : ℕ)
    → s.next_syncobj + 1 < 2 ^ 32
    → (s' : Stub) → (drm_syncobj_create process_ioctl (some s) flags).2 ≡ some s'
    → Ioctls s' t
    → (h : ℕ) × (h' : ℕ) × ((drm_syncobj_create process_ioctl (some s) flags).1 ≡ some h)
      × ((drm_syncobj_create process_ioctl (some t) flags').1 ≡ some h')
      × (h < h')
unfolding drm_syncobj_create process_ioctl ioctl_stub on_ok
drm_syncobj_create-distinct s t flags flags' l s' e r =
    let x = Ioctls-mono r in
    let y = ap (λ u. u.next_syncobj) (some_inj e) in
    (s.next_syncobj, t.next_syncobj, refl, refl, omega arith)
