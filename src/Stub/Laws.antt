-- ===== src/Stub/Laws.antt =====
-- Descriptors that are exported and imported again, the capability query, and the search for a mapped
-- buffer.
use libdrm.Base.{
  ℕ, ◌+◌, ◌-◌, ◌%◌, ◌≤◌, ◌<◌, ◌^◌, ◌≡◌, ◌≢◌, refl, ap, sym, ◌∙◌, inl, inr, ◌==◌, ◌||◌, true, false,
  none, some, some_inj, Assoc, find, emplace, floor, Ordered, find-emplace, floor-some, floor-none,
  ltb, add64, sub64, arith, Option-cases, ok, err, enoent,
}
use native.Mathlib.Decide.{dec_le}
use libdrm.Drm.Syncobj.{on_ok, to_fd, drm_syncobj_handle_to_fd, drm_syncobj_fd_to_handle}
use libdrm.Drm.Device.{drm_prime_handle_to_fd, drm_prime_fd_to_handle, drm_get_cap}
use libdrm.Stub.Buffers.{GpuMapping, Buffers, this_mapped_gpu_buffer}
use libdrm.Stub.Fds.{HandleType, gem, syncobj, same_type, fd_map_handle, fd_unmap_handle}
use libdrm.Stub.Ioctl.{Stub, map_handle, unmap_handle, ioctl_stub, process_ioctl}

-- The table of descriptors is in order, and open gives a descriptor that is not in it.
pub record Ready (s : Stub) : Type 0 where
  pub ordered : Ordered 0 s.fds.map
  pub fresh : find s.fds.map (s.next_fd s.opened) ≡ none

-- The state after a descriptor was made for a handle.
abbrev pub exported : Stub → HandleType → ℕ → Stub
exported s type handle = record s {
  fds = record s.fds {
    map = emplace s.fds.map (s.next_fd s.opened) (record { type = type; handle = handle });
  };
  opened = s.opened + 1;
}

find-exported :
    (s : Stub) (type : HandleType) (handle : ℕ)
    → Ready s
    → find (exported s type handle).fds.map (s.next_fd s.opened)
      ≡ some (record { type = type; handle = handle })
find-exported s type handle r = ground (
  arith,
  r.fresh,
  find-emplace s.fds.map 0 (s.next_fd s.opened) (record { type = type; handle = handle })
      (s.next_fd s.opened) r.ordered,
)

same_type_refl : (t : HandleType) → same_type t t ≡ true
same_type_refl gem = refl
same_type_refl syncobj = refl

fd_unmap_handle-exported :
    (s : Stub) (type : HandleType) (handle : ℕ)
    → Ready s
    → fd_unmap_handle (exported s type handle).fds type (s.next_fd s.opened) ≡ none
unfolding fd_unmap_handle
fd_unmap_handle-exported s type handle r =
    rw (fd_unmap_handle, find-exported s type handle r, same_type_refl type) refl

fd_unmap_handle-other :
    (s : Stub) (type other : HandleType) (handle : ℕ)
    → Ready s
    → same_type type other ≡ false
    → fd_unmap_handle (exported s type handle).fds other (s.next_fd s.opened)
      ≡ some (err enoent, none, (exported s type handle).fds)
unfolding fd_unmap_handle
fd_unmap_handle-other s type other handle r n =
    rw (fd_unmap_handle, find-exported s type handle r, n) refl

-- A buffer, and likewise a sync object, is exported when open gives a descriptor that is not in the
-- table, which is in the order of its keys. This returns 0 and the descriptor. To import the descriptor as what it is then is a fault: the
-- entry is read after it was erased. To import it as the other returns ENOENT and changes nothing.
pub drm_prime_fd_to_handle-exported :
    (s : Stub) (handle flags : ℕ)
    → Ready s
    → let fd = s.next_fd s.opened in
      let t = some (exported s gem handle) in
      let u = some (exported s syncobj handle) in
      (drm_prime_handle_to_fd process_ioctl (some s) handle flags ≡ (ok, some fd, t))
      × ((drm_prime_fd_to_handle process_ioctl t fd).2 ≡ none)
      × (drm_syncobj_fd_to_handle process_ioctl t fd ≡ (err enoent, none, t))
      × (drm_syncobj_handle_to_fd process_ioctl (some s) handle ≡ (ok, some fd, u))
      × ((drm_syncobj_fd_to_handle process_ioctl u fd).2 ≡ none)
      × (drm_prime_fd_to_handle process_ioctl u fd ≡ (err enoent, none, u))
unfolding drm_prime_handle_to_fd drm_prime_fd_to_handle drm_syncobj_handle_to_fd
    drm_syncobj_fd_to_handle to_fd process_ioctl ioctl_stub map_handle unmap_handle on_ok
    fd_map_handle
drm_prime_fd_to_handle-exported s handle flags r = (
  refl,
  rw
      (
        drm_prime_fd_to_handle,
        process_ioctl,
        ioctl_stub,
        unmap_handle,
        fd_unmap_handle-exported s gem handle r,
      )
      refl,
  rw
      (
        drm_syncobj_fd_to_handle,
        process_ioctl,
        ioctl_stub,
        unmap_handle,
        fd_unmap_handle-other s gem syncobj handle r refl,
      )
      refl,
  refl,
  rw
      (
        drm_syncobj_fd_to_handle,
        process_ioctl,
        ioctl_stub,
        unmap_handle,
        fd_unmap_handle-exported s syncobj handle r,
      )
      refl,
  rw
      (
        drm_prime_fd_to_handle,
        process_ioctl,
        ioctl_stub,
        unmap_handle,
        fd_unmap_handle-other s syncobj gem handle r refl,
      )
      refl,
)

-- A query for a capability other than the two for sync objects, which has no value here, returns 0 and
-- as its value the next descriptor, which then stands for a buffer: the one whose handle is the low
-- half of the capability.
drm_get_cap-unsupported :
    (s : Stub) (capability : ℕ)
    → capability ≢ 0x13
    → capability ≢ 0x14
    → s.next_fd s.opened < 2 ^ 32
    → drm_get_cap process_ioctl (some s) capability
      ≡ (ok, some (s.next_fd s.opened), some (exported s gem (capability % 2 ^ 32)))
unfolding drm_get_cap to_fd process_ioctl ioctl_stub map_handle on_ok fd_map_handle
drm_get_cap-unsupported s capability n m l =
    let t : ((capability == 0x13) || (capability == 0x14)) ≡ false = ground (arith, n, m) in
    let z : 0 + s.next_fd s.opened ≡ s.next_fd s.opened = omega arith in
    rw (drm_get_cap, to_fd, process_ioctl, ioctl_stub, t, z) refl

-- Mappings that do not wrap and do not overlap.
pub record Disjoint (m : Assoc GpuMapping) : Type 0 where
  pub ordered : Ordered 0 m
  pub fits : (k : ℕ) (v : GpuMapping) → find m k ≡ some v → k + v.size < 2 ^ 64
  pub offset_fits : (k : ℕ) (v : GpuMapping) → find m k ≡ some v → v.offset + k + v.size < 2 ^ 64
  pub apart :
      (j k : ℕ) (v w : GpuMapping) → find m j ≡ some v → find m k ≡ some w → j < k → j + v.size ≤ k

-- The last mapping that starts at or before an address is the one that holds it.
same_key :
    (s : Buffers) (k a j : ℕ) (m v : GpuMapping)
    → Disjoint s.mappings
    → find s.mappings k ≡ some m
    → k ≤ a
    → a < k + m.size
    → find s.mappings j ≡ some v
    → j ≤ a
    → ((i : ℕ) → j < i → i ≤ a → find s.mappings i ≡ none)
    → j ≡ k
same_key s k a j m v d f l u g h none_between = elim (dec_le j k) [
  | no n ↦ absurd (omega (arith, d.apart k j m v f g))
  | yes p ↦ elim (dec_le k j) [
    | yes q ↦ omega arith
    | no n ↦ absurd (cc (sym (none_between k (omega arith) l) ∙ f))
  ]
]

-- Every address in a mapping is found with its buffer and the offset that the mapping gives it.
pub this_mapped_gpu_buffer-find :
    (s : Buffers) (k a : ℕ) (m : GpuMapping)
    → Disjoint s.mappings
    → find s.mappings k ≡ some m
    → k ≤ a
    → a < k + m.size
    → this_mapped_gpu_buffer s a ≡ some (some (m.buffer, m.offset + (a - k)))
unfolding this_mapped_gpu_buffer
this_mapped_gpu_buffer-find s k a m d f l u = elim (Option-cases (floor s.mappings a)) [
  | inl z ↦ absurd (cc (sym (floor-none s.mappings a k z l) ∙ f))
  | inr ((j, v), z) ↦
      let (g, _, h, none_between) = floor-some s.mappings 0 a j v d.ordered z in
      let jk : j ≡ k = same_key s k a j m v d f l u g h none_between in
      let vm : v ≡ m = some_inj (sym g ∙ ap (find s.mappings) jk ∙ f) in
      let b = d.fits k m f in
      let c = d.offset_fits k m f in
      let t : ltb a (add64 k m.size) ≡ true = ground arith in
      let o : sub64 (add64 m.offset a) k ≡ m.offset + (a - k) = omega arith in
      rw (this_mapped_gpu_buffer, z, jk, vm, t, o) refl
]
