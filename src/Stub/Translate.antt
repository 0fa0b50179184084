-- ===== src/Stub/Translate.antt =====
-- The mapping of a buffer at a GPU address, the translation of addresses, and the end of the mapping.
use libdrm.Base.{
  ℕ, leb, ltb, ◌&&◌, ◌+◌, ◌-◌, ◌<◌, ◌^◌, ◌≡◌, refl, inl, inr, some, find, erase-emplace,
  if◌then◌else◌, arith, Bool-cases, ok,
}
use libdrm.Stub.Buffers.{
  GpuBuffer, GpuMapping, Buffers, this_gpu_buffer, this_mapped_gpu_buffer, map_gpu_buffer,
  unmap_gpu_buffer,
}
use libdrm.Stub.Laws.{Disjoint, this_mapped_gpu_buffer-find}
use libdrm.Stub.Amdgpu.{GemVa, va_op_map, va_op_unmap, gem_va_stub}
use libdrm.Stub.Mapped.{
  Unmapped, mapped, find-mapped, mapped-Disjoint, outside, this_mapped_gpu_buffer-outside,
}

abbrev pub map_request : (handle flags va off size : ℕ) → GemVa
map_request handle flags va off size = record {
  handle = handle;
  operation = va_op_map;
  flags = flags;
  va_address = va;
  offset_in_bo = off;
  map_size = size;
}

abbrev pub unmap_request : (handle flags va off size : ℕ) → GemVa
unmap_request handle flags va off size = record (map_request handle flags va off size) {
  operation = va_op_unmap;
}

-- A buffer is mapped at a range without a mapping. The mappings are in the order of their addresses and
-- do not overlap, and neither they, the range, nor the offsets in them reach 2^64. Then an address in
-- the range stands for the buffer, at the offset asked for and so many bytes on. The search for any
-- other address gives what it gave, but where it was a fault for want of a mapping at or below the
-- address, it gives NULL if the range is below. And the request that unmaps the range, whatever else
-- it says, brings the old state back.
pub gem_va_stub-mapped :
    (s : Buffers) (b : GpuBuffer) (handle flags va off size c handle' flags' off' size' : ℕ)
    → Disjoint s.mappings
    → find s.handles handle ≡ some b
    → Unmapped s.mappings va size
    → va + size < 2 ^ 64
    → off + va + size < 2 ^ 64
    → let t = mapped s va (record { buffer = b; offset = off; size = size }) in
      (gem_va_stub s (map_request handle flags va off size) ≡ (ok, t))
      × (this_mapped_gpu_buffer t c ≡ (
          if leb va c && ltb c (va + size)
          then some (some (b, off + (c - va)))
          else outside (leb va c) (this_mapped_gpu_buffer s c)))
      × (gem_va_stub t (unmap_request handle' flags' va off' size') ≡ (ok, s))
unfolding gem_va_stub map_gpu_buffer unmap_gpu_buffer this_gpu_buffer
gem_va_stub-mapped s b handle flags va off size c handle' flags' off' size' d e u f g =
    let n : GpuMapping = record { buffer = b; offset = off; size = size } in
    let t = mapped s va n in
    let here : find t.mappings va ≡ some n = ground (arith, find-mapped s va va n d u.none_here) in
    (
      rw (gem_va_stub, map_gpu_buffer, this_gpu_buffer, e) refl,
      elim (Bool-cases (leb va c && ltb c (va + size))) [
        | inl z ↦ rw z (
            this_mapped_gpu_buffer-find t va c n (mapped-Disjoint s va n d u f g) here
              (ground arith) (ground arith))
        | inr z ↦ rw z (this_mapped_gpu_buffer-outside s va c n d u f (ground arith))
      ],
      rw
          (
            gem_va_stub,
            unmap_gpu_buffer,
            here,
            erase-emplace s.mappings 0 va n d.ordered u.none_here,
          )
          refl,
    )
