-- ===== src/Stub/Buffers.antt =====
-- stub/memory.cpp: GPU buffers by handle, and GPU address ranges that are mapped to them. A reference
-- to a buffer is the buffer itself, which no call changes after its creation.
use libdrm.Base.{
  ℕ, Option, none, some, [], Assoc, find, emplace, erase, floor, if◌then◌else◌, ltb, add32, add64,
  sub64, Ret, ok, err, enomem, failure,
}

pub record GpuBuffer : Type 0 where
  pub adr : ℕ
  pub size : ℕ
  pub alignment : ℕ
  pub domains : ℕ
  pub flags : ℕ

pub record GpuMapping : Type 0 where
  pub buffer : GpuBuffer
  pub offset : ℕ
  pub size : ℕ

pub record Buffers : Type 0 where
  pub handles : Assoc GpuBuffer
  pub last_handle : ℕ
  pub mappings : Assoc GpuMapping

abbrev pub no_buffers : Buffers
no_buffers = record { handles = []; last_handle = 1; mappings = [] }

unfoldable pub this_gpu_buffer : Buffers → ℕ → Option GpuBuffer
this_gpu_buffer s handle = find s.handles handle

-- The buffer mapped at an address, and the offset in it. The outer `none` is a fault: below the first
-- mapping the iterator is moved before the beginning of the map. NULL is the inner one.
unfoldable pub this_mapped_gpu_buffer : Buffers → ℕ → Option (Option (GpuBuffer × ℕ))
this_mapped_gpu_buffer s map_adr = elim (floor s.mappings map_adr) [
  | none ↦ none
  | some (first, m) ↦ some (
      if ltb map_adr (add64 first m.size)
      then some (m.buffer, sub64 (add64 m.offset map_adr) first)
      else none)
]

-- `area` is the address of the memory that create_area gives, if it gives any. The result is what
-- `_handle` receives.
unfoldable pub create_gpu_buffer :
    Buffers → Option ℕ → (size alignment domains flags : ℕ) → Ret × Option ℕ × Buffers
create_gpu_buffer s none size alignment domains flags = (err enomem, none, s)
create_gpu_buffer s (some adr) size alignment domains flags = (
  ok,
  some s.last_handle,
  record s {
    handles = emplace s.handles s.last_handle (record {
      adr = adr;
      size = size;
      alignment = alignment;
      domains = domains;
      flags = flags;
    });
    last_handle = add32 s.last_handle 1;
  },
)

unfoldable pub close_gpu_buffer : Buffers → ℕ → Ret × Buffers
close_gpu_buffer s handle = elim (find s.handles handle) [
  | none ↦ (err failure, s)
  | some b ↦ (ok, record s { handles = erase s.handles handle })
]

-- An address that is mapped already keeps its mapping.
unfoldable pub map_gpu_buffer :
    Buffers → (handle flags map_adr buf_offset map_size : ℕ) → Ret × Buffers
unfolding this_gpu_buffer
map_gpu_buffer s handle flags map_adr buf_offset map_size = elim (this_gpu_buffer s handle) [
  | none ↦ (err failure, s)
  | some b ↦ (
    ok,
    record s {
      mappings =
          emplace s.mappings map_adr (record { buffer = b; offset = buf_offset; size = map_size });
    },
  )
]

unfoldable pub unmap_gpu_buffer :
    Buffers → (handle flags map_adr buf_offset map_size : ℕ) → Ret × Buffers
unmap_gpu_buffer s handle flags map_adr buf_offset map_size = elim (find s.mappings map_adr) [
  | none ↦ (err failure, s)
  | some m ↦ (ok, record s { mappings = erase s.mappings map_adr })
]

-- `drmMmapStub`: the offset is the handle.
unfoldable pub mmap_stub : Buffers → ℕ → Option ℕ
unfolding this_gpu_buffer
mmap_stub s offset = elim (this_gpu_buffer s offset) [ none ↦ none | some b ↦ some b.adr ]
