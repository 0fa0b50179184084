-- ===== src/Stub/Tests.antt =====
-- The driver of stub/ at concrete values: descriptors, sync objects and one mapped buffer.
use libdrm.Base.{
  ℕ, ◌+◌, ◌≤◌, ◌≡◌, refl, ◌==◌, none, some, [], ◌∷◌, arith, find, if◌then◌else◌, ok, err, enoent,
}
use libdrm.Drm.Syncobj.{drm_syncobj_handle_to_fd, drm_syncobj_fd_to_handle}
use libdrm.Drm.Device.{drm_prime_handle_to_fd, drm_prime_fd_to_handle}
use libdrm.Stub.Buffers.{
  GpuBuffer, GpuMapping, Buffers, no_buffers, this_mapped_gpu_buffer, create_gpu_buffer,
}
use libdrm.Stub.Fds.{gem, syncobj}
use libdrm.Stub.Ioctl.{Stub, process_ioctl}
use libdrm.Stub.Laws.{Ready, exported, Disjoint, drm_prime_fd_to_handle-exported}
use libdrm.Stub.Session.{IsSound, start, next, create, create_gpu_buffer-fresh}
use libdrm.Stub.Amdgpu.{gem_va_stub}
use libdrm.Stub.Mapped.{Unmapped, mapped}
use libdrm.Stub.Translate.{map_request, unmap_request, gem_va_stub-mapped}

-- open gives 5, then 6 and so on.
abbrev new_stub : Stub
new_stub = record {
  buffers = no_buffers;
  fds = record { map = []; closed = [] };
  next_syncobj = 1;
  next_fd = λ n. 5 + n;
  opened = 0;
}

-- Descriptor 3 stands for buffer 9.
abbrev one_fd : Stub
one_fd = record new_stub {
  fds = record { map = (3, record { type = gem; handle = 9 }) ∷ []; closed = [] };
}

one_fd-Ready : Ready one_fd
unfolding find
one_fd-Ready = record { ordered = (omega arith, tt); fresh = refl }

drm_prime_fd_to_handle-exported_example :
    (drm_prime_handle_to_fd process_ioctl (some one_fd) 7 0
      ≡ (ok, some 5, some (exported one_fd gem 7)))
    × ((drm_prime_fd_to_handle process_ioctl (some (exported one_fd gem 7)) 5).2 ≡ none)
    × (drm_syncobj_fd_to_handle process_ioctl (some (exported one_fd gem 7)) 5
        ≡ (err enoent, none, some (exported one_fd gem 7)))
    × (drm_syncobj_handle_to_fd process_ioctl (some one_fd) 7
        ≡ (ok, some 5, some (exported one_fd syncobj 7)))
    × ((drm_syncobj_fd_to_handle process_ioctl (some (exported one_fd syncobj 7)) 5).2 ≡ none)
    × (drm_prime_fd_to_handle process_ioctl (some (exported one_fd syncobj 7)) 5
        ≡ (err enoent, none, some (exported one_fd syncobj 7)))
drm_prime_fd_to_handle-exported_example = drm_prime_fd_to_handle-exported one_fd 7 0 one_fd-Ready

abbrev buffer : GpuBuffer
buffer = record { adr = 0x8000; size = 0x4000; alignment = 0x1000; domains = 4; flags = 0 }

abbrev low_half : GpuMapping
low_half = record { buffer = buffer; offset = 0; size = 0x2000 }

abbrev high_half : GpuMapping
high_half = record { buffer = buffer; offset = 0x2000; size = 0x2000 }

-- The two halves of a buffer, in the other order.
abbrev two_mappings : Buffers
two_mappings = record {
  handles = (1, buffer) ∷ [];
  last_handle = 2;
  mappings = (0x10_0000, high_half) ∷ (0x20_0000, low_half) ∷ [];
}

two_mappings-Disjoint : Disjoint two_mappings.mappings
unfolding find
two_mappings-Disjoint = record {
  ordered = (omega arith, (omega arith, tt));
  fits = λ k v e. ground arith;
  offset_fits = λ k v e. ground arith;
  apart = λ j k v w e f l. ground arith;
}

two_mappings-Unmapped : Unmapped two_mappings.mappings 0x30_0000 0x2000
unfolding find
two_mappings-Unmapped = record { none_here = refl; clear = λ k v e. ground arith }

-- The high half again, at a third address, and an address in it.
gem_va_stub-mapped_example :
    (gem_va_stub two_mappings (map_request 1 0 0x30_0000 0x2000 0x2000)
      ≡ (ok, mapped two_mappings 0x30_0000 high_half))
    × (this_mapped_gpu_buffer (mapped two_mappings 0x30_0000 high_half) 0x30_0010
        ≡ some (some (buffer, 0x2010)))
    × (gem_va_stub (mapped two_mappings 0x30_0000 high_half) (unmap_request 1 0 0x30_0000 0 0)
        ≡ (ok, two_mappings))
unfolding find
gem_va_stub-mapped_example =
    gem_va_stub-mapped two_mappings buffer 1 0 0x30_0000 0x2000 0x2000 0x30_0010 1 0 0 0
      two_mappings-Disjoint refl two_mappings-Unmapped (omega arith) (omega arith)

no_buffers-IsSound : IsSound no_buffers
unfolding find
no_buffers-IsSound = record { handles = tt; mappings = tt; below = λ h b e. absurd (cc) }

abbrev one_buffer : Buffers
one_buffer = (create_gpu_buffer no_buffers (some 0x8000) 0x4000 0x1000 4 0).2

create_gpu_buffer-fresh_example :
    (t : Buffers) × (create_gpu_buffer one_buffer (some 0xc000) 0x4000 0x1000 2 0 ≡ (ok, some 2, t))
    × (find one_buffer.handles 2 ≡ none)
    × (1 ≤ one_buffer.last_handle)
    × ((h : ℕ)
        → find t.handles h ≡ (
            if h == 2
            then some
                (record { adr = 0xc000; size = 0x4000; alignment = 0x1000; domains = 2; flags = 0 })
            else find one_buffer.handles h))
unfolding create_gpu_buffer
create_gpu_buffer-fresh_example =
    create_gpu_buffer-fresh no_buffers one_buffer 0xc000 0x4000 0x1000 2 0 no_buffers-IsSound
      (next start (create no_buffers (some 0x8000) 0x4000 0x1000 4 0 (omega arith)))
