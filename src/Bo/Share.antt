-- ===== src/Bo/Share.antt =====
-- Sharing a buffer object: import, export, references, and the release of the last one.
use libdrm.Base.{
  ℕ, ◌==◌, Option, none, some, if◌then◌else◌, ltb, Ret, ok, err, einval, enosys, eperm, Errno,
}
use libdrm.HandleTable.{lookup, remove}
use libdrm.Bo.State.{Bo, Device, Answer, done, refused, store, bump, is_last, drop_ref}
use libdrm.Bo.Create.{Memory, bo_create, close_handle}
use libdrm.Bo.Cpu.{unmap_bo}

-- `enum amdgpu_bo_handle_type`.
pub data HandleType : Type 0 where
  gem_flink_name kms dma_buf_fd kms_noimport : HandleType
  unknown : ℕ → HandleType

-- The object and its size, written on success.
pub record Imported : Type 0 where
  pub ret : Ret
  pub output : Option (ℕ × ℕ)
  pub dev : Device

abbrev pub import_failed : Device → Errno → Imported
import_failed d e = record { ret = err e; output = none; dev = d }

-- "The buffer already exists, just bump the refcount." A dangling entry is a fault.
unfoldable pub reuse : Device → ℕ → Option Imported
reuse d p = elim (d.heap p) [
  | none ↦ none
  | some b ↦
      some (record { ret = ok; output = some (p, b.alloc_size); dev = store d p (some (bump b)) })
]

-- The end of an import whose handle has no object yet. With `flink_name` 0 the code behind
-- `if (flink_name)` is not reached, and on failure `bo` is NULL, so the handle is closed.
unfoldable pub import_new : Memory → Device → ℕ → ℕ → Imported
import_new m d size handle =
    let made = bo_create m d size handle in
    elim made.ret [
      | err e ↦ record { ret = err e; output = none; dev = close_handle made.dev handle }
      | ok ↦ elim made.buf_handle [
        | none ↦ import_failed made.dev einval
        | some p ↦ record { ret = ok; output = some (p, size); dev = made.dev }
      ]
    ]

-- `to_handle` is the answer of DrmPrimeFDToHandle, `info` the size from AmdgpuBoQueryInfo.
unfoldable pub bo_import : Memory → Device → HandleType → ℕ → Answer ℕ → Answer ℕ → Option Imported
bo_import m d dma_buf_fd shared (refused e) info = some (import_failed d e)
bo_import m d dma_buf_fd shared (done handle) (refused e) = some (import_failed d e)
bo_import m d dma_buf_fd shared (done handle) (done size) = elim (lookup d.bo_handles handle) [
  | some p ↦ reuse d p
  | none ↦ some (import_new m d size handle)
]
bo_import m d gem_flink_name shared to_handle info = elim (lookup d.bo_flink_names shared) [
  | some p ↦ reuse d p
  | none ↦ some (import_failed d enosys)
]
bo_import m d kms shared to_handle info = some (import_failed d eperm)
bo_import m d kms_noimport shared to_handle info = some (import_failed d eperm)
bo_import m d (unknown n) shared to_handle info = some (import_failed d einval)

-- `to_fd` is the answer of DrmPrimeHandleToFD. The result is what `*shared_handle` receives.
pub bo_export : Bo → HandleType → Answer ℕ → Ret × Option ℕ
bo_export b gem_flink_name to_fd = (err enosys, none)
bo_export b kms to_fd = (ok, some b.handle)
bo_export b kms_noimport to_fd = (ok, some b.handle)
bo_export b dma_buf_fd (done fd) = (ok, some fd)
bo_export b dma_buf_fd (refused e) = (err e, none)
bo_export b (unknown n) to_fd = (err einval, none)

unfoldable pub bo_inc_ref : Device → ℕ → Option Device
bo_inc_ref d p = elim (d.heap p) [ none ↦ none | some b ↦ some (store d p (some (bump b))) ]

-- The tables without the object.
unfoldable pub unregister : Device → Bo → Device
unregister d b = record d {
  bo_handles = remove d.bo_handles b.handle;
  bo_flink_names =
      if b.flink_name == 0 then d.bo_flink_names else remove d.bo_flink_names b.flink_name;
}

-- The object as it is when it is freed: CPU access is released whatever the count.
unfoldable pub release_cpu : Bo → Ret → Bo
release_cpu b unmapped =
    if ltb 0 b.cpu_map_count then (unmap_bo (record b { cpu_map_count = 1 }) unmapped).1 else b

-- `unmapped` is what drm_munmap gives, if it is called; its error is dropped.
unfoldable pub bo_free : Device → ℕ → Ret → Option Device
unfolding unregister release_cpu
bo_free d p unmapped = elim (d.heap p) [
  | none ↦ none
  | some b ↦
      if b.refcount == 0
      then none
      else if is_last b
      then some
          (close_handle (store (unregister d b) p none) (release_cpu (drop_ref b) unmapped).handle)
      else some (store d p (some (drop_ref b)))
]
