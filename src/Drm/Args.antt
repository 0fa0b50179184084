-- ===== src/Drm/Args.antt =====
-- The ioctls of headers/drm.h that the library makes, and their arguments. A descriptor is the
-- `uint32_t` with its bits, -1 the greatest one; a pointer to an array is its address.
use libdrm.Base.{ℕ, Option, List}

abbrev pub no_fd : ℕ
no_fd = 0xffff_ffff

pub data Cmd : Type 0 where
  version gem_close get_cap set_client_cap auth_magic : Cmd
  prime_handle_to_fd prime_fd_to_handle : Cmd
  syncobj_create syncobj_destroy syncobj_handle_to_fd syncobj_fd_to_handle : Cmd
  syncobj_wait syncobj_timeline_wait syncobj_reset syncobj_signal : Cmd
  syncobj_timeline_signal syncobj_query syncobj_transfer syncobj_accumulate : Cmd

-- The three texts have a length, and a buffer that is NULL (`none`) or holds a text.
pub record VersionArgs : Type 0 where
  pub version_major : ℕ
  pub version_minor : ℕ
  pub version_patchlevel : ℕ
  pub name_len : ℕ
  pub name : Option (List ℕ)
  pub date_len : ℕ
  pub date : Option (List ℕ)
  pub desc_len : ℕ
  pub desc : Option (List ℕ)

pub record GemClose : Type 0 where
  pub handle : ℕ

pub record Cap : Type 0 where
  pub capability : ℕ
  pub value : ℕ

pub record Auth : Type 0 where
  pub magic : ℕ

-- drm_prime_handle and drm_syncobj_handle.
pub record HandleArgs : Type 0 where
  pub handle : ℕ
  pub flags : ℕ
  pub fd : ℕ

-- drm_syncobj_create and drm_syncobj_destroy.
pub record SyncobjArgs : Type 0 where
  pub handle : ℕ
  pub flags : ℕ

-- drm_syncobj_wait and drm_syncobj_timeline_wait; only the latter has points.
pub record WaitArgs : Type 0 where
  pub handles : ℕ
  pub points : ℕ
  pub timeout_nsec : ℕ
  pub count_handles : ℕ
  pub flags : ℕ
  pub first_signaled : ℕ

-- drm_syncobj_array and drm_syncobj_timeline_array; only the latter has points and flags.
pub record ArrayArgs : Type 0 where
  pub handles : ℕ
  pub points : ℕ
  pub count_handles : ℕ
  pub flags : ℕ

pub record TransferArgs : Type 0 where
  pub src_handle : ℕ
  pub dst_handle : ℕ
  pub src_point : ℕ
  pub dst_point : ℕ
  pub flags : ℕ

pub record AccumulateArgs : Type 0 where
  pub syncobj1 : ℕ
  pub syncobj2 : ℕ
  pub point : ℕ

abbrev pub Args : Cmd → Type 0
Args version = VersionArgs
Args gem_close = GemClose
Args get_cap = Cap
Args set_client_cap = Cap
Args auth_magic = Auth
Args prime_handle_to_fd = HandleArgs
Args prime_fd_to_handle = HandleArgs
Args syncobj_create = SyncobjArgs
Args syncobj_destroy = SyncobjArgs
Args syncobj_handle_to_fd = HandleArgs
Args syncobj_fd_to_handle = HandleArgs
Args syncobj_wait = WaitArgs
Args syncobj_timeline_wait = WaitArgs
Args syncobj_reset = ArrayArgs
Args syncobj_signal = ArrayArgs
Args syncobj_timeline_signal = ArrayArgs
Args syncobj_query = ArrayArgs
Args syncobj_transfer = TransferArgs
Args syncobj_accumulate = AccumulateArgs
