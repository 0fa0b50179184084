-- ===== src/Stub/Ioctl.antt =====
-- `drmIoctlStub` of stub/libdrmStub.cpp, without the commands of the amdgpu driver.
use libdrm.Base.{
  ℕ, ◌+◌, ◌*◌, ◌/◌, ◌%◌, ◌^◌, ◌==◌, ◌||◌, Option, none, some, List, [], ◌∷◌, if◌then◌else◌, add32,
  length, Ret, ok, err, failure,
}
use libdrm.Drm.Args.{
  Cmd, version, gem_close, get_cap, set_client_cap, auth_magic, prime_handle_to_fd,
  prime_fd_to_handle, syncobj_create, syncobj_destroy, syncobj_handle_to_fd, syncobj_fd_to_handle,
  syncobj_wait, syncobj_timeline_wait, syncobj_reset, syncobj_signal, syncobj_timeline_signal,
  syncobj_query, syncobj_transfer, syncobj_accumulate, Args, HandleArgs, VersionArgs,
}
use libdrm.Drm.Syncobj.{Ioctl}
use libdrm.Stub.Buffers.{Buffers, close_gpu_buffer}
use libdrm.Stub.Fds.{
  Fds, fd_map_gem_handle, fd_unmap_gem_handle, fd_map_syncobj_handle, fd_unmap_syncobj_handle,
}

-- The tables, and the counter of sync objects. `next_fd` is what the next open gives.
pub record Stub : Type 0 where
  pub buffers : Buffers
  pub fds : Fds
  pub next_syncobj : ℕ
  pub next_fd : ℕ → ℕ
  pub opened : ℕ

-- "amdgpu", "20150101" and "AMD GPU".
abbrev pub name_text : List ℕ
name_text = 97 ∷ 109 ∷ 100 ∷ 103 ∷ 112 ∷ 117 ∷ []

abbrev pub date_text : List ℕ
date_text = 50 ∷ 48 ∷ 49 ∷ 53 ∷ 48 ∷ 49 ∷ 48 ∷ 49 ∷ []

abbrev pub desc_text : List ℕ
desc_text = 65 ∷ 77 ∷ 68 ∷ 32 ∷ 71 ∷ 80 ∷ 85 ∷ []

-- strcpy to a buffer, unless it is NULL.
abbrev pub copied : Option (List ℕ) → List ℕ → Option (List ℕ)
copied none text = none
copied (some old) text = some text

unfoldable pub version_answer : VersionArgs → VersionArgs
version_answer a = record {
  version_major = 3;
  version_minor = 42;
  version_patchlevel = 0;
  name_len = length name_text;
  name = copied a.name name_text;
  date_len = length date_text;
  date = copied a.date date_text;
  desc_len = length desc_text;
  desc = copied a.desc desc_text;
}

-- The two ioctls that make a descriptor for a handle.
unfoldable pub map_handle : (Fds → ℕ → ℕ → Ret × Fds) → Stub → HandleArgs → Ret × HandleArgs × Stub
map_handle call s a =
    let fd = s.next_fd s.opened in
    let (r, fds) = call s.fds fd a.handle in
    (r, record a { fd = fd }, record s { fds = fds; opened = s.opened + 1 })

-- And the two that take one: `*handle` is only written on success.
unfoldable pub unmap_handle :
    (Fds → ℕ → Option (Ret × Option ℕ × Fds)) → Stub → HandleArgs → Option (Ret × HandleArgs × Stub)
unmap_handle call s a = elim (call s.fds a.fd) [
  | none ↦ none
  | some (r, handle, fds) ↦ some (
    r,
    record a { handle = elim handle [ none ↦ a.handle | some h ↦ h ] },
    record s { fds = fds },
  )
]

-- DRM_CAP_SYNCOBJ and DRM_CAP_SYNCOBJ_TIMELINE. For any other capability the code runs on into the case
-- of PRIME_HANDLE_TO_FD: the low half of `capability` is its handle, and that of `value` its `fd`. `none` is a fault.
unfoldable pub ioctl_stub : Stub → (c : Cmd) → Args c → Option (Ret × Args c × Stub)
unfolding version_answer map_handle unmap_handle
ioctl_stub s version a = some (ok, version_answer a, s)
ioctl_stub s gem_close a =
    let (r, buffers) = close_gpu_buffer s.buffers a.handle in
    some (r, a, record s { buffers = buffers })
ioctl_stub s get_cap a =
    let (r, b, s') = map_handle fd_map_gem_handle s (record {
      handle = a.capability % 2 ^ 32;
      flags = (a.capability / 2 ^ 32) % 2 ^ 32;
      fd = a.value % 2 ^ 32;
    }) in
    if (a.capability == 0x13) || (a.capability == 0x14)
    then some (ok, record a { value = 1 }, s)
    else some (r, record a { value = (a.value / 2 ^ 32) * 2 ^ 32 + b.fd }, s')
ioctl_stub s set_client_cap a = some (err failure, a, s)
ioctl_stub s auth_magic a = some (err failure, a, s)
ioctl_stub s prime_handle_to_fd a = some (map_handle fd_map_gem_handle s a)
ioctl_stub s prime_fd_to_handle a = unmap_handle fd_unmap_gem_handle s a
ioctl_stub s syncobj_create a =
    some
      (ok, record a { handle = s.next_syncobj }, record s { next_syncobj = add32 s.next_syncobj 1 })
ioctl_stub s syncobj_destroy a = some (ok, a, s)
ioctl_stub s syncobj_handle_to_fd a = some (map_handle fd_map_syncobj_handle s a)
ioctl_stub s syncobj_fd_to_handle a = unmap_handle fd_unmap_syncobj_handle s a
ioctl_stub s syncobj_wait a = some (ok, a, s)
ioctl_stub s syncobj_timeline_wait a = some (ok, record a { first_signaled = 0 }, s)
ioctl_stub s syncobj_reset a = some (ok, a, s)
ioctl_stub s syncobj_signal a = some (ok, a, s)
ioctl_stub s syncobj_timeline_signal a = some (err failure, a, s)
ioctl_stub s syncobj_query a = some (err failure, a, s)
ioctl_stub s syncobj_transfer a = some (ok, a, s)
ioctl_stub s syncobj_accumulate a = some (ok, a, s)

-- drmIoctl in a process that uses the stub: after a fault there is no process.
unfoldable pub process_ioctl : Ioctl (Option Stub)
unfolding ioctl_stub
process_ioctl none c a = (err failure, a, none)
process_ioctl (some s) c a = elim (ioctl_stub s c a) [
  | none ↦ (err failure, a, none)
  | some (r, b, t) ↦ (r, b, some t)
]
