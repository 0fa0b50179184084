-- ===== src/Drm/Syncobj.antt =====
-- The calls on sync objects. `ioctl` is drmIoctl for one descriptor, on a driver with the state `S`.
use libdrm.Base.{ℕ, Option, none, some, Ret, ok, err}
use libdrm.Drm.Args.{
  Cmd, syncobj_create, syncobj_destroy, syncobj_handle_to_fd, syncobj_fd_to_handle, syncobj_wait,
  syncobj_timeline_wait, syncobj_reset, syncobj_signal, syncobj_timeline_signal, syncobj_query,
  syncobj_transfer, syncobj_accumulate, Args, WaitArgs, no_fd,
}

-- The type of drmIoctl.
abbrev pub Ioctl : Type 0 → Type 0
Ioctl S = S → (c : Cmd) → Args c → Ret × Args c × S

-- An output parameter that is written when the ioctl returns 0.
unfoldable pub on_ok : Ret → ℕ → Option ℕ
on_ok ok v = some v
on_ok (err e) v = none

-- DRM_SYNCOBJ_FD_TO_HANDLE_FLAGS_IMPORT_SYNC_FILE and DRM_SYNCOBJ_HANDLE_TO_FD_FLAGS_EXPORT_SYNC_FILE.
abbrev pub sync_file_flag : ℕ
sync_file_flag = 1

module _ {S : Type 0} (ioctl : Ioctl S) (s : S) where
  unfoldable pub drm_syncobj_create : (flags : ℕ) → Ret × Option ℕ × S
  drm_syncobj_create flags =
      let (ret, args, s') = ioctl s syncobj_create (record { handle = 0; flags = flags }) in
      (ret, on_ok ret args.handle, s')

  unfoldable pub drm_syncobj_destroy : (handle : ℕ) → Ret × S
  drm_syncobj_destroy handle =
      let (ret, args, s') = ioctl s syncobj_destroy (record { handle = handle; flags = 0 }) in
      (ret, s')

  -- The end of the two calls that make a descriptor for an object, and what `*fd` receives.
  unfoldable pub to_fd : (c : Cmd) → (Args c → ℕ) → Args c → Ret × Option ℕ × S
  to_fd c fd a = let (ret, args, s') = ioctl s c a in (ret, on_ok ret (fd args), s')

  unfoldable pub drm_syncobj_handle_to_fd : (handle : ℕ) → Ret × Option ℕ × S
  unfolding to_fd
  drm_syncobj_handle_to_fd handle =
      to_fd syncobj_handle_to_fd (λ a. a.fd) (record { handle = handle; flags = 0; fd = no_fd })

  unfoldable pub drm_syncobj_export_sync_file : (handle : ℕ) → Ret × Option ℕ × S
  unfolding to_fd
  drm_syncobj_export_sync_file handle =
      to_fd syncobj_handle_to_fd (λ a. a.fd)
        (record { handle = handle; flags = sync_file_flag; fd = no_fd })

  unfoldable pub drm_syncobj_fd_to_handle : (obj_fd : ℕ) → Ret × Option ℕ × S
  unfolding to_fd
  drm_syncobj_fd_to_handle obj_fd =
      to_fd syncobj_fd_to_handle (λ a. a.handle) (record { handle = 0; flags = 0; fd = obj_fd })

  unfoldable pub drm_syncobj_import_sync_file : (handle sync_file_fd : ℕ) → Ret × S
  drm_syncobj_import_sync_file handle sync_file_fd =
      let (ret, args, s') =
        ioctl s syncobj_fd_to_handle
          (record { handle = handle; flags = sync_file_flag; fd = sync_file_fd }) in
      (ret, s')

  -- A failed wait returns `errno`. `*first_signaled` is written on success, unless it is NULL.
  unfoldable pub waited : Ret → (errno : Ret) → WaitArgs → S → Ret × Option ℕ × S
  waited ok errno args s' = (ok, some args.first_signaled, s')
  waited (err e) errno args s' = (errno, none, s')

  unfoldable pub drm_syncobj_wait :
      (errno : Ret) (handles num_handles timeout_nsec flags : ℕ) → Ret × Option ℕ × S
  unfolding waited
  drm_syncobj_wait errno handles num_handles timeout_nsec flags =
      let (ret, args, s') = ioctl s syncobj_wait (record {
        handles = handles;
        points = 0;
        timeout_nsec = timeout_nsec;
        count_handles = num_handles;
        flags = flags;
        first_signaled = 0;
      }) in
      waited ret errno args s'

  unfoldable pub drm_syncobj_timeline_wait :
      (errno : Ret) (handles points num_handles timeout_nsec flags : ℕ) → Ret × Option ℕ × S
  unfolding waited
  drm_syncobj_timeline_wait errno handles points num_handles timeout_nsec flags =
      let (ret, args, s') = ioctl s syncobj_timeline_wait (record {
        handles = handles;
        points = points;
        timeout_nsec = timeout_nsec;
        count_handles = num_handles;
        flags = flags;
        first_signaled = 0;
      }) in
      waited ret errno args s'

  -- The calls that have no result but the code.
  unfoldable pub plain : (c : Cmd) → Args c → Ret × S
  plain c a = let (ret, args, s') = ioctl s c a in (ret, s')

  unfoldable pub drm_syncobj_reset : (handles handle_count : ℕ) → Ret × S
  unfolding plain
  drm_syncobj_reset handles handle_count =
      plain syncobj_reset
        (record { handles = handles; points = 0; count_handles = handle_count; flags = 0 })

  unfoldable pub drm_syncobj_signal : (handles handle_count : ℕ) → Ret × S
  unfolding plain
  drm_syncobj_signal handles handle_count =
      plain syncobj_signal
        (record { handles = handles; points = 0; count_handles = handle_count; flags = 0 })

  unfoldable pub drm_syncobj_timeline_signal : (handles points handle_count : ℕ) → Ret × S
  unfolding plain
  drm_syncobj_timeline_signal handles points handle_count =
      plain syncobj_timeline_signal
        (record { handles = handles; points = points; count_handles = handle_count; flags = 0 })

  -- drmSyncobjQuery2; drmSyncobjQuery is the one with no flags.
  unfoldable pub drm_syncobj_query2 : (handles points handle_count flags : ℕ) → Ret × S
  unfolding plain
  drm_syncobj_query2 handles points handle_count flags =
      plain syncobj_query
        (record { handles = handles; points = points; count_handles = handle_count; flags = flags })

  unfoldable pub drm_syncobj_query : (handles points handle_count : ℕ) → Ret × S
  unfolding drm_syncobj_query2
  drm_syncobj_query handles points handle_count = drm_syncobj_query2 handles points handle_count 0

  unfoldable pub drm_syncobj_transfer :
      (dst_handle dst_point src_handle src_point flags : ℕ) → Ret × S
  unfolding plain
  drm_syncobj_transfer dst_handle dst_point src_handle src_point flags =
      plain syncobj_transfer (record {
        src_handle = src_handle;
        dst_handle = dst_handle;
        src_point = src_point;
        dst_point = dst_point;
        flags = flags;
      })

  unfoldable pub drm_syncobj_accumulate : (syncobj1 syncobj2 point : ℕ) → Ret × S
  unfolding plain
  drm_syncobj_accumulate syncobj1 syncobj2 point =
      plain syncobj_accumulate (record { syncobj1 = syncobj1; syncobj2 = syncobj2; point = point })
