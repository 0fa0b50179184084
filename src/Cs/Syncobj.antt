-- ===== src/Cs/Syncobj.antt =====
-- The calls on sync objects that check the device and pass on, amdgpu_cs_create_syncobj2 and so on, and
-- the submission of chunks that the application has made, amdgpu_cs_submit_raw and _submit_raw2.
use libdrm.Base.{ℕ, Bool, true, false, Option, none, some, Ret, err, einval}
use libdrm.Cs.State.{State}

-- The calls of `acc_drm` by their names DrmSyncobj*, on a driver with the state `D`. An array is its
-- address.
pub record Calls (D : Type 0) : Type 0 where
  pub create : D → (flags : ℕ) → Ret × Option ℕ × D
  pub destroy : D → (handle : ℕ) → Ret × D
  pub reset : D → (handles count : ℕ) → Ret × D
  pub signal : D → (handles count : ℕ) → Ret × D
  pub timeline_signal : D → (handles points count : ℕ) → Ret × D
  pub wait : D → (handles count timeout_nsec flags : ℕ) → Ret × Option ℕ × D
  pub timeline_wait : D → (handles points count timeout_nsec flags : ℕ) → Ret × Option ℕ × D
  pub query : D → (handles points count flags : ℕ) → Ret × D
  pub handle_to_fd : D → (handle : ℕ) → Ret × Option ℕ × D
  pub fd_to_handle : D → (fd : ℕ) → Ret × Option ℕ × D
  pub export_sync_file : D → (handle : ℕ) → Ret × Option ℕ × D
  pub import_sync_file : D → (handle fd : ℕ) → Ret × D
  pub transfer : D → (dst_handle dst_point src_handle src_point flags : ℕ) → Ret × D
  pub accumulate : D → (syncobj1 syncobj2 point : ℕ) → Ret × D

module _ {D : Type 0} (calls : Calls D) (d : D) where
  -- A call with an output parameter and one without, if the device pointer is not NULL.
  abbrev checked : (dev : Bool) → Ret × Option ℕ × D → Ret × Option ℕ × D
  checked true r = r
  checked false r = (err einval, none, d)

  abbrev checked_plain : (dev : Bool) → Ret × D → Ret × D
  checked_plain true r = r
  checked_plain false r = (err einval, d)

  unfoldable pub create_syncobj2 : (dev : Bool) (flags : ℕ) → Ret × Option ℕ × D
  create_syncobj2 dev flags = checked dev (calls.create d flags)

  unfoldable pub create_syncobj : (dev : Bool) → Ret × Option ℕ × D
  create_syncobj dev = checked dev (calls.create d 0)

  unfoldable pub destroy_syncobj : (dev : Bool) (handle : ℕ) → Ret × D
  destroy_syncobj dev handle = checked_plain dev (calls.destroy d handle)

  unfoldable pub syncobj_reset : (dev : Bool) (syncobjs syncobj_count : ℕ) → Ret × D
  syncobj_reset dev syncobjs syncobj_count =
      checked_plain dev (calls.reset d syncobjs syncobj_count)

  unfoldable pub syncobj_signal : (dev : Bool) (syncobjs syncobj_count : ℕ) → Ret × D
  syncobj_signal dev syncobjs syncobj_count =
      checked_plain dev (calls.signal d syncobjs syncobj_count)

  unfoldable pub syncobj_timeline_signal :
      (dev : Bool) (syncobjs points syncobj_count : ℕ) → Ret × D
  syncobj_timeline_signal dev syncobjs points syncobj_count =
      checked_plain dev (calls.timeline_signal d syncobjs points syncobj_count)

  unfoldable pub syncobj_wait :
      (dev : Bool) (handles num_handles timeout_nsec flags : ℕ) → Ret × Option ℕ × D
  syncobj_wait dev handles num_handles timeout_nsec flags =
      checked dev (calls.wait d handles num_handles timeout_nsec flags)

  unfoldable pub syncobj_timeline_wait :
      (dev : Bool) (handles points num_handles timeout_nsec flags : ℕ) → Ret × Option ℕ × D
  syncobj_timeline_wait dev handles points num_handles timeout_nsec flags =
      checked dev (calls.timeline_wait d handles points num_handles timeout_nsec flags)

  unfoldable pub syncobj_query : (dev : Bool) (handles points num_handles : ℕ) → Ret × D
  syncobj_query dev handles points num_handles =
      checked_plain dev (calls.query d handles points num_handles 0)

  unfoldable pub syncobj_query2 : (dev : Bool) (handles points num_handles flags : ℕ) → Ret × D
  syncobj_query2 dev handles points num_handles flags =
      checked_plain dev (calls.query d handles points num_handles flags)

  unfoldable pub export_syncobj : (dev : Bool) (handle : ℕ) → Ret × Option ℕ × D
  export_syncobj dev handle = checked dev (calls.handle_to_fd d handle)

  unfoldable pub import_syncobj : (dev : Bool) (shared_fd : ℕ) → Ret × Option ℕ × D
  import_syncobj dev shared_fd = checked dev (calls.fd_to_handle d shared_fd)

  unfoldable pub syncobj_export_sync_file : (dev : Bool) (syncobj : ℕ) → Ret × Option ℕ × D
  syncobj_export_sync_file dev syncobj = checked dev (calls.export_sync_file d syncobj)

  unfoldable pub syncobj_import_sync_file : (dev : Bool) (syncobj sync_file_fd : ℕ) → Ret × D
  syncobj_import_sync_file dev syncobj sync_file_fd =
      checked_plain dev (calls.import_sync_file d syncobj sync_file_fd)

  unfoldable pub syncobj_transfer :
      (dev : Bool) (dst_handle dst_point src_handle src_point flags : ℕ) → Ret × D
  syncobj_transfer dev dst_handle dst_point src_handle src_point flags =
      checked_plain dev (calls.transfer d dst_handle dst_point src_handle src_point flags)

  unfoldable pub syncobj_accumulate : (dev : Bool) (syncobj1 syncobj2 point : ℕ) → Ret × D
  syncobj_accumulate dev syncobj1 syncobj2 point =
      checked_plain dev (calls.accumulate d syncobj1 syncobj2 point)

-- AmdgpuCsSubmitRaw: the result, and what `*seq_no` holds.
abbrev pub SubmitRaw : Type 0 → Type 0
SubmitRaw D = D → (ctx_id bo_list_handle num_chunks chunks : ℕ) → Ret × Option ℕ × D

module _ {D : Type 0} (raw : SubmitRaw D) (s : State) (d : D) where
  -- A context that is not there is a fault.
  unfoldable pub submit_raw2 :
      (context bo_list_handle num_chunks chunks : ℕ) → Option (Ret × Option ℕ × D)
  submit_raw2 context bo_list_handle num_chunks chunks = elim (s.contexts context) [
    | none ↦ none
    | some c ↦ some (raw d c.id bo_list_handle num_chunks chunks)
  ]

  -- `bo_list_handle` is NULL or has a handle.
  unfoldable pub submit_raw :
      (context : ℕ) (bo_list_handle : Option ℕ) (num_chunks chunks : ℕ)
      → Option (Ret × Option ℕ × D)
  unfolding submit_raw2
  submit_raw context none num_chunks chunks = submit_raw2 context 0 num_chunks chunks
  submit_raw context (some handle) num_chunks chunks = submit_raw2 context handle num_chunks chunks
