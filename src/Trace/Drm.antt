-- ===== src/Trace/Drm.antt =====
-- The commands of all drivers as they are printed, `drmWriteCmd`, and `drmIoctlTrace`.
use Prim.Native.String.{String}
use libdrm.Base.{
  ℕ, ◌+◌, ◌-◌, ◌*◌, ◌==◌, ◌&&◌, Bool, true, false, List, [], ◌∷◌, if◌then◌else◌, leb, ltb,
}
use libdrm.Trace.Output.{M, ◌>>=◌, ◌>>◌, nothing, say, print, load, u32, u64, choose, show}
use libdrm.Trace.Flags.{create_flags, to_fd_flags, from_fd_flags, wait_flags, FlagWord, write_flags}
use libdrm.Trace.Post.{commas}
use libdrm.Trace.Commands.{write_amdgpu_cmd, write_amdgpu_answer}

-- `struct drm_version`.
unfoldable pub write_version_answer : ℕ → M (Unit {0})
unfolding show
write_version_answer arg = do
  say " -> (\n"
  show arg "  version: %d.%d.%d\n" ((0, 4) ∷ (4, 4) ∷ (8, 4) ∷ [])
  show arg "  name: \"%s\"\n" ((24, 8) ∷ [])
  show arg "  date: \"%s\"\n" ((40, 8) ∷ [])
  show arg "  desc: \"%s\"\n" ((56, 8) ∷ [])
  say ")"

-- VERSION, GET_CAP, SYNCOBJ_CREATE, SYNCOBJ_HANDLE_TO_FD, PRIME_HANDLE_TO_FD, PRIME_FD_TO_HANDLE,
-- SYNCOBJ_WAIT and SYNCOBJ_TIMELINE_WAIT.
unfoldable pub write_answer : (cmd arg : ℕ) → M (Unit {0})
unfolding write_version_answer show
write_answer cmd arg =
    if cmd == 0x00
    then write_version_answer arg
    else if cmd == 0x0c
    then show arg " -> %PRIx64" ((8, 8) ∷ [])
    else if cmd == 0xbf
    then show arg " -> %PRIu32" ((0, 4) ∷ [])
    else if cmd == 0xc1
    then show arg " -> %PRIu32" ((8, 4) ∷ [])
    else if cmd == 0x2d
    then show arg "-> %PRId32" ((8, 4) ∷ [])
    else if cmd == 0x2e
    then show arg " -> %PRIu32" ((0, 4) ∷ [])
    else if cmd == 0xc3
    then show arg " -> %PRIu32" ((24, 4) ∷ [])
    else if cmd == 0xca
    then show arg " -> %PRIu32" ((32, 4) ∷ [])
    else nothing

abbrev pub cap_texts : List (ℕ × String)
cap_texts =
    (0x1, "DUMB_BUFFER")
    ∷ (0x2, "VBLANK_HIGH_CRTC")
    ∷ (0x3, "DUMB_PREFERRED_DEPTH")
    ∷ (0x4, "DUMB_PREFER_SHADOW")
    ∷ (0x5, "PRIME")
    ∷ (0x6, "TIMESTAMP_MONOTONIC")
    ∷ (0x7, "ASYNC_PAGE_FLIP")
    ∷ (0x8, "CURSOR_WIDTH")
    ∷ (0x9, "CURSOR_HEIGHT")
    ∷ (0x10, "ADDFB2_MODIFIERS")
    ∷ (0x11, "PAGE_FLIP_TARGET")
    ∷ (0x12, "CRTC_IN_VBLANK_EVENT")
    ∷ (0x13, "SYNCOBJ")
    ∷ (0x14, "SYNCOBJ_TIMELINE")
    ∷ []

unfoldable pub write_get_cap : ℕ → M (Unit {0})
unfolding choose load
write_get_cap arg = do
  say "("
  capability ← u64 arg
  choose cap_texts (print "? (%PRIu64)" (capability ∷ [])) capability
  say ")"

-- A word of flags at `address`, closed by "})".
unfoldable pub write_flags_at : FlagWord → ℕ → M (Unit {0})
unfolding write_flags load
write_flags_at word address = do flags ← u32 address; write_flags word flags; say "})"

-- `number` values of an array that a pointer leads to.
unfoldable pub write_array : (bytes number array : ℕ) → String → M (Unit {0})
unfolding commas load
write_array bytes number array format =
    commas number 0 (λ i. do v ← load bytes (array + i * bytes); print format (v ∷ []))

unfoldable pub write_syncobj_handle_to_fd : ℕ → M (Unit {0})
unfolding show write_flags_at
write_syncobj_handle_to_fd arg = do
  show arg "(handle: %PRIu32" ((0, 4) ∷ [])
  say ", flags: {"
  write_flags_at to_fd_flags (arg + 4)

unfoldable pub write_syncobj_fd_to_handle : ℕ → M (Unit {0})
unfolding show write_flags_at
write_syncobj_fd_to_handle arg = do
  show arg "(fd: %d" ((8, 4) ∷ [])
  show arg ", handle: %PRIu32" ((0, 4) ∷ [])
  say ", flags: {"
  write_flags_at from_fd_flags (arg + 4)

unfoldable pub write_syncobj_wait : ℕ → M (Unit {0})
unfolding show load write_array write_flags_at
write_syncobj_wait arg = do
  handles ← u64 arg
  count ← u32 (arg + 16)
  say "(handles: ("
  write_array 4 count handles "%PRIu32"
  show arg "), timeout_nsec: %PRIu64" ((8, 8) ∷ [])
  show arg ", count_handles: %PRIu32" ((16, 4) ∷ [])
  say ", flags: {"
  write_flags_at wait_flags (arg + 20)

unfoldable pub write_syncobj_reset : ℕ → M (Unit {0})
unfolding show load write_array
write_syncobj_reset arg = do
  handles ← u64 arg
  count ← u32 (arg + 8)
  say "(handles: ("
  write_array 4 count handles "%PRIu32"
  show arg "), count_handles: %PRIu32" ((8, 4) ∷ [])
  say ")"

unfoldable pub write_syncobj_timeline_wait : ℕ → M (Unit {0})
unfolding show load write_array write_flags_at
write_syncobj_timeline_wait arg = do
  handles ← u64 arg
  points ← u64 (arg + 8)
  count ← u32 (arg + 24)
  say "(handles: ("
  write_array 4 count handles "%PRIu32"
  say "), points: ("
  write_array 8 count points "%PRIu64"
  show arg "), timeout_nsec: %PRIu64" ((16, 8) ∷ [])
  show arg ", count_handles: %PRIu32" ((24, 4) ∷ [])
  say ", flags: {"
  write_flags_at wait_flags (arg + 28)

unfoldable pub write_syncobj_transfer : ℕ → M (Unit {0})
unfolding show write_flags_at
write_syncobj_transfer arg = do
  show arg "(src_handle: %PRIu32" ((0, 4) ∷ [])
  show arg ", dst_handle: %PRIu32" ((4, 4) ∷ [])
  show arg ", src_point: %PRIu64" ((8, 8) ∷ [])
  show arg ", dst_point: %PRIu64" ((16, 8) ∷ [])
  say ", flags: {"
  write_flags_at wait_flags (arg + 24)

unfoldable pub write_syncobj_accumulate : ℕ → M (Unit {0})
unfolding show
write_syncobj_accumulate arg = do
  show arg "(syncobj1: %PRIu32" ((0, 4) ∷ [])
  show arg ", syncobj2: %PRIu32" ((4, 4) ∷ [])
  show arg ", point: %PRIu64" ((8, 8) ∷ [])
  say ")"

abbrev pub drm_texts : List (ℕ × String)
drm_texts =
    (0x00, "VERSION")
    ∷ (0x01, "GET_UNIQUE")
    ∷ (0x02, "GET_MAGIC")
    ∷ (0x03, "IRQ_BUSID")
    ∷ (0x04, "GET_MAP")
    ∷ (0x05, "GET_CLIENT")
    ∷ (0x06, "GET_STATS")
    ∷ (0x07, "SET_VERSION")
    ∷ (0x08, "MODESET_CTL")
    ∷ (0x09, "GEM_CLOSE")
    ∷ (0x0a, "GEM_FLINK")
    ∷ (0x0b, "GEM_OPEN")
    ∷ (0x0c, "GET_CAP")
    ∷ (0x0d, "SET_CLIENT_CAP")
    ∷ (0x2d, "PRIME_HANDLE_TO_FD")
    ∷ (0x2e, "PRIME_FD_TO_HANDLE")
    ∷ (0xbf, "SYNCOBJ_CREATE")
    ∷ (0xc0, "SYNCOBJ_DESTROY")
    ∷ (0xc1, "SYNCOBJ_HANDLE_TO_FD")
    ∷ (0xc2, "SYNCOBJ_FD_TO_HANDLE")
    ∷ (0xc3, "SYNCOBJ_WAIT")
    ∷ (0xc4, "SYNCOBJ_RESET")
    ∷ (0xc5, "SYNCOBJ_SIGNAL")
    ∷ (0xca, "SYNCOBJ_TIMELINE_WAIT")
    ∷ (0xcb, "SYNCOBJ_QUERY")
    ∷ (0xcc, "SYNCOBJ_TRANSFER")
    ∷ (0xcd, "SYNCOBJ_TIMELINE_SIGNAL")
    ∷ (0xcf, "SYNCOBJ_ACCUMULATE")
    ∷ []

-- The part of a command that follows its name.
unfoldable pub write_args : (cmd arg : ℕ) → M (Unit {0})
unfolding show write_get_cap write_flags_at write_syncobj_handle_to_fd write_syncobj_fd_to_handle
    write_syncobj_wait write_syncobj_reset write_syncobj_timeline_wait write_syncobj_transfer
    write_syncobj_accumulate
write_args cmd arg =
    if cmd == 0x09
    then show arg "(%PRIu32)" ((0, 4) ∷ [])
    else if cmd == 0x0c
    then write_get_cap arg
    else if cmd == 0x2d
    then show arg "(%PRIu32)" ((0, 4) ∷ [])
    else if cmd == 0x2e
    then (do show arg "(fd: %PRIu32" ((8, 4) ∷ []); show arg ", flags: %#PRIx32)" ((4, 4) ∷ []))
    else if cmd == 0xbf
    then (do say "(flags: {"; write_flags_at create_flags (arg + 4))
    else if cmd == 0xc0
    then show arg "(%PRIu32)" ((0, 4) ∷ [])
    else if cmd == 0xc1
    then write_syncobj_handle_to_fd arg
    else if cmd == 0xc2
    then write_syncobj_fd_to_handle arg
    else if cmd == 0xc3
    then write_syncobj_wait arg
    else if cmd == 0xc4
    then write_syncobj_reset arg
    else if cmd == 0xca
    then write_syncobj_timeline_wait arg
    else if cmd == 0xcc
    then write_syncobj_transfer arg
    else if cmd == 0xcf
    then write_syncobj_accumulate arg
    else nothing

-- DRM_COMMAND_BASE is 0x40 and DRM_COMMAND_END is 0xA0.
unfoldable pub write_cmd : (cmd arg : ℕ) → Bool → M (Unit {0})
unfolding write_amdgpu_cmd write_amdgpu_answer write_answer choose write_args
write_cmd cmd arg is_post =
    if leb 0x40 cmd && ltb cmd 0xa0
    then if is_post then write_amdgpu_answer (cmd - 0x40) arg else write_amdgpu_cmd (cmd - 0x40) arg
    else if is_post
    then write_answer cmd arg
    else do choose drm_texts (print "?(%#lx)" (cmd ∷ [])) cmd; write_args cmd arg

-- The parts of a request's number, which macros of the system give: IOCGROUP, IOCPARM_LEN, and what
-- is printed of its direction.
pub data Direction : Type 0 where
  ioc_void ioc_in ioc_out ioc_inout : Direction

abbrev pub direction_text : Direction → String
direction_text ioc_void = "-"
direction_text ioc_in = "R"
direction_text ioc_out = "W"
direction_text ioc_inout = "RW"

pub record Request : Type 0 where
  pub group : ℕ
  pub number : ℕ
  pub size : ℕ
  pub direction : Direction

unfoldable pub ioctl_trace : (fd : ℕ) → Request → (arg : ℕ) → Bool → M (Unit {0})
unfolding write_cmd
ioctl_trace fd request arg is_post =
    if is_post then (do write_cmd request.number arg true; say "\n") else do
      print "drmIoctl(%d, (%lu, " (fd ∷ request.group ∷ [])
      write_cmd request.number arg false
      print ", %lu, " (request.size ∷ [])
      say (direction_text request.direction)
      say "))"
