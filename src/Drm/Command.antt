-- ===== src/Drm/Command.antt =====
-- drmCommandNone, drmCommandRead, drmCommandWrite and drmCommandWriteRead, and where drmIoctlStub of
-- stub/libdrmStub.cpp sends their requests.
use libdrm.Base.{
  ℕ, ◌+◌, ◌-◌, ◌%◌, ◌<◌, ◌≡◌, refl, true, ◌&&◌, if◌then◌else◌, leb, ltb, arith, Ret, ok, err,
}

pub data Dir : Type 0 where
  void read write read_write : Dir

-- DRM_COMMAND_BASE, DRM_COMMAND_END and DRM_IOCTL_BASE.
abbrev pub command_base : ℕ
command_base = 0x40

abbrev pub command_end : ℕ
command_end = 0xa0

abbrev pub ioctl_base : ℕ
ioctl_base = 100

-- `ioc` is the macro _IOC of the system, and `ioctl` drmIoctl with a request's number, on data of the
-- type `A`. A request that fails returns `errno`.
module _ {S A : Type 0} (ioc : Dir → (group nr size : ℕ) → ℕ) (ioctl : S → ℕ → A → Ret × A × S)
    (errno : Ret) where
  unfoldable pub drm_command : S → Dir → (index size : ℕ) → A → Ret × A × S
  drm_command s dir index size data' =
      let (r, a, s') = ioctl s (ioc dir ioctl_base (command_base + index) size) data' in
      (elim r [ ok ↦ ok | err e ↦ errno ], a, s')

  unfoldable pub drm_command_none : S → (index : ℕ) → A → Ret × A × S
  unfolding drm_command
  drm_command_none s index null = drm_command s void index 0 null

  unfoldable pub drm_command_read : S → (index size : ℕ) → A → Ret × A × S
  unfolding drm_command
  drm_command_read s index size a = drm_command s read index size a

  unfoldable pub drm_command_write : S → (index size : ℕ) → A → Ret × A × S
  unfolding drm_command
  drm_command_write s index size a = drm_command s write index size a

  unfoldable pub drm_command_write_read : S → (index size : ℕ) → A → Ret × A × S
  unfolding drm_command
  drm_command_write_read s index size a = drm_command s read_write index size a

-- drmIoctlStub: a command of the amdgpu driver with its number, or a request of every driver.
pub data Route : Type 0 where
  amdgpu : (cmd : ℕ) → Route
  common : (request : ℕ) → Route

unfoldable pub route : (request : ℕ) → Route
route request =
    let cmd = request % 0x100 in
    if leb command_base cmd && ltb cmd command_end
    then amdgpu (cmd - command_base)
    else common request

-- The request of a command number below 0x60 reaches the amdgpu driver with this number, if the number
-- of a request is its low byte, as it is in each system's _IOC.
pub route-ioc :
    (ioc : Dir → (group nr size : ℕ) → ℕ) (dir : Dir) (index size : ℕ)
    → ioc dir ioctl_base (command_base + index) size % 0x100 ≡ command_base + index
    → index < 0x60
    → route (ioc dir ioctl_base (command_base + index) size) ≡ amdgpu index
unfolding route
route-ioc ioc dir index size e l =
    let a : leb command_base (command_base + index) ≡ true = ground arith in
    let b : ltb (command_base + index) command_end ≡ true = ground arith in
    let c : command_base + index - command_base ≡ index = omega arith in rw (route, e, a, b, c) refl
