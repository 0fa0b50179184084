-- ===== src/Drm/Device.antt =====
-- The calls on a device: capabilities, descriptors of buffers, the version, the comparison of two
-- devices, and the numbers of the driver's own commands.
use libdrm.Base.{
  ℕ, ◌==◌, Bool, true, false, ◌&&◌, Option, none, some, List, [], ◌∷◌, if◌then◌else◌, Ret, ok, err,
}
use libdrm.Drm.Args.{
  version, gem_close, get_cap, set_client_cap, auth_magic, prime_handle_to_fd, prime_fd_to_handle,
  VersionArgs, no_fd,
}
use libdrm.Drm.Syncobj.{Ioctl, to_fd, plain}

-- The fields of `struct _drmVersion`, which drmCopyVersion fills in.
pub record Version : Type 0 where
  pub version_major : ℕ
  pub version_minor : ℕ
  pub version_patchlevel : ℕ
  pub name : List ℕ
  pub date : List ℕ
  pub desc : List ℕ

abbrev pub empty_version : VersionArgs
empty_version = record {
  version_major = 0;
  version_minor = 0;
  version_patchlevel = 0;
  name_len = 0;
  name = none;
  date_len = 0;
  date = none;
  desc_len = 0;
  desc = none;
}

-- drmMalloc gives a cleared buffer, unless the text is empty.
abbrev pub buffer_for : ℕ → Option (List ℕ)
buffer_for len = if len == 0 then none else some []

-- strdup of a text; of NULL it is a fault.
abbrev pub copy_version : VersionArgs → Option Version
copy_version v = elim v.name [
  | none ↦ none
  | some name ↦ elim v.date [
    | none ↦ none
    | some date ↦ elim v.desc [
      | none ↦ none
      | some desc ↦ some (record {
        version_major = v.version_major;
        version_minor = v.version_minor;
        version_patchlevel = v.version_patchlevel;
        name = name;
        date = date;
        desc = desc;
      })
    ]
  ]
]

module _ {S : Type 0} (ioctl : Ioctl S) (s : S) where
  -- The first ioctl gives the lengths, the second one the texts. The inner `none` is NULL.
  unfoldable pub drm_get_version : Option (Option Version) × S
  drm_get_version =
      let (ret, v, s') = ioctl s version empty_version in
      let v' : VersionArgs = record v {
        name = buffer_for v.name_len;
        date = buffer_for v.date_len;
        desc = buffer_for v.desc_len;
      } in
      let (ret', w, s'') = ioctl s' version v' in
      elim ret [
        | err e ↦ (some none, s')
        | ok ↦ elim ret' [
          | err e ↦ (some none, s'')
          | ok ↦ (elim (copy_version w) [ none ↦ none | some x ↦ some (some x) ], s'')
        ]
      ]

  unfoldable pub drm_get_cap : (capability : ℕ) → Ret × Option ℕ × S
  unfolding to_fd
  drm_get_cap capability =
      to_fd ioctl s get_cap (λ a. a.value) (record { capability = capability; value = 0 })

  unfoldable pub drm_set_client_cap : (capability value : ℕ) → Ret × S
  unfolding plain
  drm_set_client_cap capability value =
      plain ioctl s set_client_cap (record { capability = capability; value = value })

  unfoldable pub drm_prime_handle_to_fd : (handle flags : ℕ) → Ret × Option ℕ × S
  unfolding to_fd
  drm_prime_handle_to_fd handle flags =
      to_fd ioctl s prime_handle_to_fd (λ a. a.fd)
        (record { handle = handle; flags = flags; fd = no_fd })

  unfoldable pub drm_prime_fd_to_handle : (prime_fd : ℕ) → Ret × Option ℕ × S
  unfolding to_fd
  drm_prime_fd_to_handle prime_fd =
      to_fd ioctl s prime_fd_to_handle (λ a. a.handle)
        (record { handle = 0; flags = 0; fd = prime_fd })

  unfoldable pub drm_close_buffer_handle : (handle : ℕ) → Ret × S
  unfolding plain
  drm_close_buffer_handle handle = plain ioctl s gem_close (record { handle = handle })

  -- A failure returns `-errno`.
  unfoldable pub drm_auth_magic : (minus_errno : Ret) (magic : ℕ) → Ret × S
  drm_auth_magic minus_errno magic =
      let (ret, args, s') = ioctl s auth_magic (record { magic = magic }) in
      (elim ret [ ok ↦ ok | err e ↦ minus_errno ], s')

-- `drmDevice`, by its bus and the bytes of the bus information.
pub data Bus : Type 0 where
  pci usb platform host1x : Bus
  other : ℕ → Bus

pub record DrmDevice : Type 0 where
  pub bustype : Bus
  pub businfo : List ℕ

abbrev pub same_bytes : List ℕ → List ℕ → Bool
same_bytes [] [] = true
same_bytes [] (y ∷ ys) = false
same_bytes (x ∷ xs) [] = false
same_bytes (x ∷ xs) (y ∷ ys) = (x == y) && same_bytes xs ys

abbrev pub same_bus : Bus → Bus → Bool
same_bus pci pci = true
same_bus usb usb = true
same_bus platform platform = true
same_bus host1x host1x = true
same_bus (other a) (other b) = a == b
same_bus a b = false

abbrev pub is_known : Bus → Bool
is_known (other n) = false
is_known b = true

-- `none` is NULL.
unfoldable pub drm_devices_equal : Option DrmDevice → Option DrmDevice → Bool
drm_devices_equal none b = false
drm_devices_equal (some a) none = false
drm_devices_equal (some a) (some b) =
    same_bus a.bustype b.bustype && (is_known a.bustype && same_bytes a.businfo b.businfo)
