-- ===== src/Drm/Utils.antt =====
-- The functions of libdrm_common.c that need no ioctl: what they free, and what drmError prints.
use Prim.Native.String.{String}
use libdrm.Base.{ℕ, Bool, ◌&&◌, ◌==◌, List, [], ◌∷◌, if◌then◌else◌}

-- The addresses in a `drm_version_t` or a `drmVersion`.
pub record Texts : Type 0 where
  pub at : ℕ
  pub name : ℕ
  pub date : ℕ
  pub desc : ℕ

-- What is handed to free, in order; free(NULL) is among it and does nothing.
abbrev pub freed : Texts → List ℕ
freed v = if v.at == 0 then [] else v.name ∷ v.date ∷ v.desc ∷ v.at ∷ []

unfoldable pub drm_free_kernel_version : Texts → List ℕ
drm_free_kernel_version v = freed v

unfoldable pub drm_free_version : Texts → List ℕ
drm_free_version v = freed v

-- A call of fprintf on stderr with the label; the last one prints `err` and its text too.
pub data Message : Type 0 where
  labelled : String → Message
  with_error : String → Message

-- What is printed, and the result. `err` is a sign and a size; DRM_ERR_NO_DEVICE is -1001, and
-- DRM_ERR_NO_ACCESS, DRM_ERR_NOT_ROOT and DRM_ERR_INVALID follow it.
unfoldable pub drm_error : (negative : Bool) → (size : ℕ) → Message × ℕ
drm_error negative size = (
  if negative && (size == 1001)
      then labelled "%s: no device\n"
      else if negative && (size == 1002)
      then labelled "%s: no access\n"
      else if negative && (size == 1003)
      then labelled "%s: not root\n"
      else if negative && (size == 1004)
      then labelled "%s: invalid args\n"
      else with_error "%s: error %d (%s)\n",
  1,
)
