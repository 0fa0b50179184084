-- ===== src/Device/Open.antt =====
-- `amdgpu_device_initialize_haiku`, `amdgpu_device_deinitialize` and `amdgpu_device_free_internal`:
-- the list `dev_list` of open devices. A device is named by its address, an accelerant by a number,
-- and the references on accelerants that are taken and released are recorded, the last one first.
use libdrm.Base.{
  ℕ, ◌==◌, Bool, Option, none, some, List, [], ◌∷◌, if◌then◌else◌, add32, sub32, Ret, ok, err,
  enomem, ebadf,
}
use libdrm.Bo.State.{Answer, done, refused}

pub record Node : Type 0 where
  pub address : ℕ
  pub acc_base : ℕ
  pub refcount : ℕ
  pub major_version : ℕ
  pub minor_version : ℕ

pub data Reference : Type 0 where
  acquire release : ℕ → Reference

pub record Devices : Type 0 where
  pub dev_list : List Node
  pub references : List Reference

-- What the outside answers: calloc, the two QueryInterface, DrmVersion, the query whether acceleration
-- works, and amdgpu_query_gpu_info_init.
pub record Answers : Type 0 where
  pub fresh : ℕ
  pub has_drm : Bool
  pub has_amdgpu : Bool
  pub major_version : ℕ
  pub minor_version : ℕ
  pub accel_working : Answer ℕ
  pub gpu_info : Ret

-- `none` for the device: `*device_handle` is NULL. The versions are written on success.
pub record Opened : Type 0 where
  pub ret : Ret
  pub device_handle : Option ℕ
  pub versions : Option (ℕ × ℕ)
  pub devices : Devices

-- The search loop for an accelerant.
unfoldable pub find_acc : List Node → ℕ → Option Node
find_acc [] acc = none
find_acc (n ∷ ns) acc = if n.acc_base == acc then some n else find_acc ns acc

-- The node at an address, and the list with that node changed.
unfoldable pub at_address : List Node → ℕ → Option Node
at_address [] p = none
at_address (n ∷ ns) p = if n.address == p then some n else at_address ns p

unfoldable pub set_refcount : List Node → ℕ → ℕ → List Node
set_refcount [] p c = []
set_refcount (n ∷ ns) p c =
    if n.address == p then record n { refcount = c } ∷ ns else n ∷ set_refcount ns p c

-- The loop of `amdgpu_device_free_internal`: it unlinks the node, or the last one if there is none.
unfoldable pub unlink : List Node → ℕ → List Node
unlink [] p = []
unlink (n ∷ []) p = []
unlink (n ∷ m ∷ ns) p = if n.address == p then m ∷ ns else n ∷ unlink (m ∷ ns) p

-- The checks between calloc and the managers, in their order.
unfoldable pub check_device : Answers → Ret
check_device a =
    if a.has_drm
    then if a.has_amdgpu
      then if a.major_version == 3
        then elim a.accel_working [
          | refused e ↦ err e
          | done works ↦ if works == 0 then err ebadf else a.gpu_info
        ]
        else err ebadf
      else err ebadf
    else err ebadf

-- With NULL in `*dst`, `amdgpu_device_reference` only raises the count of the source, which
-- it asserts to be positive (`none`).
unfoldable pub initialize : Answers → Devices → ℕ → Option Opened
initialize a d acc = elim (find_acc d.dev_list acc) [
  | some n ↦
      if n.refcount == 0
      then none
      else some (record {
        ret = ok;
        device_handle = some n.address;
        versions = some (n.major_version, n.minor_version);
        devices = record d { dev_list = set_refcount d.dev_list n.address (add32 n.refcount 1) };
      })
  | none ↦
      if a.fresh == 0
      then some (record { ret = err enomem; device_handle = none; versions = none; devices = d })
      else elim (check_device a) [
        | err e ↦ some (record {
          ret = err e;
          device_handle = none;
          versions = none;
          devices = record d { references = release acc ∷ acquire acc ∷ d.references };
        })
        | ok ↦ some (record {
          ret = ok;
          device_handle = some a.fresh;
          versions = some (a.major_version, a.minor_version);
          devices = record {
            dev_list =
                record {
                  address = a.fresh;
                  acc_base = acc;
                  refcount = 1;
                  major_version = a.major_version;
                  minor_version = a.minor_version;
                }
                ∷ d.dev_list;
            references = acquire acc ∷ d.references;
          };
        })
      ]
]

-- A device that is not open, or whose count is 0, is a fault.
unfoldable pub deinitialize : Devices → ℕ → Option Devices
deinitialize d p = elim (at_address d.dev_list p) [
  | none ↦ none
  | some n ↦
      if n.refcount == 0
      then none
      else if n.refcount == 1
      then some (record {
        dev_list = unlink d.dev_list p;
        references = release n.acc_base ∷ d.references;
      })
      else some (record d { dev_list = set_refcount d.dev_list p (sub32 n.refcount 1) })
]
