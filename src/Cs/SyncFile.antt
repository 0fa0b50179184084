-- ===== src/Cs/SyncFile.antt =====
-- `amdgpu_cs_syncobj_export_sync_file2` and `amdgpu_cs_syncobj_import_sync_file2`: a sync file at a
-- point of a timeline goes through a temporary sync object.
use libdrm.Base.{
  ℕ, ◌==◌, ◌≡◌, ◌⊎◌, inl, inr, Option-cases, Bool, Option, none, some, List, [], ◌∷◌, if◌then◌else◌,
  arith, Ret, ok, err, einval,
}
use libdrm.Bo.State.{Answer, done, refused}

-- The driver calls that the two functions make, by their names DrmSyncobj*.
pub data Request : Type 0 where
  create : ℕ → Request
  destroy : ℕ → Request
  transfer : (dst_handle dst_point src_handle src_point flags : ℕ) → Request
  export_sync_file : ℕ → Request
  import_sync_file : (handle fd : ℕ) → Request

-- The driver's answers, each used at most once in a call.
pub record Answers : Type 0 where
  pub create : Answer ℕ
  pub transfer : Ret
  pub export_sync_file : Answer ℕ
  pub import_sync_file : Ret

-- What the call returns, what it writes to `*sync_file_fd`, and the requests in their order.
pub record Outcome : Type 0 where
  pub ret : Ret
  pub sync_file_fd : Option ℕ
  pub requests : List Request

abbrev pub result : Answer ℕ → Ret × Option ℕ
result (done fd) = (ok, some fd)
result (refused e) = (err e, none)

-- `dev` is whether the device pointer is not NULL.
unfoldable pub export_sync_file2 : Answers → Bool → (syncobj point flags : ℕ) → Outcome
export_sync_file2 a dev syncobj point flags =
    let (ret, fd) = result a.export_sync_file in
    if dev
    then if point == 0
      then record { ret = ret; sync_file_fd = fd; requests = export_sync_file syncobj ∷ [] }
      else elim a.create [
        | refused e ↦ record { ret = err e; sync_file_fd = none; requests = create 0 ∷ [] }
        | done binary ↦ elim a.transfer [
          | err e ↦ record {
            ret = err e;
            sync_file_fd = none;
            requests = create 0 ∷ transfer binary 0 syncobj point flags ∷ destroy binary ∷ [];
          }
          | ok ↦ record {
            ret = ret;
            sync_file_fd = fd;
            requests =
                create 0
                ∷ transfer binary 0 syncobj point flags
                ∷ export_sync_file binary
                ∷ destroy binary
                ∷ [];
          }
        ]
      ]
    else record { ret = err einval; sync_file_fd = none; requests = [] }

unfoldable pub import_sync_file2 : Answers → Bool → (syncobj point fd : ℕ) → Outcome
import_sync_file2 a dev syncobj point fd =
    if dev
    then if point == 0
      then record {
        ret = a.import_sync_file;
        sync_file_fd = none;
        requests = import_sync_file syncobj fd ∷ [];
      }
      else elim a.create [
        | refused e ↦ record { ret = err e; sync_file_fd = none; requests = create 0 ∷ [] }
        | done binary ↦ elim a.import_sync_file [
          | err e ↦ record {
            ret = err e;
            sync_file_fd = none;
            requests = create 0 ∷ import_sync_file binary fd ∷ destroy binary ∷ [];
          }
          | ok ↦ record {
            ret = a.transfer;
            sync_file_fd = none;
            requests =
                create 0
                ∷ import_sync_file binary fd
                ∷ transfer syncobj point binary 0 0
                ∷ destroy binary
                ∷ [];
          }
        ]
      ]
    else record { ret = err einval; sync_file_fd = none; requests = [] }

-- The handles that a list of requests destroys, and those that the driver makes for it.
pub destroyed : List Request → List ℕ
destroyed [] = []
destroyed (destroy h ∷ rs) = h ∷ destroyed rs
destroyed (create f ∷ rs) = destroyed rs
destroyed (transfer d p s q f ∷ rs) = destroyed rs
destroyed (export_sync_file h ∷ rs) = destroyed rs
destroyed (import_sync_file h f ∷ rs) = destroyed rs

pub created : Answer ℕ → List Request → List ℕ
created a [] = []
created (done h) (create f ∷ rs) = h ∷ created (done h) rs
created (refused e) (create f ∷ rs) = created (refused e) rs
created a (destroy h ∷ rs) = created a rs
created a (transfer d p s q f ∷ rs) = created a rs
created a (export_sync_file h ∷ rs) = created a rs
created a (import_sync_file h f ∷ rs) = created a rs

export_balanced :
    (a : Answers) (dev : Bool) (syncobj point flags : ℕ)
    → destroyed (export_sync_file2 a dev syncobj point flags).requests
      ≡ created a.create (export_sync_file2 a dev syncobj point flags).requests
unfolding export_sync_file2 destroyed created
export_balanced a dev syncobj point flags = ground arith

import_balanced :
    (a : Answers) (dev : Bool) (syncobj point fd : ℕ)
    → destroyed (import_sync_file2 a dev syncobj point fd).requests
      ≡ created a.create (import_sync_file2 a dev syncobj point fd).requests
unfolding import_sync_file2 destroyed created
import_balanced a dev syncobj point fd = ground arith

export_written :
    (a : Answers) (dev : Bool) (syncobj point flags : ℕ)
    → let e = export_sync_file2 a dev syncobj point flags in
      (e.sync_file_fd ≡ none)
      ⊎ ((e.ret ≡ ok) × (x : ℕ) × (e.sync_file_fd ≡ some x) × (a.export_sync_file ≡ done x))
unfolding export_sync_file2
export_written a dev syncobj point flags =
    elim (Option-cases (export_sync_file2 a dev syncobj point flags).sync_file_fd) [
      | inl z ↦ inl z
      | inr (x, z) ↦ inr (ground arith, x, z, ground arith)
    ]

-- Whatever the driver answers, both calls destroy exactly the sync objects that they create, and the
-- export writes a descriptor only when it returns 0, and then the one that the driver exported.
pub destroyed-eq-created :
    (a : Answers) (dev : Bool) (syncobj point flags fd : ℕ)
    → let e = export_sync_file2 a dev syncobj point flags in
      let i = import_sync_file2 a dev syncobj point fd in
      (destroyed e.requests ≡ created a.create e.requests)
      × (destroyed i.requests ≡ created a.create i.requests)
      × ((e.sync_file_fd ≡ none)
          ⊎ ((e.ret ≡ ok) × (x : ℕ) × (e.sync_file_fd ≡ some x) × (a.export_sync_file ≡ done x)))
unfolding export_sync_file2 import_sync_file2 destroyed created
destroyed-eq-created a dev syncobj point flags fd = (
  export_balanced a dev syncobj point flags,
  import_balanced a dev syncobj point fd,
  export_written a dev syncobj point flags,
)
