-- ===== src/Stub/Driver.antt =====
-- The stub's buffers as a driver of buffer objects.
mod Tests
use libdrm.Base.{
  ℕ, ◌+◌, ◌<◌, ◌^◌, ◌≡◌, refl, ap, sym, ◌∙◌, inl, inr, ◌==◌, Option, none, some, some_inj,
  if◌then◌else◌, ◌||◌, false, true, Bool, arith, Option-cases, find, find-emplace, find-erase, Ret,
  ok, err, enomem, Errno,
}
use libdrm.Bo.State.{Answer, done, refused}
use libdrm.Bo.Driver.{Driver}
use libdrm.Stub.Buffers.{GpuBuffer, Buffers, create_gpu_buffer, close_gpu_buffer}
use libdrm.Stub.Session.{IsSound, Change, create, close, Change-IsSound}

abbrev plain : ℕ → ℕ → GpuBuffer
plain adr size = record { adr = adr; size = size; alignment = 0; domains = 0; flags = 0 }

abbrev is_there : Option GpuBuffer → Bool
is_there none = false
is_there (some b) = true

-- A handle that is closed twice stays closed; `area` is the memory that the next buffer gets.
abbrev stub_create : Option ℕ → Buffers → ℕ → Answer ℕ × Buffers
stub_create none s size = (refused enomem, (create_gpu_buffer s none size 0 0 0).2)
stub_create (some adr) s size = (done s.last_handle, (create_gpu_buffer s (some adr) size 0 0 0).2)

stub_create_new :
    (area : Option ℕ) (s : Buffers) (size h : ℕ)
    → IsSound s
    → (stub_create area s size).0 ≡ done h
    → is_there (find s.handles h) ≡ false
stub_create_new none s size h i e = absurd (cc)
stub_create_new (some adr) s size h i e = elim (Option-cases (find s.handles h)) [
  | inl z ↦ rw z refl
  | inr (b, z) ↦ absurd (ground (arith, i.below h b z))
]

stub_create_owned :
    (area : Option ℕ) (s : Buffers) (size h : ℕ)
    → IsSound s
    → (stub_create area s size).0 ≡ done h
    → (j : ℕ)
    → is_there (find (stub_create area s size).1.handles j)
      ≡ ((j == h) || is_there (find s.handles j))
unfolding create_gpu_buffer
stub_create_owned none s size h i e j = absurd (cc)
stub_create_owned (some adr) s size h i e j = ground (
  arith,
  find-emplace s.handles 0 s.last_handle (plain adr size) j i.handles,
  stub_create_new (some adr) s size h i e,
)

stub_create_refused :
    (area : Option ℕ) (s : Buffers) (size : ℕ) (e : Errno)
    → IsSound s
    → (stub_create area s size).0 ≡ refused e
    → (j : ℕ) → is_there (find (stub_create area s size).1.handles j) ≡ is_there (find s.handles j)
unfolding create_gpu_buffer
stub_create_refused none s size e i q j = refl
stub_create_refused (some adr) s size e i q j = absurd (cc)

stub_create-IsSound :
    (area : Option ℕ) (s : Buffers) (size : ℕ)
    → IsSound s
    → s.last_handle + 1 < 2 ^ 32
    → IsSound (stub_create area s size).1
stub_create-IsSound none s size i l = Change-IsSound (create s none size 0 0 0 l) i
stub_create-IsSound (some adr) s size i l = Change-IsSound (create s (some adr) size 0 0 0 l) i

stub_close_owned :
    (s : Buffers) (h j : ℕ)
    → IsSound s
    → is_there (find (close_gpu_buffer s h).1.handles j)
      ≡ (if j == h then false else is_there (find s.handles j))
unfolding close_gpu_buffer
stub_close_owned s h j i = elim (Option-cases (find s.handles h)) [
  | inl z ↦ rw (close_gpu_buffer, z) (ground arith)
  | inr (b, z) ↦ rw (close_gpu_buffer, z) (ground (arith, find-erase s.handles 0 h j i.handles))
]

-- The handles count up, so one is left while the counter does not wrap.
unfoldable pub stub_driver : Option ℕ → Driver
unfolding stub_create_new stub_create_owned stub_create_refused stub_create-IsSound stub_close_owned
stub_driver area = record {
  State = Buffers;
  owned = λ s h. is_there (find s.handles h);
  create = stub_create area;
  close = λ s h. (close_gpu_buffer s h).1;
  IsSane = IsSound;
  Room = λ s. s.last_handle + 1 < 2 ^ 32;
  create-IsSane = stub_create-IsSound area;
  close-IsSane = λ s h i. Change-IsSound (close s h) i;
  create_new = stub_create_new area;
  create_owned = stub_create_owned area;
  create_refused = stub_create_refused area;
  close_owned = stub_close_owned;
}
