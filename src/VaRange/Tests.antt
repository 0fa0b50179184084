-- ===== src/VaRange/Tests.antt =====
-- The calls of the four managers at concrete devices.
use libdrm.Base.{ℕ, ◌≡◌, refl, true, false, [], ◌∷◌, arith, ok, IsPow2, align64, align64-RoundsUp}
use libdrm.VaMgr.{
  VaMgr, Search, find_va, place, place_low, search_up, take_from, subtract_hole, finish,
}
use libdrm.VaMgr.Holes.{IsValid}
use libdrm.VaRange.{
  Which, low, low_32, high, high_32, Managers, manager, general, Memory, Reply, va_range_alloc,
  va_range_free, known_flags, first_choice, fallback, attempt, hand_out,
}
use libdrm.VaRange.Alloc.{Admissible, Granted, asked_alignment, va_range_alloc-Granted}
use libdrm.VaRange.Release.{Allowed, va_range_free-va_range_alloc, va_range_alloc-Allowed}

abbrev mgr : ℕ → ℕ → VaMgr
mgr first size = record {
  va_max = 0x10_0000_0000;
  va_alignment = 4096;
  va_holes = record { offset = first; size = size } ∷ [];
}

abbrev device : Managers
device = record {
  vamgr = mgr 0x1_0000_0000 0x2000;
  vamgr_32 = mgr 0x20_0000 0x10_0000;
  vamgr_high = mgr 0x8_0000_0000 0x10_0000;
  vamgr_high_32 = mgr 0x4_0000_0000 0x10_0000;
}

abbrev page : IsPow2 4096
page = record { log = 12; log_lt = omega arith; is_pow = refl }

device-IsValid : (w : Which) → IsValid 1 (manager device w)
device-IsValid low = record {
  gap_le = omega arith;
  power = page;
  small = omega arith;
  spaced = omega arith;
}
device-IsValid low_32 = record {
  gap_le = omega arith;
  power = page;
  small = omega arith;
  spaced = omega arith;
}
device-IsValid high = record {
  gap_le = omega arith;
  power = page;
  small = omega arith;
  spaced = omega arith;
}
device-IsValid high_32 = record {
  gap_le = omega arith;
  power = page;
  small = omega arith;
  spaced = omega arith;
}

abbrev plenty : Memory
plenty = record { find = true; retry = true; handle = true; undo = true }

abbrev no_handle : Memory
no_handle = record plenty { handle = false }

same_alignment : (w : Which) → (manager device w).va_alignment ≡ 4096
same_alignment low = refl
same_alignment low_32 = refl
same_alignment high = refl
same_alignment high_32 = refl

same_max : (w : Which) → (manager device w).va_max ≡ 0x10_0000_0000
same_max low = refl
same_max low_32 = refl
same_max high = refl
same_max high_32 = refl

-- Four pages, which the manager of the general range has no room for.
admissible : Admissible device 0x4000 4096 0
admissible = record {
  valid = device-IsValid;
  nonempty = omega arith;
  size_small = λ w. rw (same_alignment w) (omega arith);
  in_range = λ w u. rw (same_alignment u) (record {
    size_small = rw (same_alignment w) omega (arith, align64-RoundsUp 16384 page (omega arith));
    align_small = rw (same_alignment w, same_max w) (omega arith);
  });
}

-- What a run computes with.
run : VaMgr → Search
unfolding find_va place place_low search_up take_from subtract_hole finish align64
run m = find_va true m 0 0 0 false

-- The general manager is too small for four pages, so the call falls back.
abbrev reply : Reply
reply = va_range_alloc plenty device general 0x4000 4096 0 0 0

va_range_alloc-Granted_example :
    Granted device 0x4000 4096
      (asked_alignment plenty device general 0x4000 4096 0 0 0 admissible)
      0
      reply
unfolding va_range_alloc known_flags first_choice fallback attempt hand_out run
va_range_alloc-Granted_example =
    va_range_alloc-Granted plenty device general 0x4000 4096 0 0 0 admissible refl

-- The fall-back range is the lowest of the 32-bit manager.
reply_range :
    (reply.va_base_allocated ≡ 0x20_0000)
    × (reply.mgrs.vamgr_32.va_holes ≡ (mgr 0x20_4000 0xf_c000).va_holes)
unfolding va_range_alloc known_flags first_choice fallback attempt hand_out run
reply_range = (refl, refl)

va_range_free-va_range_alloc_example :
    va_range_free true reply.mgrs reply.va_range_handle ≡ (ok, device)
unfolding va_range_alloc known_flags first_choice fallback attempt hand_out run
va_range_free-va_range_alloc_example =
    va_range_free-va_range_alloc plenty device general 0x4000 4096 0 0 0 admissible refl
      (omega arith)

-- A device without high managers.
abbrev low_device : Managers
low_device = record device {
  vamgr_high = record { va_max = 0; va_alignment = 4096; va_holes = [] };
  vamgr_high_32 = record { va_max = 0; va_alignment = 4096; va_holes = [] };
}

-- With the flags for a 32-bit and a high range, the range comes from the low 32-bit manager.
va_range_alloc-Allowed_example : Allowed low_device 3 low_32
unfolding va_range_alloc known_flags first_choice fallback attempt hand_out run
va_range_alloc-Allowed_example =
    va_range_alloc-Allowed plenty low_device general 0x4000 4096 0 0 3
      (record { address = 0x20_0000; size = 0x4000; range = general; vamgr = low_32 }) refl
