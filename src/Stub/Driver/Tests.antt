-- ===== src/Stub/Driver/Tests.antt =====
-- An object that is made and freed on a device whose driver is the stub.
use libdrm.Base.{ℕ, ◌≡◌, refl, true, none, some, [], arith, IsPow2, find, ok, align32}
use libdrm.HandleTable.{insert, lookup, grow}
use libdrm.Bo.State.{Device}
use libdrm.Bo.Create.{Memory, new_bo, bo_alloc, adopt, bo_create}
use libdrm.Bo.Share.{bo_free, unregister, release_cpu}
use libdrm.Bo.Sound
use libdrm.Bo.Reach.{without}
use libdrm.Bo.Driver.{Driver, is_some}
use libdrm.Bo.World.{World, settle, close_all, world_alloc, alloc, free, start, next, Agrees}
use libdrm.Bo.World.Agree.{Steps-Agrees}
use libdrm.Stub.Buffers.{no_buffers}
use libdrm.Stub.Driver.{stub_driver}

abbrev four_entries : IsPow2 4
four_entries = record { log = 2; log_lt = omega arith; is_pow = refl }

abbrev memory : Memory
memory = record { fresh = 100; page_entries = 4; grows = true }

abbrev driver : Driver
driver = stub_driver (some 0x7000)

abbrev no_objects : Device
no_objects = record {
  bo_handles = record { max_key = 0; values = [] };
  bo_flink_names = record { max_key = 0; values = [] };
  heap = λ p. none;
  closed = [];
}

lookup_empty : (j : ℕ) → lookup no_objects.bo_handles j ≡ none
unfolding lookup
lookup_empty j = ground arith

abbrev idle : World driver
unfolding stub_driver
idle = record { device = no_objects; state = no_buffers }

idle-Agrees : Agrees driver idle
unfolding stub_driver find
idle-Agrees = record {
  sound = record {
    table = refl;
    listed = λ p b e. absurd (cc);
    live = λ h p e. absurd (cc (rw (lookup_empty h) at e));
    no_names = lookup_empty;
    no_null = refl;
  };
  sane = record { handles = tt; mappings = tt; below = λ h b e. absurd (cc) };
  settled = refl;
  same = λ j. rw (lookup_empty j) refl;
}

abbrev busy : World driver
busy = world_alloc driver memory idle 8192

abbrev freed : World driver
freed = settle driver (without busy.device 100 (new_bo 8192 1)) busy.state

Steps-Agrees_example :
    Sound.IsSound freed.device
    × ((j : ℕ) → driver.owned freed.state j ≡ is_some (lookup freed.device.bo_handles j))
unfolding stub_driver world_alloc settle close_all bo_alloc adopt bo_create insert grow align32
    bo_free unregister release_cpu lookup
Steps-Agrees_example = Steps-Agrees driver idle freed idle-Agrees (
    next
      (next start (
        alloc memory idle 8192 (record { unused = refl; page = four_entries }) (omega arith)
          (λ h e. ground arith)))
      (free busy (without busy.device 100 (new_bo 8192 1)) 100 ok refl))
