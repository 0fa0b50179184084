-- ===== src/Stub/Regs.antt =====
-- The names of the registers, RadeonGetRegName of stub/radeon_hd_regs.cpp: the cases of its switch, in
-- the order of the registers.
mod Wave
mod ConfigFirst
mod ConfigSecond
mod ConfigThird
mod ConfigLast
mod ShFirst
mod ShLast
mod ContextFirst
mod ContextSecond
mod ContextThird
mod ContextLast
pub mod Named
use Prim.Native.String.{String}
use libdrm.Base.{ℕ, ◌==◌, Option, none, some, List, [], ◌∷◌, if◌then◌else◌}
use libdrm.Stub.Regs.Wave.{wave_names}
use libdrm.Stub.Regs.ConfigFirst.{config_first_names}
use libdrm.Stub.Regs.ConfigSecond.{config_second_names}
use libdrm.Stub.Regs.ConfigThird.{config_third_names}
use libdrm.Stub.Regs.ConfigLast.{config_last_names}
use libdrm.Stub.Regs.ShFirst.{sh_first_names}
use libdrm.Stub.Regs.ShLast.{sh_last_names}
use libdrm.Stub.Regs.ContextFirst.{context_first_names}
use libdrm.Stub.Regs.ContextSecond.{context_second_names}
use libdrm.Stub.Regs.ContextThird.{context_third_names}
use libdrm.Stub.Regs.ContextLast.{context_last_names}

unfoldable pub find_name : List (ℕ × String) → ℕ → Option String
find_name [] reg = none
find_name ((r, name) ∷ names) reg = if reg == r then some name else find_name names reg

unfoldable pub find_in : List (List (ℕ × String)) → ℕ → Option String
unfolding find_name
find_in [] reg = none
find_in (names ∷ tables) reg = elim (find_name names reg) [
  | some name ↦ some name
  | none ↦ find_in tables reg
]

unfoldable pub reg_tables : List (List (ℕ × String))
unfolding wave_names config_first_names config_second_names config_third_names config_last_names
    sh_first_names sh_last_names context_first_names context_second_names context_third_names
    context_last_names
reg_tables =
    wave_names ∷ config_first_names ∷ config_second_names ∷ config_third_names ∷ config_last_names
    ∷ sh_first_names ∷ sh_last_names ∷ context_first_names ∷ context_second_names
    ∷ context_third_names ∷ context_last_names ∷ []

-- `none` is NULL.
unfoldable pub radeon_get_reg_name : ℕ → Option String
unfolding find_in reg_tables
radeon_get_reg_name reg = find_in reg_tables reg
