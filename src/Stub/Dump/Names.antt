-- ===== src/Stub/Dump/Names.antt =====
-- The register names in a dump.
use Prim.Native.String.{String}
use libdrm.Base.{ℕ, ◌≡◌, refl, Option, none, some}
use libdrm.Stub.Regs.{radeon_get_reg_name}
use libdrm.Stub.Regs.Named.{radeon_get_reg_name_inj}
use libdrm.Stub.Dump.{name_text, reg_text}

name_text_inj :
    (a b : ℕ) (o p : Option String)
    → ((s : String) → o ≡ some s → p ≡ some s → a ≡ b)
    → name_text a o ≡ name_text b p
    → a ≡ b
name_text_inj a b none none h e = cc
name_text_inj a b none (some t) h e = absurd (cc)
name_text_inj a b (some s) none h e = absurd (cc)
name_text_inj a b (some s) (some t) h e = h t (cc) refl

-- Two registers that the dump prints alike are the same: no two of the 1203 names are equal, and a
-- register without a name is printed by its number.
pub reg_text_inj :
    (a b : ℕ) → reg_text radeon_get_reg_name a ≡ reg_text radeon_get_reg_name b → a ≡ b
reg_text_inj a b e =
    name_text_inj a b (radeon_get_reg_name a) (radeon_get_reg_name b) (radeon_get_reg_name_inj a b)
      e
