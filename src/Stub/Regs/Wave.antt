-- ===== src/Stub/Regs/Wave.antt =====
-- Registers 0x44 to 0x9fc of stub/radeon_hd_regs.cpp.
use Prim.Native.String.{String}
use libdrm.Base.{ℕ, List, [], ◌∷◌}

unfoldable pub wave_names : List (ℕ × String)
wave_names =
    (0x44, "SQ_WAVE_MODE")
    ∷ (0x48, "SQ_WAVE_STATUS")
    ∷ (0x4c, "SQ_WAVE_TRAPSTS")
    ∷ (0x50, "SQ_WAVE_HW_ID")
    ∷ (0x54, "SQ_WAVE_GPR_ALLOC")
    ∷ (0x58, "SQ_WAVE_LDS_ALLOC")
    ∷ (0x5c, "SQ_WAVE_IB_STS")
    ∷ (0x60, "SQ_WAVE_PC_LO")
    ∷ (0x64, "SQ_WAVE_PC_HI")
    ∷ (0x68, "SQ_WAVE_INST_DW0")
    ∷ (0x6c, "SQ_WAVE_INST_DW1")
    ∷ (0x70, "SQ_WAVE_IB_DBG0")
    ∷ (0x9b0, "SQ_WAVE_TBA_LO")
    ∷ (0x9b4, "SQ_WAVE_TBA_HI")
    ∷ (0x9b8, "SQ_WAVE_TMA_LO")
    ∷ (0x9bc, "SQ_WAVE_TMA_HI")
    ∷ (0x9c0, "SQ_WAVE_TTMP0")
    ∷ (0x9c4, "SQ_WAVE_TTMP1")
    ∷ (0x9c8, "SQ_WAVE_TTMP2")
    ∷ (0x9cc, "SQ_WAVE_TTMP3")
    ∷ (0x9d0, "SQ_WAVE_TTMP4")
    ∷ (0x9d4, "SQ_WAVE_TTMP5")
    ∷ (0x9d8, "SQ_WAVE_TTMP6")
    ∷ (0x9dc, "SQ_WAVE_TTMP7")
    ∷ (0x9e0, "SQ_WAVE_TTMP8")
    ∷ (0x9e4, "SQ_WAVE_TTMP9")
    ∷ (0x9e8, "SQ_WAVE_TTMP10")
    ∷ (0x9ec, "SQ_WAVE_TTMP11")
    ∷ (0x9f0, "SQ_WAVE_M0")
    ∷ (0x9f8, "SQ_WAVE_EXEC_LO")
    ∷ (0x9fc, "SQ_WAVE_EXEC_HI")
    ∷ []
