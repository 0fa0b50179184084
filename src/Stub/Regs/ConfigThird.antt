-- ===== src/Stub/Regs/ConfigThird.antt =====
-- Registers 0x88d0 to 0x8cbc of stub/radeon_hd_regs.cpp.
use Prim.Native.String.{String}
use libdrm.Base.{ℕ, List, [], ◌∷◌}

unfoldable pub config_third_names : List (ℕ × String)
config_third_names =
    (0x88d0, "VGT_FIFO_DEPTHS")
    ∷ (0x88d4, "VGT_GS_VERTEX_REUSE")
    ∷ (0x88d8, "VGT_MC_LAT_CNTL")
    ∷ (0x88dc, "IA_CNTL_STATUS")
    ∷ (0x88e0, "VGT_DEBUG_CNTL")
    ∷ (0x88e4, "VGT_DEBUG_DATA")
    ∷ (0x88e8, "IA_DEBUG_CNTL")
    ∷ (0x88ec, "IA_DEBUG_DATA")
    ∷ (0x88f0, "VGT_CNTL_STATUS")
    ∷ (0x891c, "VGT_PERFCOUNTER_SEID_MASK")
    ∷ (0x8920, "VGT_PERFCOUNTER0_SELECT")
    ∷ (0x8924, "VGT_PERFCOUNTER1_SELECT")
    ∷ (0x8928, "VGT_PERFCOUNTER2_SELECT")
    ∷ (0x892c, "VGT_PERFCOUNTER3_SELECT")
    ∷ (0x8930, "VGT_PERFCOUNTER0_LO")
    ∷ (0x8934, "VGT_PERFCOUNTER0_HI")
    ∷ (0x8938, "VGT_PERFCOUNTER1_LO")
    ∷ (0x893c, "VGT_PERFCOUNTER1_HI")
    ∷ (0x8940, "VGT_PERFCOUNTER2_LO")
    ∷ (0x8944, "VGT_PERFCOUNTER2_HI")
    ∷ (0x8948, "VGT_PERFCOUNTER3_LO")
    ∷ (0x894c, "VGT_PERFCOUNTER3_HI")
    ∷ (0x8958, "VGT_PRIMITIVE_TYPE")
    ∷ (0x895c, "VGT_INDEX_TYPE")
    ∷ (0x8960, "VGT_STRMOUT_BUFFER_FILLED_SIZE_0")
    ∷ (0x8964, "VGT_STRMOUT_BUFFER_FILLED_SIZE_1")
    ∷ (0x8968, "VGT_STRMOUT_BUFFER_FILLED_SIZE_2")
    ∷ (0x896c, "VGT_STRMOUT_BUFFER_FILLED_SIZE_3")
    ∷ (0x8970, "VGT_NUM_INDICES")
    ∷ (0x8974, "VGT_NUM_INSTANCES")
    ∷ (0x897c, "CGTT_VGT_CLK_CTRL")
    ∷ (0x8980, "IA_VMID_OVERRIDE")
    ∷ (0x8984, "CGTT_IA_CLK_CTRL")
    ∷ (0x8988, "VGT_TF_RING_SIZE")
    ∷ (0x898c, "VGT_SYS_CONFIG")
    ∷ (0x89b0, "VGT_HS_OFFCHIP_PARAM")
    ∷ (0x89b8, "VGT_TF_MEMORY_BASE")
    ∷ (0x89bc, "CC_GC_SHADER_ARRAY_CONFIG")
    ∷ (0x89c0, "GC_USER_SHADER_ARRAY_CONFIG")
    ∷ (0x8a00, "PA_SU_DEBUG_CNTL")
    ∷ (0x8a04, "PA_SU_DEBUG_DATA")
    ∷ (0x8a10, "PA_CL_CNTL_STATUS")
    ∷ (0x8a14, "PA_CL_ENHANCE")
    ∷ (0x8a18, "CGTT_PA_CLK_CTRL")
    ∷ (0x8a20, "PA_SU_PERFCOUNTER0_SELECT")
    ∷ (0x8a24, "PA_SU_PERFCOUNTER1_SELECT")
    ∷ (0x8a28, "PA_SU_PERFCOUNTER2_SELECT")
    ∷ (0x8a2c, "PA_SU_PERFCOUNTER3_SELECT")
    ∷ (0x8a30, "PA_SU_PERFCOUNTER0_LO")
    ∷ (0x8a34, "PA_SU_PERFCOUNTER0_HI")
    ∷ (0x8a38, "PA_SU_PERFCOUNTER1_LO")
    ∷ (0x8a3c, "PA_SU_PERFCOUNTER1_HI")
    ∷ (0x8a40, "PA_SU_PERFCOUNTER2_LO")
    ∷ (0x8a44, "PA_SU_PERFCOUNTER2_HI")
    ∷ (0x8a48, "PA_SU_PERFCOUNTER3_LO")
    ∷ (0x8a4c, "PA_SU_PERFCOUNTER3_HI")
    ∷ (0x8a50, "PA_SU_CNTL_STATUS")
    ∷ (0x8a54, "PA_SC_FIFO_DEPTH_CNTL")
    ∷ (0x8a60, "PA_SU_LINE_STIPPLE_VALUE")
    ∷ (0x8a80, "PA_SC_PERFCOUNTER0_SELECT")
    ∷ (0x8a84, "PA_SC_PERFCOUNTER1_SELECT")
    ∷ (0x8a88, "PA_SC_PERFCOUNTER2_SELECT")
    ∷ (0x8a8c, "PA_SC_PERFCOUNTER3_SELECT")
    ∷ (0x8a90, "PA_SC_PERFCOUNTER4_SELECT")
    ∷ (0x8a94, "PA_SC_PERFCOUNTER5_SELECT")
    ∷ (0x8a98, "PA_SC_PERFCOUNTER6_SELECT")
    ∷ (0x8a9c, "PA_SC_PERFCOUNTER7_SELECT")
    ∷ (0x8aa0, "PA_SC_PERFCOUNTER0_LO")
    ∷ (0x8aa4, "PA_SC_PERFCOUNTER0_HI")
    ∷ (0x8aa8, "PA_SC_PERFCOUNTER1_LO")
    ∷ (0x8aac, "PA_SC_PERFCOUNTER1_HI")
    ∷ (0x8ab0, "PA_SC_PERFCOUNTER2_LO")
    ∷ (0x8ab4, "PA_SC_PERFCOUNTER2_HI")
    ∷ (0x8ab8, "PA_SC_PERFCOUNTER3_LO")
    ∷ (0x8abc, "PA_SC_PERFCOUNTER3_HI")
    ∷ (0x8ac0, "PA_SC_PERFCOUNTER4_LO")
    ∷ (0x8ac4, "PA_SC_PERFCOUNTER4_HI")
    ∷ (0x8ac8, "PA_SC_PERFCOUNTER5_LO")
    ∷ (0x8acc, "PA_SC_PERFCOUNTER5_HI")
    ∷ (0x8ad0, "PA_SC_PERFCOUNTER6_LO")
    ∷ (0x8ad4, "PA_SC_PERFCOUNTER6_HI")
    ∷ (0x8ad8, "PA_SC_PERFCOUNTER7_LO")
    ∷ (0x8adc, "PA_SC_PERFCOUNTER7_HI")
    ∷ (0x8b10, "PA_SC_LINE_STIPPLE_STATE")
    ∷ (0x8b24, "PA_SC_FORCE_EOV_MAX_CNTS")
    ∷ (0x8b28, "CGTT_SC_CLK_CTRL")
    ∷ (0x8bcc, "PA_SC_FIFO_SIZE")
    ∷ (0x8bd4, "PA_SC_IF_FIFO_SIZE")
    ∷ (0x8bd8, "PA_SC_DEBUG_CNTL")
    ∷ (0x8bdc, "PA_SC_DEBUG_DATA")
    ∷ (0x8bf0, "PA_SC_ENHANCE")
    ∷ (0x8c00, "SQ_CONFIG")
    ∷ (0x8c04, "SQC_CONFIG")
    ∷ (0x8c08, "SQC_CACHES")
    ∷ (0x8c0c, "SQ_RANDOM_WAVE_PRI")
    ∷ (0x8c10, "SQ_REG_CREDITS")
    ∷ (0x8c14, "SQ_FIFO_SIZES")
    ∷ (0x8c18, "SQ_PERFCOUNTER_CTRL")
    ∷ (0x8c1c, "CC_SQC_BANK_DISABLE")
    ∷ (0x8c20, "USER_SQC_BANK_DISABLE")
    ∷ (0x8c24, "SQ_DEBUG_STS_GLOBAL")
    ∷ (0x8c80, "SQ_PERFCOUNTER0_LO")
    ∷ (0x8c84, "SQ_PERFCOUNTER0_HI")
    ∷ (0x8c88, "SQ_PERFCOUNTER1_LO")
    ∷ (0x8c8c, "SQ_PERFCOUNTER1_HI")
    ∷ (0x8c90, "SQ_PERFCOUNTER2_LO")
    ∷ (0x8c94, "SQ_PERFCOUNTER2_HI")
    ∷ (0x8c98, "SQ_PERFCOUNTER3_LO")
    ∷ (0x8c9c, "SQ_PERFCOUNTER3_HI")
    ∷ (0x8ca0, "SQ_PERFCOUNTER4_LO")
    ∷ (0x8ca4, "SQ_PERFCOUNTER4_HI")
    ∷ (0x8ca8, "SQ_PERFCOUNTER5_LO")
    ∷ (0x8cac, "SQ_PERFCOUNTER5_HI")
    ∷ (0x8cb0, "SQ_PERFCOUNTER6_LO")
    ∷ (0x8cb4, "SQ_PERFCOUNTER6_HI")
    ∷ (0x8cb8, "SQ_PERFCOUNTER7_LO")
    ∷ (0x8cbc, "SQ_PERFCOUNTER7_HI")
    ∷ []
