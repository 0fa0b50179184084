-- ===== src/Stub/Regs/ConfigFirst.antt =====
-- Registers 0x8000 to 0x85b0 of stub/radeon_hd_regs.cpp.
use Prim.Native.String.{String}
use libdrm.Base.{ℕ, List, [], ◌∷◌}

unfoldable pub config_first_names : List (ℕ × String)
config_first_names =
    (0x8000, "GRBM_CNTL")
    ∷ (0x8004, "GRBM_SKEW_CNTL")
    ∷ (0x8008, "GRBM_STATUS2")
    ∷ (0x800c, "GRBM_PWR_CNTL")
    ∷ (0x8010, "GRBM_STATUS")
    ∷ (0x8014, "GRBM_STATUS_SE0")
    ∷ (0x8018, "GRBM_STATUS_SE1")
    ∷ (0x8020, "GRBM_SOFT_RESET")
    ∷ (0x8024, "GRBM_DEBUG_CNTL")
    ∷ (0x8028, "GRBM_DEBUG_DATA")
    ∷ (0x802c, "GRBM_GFX_INDEX")
    ∷ (0x8030, "GRBM_GFX_CLKEN_CNTL")
    ∷ (0x8034, "GRBM_WAIT_IDLE_CLOCKS")
    ∷ (0x8050, "GRBM_DEBUG")
    ∷ (0x8054, "GRBM_DEBUG_SNAPSHOT")
    ∷ (0x8058, "GRBM_READ_ERROR")
    ∷ (0x8060, "GRBM_INT_CNTL")
    ∷ (0x8070, "GRBM_PERFCOUNTER0_SELECT")
    ∷ (0x8074, "GRBM_PERFCOUNTER1_SELECT")
    ∷ (0x8078, "GRBM_PERFCOUNTER0_LO")
    ∷ (0x807c, "GRBM_PERFCOUNTER0_HI")
    ∷ (0x8080, "GRBM_PERFCOUNTER1_LO")
    ∷ (0x8084, "GRBM_PERFCOUNTER1_HI")
    ∷ (0x8098, "GRBM_SE0_PERFCOUNTER_SELECT")
    ∷ (0x809c, "GRBM_SE1_PERFCOUNTER_SELECT")
    ∷ (0x80a8, "GRBM_SE0_PERFCOUNTER_LO")
    ∷ (0x80ac, "GRBM_SE0_PERFCOUNTER_HI")
    ∷ (0x80b0, "GRBM_SE1_PERFCOUNTER_LO")
    ∷ (0x80b4, "GRBM_SE1_PERFCOUNTER_HI")
    ∷ (0x80f0, "DEBUG_INDEX")
    ∷ (0x80f4, "DEBUG_DATA")
    ∷ (0x80fc, "GRBM_NOWHERE")
    ∷ (0x8100, "GRBM_SCRATCH_REG0")
    ∷ (0x8104, "GRBM_SCRATCH_REG1")
    ∷ (0x8108, "GRBM_SCRATCH_REG2")
    ∷ (0x810c, "GRBM_SCRATCH_REG3")
    ∷ (0x8110, "GRBM_SCRATCH_REG4")
    ∷ (0x8114, "GRBM_SCRATCH_REG5")
    ∷ (0x8118, "GRBM_SCRATCH_REG6")
    ∷ (0x811c, "GRBM_SCRATCH_REG7")
    ∷ (0x8300, "SQ_INTERRUPT_WORD_AUTO")
    ∷ (0x8400, "CP_EOP_DONE_ADDR_LO")
    ∷ (0x8404, "CP_EOP_DONE_ADDR_HI")
    ∷ (0x8408, "CP_EOP_DONE_DATA_LO")
    ∷ (0x840c, "CP_EOP_DONE_DATA_HI")
    ∷ (0x8410, "CP_EOP_LAST_FENCE_LO")
    ∷ (0x8414, "CP_EOP_LAST_FENCE_HI")
    ∷ (0x8418, "CP_STREAM_OUT_ADDR_LO")
    ∷ (0x841c, "CP_STREAM_OUT_ADDR_HI")
    ∷ (0x8420, "CP_NUM_PRIM_WRITTEN_COUNT0_LO")
    ∷ (0x8424, "CP_NUM_PRIM_WRITTEN_COUNT0_HI")
    ∷ (0x8428, "CP_NUM_PRIM_NEEDED_COUNT0_LO")
    ∷ (0x842c, "CP_NUM_PRIM_NEEDED_COUNT0_HI")
    ∷ (0x8430, "CP_NUM_PRIM_WRITTEN_COUNT1_LO")
    ∷ (0x8434, "CP_NUM_PRIM_WRITTEN_COUNT1_HI")
    ∷ (0x8438, "CP_NUM_PRIM_NEEDED_COUNT1_LO")
    ∷ (0x843c, "CP_NUM_PRIM_NEEDED_COUNT1_HI")
    ∷ (0x8440, "CP_NUM_PRIM_WRITTEN_COUNT2_LO")
    ∷ (0x8444, "CP_NUM_PRIM_WRITTEN_COUNT2_HI")
    ∷ (0x8448, "CP_NUM_PRIM_NEEDED_COUNT2_LO")
    ∷ (0x844c, "CP_NUM_PRIM_NEEDED_COUNT2_HI")
    ∷ (0x8450, "CP_NUM_PRIM_WRITTEN_COUNT3_LO")
    ∷ (0x8454, "CP_NUM_PRIM_WRITTEN_COUNT3_HI")
    ∷ (0x8458, "CP_NUM_PRIM_NEEDED_COUNT3_LO")
    ∷ (0x845c, "CP_NUM_PRIM_NEEDED_COUNT3_HI")
    ∷ (0x8460, "CP_PIPE_STATS_ADDR_LO")
    ∷ (0x8464, "CP_PIPE_STATS_ADDR_HI")
    ∷ (0x8468, "CP_VGT_IAVERT_COUNT_LO")
    ∷ (0x846c, "CP_VGT_IAVERT_COUNT_HI")
    ∷ (0x8470, "CP_VGT_IAPRIM_COUNT_LO")
    ∷ (0x8474, "CP_VGT_IAPRIM_COUNT_HI")
    ∷ (0x8478, "CP_VGT_GSPRIM_COUNT_LO")
    ∷ (0x847c, "CP_VGT_GSPRIM_COUNT_HI")
    ∷ (0x8480, "CP_VGT_VSINVOC_COUNT_LO")
    ∷ (0x8484, "CP_VGT_VSINVOC_COUNT_HI")
    ∷ (0x8488, "CP_VGT_GSINVOC_COUNT_LO")
    ∷ (0x848c, "CP_VGT_GSINVOC_COUNT_HI")
    ∷ (0x8490, "CP_VGT_HSINVOC_COUNT_LO")
    ∷ (0x8494, "CP_VGT_HSINVOC_COUNT_HI")
    ∷ (0x8498, "CP_VGT_DSINVOC_COUNT_LO")
    ∷ (0x849c, "CP_VGT_DSINVOC_COUNT_HI")
    ∷ (0x84a0, "CP_PA_CINVOC_COUNT_LO")
    ∷ (0x84a4, "CP_PA_CINVOC_COUNT_HI")
    ∷ (0x84a8, "CP_PA_CPRIM_COUNT_LO")
    ∷ (0x84ac, "CP_PA_CPRIM_COUNT_HI")
    ∷ (0x84b0, "CP_SC_PSINVOC_COUNT0_LO")
    ∷ (0x84b4, "CP_SC_PSINVOC_COUNT0_HI")
    ∷ (0x84b8, "CP_SC_PSINVOC_COUNT1_LO")
    ∷ (0x84bc, "CP_SC_PSINVOC_COUNT1_HI")
    ∷ (0x84c0, "CP_VGT_CSINVOC_COUNT_LO")
    ∷ (0x84c4, "CP_VGT_CSINVOC_COUNT_HI")
    ∷ (0x84fc, "CP_STRMOUT_CNTL")
    ∷ (0x8500, "SCRATCH_REG0")
    ∷ (0x8504, "SCRATCH_REG1")
    ∷ (0x8508, "SCRATCH_REG2")
    ∷ (0x850c, "SCRATCH_REG3")
    ∷ (0x8510, "SCRATCH_REG4")
    ∷ (0x8514, "SCRATCH_REG5")
    ∷ (0x8518, "SCRATCH_REG6")
    ∷ (0x851c, "SCRATCH_REG7")
    ∷ (0x8540, "SCRATCH_UMSK")
    ∷ (0x8544, "SCRATCH_ADDR")
    ∷ (0x8560, "CP_APPEND_ADDR_LO")
    ∷ (0x8564, "CP_APPEND_ADDR_HI")
    ∷ (0x8568, "CP_APPEND_DATA")
    ∷ (0x856c, "CP_APPEND_LAST_CS_FENCE")
    ∷ (0x8570, "CP_APPEND_LAST_PS_FENCE")
    ∷ (0x8574, "CP_ATOMIC_PREOP_LO")
    ∷ (0x8578, "CP_ATOMIC_PREOP_HI")
    ∷ (0x857c, "CP_GDS_ATOMIC0_PREOP_LO")
    ∷ (0x8580, "CP_GDS_ATOMIC0_PREOP_HI")
    ∷ (0x8584, "CP_GDS_ATOMIC1_PREOP_LO")
    ∷ (0x8588, "CP_GDS_ATOMIC1_PREOP_HI")
    ∷ (0x85a4, "CP_ME_MC_WADDR_LO")
    ∷ (0x85a8, "CP_ME_MC_WADDR_HI")
    ∷ (0x85ac, "CP_ME_MC_WDATA_LO")
    ∷ (0x85b0, "CP_ME_MC_WDATA_HI")
    ∷ []
