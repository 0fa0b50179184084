-- ===== src/Stub/Regs/ConfigLast.antt =====
-- Registers 0x8cc0 to 0x998c of stub/radeon_hd_regs.cpp.
use Prim.Native.String.{String}
use libdrm.Base.{ℕ, List, [], ◌∷◌}

unfoldable pub config_last_names : List (ℕ × String)
config_last_names =
    (0x8cc0, "SQ_PERFCOUNTER8_LO")
    ∷ (0x8cc4, "SQ_PERFCOUNTER8_HI")
    ∷ (0x8cc8, "SQ_PERFCOUNTER9_LO")
    ∷ (0x8ccc, "SQ_PERFCOUNTER9_HI")
    ∷ (0x8cd0, "SQ_PERFCOUNTER10_LO")
    ∷ (0x8cd4, "SQ_PERFCOUNTER10_HI")
    ∷ (0x8cd8, "SQ_PERFCOUNTER11_LO")
    ∷ (0x8cdc, "SQ_PERFCOUNTER11_HI")
    ∷ (0x8ce0, "SQ_PERFCOUNTER12_LO")
    ∷ (0x8ce4, "SQ_PERFCOUNTER12_HI")
    ∷ (0x8ce8, "SQ_PERFCOUNTER13_LO")
    ∷ (0x8cec, "SQ_PERFCOUNTER13_HI")
    ∷ (0x8cf0, "SQ_PERFCOUNTER14_LO")
    ∷ (0x8cf4, "SQ_PERFCOUNTER14_HI")
    ∷ (0x8cf8, "SQ_PERFCOUNTER15_LO")
    ∷ (0x8cfc, "SQ_PERFCOUNTER15_HI")
    ∷ (0x8d00, "SQ_PERFCOUNTER0_SELECT")
    ∷ (0x8d04, "SQ_PERFCOUNTER1_SELECT")
    ∷ (0x8d08, "SQ_PERFCOUNTER2_SELECT")
    ∷ (0x8d0c, "SQ_PERFCOUNTER3_SELECT")
    ∷ (0x8d10, "SQ_PERFCOUNTER4_SELECT")
    ∷ (0x8d14, "SQ_PERFCOUNTER5_SELECT")
    ∷ (0x8d18, "SQ_PERFCOUNTER6_SELECT")
    ∷ (0x8d1c, "SQ_PERFCOUNTER7_SELECT")
    ∷ (0x8d20, "SQ_PERFCOUNTER8_SELECT")
    ∷ (0x8d24, "SQ_PERFCOUNTER9_SELECT")
    ∷ (0x8d28, "SQ_PERFCOUNTER10_SELECT")
    ∷ (0x8d2c, "SQ_PERFCOUNTER11_SELECT")
    ∷ (0x8d30, "SQ_PERFCOUNTER12_SELECT")
    ∷ (0x8d34, "SQ_PERFCOUNTER13_SELECT")
    ∷ (0x8d38, "SQ_PERFCOUNTER14_SELECT")
    ∷ (0x8d3c, "SQ_PERFCOUNTER15_SELECT")
    ∷ (0x8d80, "SQ_ALU_CLK_CTRL")
    ∷ (0x8d84, "SQ_TEX_CLK_CTRL")
    ∷ (0x8d88, "CGTT_SQ_CLK_CTRL")
    ∷ (0x8d8c, "CGTT_SQG_CLK_CTRL")
    ∷ (0x8de0, "SQ_IND_INDEX")
    ∷ (0x8de4, "SQ_IND_DATA")
    ∷ (0x8df0, "SQ_TIME_HI")
    ∷ (0x8df4, "SQ_TIME_LO")
    ∷ (0x8e00, "SQ_THREAD_TRACE_BASE")
    ∷ (0x8e04, "SQ_THREAD_TRACE_SIZE")
    ∷ (0x8e08, "SQ_THREAD_TRACE_MASK")
    ∷ (0x8e0c, "SQ_THREAD_TRACE_TOKEN_MASK")
    ∷ (0x8e10, "SQ_THREAD_TRACE_PERF_MASK")
    ∷ (0x8e20, "SQ_THREAD_TRACE_USERDATA_0")
    ∷ (0x8e24, "SQ_THREAD_TRACE_USERDATA_1")
    ∷ (0x8e28, "SQ_THREAD_TRACE_USERDATA_2")
    ∷ (0x8e2c, "SQ_THREAD_TRACE_USERDATA_3")
    ∷ (0x8e30, "SQ_THREAD_TRACE_WPTR")
    ∷ (0x8e34, "SQ_THREAD_TRACE_STATUS")
    ∷ (0x8e38, "SQ_THREAD_TRACE_MODE")
    ∷ (0x8e3c, "SQ_THREAD_TRACE_CTRL")
    ∷ (0x8e40, "SQ_THREAD_TRACE_CNTR")
    ∷ (0x8e48, "SQ_THREAD_TRACE_HIWATER")
    ∷ (0x8e58, "SQ_POWER_THROTTLE")
    ∷ (0x8e5c, "SQ_POWER_THROTTLE2")
    ∷ (0x8e60, "SQ_LB_CTR_CTRL")
    ∷ (0x8e64, "SQ_LB_DATA_ALU_CYCLES")
    ∷ (0x8e68, "SQ_LB_DATA_TEX_CYCLES")
    ∷ (0x8e6c, "SQ_LB_DATA_ALU_STALLS")
    ∷ (0x8e70, "SQ_LB_DATA_TEX_STALLS")
    ∷ (0x8e80, "SQC_SECDED_CNT")
    ∷ (0x8e84, "SQ_SEC_CNT")
    ∷ (0x8e88, "SQ_DED_CNT")
    ∷ (0x8e8c, "SQ_DED_INFO")
    ∷ (0x8f00, "SQ_BUF_RSRC_WORD0")
    ∷ (0x8f04, "SQ_BUF_RSRC_WORD1")
    ∷ (0x8f08, "SQ_BUF_RSRC_WORD2")
    ∷ (0x8f0c, "SQ_BUF_RSRC_WORD3")
    ∷ (0x8f10, "SQ_IMG_RSRC_WORD0")
    ∷ (0x8f14, "SQ_IMG_RSRC_WORD1")
    ∷ (0x8f18, "SQ_IMG_RSRC_WORD2")
    ∷ (0x8f1c, "SQ_IMG_RSRC_WORD3")
    ∷ (0x8f20, "SQ_IMG_RSRC_WORD4")
    ∷ (0x8f24, "SQ_IMG_RSRC_WORD5")
    ∷ (0x8f28, "SQ_IMG_RSRC_WORD6")
    ∷ (0x8f2c, "SQ_IMG_RSRC_WORD7")
    ∷ (0x8f30, "SQ_IMG_SAMP_WORD0")
    ∷ (0x8f34, "SQ_IMG_SAMP_WORD1")
    ∷ (0x8f38, "SQ_IMG_SAMP_WORD2")
    ∷ (0x8f3c, "SQ_IMG_SAMP_WORD3")
    ∷ (0x9100, "SPI_CONFIG_CNTL")
    ∷ (0x950c, "TA_CS_BC_BASE_ADDR")
    ∷ (0x98f8, "GB_ADDR_CONFIG")
    ∷ (0x9910, "GB_TILE_MODE0")
    ∷ (0x9914, "GB_TILE_MODE1")
    ∷ (0x9918, "GB_TILE_MODE2")
    ∷ (0x991c, "GB_TILE_MODE3")
    ∷ (0x9920, "GB_TILE_MODE4")
    ∷ (0x9924, "GB_TILE_MODE5")
    ∷ (0x9928, "GB_TILE_MODE6")
    ∷ (0x992c, "GB_TILE_MODE7")
    ∷ (0x9930, "GB_TILE_MODE8")
    ∷ (0x9934, "GB_TILE_MODE9")
    ∷ (0x9938, "GB_TILE_MODE10")
    ∷ (0x993c, "GB_TILE_MODE11")
    ∷ (0x9940, "GB_TILE_MODE12")
    ∷ (0x9944, "GB_TILE_MODE13")
    ∷ (0x9948, "GB_TILE_MODE14")
    ∷ (0x994c, "GB_TILE_MODE15")
    ∷ (0x9950, "GB_TILE_MODE16")
    ∷ (0x9954, "GB_TILE_MODE17")
    ∷ (0x9958, "GB_TILE_MODE18")
    ∷ (0x995c, "GB_TILE_MODE19")
    ∷ (0x9960, "GB_TILE_MODE20")
    ∷ (0x9964, "GB_TILE_MODE21")
    ∷ (0x9968, "GB_TILE_MODE22")
    ∷ (0x996c, "GB_TILE_MODE23")
    ∷ (0x9970, "GB_TILE_MODE24")
    ∷ (0x9974, "GB_TILE_MODE25")
    ∷ (0x9978, "GB_TILE_MODE26")
    ∷ (0x997c, "GB_TILE_MODE27")
    ∷ (0x9980, "GB_TILE_MODE28")
    ∷ (0x9984, "GB_TILE_MODE29")
    ∷ (0x9988, "GB_TILE_MODE30")
    ∷ (0x998c, "GB_TILE_MODE31")
    ∷ []
