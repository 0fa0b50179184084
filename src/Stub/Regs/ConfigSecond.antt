-- ===== src/Stub/Regs/ConfigSecond.antt =====
-- Registers 0x85b4 to 0x88cc of stub/radeon_hd_regs.cpp.
use Prim.Native.String.{String}
use libdrm.Base.{ℕ, List, [], ◌∷◌}

unfoldable pub config_second_names : List (ℕ × String)
config_second_names =
    (0x85b4, "CP_ME_MC_RADDR_LO")
    ∷ (0x85b8, "CP_ME_MC_RADDR_HI")
    ∷ (0x85bc, "CP_SEM_WAIT_TIMER")
    ∷ (0x85c0, "CP_SIG_SEM_ADDR_LO")
    ∷ (0x85c4, "CP_SIG_SEM_ADDR_HI")
    ∷ (0x85d0, "CP_WAIT_REG_MEM_TIMEOUT")
    ∷ (0x85d4, "CP_WAIT_SEM_ADDR_LO")
    ∷ (0x85d8, "CP_WAIT_SEM_ADDR_HI")
    ∷ (0x85ec, "CP_COHER_START_DELAY")
    ∷ (0x85f0, "CP_COHER_CNTL")
    ∷ (0x85f4, "CP_COHER_SIZE")
    ∷ (0x85f8, "CP_COHER_BASE")
    ∷ (0x85fc, "CP_COHER_STATUS")
    ∷ (0x8600, "CP_DMA_ME_SRC_ADDR")
    ∷ (0x8604, "CP_DMA_ME_SRC_ADDR_HI")
    ∷ (0x8608, "CP_DMA_ME_DST_ADDR")
    ∷ (0x860c, "CP_DMA_ME_DST_ADDR_HI")
    ∷ (0x8610, "CP_DMA_ME_COMMAND")
    ∷ (0x8614, "CP_DMA_PFP_SRC_ADDR")
    ∷ (0x8618, "CP_DMA_PFP_SRC_ADDR_HI")
    ∷ (0x861c, "CP_DMA_PFP_DST_ADDR")
    ∷ (0x8620, "CP_DMA_PFP_DST_ADDR_HI")
    ∷ (0x8624, "CP_DMA_PFP_COMMAND")
    ∷ (0x8628, "CP_DMA_CNTL")
    ∷ (0x862c, "CP_DMA_READ_TAGS")
    ∷ (0x8634, "CP_PFP_IB_CONTROL")
    ∷ (0x8638, "CP_PFP_LOAD_CONTROL")
    ∷ (0x863c, "CP_SCRATCH_INDEX")
    ∷ (0x8640, "CP_SCRATCH_DATA")
    ∷ (0x8644, "CP_RB_OFFSET")
    ∷ (0x8648, "CP_IB1_OFFSET")
    ∷ (0x864c, "CP_IB2_OFFSET")
    ∷ (0x8650, "CP_IB1_PREAMBLE_BEGIN")
    ∷ (0x8654, "CP_IB1_PREAMBLE_END")
    ∷ (0x8658, "CP_IB2_PREAMBLE_BEGIN")
    ∷ (0x865c, "CP_IB2_PREAMBLE_END")
    ∷ (0x8670, "CP_STALLED_STAT3")
    ∷ (0x8674, "CP_STALLED_STAT1")
    ∷ (0x8678, "CP_STALLED_STAT2")
    ∷ (0x867c, "CP_BUSY_STAT")
    ∷ (0x8680, "CP_STAT")
    ∷ (0x8684, "CP_ME_HEADER_DUMP")
    ∷ (0x8688, "CP_PFP_HEADER_DUMP")
    ∷ (0x868c, "CP_GRBM_FREE_COUNT")
    ∷ (0x8690, "CP_CE_HEADER_DUMP")
    ∷ (0x869c, "CP_MC_PACK_DELAY_CNT")
    ∷ (0x86d0, "CP_CSF_STAT")
    ∷ (0x86d4, "CP_CSF_CNTL")
    ∷ (0x86d8, "CP_ME_CNTL")
    ∷ (0x86e0, "CP_CNTX_STAT")
    ∷ (0x86e4, "CP_ME_PREEMPTION")
    ∷ (0x86f8, "CP_RB2_RPTR")
    ∷ (0x86fc, "CP_RB1_RPTR")
    ∷ (0x8700, "CP_RB0_RPTR")
    ∷ (0x8704, "CP_RB_WPTR_DELAY")
    ∷ (0x8708, "CP_RB_WPTR_POLL_CNTL")
    ∷ (0x870c, "CP_CE_INIT_BASE_LO")
    ∷ (0x8710, "CP_CE_INIT_BASE_HI")
    ∷ (0x8714, "CP_CE_INIT_BUFSZ")
    ∷ (0x8718, "CP_CE_IB1_BASE_LO")
    ∷ (0x871c, "CP_CE_IB1_BASE_HI")
    ∷ (0x8720, "CP_CE_IB1_BUFSZ")
    ∷ (0x8724, "CP_CE_IB2_BASE_LO")
    ∷ (0x8728, "CP_CE_IB2_BASE_HI")
    ∷ (0x872c, "CP_CE_IB2_BUFSZ")
    ∷ (0x8730, "CP_IB1_BASE_LO")
    ∷ (0x8734, "CP_IB1_BASE_HI")
    ∷ (0x8738, "CP_IB1_BUFSZ")
    ∷ (0x873c, "CP_IB2_BASE_LO")
    ∷ (0x8740, "CP_IB2_BASE_HI")
    ∷ (0x8744, "CP_IB2_BUFSZ")
    ∷ (0x8748, "CP_ST_BASE_LO")
    ∷ (0x874c, "CP_ST_BASE_HI")
    ∷ (0x8750, "CP_ST_BUFSZ")
    ∷ (0x8754, "CP_ROQ1_THRESHOLDS")
    ∷ (0x8758, "CP_ROQ2_THRESHOLDS")
    ∷ (0x875c, "CP_STQ_THRESHOLDS")
    ∷ (0x8760, "CP_QUEUE_THRESHOLDS")
    ∷ (0x8764, "CP_MEQ_THRESHOLDS")
    ∷ (0x8768, "CP_ROQ_AVAIL")
    ∷ (0x876c, "CP_STQ_AVAIL")
    ∷ (0x8770, "CP_ROQ2_AVAIL")
    ∷ (0x8774, "CP_MEQ_AVAIL")
    ∷ (0x8778, "CP_CMD_INDEX")
    ∷ (0x877c, "CP_CMD_DATA")
    ∷ (0x8780, "CP_ROQ_RB_STAT")
    ∷ (0x8784, "CP_ROQ_IB1_STAT")
    ∷ (0x8788, "CP_ROQ_IB2_STAT")
    ∷ (0x878c, "CP_STQ_STAT")
    ∷ (0x8794, "CP_MEQ_STAT")
    ∷ (0x8798, "CP_CEQ1_AVAIL")
    ∷ (0x879c, "CP_CEQ2_AVAIL")
    ∷ (0x87a0, "CP_CE_ROQ_RB_STAT")
    ∷ (0x87a4, "CP_CE_ROQ_IB1_STAT")
    ∷ (0x87a8, "CP_CE_ROQ_IB2_STAT")
    ∷ (0x87dc, "CP_INT_STAT_DEBUG")
    ∷ (0x87fc, "CP_PERFMON_CNTL")
    ∷ (0x8880, "IA_PERFCOUNTER0_SELECT")
    ∷ (0x8884, "IA_PERFCOUNTER1_SELECT")
    ∷ (0x8888, "IA_PERFCOUNTER2_SELECT")
    ∷ (0x888c, "IA_PERFCOUNTER3_SELECT")
    ∷ (0x8890, "IA_PERFCOUNTER0_LO")
    ∷ (0x8894, "IA_PERFCOUNTER0_HI")
    ∷ (0x8898, "IA_PERFCOUNTER1_LO")
    ∷ (0x889c, "IA_PERFCOUNTER1_HI")
    ∷ (0x88a0, "IA_PERFCOUNTER2_LO")
    ∷ (0x88a4, "IA_PERFCOUNTER2_HI")
    ∷ (0x88a8, "IA_PERFCOUNTER3_LO")
    ∷ (0x88ac, "IA_PERFCOUNTER3_HI")
    ∷ (0x88b0, "VGT_VTX_VECT_EJECT_REG")
    ∷ (0x88b4, "VGT_DMA_DATA_FIFO_DEPTH")
    ∷ (0x88b8, "VGT_DMA_REQ_FIFO_DEPTH")
    ∷ (0x88bc, "VGT_DRAW_INIT_FIFO_DEPTH")
    ∷ (0x88c0, "VGT_LAST_COPY_STATE")
    ∷ (0x88c4, "VGT_CACHE_INVALIDATION")
    ∷ (0x88c8, "VGT_ESGS_RING_SIZE")
    ∷ (0x88cc, "VGT_GSVS_RING_SIZE")
    ∷ []
