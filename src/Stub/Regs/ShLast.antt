-- ===== src/Stub/Regs/ShLast.antt =====
-- Registers 0xb360 to 0xb93c of stub/radeon_hd_regs.cpp.
use Prim.Native.String.{String}
use libdrm.Base.{ℕ, List, [], ◌∷◌}

unfoldable pub sh_last_names : List (ℕ × String)
sh_last_names =
    (0xb360, "SPI_SHADER_USER_DATA_ES_12")
    ∷ (0xb364, "SPI_SHADER_USER_DATA_ES_13")
    ∷ (0xb368, "SPI_SHADER_USER_DATA_ES_14")
    ∷ (0xb36c, "SPI_SHADER_USER_DATA_ES_15")
    ∷ (0xb400, "SPI_SHADER_TBA_LO_HS")
    ∷ (0xb404, "SPI_SHADER_TBA_HI_HS")
    ∷ (0xb408, "SPI_SHADER_TMA_LO_HS")
    ∷ (0xb40c, "SPI_SHADER_TMA_HI_HS")
    ∷ (0xb420, "SPI_SHADER_PGM_LO_HS")
    ∷ (0xb424, "SPI_SHADER_PGM_HI_HS")
    ∷ (0xb428, "SPI_SHADER_PGM_RSRC1_HS")
    ∷ (0xb42c, "SPI_SHADER_PGM_RSRC2_HS")
    ∷ (0xb430, "SPI_SHADER_USER_DATA_HS_0")
    ∷ (0xb434, "SPI_SHADER_USER_DATA_HS_1")
    ∷ (0xb438, "SPI_SHADER_USER_DATA_HS_2")
    ∷ (0xb43c, "SPI_SHADER_USER_DATA_HS_3")
    ∷ (0xb440, "SPI_SHADER_USER_DATA_HS_4")
    ∷ (0xb444, "SPI_SHADER_USER_DATA_HS_5")
    ∷ (0xb448, "SPI_SHADER_USER_DATA_HS_6")
    ∷ (0xb44c, "SPI_SHADER_USER_DATA_HS_7")
    ∷ (0xb450, "SPI_SHADER_USER_DATA_HS_8")
    ∷ (0xb454, "SPI_SHADER_USER_DATA_HS_9")
    ∷ (0xb458, "SPI_SHADER_USER_DATA_HS_10")
    ∷ (0xb45c, "SPI_SHADER_USER_DATA_HS_11")
    ∷ (0xb460, "SPI_SHADER_USER_DATA_HS_12")
    ∷ (0xb464, "SPI_SHADER_USER_DATA_HS_13")
    ∷ (0xb468, "SPI_SHADER_USER_DATA_HS_14")
    ∷ (0xb46c, "SPI_SHADER_USER_DATA_HS_15")
    ∷ (0xb500, "SPI_SHADER_TBA_LO_LS")
    ∷ (0xb504, "SPI_SHADER_TBA_HI_LS")
    ∷ (0xb508, "SPI_SHADER_TMA_LO_LS")
    ∷ (0xb50c, "SPI_SHADER_TMA_HI_LS")
    ∷ (0xb520, "SPI_SHADER_PGM_LO_LS")
    ∷ (0xb524, "SPI_SHADER_PGM_HI_LS")
    ∷ (0xb528, "SPI_SHADER_PGM_RSRC1_LS")
    ∷ (0xb52c, "SPI_SHADER_PGM_RSRC2_LS")
    ∷ (0xb530, "SPI_SHADER_USER_DATA_LS_0")
    ∷ (0xb534, "SPI_SHADER_USER_DATA_LS_1")
    ∷ (0xb538, "SPI_SHADER_USER_DATA_LS_2")
    ∷ (0xb53c, "SPI_SHADER_USER_DATA_LS_3")
    ∷ (0xb540, "SPI_SHADER_USER_DATA_LS_4")
    ∷ (0xb544, "SPI_SHADER_USER_DATA_LS_5")
    ∷ (0xb548, "SPI_SHADER_USER_DATA_LS_6")
    ∷ (0xb54c, "SPI_SHADER_USER_DATA_LS_7")
    ∷ (0xb550, "SPI_SHADER_USER_DATA_LS_8")
    ∷ (0xb554, "SPI_SHADER_USER_DATA_LS_9")
    ∷ (0xb558, "SPI_SHADER_USER_DATA_LS_10")
    ∷ (0xb55c, "SPI_SHADER_USER_DATA_LS_11")
    ∷ (0xb560, "SPI_SHADER_USER_DATA_LS_12")
    ∷ (0xb564, "SPI_SHADER_USER_DATA_LS_13")
    ∷ (0xb568, "SPI_SHADER_USER_DATA_LS_14")
    ∷ (0xb56c, "SPI_SHADER_USER_DATA_LS_15")
    ∷ (0xb800, "COMPUTE_DISPATCH_INITIATOR")
    ∷ (0xb804, "COMPUTE_DIM_X")
    ∷ (0xb808, "COMPUTE_DIM_Y")
    ∷ (0xb80c, "COMPUTE_DIM_Z")
    ∷ (0xb810, "COMPUTE_START_X")
    ∷ (0xb814, "COMPUTE_START_Y")
    ∷ (0xb818, "COMPUTE_START_Z")
    ∷ (0xb81c, "COMPUTE_NUM_THREAD_X")
    ∷ (0xb820, "COMPUTE_NUM_THREAD_Y")
    ∷ (0xb824, "COMPUTE_NUM_THREAD_Z")
    ∷ (0xb830, "COMPUTE_PGM_LO")
    ∷ (0xb834, "COMPUTE_PGM_HI")
    ∷ (0xb838, "COMPUTE_TBA_LO")
    ∷ (0xb83c, "COMPUTE_TBA_HI")
    ∷ (0xb840, "COMPUTE_TMA_LO")
    ∷ (0xb844, "COMPUTE_TMA_HI")
    ∷ (0xb848, "COMPUTE_PGM_RSRC1")
    ∷ (0xb84c, "COMPUTE_PGM_RSRC2")
    ∷ (0xb850, "COMPUTE_VMID")
    ∷ (0xb854, "COMPUTE_RESOURCE_LIMITS")
    ∷ (0xb858, "COMPUTE_STATIC_THREAD_MGMT_SE0")
    ∷ (0xb85c, "COMPUTE_STATIC_THREAD_MGMT_SE1")
    ∷ (0xb860, "COMPUTE_TMPRING_SIZE")
    ∷ (0xb900, "COMPUTE_USER_DATA_0")
    ∷ (0xb904, "COMPUTE_USER_DATA_1")
    ∷ (0xb908, "COMPUTE_USER_DATA_2")
    ∷ (0xb90c, "COMPUTE_USER_DATA_3")
    ∷ (0xb910, "COMPUTE_USER_DATA_4")
    ∷ (0xb914, "COMPUTE_USER_DATA_5")
    ∷ (0xb918, "COMPUTE_USER_DATA_6")
    ∷ (0xb91c, "COMPUTE_USER_DATA_7")
    ∷ (0xb920, "COMPUTE_USER_DATA_8")
    ∷ (0xb924, "COMPUTE_USER_DATA_9")
    ∷ (0xb928, "COMPUTE_USER_DATA_10")
    ∷ (0xb92c, "COMPUTE_USER_DATA_11")
    ∷ (0xb930, "COMPUTE_USER_DATA_12")
    ∷ (0xb934, "COMPUTE_USER_DATA_13")
    ∷ (0xb938, "COMPUTE_USER_DATA_14")
    ∷ (0xb93c, "COMPUTE_USER_DATA_15")
    ∷ []
