-- ===== src/Stub/Regs/ShFirst.antt =====
-- Registers 0xb000 to 0xb35c of stub/radeon_hd_regs.cpp.
use Prim.Native.String.{String}
use libdrm.Base.{ℕ, List, [], ◌∷◌}

unfoldable pub sh_first_names : List (ℕ × String)
sh_first_names =
    (0xb000, "SPI_SHADER_TBA_LO_PS")
    ∷ (0xb004, "SPI_SHADER_TBA_HI_PS")
    ∷ (0xb008, "SPI_SHADER_TMA_LO_PS")
    ∷ (0xb00c, "SPI_SHADER_TMA_HI_PS")
    ∷ (0xb020, "SPI_SHADER_PGM_LO_PS")
    ∷ (0xb024, "SPI_SHADER_PGM_HI_PS")
    ∷ (0xb028, "SPI_SHADER_PGM_RSRC1_PS")
    ∷ (0xb02c, "SPI_SHADER_PGM_RSRC2_PS")
    ∷ (0xb030, "SPI_SHADER_USER_DATA_PS_0")
    ∷ (0xb034, "SPI_SHADER_USER_DATA_PS_1")
    ∷ (0xb038, "SPI_SHADER_USER_DATA_PS_2")
    ∷ (0xb03c, "SPI_SHADER_USER_DATA_PS_3")
    ∷ (0xb040, "SPI_SHADER_USER_DATA_PS_4")
    ∷ (0xb044, "SPI_SHADER_USER_DATA_PS_5")
    ∷ (0xb048, "SPI_SHADER_USER_DATA_PS_6")
    ∷ (0xb04c, "SPI_SHADER_USER_DATA_PS_7")
    ∷ (0xb050, "SPI_SHADER_USER_DATA_PS_8")
    ∷ (0xb054, "SPI_SHADER_USER_DATA_PS_9")
    ∷ (0xb058, "SPI_SHADER_USER_DATA_PS_10")
    ∷ (0xb05c, "SPI_SHADER_USER_DATA_PS_11")
    ∷ (0xb060, "SPI_SHADER_USER_DATA_PS_12")
    ∷ (0xb064, "SPI_SHADER_USER_DATA_PS_13")
    ∷ (0xb068, "SPI_SHADER_USER_DATA_PS_14")
    ∷ (0xb06c, "SPI_SHADER_USER_DATA_PS_15")
    ∷ (0xb100, "SPI_SHADER_TBA_LO_VS")
    ∷ (0xb104, "SPI_SHADER_TBA_HI_VS")
    ∷ (0xb108, "SPI_SHADER_TMA_LO_VS")
    ∷ (0xb10c, "SPI_SHADER_TMA_HI_VS")
    ∷ (0xb120, "SPI_SHADER_PGM_LO_VS")
    ∷ (0xb124, "SPI_SHADER_PGM_HI_VS")
    ∷ (0xb128, "SPI_SHADER_PGM_RSRC1_VS")
    ∷ (0xb12c, "SPI_SHADER_PGM_RSRC2_VS")
    ∷ (0xb130, "SPI_SHADER_USER_DATA_VS_0")
    ∷ (0xb134, "SPI_SHADER_USER_DATA_VS_1")
    ∷ (0xb138, "SPI_SHADER_USER_DATA_VS_2")
    ∷ (0xb13c, "SPI_SHADER_USER_DATA_VS_3")
    ∷ (0xb140, "SPI_SHADER_USER_DATA_VS_4")
    ∷ (0xb144, "SPI_SHADER_USER_DATA_VS_5")
    ∷ (0xb148, "SPI_SHADER_USER_DATA_VS_6")
    ∷ (0xb14c, "SPI_SHADER_USER_DATA_VS_7")
    ∷ (0xb150, "SPI_SHADER_USER_DATA_VS_8")
    ∷ (0xb154, "SPI_SHADER_USER_DATA_VS_9")
    ∷ (0xb158, "SPI_SHADER_USER_DATA_VS_10")
    ∷ (0xb15c, "SPI_SHADER_USER_DATA_VS_11")
    ∷ (0xb160, "SPI_SHADER_USER_DATA_VS_12")
    ∷ (0xb164, "SPI_SHADER_USER_DATA_VS_13")
    ∷ (0xb168, "SPI_SHADER_USER_DATA_VS_14")
    ∷ (0xb16c, "SPI_SHADER_USER_DATA_VS_15")
    ∷ (0xb200, "SPI_SHADER_TBA_LO_GS")
    ∷ (0xb204, "SPI_SHADER_TBA_HI_GS")
    ∷ (0xb208, "SPI_SHADER_TMA_LO_GS")
    ∷ (0xb20c, "SPI_SHADER_TMA_HI_GS")
    ∷ (0xb220, "SPI_SHADER_PGM_LO_GS")
    ∷ (0xb224, "SPI_SHADER_PGM_HI_GS")
    ∷ (0xb228, "SPI_SHADER_PGM_RSRC1_GS")
    ∷ (0xb22c, "SPI_SHADER_PGM_RSRC2_GS")
    ∷ (0xb230, "SPI_SHADER_USER_DATA_GS_0")
    ∷ (0xb234, "SPI_SHADER_USER_DATA_GS_1")
    ∷ (0xb238, "SPI_SHADER_USER_DATA_GS_2")
    ∷ (0xb23c, "SPI_SHADER_USER_DATA_GS_3")
    ∷ (0xb240, "SPI_SHADER_USER_DATA_GS_4")
    ∷ (0xb244, "SPI_SHADER_USER_DATA_GS_5")
    ∷ (0xb248, "SPI_SHADER_USER_DATA_GS_6")
    ∷ (0xb24c, "SPI_SHADER_USER_DATA_GS_7")
    ∷ (0xb250, "SPI_SHADER_USER_DATA_GS_8")
    ∷ (0xb254, "SPI_SHADER_USER_DATA_GS_9")
    ∷ (0xb258, "SPI_SHADER_USER_DATA_GS_10")
    ∷ (0xb25c, "SPI_SHADER_USER_DATA_GS_11")
    ∷ (0xb260, "SPI_SHADER_USER_DATA_GS_12")
    ∷ (0xb264, "SPI_SHADER_USER_DATA_GS_13")
    ∷ (0xb268, "SPI_SHADER_USER_DATA_GS_14")
    ∷ (0xb26c, "SPI_SHADER_USER_DATA_GS_15")
    ∷ (0xb300, "SPI_SHADER_TBA_LO_ES")
    ∷ (0xb304, "SPI_SHADER_TBA_HI_ES")
    ∷ (0xb308, "SPI_SHADER_TMA_LO_ES")
    ∷ (0xb30c, "SPI_SHADER_TMA_HI_ES")
    ∷ (0xb320, "SPI_SHADER_PGM_LO_ES")
    ∷ (0xb324, "SPI_SHADER_PGM_HI_ES")
    ∷ (0xb328, "SPI_SHADER_PGM_RSRC1_ES")
    ∷ (0xb32c, "SPI_SHADER_PGM_RSRC2_ES")
    ∷ (0xb330, "SPI_SHADER_USER_DATA_ES_0")
    ∷ (0xb334, "SPI_SHADER_USER_DATA_ES_1")
    ∷ (0xb338, "SPI_SHADER_USER_DATA_ES_2")
    ∷ (0xb33c, "SPI_SHADER_USER_DATA_ES_3")
    ∷ (0xb340, "SPI_SHADER_USER_DATA_ES_4")
    ∷ (0xb344, "SPI_SHADER_USER_DATA_ES_5")
    ∷ (0xb348, "SPI_SHADER_USER_DATA_ES_6")
    ∷ (0xb34c, "SPI_SHADER_USER_DATA_ES_7")
    ∷ (0xb350, "SPI_SHADER_USER_DATA_ES_8")
    ∷ (0xb354, "SPI_SHADER_USER_DATA_ES_9")
    ∷ (0xb358, "SPI_SHADER_USER_DATA_ES_10")
    ∷ (0xb35c, "SPI_SHADER_USER_DATA_ES_11")
    ∷ []
