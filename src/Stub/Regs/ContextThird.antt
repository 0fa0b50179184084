-- ===== src/Stub/Regs/ContextThird.antt =====
-- Registers 0x28690 to 0x28b8c of stub/radeon_hd_regs.cpp.
use Prim.Native.String.{String}
use libdrm.Base.{ℕ, List, [], ◌∷◌}

unfoldable pub context_third_names : List (ℕ × String)
context_third_names =
    (0x28690, "SPI_PS_INPUT_CNTL_19")
    ∷ (0x28694, "SPI_PS_INPUT_CNTL_20")
    ∷ (0x28698, "SPI_PS_INPUT_CNTL_21")
    ∷ (0x2869c, "SPI_PS_INPUT_CNTL_22")
    ∷ (0x286a0, "SPI_PS_INPUT_CNTL_23")
    ∷ (0x286a4, "SPI_PS_INPUT_CNTL_24")
    ∷ (0x286a8, "SPI_PS_INPUT_CNTL_25")
    ∷ (0x286ac, "SPI_PS_INPUT_CNTL_26")
    ∷ (0x286b0, "SPI_PS_INPUT_CNTL_27")
    ∷ (0x286b4, "SPI_PS_INPUT_CNTL_28")
    ∷ (0x286b8, "SPI_PS_INPUT_CNTL_29")
    ∷ (0x286bc, "SPI_PS_INPUT_CNTL_30")
    ∷ (0x286c0, "SPI_PS_INPUT_CNTL_31")
    ∷ (0x286c4, "SPI_VS_OUT_CONFIG")
    ∷ (0x286cc, "SPI_PS_INPUT_ENA")
    ∷ (0x286d0, "SPI_PS_INPUT_ADDR")
    ∷ (0x286d4, "SPI_INTERP_CONTROL_0")
    ∷ (0x286d8, "SPI_PS_IN_CONTROL")
    ∷ (0x286e0, "SPI_BARYC_CNTL")
    ∷ (0x286e8, "SPI_TMPRING_SIZE")
    ∷ (0x2870c, "SPI_SHADER_POS_FORMAT")
    ∷ (0x28710, "SPI_SHADER_Z_FORMAT")
    ∷ (0x28714, "SPI_SHADER_COL_FORMAT")
    ∷ (0x28780, "CB_BLEND0_CONTROL")
    ∷ (0x28784, "CB_BLEND1_CONTROL")
    ∷ (0x28788, "CB_BLEND2_CONTROL")
    ∷ (0x2878c, "CB_BLEND3_CONTROL")
    ∷ (0x28790, "CB_BLEND4_CONTROL")
    ∷ (0x28794, "CB_BLEND5_CONTROL")
    ∷ (0x28798, "CB_BLEND6_CONTROL")
    ∷ (0x2879c, "CB_BLEND7_CONTROL")
    ∷ (0x287cc, "CS_COPY_STATE")
    ∷ (0x287d0, "GFX_COPY_STATE")
    ∷ (0x287d4, "PA_CL_POINT_X_RAD")
    ∷ (0x287d8, "PA_CL_POINT_Y_RAD")
    ∷ (0x287dc, "PA_CL_POINT_SIZE")
    ∷ (0x287e0, "PA_CL_POINT_CULL_RAD")
    ∷ (0x287e4, "VGT_DMA_BASE_HI")
    ∷ (0x287e8, "VGT_DMA_BASE")
    ∷ (0x287f0, "VGT_DRAW_INITIATOR")
    ∷ (0x287f4, "VGT_IMMED_DATA")
    ∷ (0x287f8, "VGT_EVENT_ADDRESS_REG")
    ∷ (0x28800, "DB_DEPTH_CONTROL")
    ∷ (0x28804, "DB_EQAA")
    ∷ (0x28808, "CB_COLOR_CONTROL")
    ∷ (0x2880c, "DB_SHADER_CONTROL")
    ∷ (0x28810, "PA_CL_CLIP_CNTL")
    ∷ (0x28814, "PA_SU_SC_MODE_CNTL")
    ∷ (0x28818, "PA_CL_VTE_CNTL")
    ∷ (0x2881c, "PA_CL_VS_OUT_CNTL")
    ∷ (0x28820, "PA_CL_NANINF_CNTL")
    ∷ (0x28824, "PA_SU_LINE_STIPPLE_CNTL")
    ∷ (0x28828, "PA_SU_LINE_STIPPLE_SCALE")
    ∷ (0x2882c, "PA_SU_PRIM_FILTER_CNTL")
    ∷ (0x28a00, "PA_SU_POINT_SIZE")
    ∷ (0x28a04, "PA_SU_POINT_MINMAX")
    ∷ (0x28a08, "PA_SU_LINE_CNTL")
    ∷ (0x28a0c, "PA_SC_LINE_STIPPLE")
    ∷ (0x28a10, "VGT_OUTPUT_PATH_CNTL")
    ∷ (0x28a14, "VGT_HOS_CNTL")
    ∷ (0x28a18, "VGT_HOS_MAX_TESS_LEVEL")
    ∷ (0x28a1c, "VGT_HOS_MIN_TESS_LEVEL")
    ∷ (0x28a20, "VGT_HOS_REUSE_DEPTH")
    ∷ (0x28a24, "VGT_GROUP_PRIM_TYPE")
    ∷ (0x28a28, "VGT_GROUP_FIRST_DECR")
    ∷ (0x28a2c, "VGT_GROUP_DECR")
    ∷ (0x28a30, "VGT_GROUP_VECT_0_CNTL")
    ∷ (0x28a34, "VGT_GROUP_VECT_1_CNTL")
    ∷ (0x28a38, "VGT_GROUP_VECT_0_FMT_CNTL")
    ∷ (0x28a3c, "VGT_GROUP_VECT_1_FMT_CNTL")
    ∷ (0x28a40, "VGT_GS_MODE")
    ∷ (0x28a48, "PA_SC_MODE_CNTL_0")
    ∷ (0x28a4c, "PA_SC_MODE_CNTL_1")
    ∷ (0x28a50, "VGT_ENHANCE")
    ∷ (0x28a54, "VGT_GS_PER_ES")
    ∷ (0x28a58, "VGT_ES_PER_GS")
    ∷ (0x28a5c, "VGT_GS_PER_VS")
    ∷ (0x28a60, "VGT_GSVS_RING_OFFSET_1")
    ∷ (0x28a64, "VGT_GSVS_RING_OFFSET_2")
    ∷ (0x28a68, "VGT_GSVS_RING_OFFSET_3")
    ∷ (0x28a6c, "VGT_GS_OUT_PRIM_TYPE")
    ∷ (0x28a70, "IA_ENHANCE")
    ∷ (0x28a74, "VGT_DMA_SIZE")
    ∷ (0x28a78, "VGT_DMA_MAX_SIZE")
    ∷ (0x28a7c, "VGT_DMA_INDEX_TYPE")
    ∷ (0x28a84, "VGT_PRIMITIVEID_EN")
    ∷ (0x28a88, "VGT_DMA_NUM_INSTANCES")
    ∷ (0x28a8c, "VGT_PRIMITIVEID_RESET")
    ∷ (0x28a90, "VGT_EVENT_INITIATOR")
    ∷ (0x28a94, "VGT_MULTI_PRIM_IB_RESET_EN")
    ∷ (0x28aa0, "VGT_INSTANCE_STEP_RATE_0")
    ∷ (0x28aa4, "VGT_INSTANCE_STEP_RATE_1")
    ∷ (0x28aa8, "IA_MULTI_VGT_PARAM")
    ∷ (0x28aac, "VGT_ESGS_RING_ITEMSIZE")
    ∷ (0x28ab0, "VGT_GSVS_RING_ITEMSIZE")
    ∷ (0x28ab4, "VGT_REUSE_OFF")
    ∷ (0x28ab8, "VGT_VTX_CNT_EN")
    ∷ (0x28abc, "DB_HTILE_SURFACE")
    ∷ (0x28ac0, "DB_SRESULTS_COMPARE_STATE0")
    ∷ (0x28ac4, "DB_SRESULTS_COMPARE_STATE1")
    ∷ (0x28ac8, "DB_PRELOAD_CONTROL")
    ∷ (0x28ad0, "VGT_STRMOUT_BUFFER_SIZE_0")
    ∷ (0x28ad4, "VGT_STRMOUT_VTX_STRIDE_0")
    ∷ (0x28adc, "VGT_STRMOUT_BUFFER_OFFSET_0")
    ∷ (0x28ae0, "VGT_STRMOUT_BUFFER_SIZE_1")
    ∷ (0x28ae4, "VGT_STRMOUT_VTX_STRIDE_1")
    ∷ (0x28aec, "VGT_STRMOUT_BUFFER_OFFSET_1")
    ∷ (0x28af0, "VGT_STRMOUT_BUFFER_SIZE_2")
    ∷ (0x28af4, "VGT_STRMOUT_VTX_STRIDE_2")
    ∷ (0x28afc, "VGT_STRMOUT_BUFFER_OFFSET_2")
    ∷ (0x28b00, "VGT_STRMOUT_BUFFER_SIZE_3")
    ∷ (0x28b04, "VGT_STRMOUT_VTX_STRIDE_3")
    ∷ (0x28b0c, "VGT_STRMOUT_BUFFER_OFFSET_3")
    ∷ (0x28b28, "VGT_STRMOUT_DRAW_OPAQUE_OFFSET")
    ∷ (0x28b2c, "VGT_STRMOUT_DRAW_OPAQUE_BUFFER_FILLED_SIZE")
    ∷ (0x28b30, "VGT_STRMOUT_DRAW_OPAQUE_VERTEX_STRIDE")
    ∷ (0x28b38, "VGT_GS_MAX_VERT_OUT")
    ∷ (0x28b54, "VGT_SHADER_STAGES_EN")
    ∷ (0x28b58, "VGT_LS_HS_CONFIG")
    ∷ (0x28b5c, "VGT_GS_VERT_ITEMSIZE")
    ∷ (0x28b60, "VGT_GS_VERT_ITEMSIZE_1")
    ∷ (0x28b64, "VGT_GS_VERT_ITEMSIZE_2")
    ∷ (0x28b68, "VGT_GS_VERT_ITEMSIZE_3")
    ∷ (0x28b6c, "VGT_TF_PARAM")
    ∷ (0x28b70, "DB_ALPHA_TO_MASK")
    ∷ (0x28b78, "PA_SU_POLY_OFFSET_DB_FMT_CNTL")
    ∷ (0x28b7c, "PA_SU_POLY_OFFSET_CLAMP")
    ∷ (0x28b80, "PA_SU_POLY_OFFSET_FRONT_SCALE")
    ∷ (0x28b84, "PA_SU_POLY_OFFSET_FRONT_OFFSET")
    ∷ (0x28b88, "PA_SU_POLY_OFFSET_BACK_SCALE")
    ∷ (0x28b8c, "PA_SU_POLY_OFFSET_BACK_OFFSET")
    ∷ []
