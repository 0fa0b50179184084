-- ===== src/Stub/Regs/ContextFirst.antt =====
-- Registers 0x28000 to 0x28458 of stub/radeon_hd_regs.cpp.
use Prim.Native.String.{String}
use libdrm.Base.{ℕ, List, [], ◌∷◌}

unfoldable pub context_first_names : List (ℕ × String)
context_first_names =
    (0x28000, "DB_RENDER_CONTROL")
    ∷ (0x28004, "DB_COUNT_CONTROL")
    ∷ (0x28008, "DB_DEPTH_VIEW")
    ∷ (0x2800c, "DB_RENDER_OVERRIDE")
    ∷ (0x28010, "DB_RENDER_OVERRIDE2")
    ∷ (0x28014, "DB_HTILE_DATA_BASE")
    ∷ (0x28020, "DB_DEPTH_BOUNDS_MIN")
    ∷ (0x28024, "DB_DEPTH_BOUNDS_MAX")
    ∷ (0x28028, "DB_STENCIL_CLEAR")
    ∷ (0x2802c, "DB_DEPTH_CLEAR")
    ∷ (0x28030, "PA_SC_SCREEN_SCISSOR_TL")
    ∷ (0x28034, "PA_SC_SCREEN_SCISSOR_BR")
    ∷ (0x2803c, "DB_DEPTH_INFO")
    ∷ (0x28040, "DB_Z_INFO")
    ∷ (0x28044, "DB_STENCIL_INFO")
    ∷ (0x28048, "DB_Z_READ_BASE")
    ∷ (0x2804c, "DB_STENCIL_READ_BASE")
    ∷ (0x28050, "DB_Z_WRITE_BASE")
    ∷ (0x28054, "DB_STENCIL_WRITE_BASE")
    ∷ (0x28058, "DB_DEPTH_SIZE")
    ∷ (0x2805c, "DB_DEPTH_SLICE")
    ∷ (0x28080, "TA_BC_BASE_ADDR")
    ∷ (0x281f8, "COHER_DEST_BASE_2")
    ∷ (0x281fc, "COHER_DEST_BASE_3")
    ∷ (0x28200, "PA_SC_WINDOW_OFFSET")
    ∷ (0x28204, "PA_SC_WINDOW_SCISSOR_TL")
    ∷ (0x28208, "PA_SC_WINDOW_SCISSOR_BR")
    ∷ (0x2820c, "PA_SC_CLIPRECT_RULE")
    ∷ (0x28210, "PA_SC_CLIPRECT_0_TL")
    ∷ (0x28214, "PA_SC_CLIPRECT_0_BR")
    ∷ (0x28218, "PA_SC_CLIPRECT_1_TL")
    ∷ (0x2821c, "PA_SC_CLIPRECT_1_BR")
    ∷ (0x28220, "PA_SC_CLIPRECT_2_TL")
    ∷ (0x28224, "PA_SC_CLIPRECT_2_BR")
    ∷ (0x28228, "PA_SC_CLIPRECT_3_TL")
    ∷ (0x2822c, "PA_SC_CLIPRECT_3_BR")
    ∷ (0x28230, "PA_SC_EDGERULE")
    ∷ (0x28234, "PA_SU_HARDWARE_SCREEN_OFFSET")
    ∷ (0x28238, "CB_TARGET_MASK")
    ∷ (0x2823c, "CB_SHADER_MASK")
    ∷ (0x28240, "PA_SC_GENERIC_SCISSOR_TL")
    ∷ (0x28244, "PA_SC_GENERIC_SCISSOR_BR")
    ∷ (0x28248, "COHER_DEST_BASE_0")
    ∷ (0x2824c, "COHER_DEST_BASE_1")
    ∷ (0x28250, "PA_SC_VPORT_SCISSOR_0_TL")
    ∷ (0x28254, "PA_SC_VPORT_SCISSOR_0_BR")
    ∷ (0x28258, "PA_SC_VPORT_SCISSOR_1_TL")
    ∷ (0x2825c, "PA_SC_VPORT_SCISSOR_1_BR")
    ∷ (0x28260, "PA_SC_VPORT_SCISSOR_2_TL")
    ∷ (0x28264, "PA_SC_VPORT_SCISSOR_2_BR")
    ∷ (0x28268, "PA_SC_VPORT_SCISSOR_3_TL")
    ∷ (0x2826c, "PA_SC_VPORT_SCISSOR_3_BR")
    ∷ (0x28270, "PA_SC_VPORT_SCISSOR_4_TL")
    ∷ (0x28274, "PA_SC_VPORT_SCISSOR_4_BR")
    ∷ (0x28278, "PA_SC_VPORT_SCISSOR_5_TL")
    ∷ (0x2827c, "PA_SC_VPORT_SCISSOR_5_BR")
    ∷ (0x28280, "PA_SC_VPORT_SCISSOR_6_TL")
    ∷ (0x28284, "PA_SC_VPORT_SCISSOR_6_BR")
    ∷ (0x28288, "PA_SC_VPORT_SCISSOR_7_TL")
    ∷ (0x2828c, "PA_SC_VPORT_SCISSOR_7_BR")
    ∷ (0x28290, "PA_SC_VPORT_SCISSOR_8_TL")
    ∷ (0x28294, "PA_SC_VPORT_SCISSOR_8_BR")
    ∷ (0x28298, "PA_SC_VPORT_SCISSOR_9_TL")
    ∷ (0x2829c, "PA_SC_VPORT_SCISSOR_9_BR")
    ∷ (0x282a0, "PA_SC_VPORT_SCISSOR_10_TL")
    ∷ (0x282a4, "PA_SC_VPORT_SCISSOR_10_BR")
    ∷ (0x282a8, "PA_SC_VPORT_SCISSOR_11_TL")
    ∷ (0x282ac, "PA_SC_VPORT_SCISSOR_11_BR")
    ∷ (0x282b0, "PA_SC_VPORT_SCISSOR_12_TL")
    ∷ (0x282b4, "PA_SC_VPORT_SCISSOR_12_BR")
    ∷ (0x282b8, "PA_SC_VPORT_SCISSOR_13_TL")
    ∷ (0x282bc, "PA_SC_VPORT_SCISSOR_13_BR")
    ∷ (0x282c0, "PA_SC_VPORT_SCISSOR_14_TL")
    ∷ (0x282c4, "PA_SC_VPORT_SCISSOR_14_BR")
    ∷ (0x282c8, "PA_SC_VPORT_SCISSOR_15_TL")
    ∷ (0x282cc, "PA_SC_VPORT_SCISSOR_15_BR")
    ∷ (0x282d0, "PA_SC_VPORT_ZMIN_0")
    ∷ (0x282d4, "PA_SC_VPORT_ZMAX_0")
    ∷ (0x282d8, "PA_SC_VPORT_ZMIN_1")
    ∷ (0x282dc, "PA_SC_VPORT_ZMAX_1")
    ∷ (0x282e0, "PA_SC_VPORT_ZMIN_2")
    ∷ (0x282e4, "PA_SC_VPORT_ZMAX_2")
    ∷ (0x282e8, "PA_SC_VPORT_ZMIN_3")
    ∷ (0x282ec, "PA_SC_VPORT_ZMAX_3")
    ∷ (0x282f0, "PA_SC_VPORT_ZMIN_4")
    ∷ (0x282f4, "PA_SC_VPORT_ZMAX_4")
    ∷ (0x282f8, "PA_SC_VPORT_ZMIN_5")
    ∷ (0x282fc, "PA_SC_VPORT_ZMAX_5")
    ∷ (0x28300, "PA_SC_VPORT_ZMIN_6")
    ∷ (0x28304, "PA_SC_VPORT_ZMAX_6")
    ∷ (0x28308, "PA_SC_VPORT_ZMIN_7")
    ∷ (0x2830c, "PA_SC_VPORT_ZMAX_7")
    ∷ (0x28310, "PA_SC_VPORT_ZMIN_8")
    ∷ (0x28314, "PA_SC_VPORT_ZMAX_8")
    ∷ (0x28318, "PA_SC_VPORT_ZMIN_9")
    ∷ (0x2831c, "PA_SC_VPORT_ZMAX_9")
    ∷ (0x28320, "PA_SC_VPORT_ZMIN_10")
    ∷ (0x28324, "PA_SC_VPORT_ZMAX_10")
    ∷ (0x28328, "PA_SC_VPORT_ZMIN_11")
    ∷ (0x2832c, "PA_SC_VPORT_ZMAX_11")
    ∷ (0x28330, "PA_SC_VPORT_ZMIN_12")
    ∷ (0x28334, "PA_SC_VPORT_ZMAX_12")
    ∷ (0x28338, "PA_SC_VPORT_ZMIN_13")
    ∷ (0x2833c, "PA_SC_VPORT_ZMAX_13")
    ∷ (0x28340, "PA_SC_VPORT_ZMIN_14")
    ∷ (0x28344, "PA_SC_VPORT_ZMAX_14")
    ∷ (0x28348, "PA_SC_VPORT_ZMIN_15")
    ∷ (0x2834c, "PA_SC_VPORT_ZMAX_15")
    ∷ (0x28350, "PA_SC_RASTER_CONFIG")
    ∷ (0x28360, "CP_PERFMON_CNTX_CNTL")
    ∷ (0x28364, "CP_RINGID")
    ∷ (0x28368, "CP_VMID")
    ∷ (0x28400, "VGT_MAX_VTX_INDX")
    ∷ (0x28404, "VGT_MIN_VTX_INDX")
    ∷ (0x28408, "VGT_INDX_OFFSET")
    ∷ (0x2840c, "VGT_MULTI_PRIM_IB_RESET_INDX")
    ∷ (0x28414, "CB_BLEND_RED")
    ∷ (0x28418, "CB_BLEND_GREEN")
    ∷ (0x2841c, "CB_BLEND_BLUE")
    ∷ (0x28420, "CB_BLEND_ALPHA")
    ∷ (0x2842c, "DB_STENCIL_CONTROL")
    ∷ (0x28430, "DB_STENCILREFMASK")
    ∷ (0x28434, "DB_STENCILREFMASK_BF")
    ∷ (0x2843c, "PA_CL_VPORT_XSCALE")
    ∷ (0x28440, "PA_CL_VPORT_XOFFSET")
    ∷ (0x28444, "PA_CL_VPORT_YSCALE")
    ∷ (0x28448, "PA_CL_VPORT_YOFFSET")
    ∷ (0x2844c, "PA_CL_VPORT_ZSCALE")
    ∷ (0x28450, "PA_CL_VPORT_ZOFFSET")
    ∷ (0x28454, "PA_CL_VPORT_XSCALE_1")
    ∷ (0x28458, "PA_CL_VPORT_XOFFSET_1")
    ∷ []
