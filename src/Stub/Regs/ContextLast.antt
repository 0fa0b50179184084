-- ===== src/Stub/Regs/ContextLast.antt =====
-- Registers 0x28b90 to 0x28e34 of stub/radeon_hd_regs.cpp.
use Prim.Native.String.{String}
use libdrm.Base.{ℕ, List, [], ◌∷◌}

unfoldable pub context_last_names : List (ℕ × String)
context_last_names =
    (0x28b90, "VGT_GS_INSTANCE_CNT")
    ∷ (0x28b94, "VGT_STRMOUT_CONFIG")
    ∷ (0x28b98, "VGT_STRMOUT_BUFFER_CONFIG")
    ∷ (0x28bd4, "PA_SC_CENTROID_PRIORITY_0")
    ∷ (0x28bd8, "PA_SC_CENTROID_PRIORITY_1")
    ∷ (0x28bdc, "PA_SC_LINE_CNTL")
    ∷ (0x28be0, "PA_SC_AA_CONFIG")
    ∷ (0x28be4, "PA_SU_VTX_CNTL")
    ∷ (0x28be8, "PA_CL_GB_VERT_CLIP_ADJ")
    ∷ (0x28bec, "PA_CL_GB_VERT_DISC_ADJ")
    ∷ (0x28bf0, "PA_CL_GB_HORZ_CLIP_ADJ")
    ∷ (0x28bf4, "PA_CL_GB_HORZ_DISC_ADJ")
    ∷ (0x28bf8, "PA_SC_AA_SAMPLE_LOCS_PIXEL_X0Y0_0")
    ∷ (0x28bfc, "PA_SC_AA_SAMPLE_LOCS_PIXEL_X0Y0_1")
    ∷ (0x28c00, "PA_SC_AA_SAMPLE_LOCS_PIXEL_X0Y0_2")
    ∷ (0x28c04, "PA_SC_AA_SAMPLE_LOCS_PIXEL_X0Y0_3")
    ∷ (0x28c08, "PA_SC_AA_SAMPLE_LOCS_PIXEL_X1Y0_0")
    ∷ (0x28c0c, "PA_SC_AA_SAMPLE_LOCS_PIXEL_X1Y0_1")
    ∷ (0x28c10, "PA_SC_AA_SAMPLE_LOCS_PIXEL_X1Y0_2")
    ∷ (0x28c14, "PA_SC_AA_SAMPLE_LOCS_PIXEL_X1Y0_3")
    ∷ (0x28c18, "PA_SC_AA_SAMPLE_LOCS_PIXEL_X0Y1_0")
    ∷ (0x28c1c, "PA_SC_AA_SAMPLE_LOCS_PIXEL_X0Y1_1")
    ∷ (0x28c20, "PA_SC_AA_SAMPLE_LOCS_PIXEL_X0Y1_2")
    ∷ (0x28c24, "PA_SC_AA_SAMPLE_LOCS_PIXEL_X0Y1_3")
    ∷ (0x28c28, "PA_SC_AA_SAMPLE_LOCS_PIXEL_X1Y1_0")
    ∷ (0x28c2c, "PA_SC_AA_SAMPLE_LOCS_PIXEL_X1Y1_1")
    ∷ (0x28c30, "PA_SC_AA_SAMPLE_LOCS_PIXEL_X1Y1_2")
    ∷ (0x28c34, "PA_SC_AA_SAMPLE_LOCS_PIXEL_X1Y1_3")
    ∷ (0x28c38, "PA_SC_AA_MASK_X0Y0_X1Y0")
    ∷ (0x28c3c, "PA_SC_AA_MASK_X0Y1_X1Y1")
    ∷ (0x28c58, "VGT_VERTEX_REUSE_BLOCK_CNTL")
    ∷ (0x28c5c, "VGT_OUT_DEALLOC_CNTL")
    ∷ (0x28c60, "CB_COLOR0_BASE")
    ∷ (0x28c64, "CB_COLOR0_PITCH")
    ∷ (0x28c68, "CB_COLOR0_SLICE")
    ∷ (0x28c6c, "CB_COLOR0_VIEW")
    ∷ (0x28c70, "CB_COLOR0_INFO")
    ∷ (0x28c74, "CB_COLOR0_ATTRIB")
    ∷ (0x28c7c, "CB_COLOR0_CMASK")
    ∷ (0x28c80, "CB_COLOR0_CMASK_SLICE")
    ∷ (0x28c84, "CB_COLOR0_FMASK")
    ∷ (0x28c88, "CB_COLOR0_FMASK_SLICE")
    ∷ (0x28c8c, "CB_COLOR0_CLEAR_WORD0")
    ∷ (0x28c90, "CB_COLOR0_CLEAR_WORD1")
    ∷ (0x28c9c, "CB_COLOR1_BASE")
    ∷ (0x28ca0, "CB_COLOR1_PITCH")
    ∷ (0x28ca4, "CB_COLOR1_SLICE")
    ∷ (0x28ca8, "CB_COLOR1_VIEW")
    ∷ (0x28cac, "CB_COLOR1_INFO")
    ∷ (0x28cb0, "CB_COLOR1_ATTRIB")
    ∷ (0x28cb8, "CB_COLOR1_CMASK")
    ∷ (0x28cbc, "CB_COLOR1_CMASK_SLICE")
    ∷ (0x28cc0, "CB_COLOR1_FMASK")
    ∷ (0x28cc4, "CB_COLOR1_FMASK_SLICE")
    ∷ (0x28cc8, "CB_COLOR1_CLEAR_WORD0")
    ∷ (0x28ccc, "CB_COLOR1_CLEAR_WORD1")
    ∷ (0x28cd8, "CB_COLOR2_BASE")
    ∷ (0x28cdc, "CB_COLOR2_PITCH")
    ∷ (0x28ce0, "CB_COLOR2_SLICE")
    ∷ (0x28ce4, "CB_COLOR2_VIEW")
    ∷ (0x28ce8, "CB_COLOR2_INFO")
    ∷ (0x28cec, "CB_COLOR2_ATTRIB")
    ∷ (0x28cf4, "CB_COLOR2_CMASK")
    ∷ (0x28cf8, "CB_COLOR2_CMASK_SLICE")
    ∷ (0x28cfc, "CB_COLOR2_FMASK")
    ∷ (0x28d00, "CB_COLOR2_FMASK_SLICE")
    ∷ (0x28d04, "CB_COLOR2_CLEAR_WORD0")
    ∷ (0x28d08, "CB_COLOR2_CLEAR_WORD1")
    ∷ (0x28d14, "CB_COLOR3_BASE")
    ∷ (0x28d18, "CB_COLOR3_PITCH")
    ∷ (0x28d1c, "CB_COLOR3_SLICE")
    ∷ (0x28d20, "CB_COLOR3_VIEW")
    ∷ (0x28d24, "CB_COLOR3_INFO")
    ∷ (0x28d28, "CB_COLOR3_ATTRIB")
    ∷ (0x28d30, "CB_COLOR3_CMASK")
    ∷ (0x28d34, "CB_COLOR3_CMASK_SLICE")
    ∷ (0x28d38, "CB_COLOR3_FMASK")
    ∷ (0x28d3c, "CB_COLOR3_FMASK_SLICE")
    ∷ (0x28d40, "CB_COLOR3_CLEAR_WORD0")
    ∷ (0x28d44, "CB_COLOR3_CLEAR_WORD1")
    ∷ (0x28d50, "CB_COLOR4_BASE")
    ∷ (0x28d54, "CB_COLOR4_PITCH")
    ∷ (0x28d58, "CB_COLOR4_SLICE")
    ∷ (0x28d5c, "CB_COLOR4_VIEW")
    ∷ (0x28d60, "CB_COLOR4_INFO")
    ∷ (0x28d64, "CB_COLOR4_ATTRIB")
    ∷ (0x28d6c, "CB_COLOR4_CMASK")
    ∷ (0x28d70, "CB_COLOR4_CMASK_SLICE")
    ∷ (0x28d74, "CB_COLOR4_FMASK")
    ∷ (0x28d78, "CB_COLOR4_FMASK_SLICE")
    ∷ (0x28d7c, "CB_COLOR4_CLEAR_WORD0")
    ∷ (0x28d80, "CB_COLOR4_CLEAR_WORD1")
    ∷ (0x28d8c, "CB_COLOR5_BASE")
    ∷ (0x28d90, "CB_COLOR5_PITCH")
    ∷ (0x28d94, "CB_COLOR5_SLICE")
    ∷ (0x28d98, "CB_COLOR5_VIEW")
    ∷ (0x28d9c, "CB_COLOR5_INFO")
    ∷ (0x28da0, "CB_COLOR5_ATTRIB")
    ∷ (0x28da8, "CB_COLOR5_CMASK")
    ∷ (0x28dac, "CB_COLOR5_CMASK_SLICE")
    ∷ (0x28db0, "CB_COLOR5_FMASK")
    ∷ (0x28db4, "CB_COLOR5_FMASK_SLICE")
    ∷ (0x28db8, "CB_COLOR5_CLEAR_WORD0")
    ∷ (0x28dbc, "CB_COLOR5_CLEAR_WORD1")
    ∷ (0x28dc8, "CB_COLOR6_BASE")
    ∷ (0x28dcc, "CB_COLOR6_PITCH")
    ∷ (0x28dd0, "CB_COLOR6_SLICE")
    ∷ (0x28dd4, "CB_COLOR6_VIEW")
    ∷ (0x28dd8, "CB_COLOR6_INFO")
    ∷ (0x28ddc, "CB_COLOR6_ATTRIB")
    ∷ (0x28de4, "CB_COLOR6_CMASK")
    ∷ (0x28de8, "CB_COLOR6_CMASK_SLICE")
    ∷ (0x28dec, "CB_COLOR6_FMASK")
    ∷ (0x28df0, "CB_COLOR6_FMASK_SLICE")
    ∷ (0x28df4, "CB_COLOR6_CLEAR_WORD0")
    ∷ (0x28df8, "CB_COLOR6_CLEAR_WORD1")
    ∷ (0x28e04, "CB_COLOR7_BASE")
    ∷ (0x28e08, "CB_COLOR7_PITCH")
    ∷ (0x28e0c, "CB_COLOR7_SLICE")
    ∷ (0x28e10, "CB_COLOR7_VIEW")
    ∷ (0x28e14, "CB_COLOR7_INFO")
    ∷ (0x28e18, "CB_COLOR7_ATTRIB")
    ∷ (0x28e20, "CB_COLOR7_CMASK")
    ∷ (0x28e24, "CB_COLOR7_CMASK_SLICE")
    ∷ (0x28e28, "CB_COLOR7_FMASK")
    ∷ (0x28e2c, "CB_COLOR7_FMASK_SLICE")
    ∷ (0x28e30, "CB_COLOR7_CLEAR_WORD0")
    ∷ (0x28e34, "CB_COLOR7_CLEAR_WORD1")
    ∷ []
