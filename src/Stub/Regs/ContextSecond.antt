-- ===== src/Stub/Regs/ContextSecond.antt =====
-- Registers 0x2845c to 0x2868c of stub/radeon_hd_regs.cpp.
use Prim.Native.String.{String}
use libdrm.Base.{ℕ, List, [], ◌∷◌}

unfoldable pub context_second_names : List (ℕ × String)
context_second_names =
    (0x2845c, "PA_CL_VPORT_YSCALE_1")
    ∷ (0x28460, "PA_CL_VPORT_YOFFSET_1")
    ∷ (0x28464, "PA_CL_VPORT_ZSCALE_1")
    ∷ (0x28468, "PA_CL_VPORT_ZOFFSET_1")
    ∷ (0x2846c, "PA_CL_VPORT_XSCALE_2")
    ∷ (0x28470, "PA_CL_VPORT_XOFFSET_2")
    ∷ (0x28474, "PA_CL_VPORT_YSCALE_2")
    ∷ (0x28478, "PA_CL_VPORT_YOFFSET_2")
    ∷ (0x2847c, "PA_CL_VPORT_ZSCALE_2")
    ∷ (0x28480, "PA_CL_VPORT_ZOFFSET_2")
    ∷ (0x28484, "PA_CL_VPORT_XSCALE_3")
    ∷ (0x28488, "PA_CL_VPORT_XOFFSET_3")
    ∷ (0x2848c, "PA_CL_VPORT_YSCALE_3")
    ∷ (0x28490, "PA_CL_VPORT_YOFFSET_3")
    ∷ (0x28494, "PA_CL_VPORT_ZSCALE_3")
    ∷ (0x28498, "PA_CL_VPORT_ZOFFSET_3")
    ∷ (0x2849c, "PA_CL_VPORT_XSCALE_4")
    ∷ (0x284a0, "PA_CL_VPORT_XOFFSET_4")
    ∷ (0x284a4, "PA_CL_VPORT_YSCALE_4")
    ∷ (0x284a8, "PA_CL_VPORT_YOFFSET_4")
    ∷ (0x284ac, "PA_CL_VPORT_ZSCALE_4")
    ∷ (0x284b0, "PA_CL_VPORT_ZOFFSET_4")
    ∷ (0x284b4, "PA_CL_VPORT_XSCALE_5")
    ∷ (0x284b8, "PA_CL_VPORT_XOFFSET_5")
    ∷ (0x284bc, "PA_CL_VPORT_YSCALE_5")
    ∷ (0x284c0, "PA_CL_VPORT_YOFFSET_5")
    ∷ (0x284c4, "PA_CL_VPORT_ZSCALE_5")
    ∷ (0x284c8, "PA_CL_VPORT_ZOFFSET_5")
    ∷ (0x284cc, "PA_CL_VPORT_XSCALE_6")
    ∷ (0x284d0, "PA_CL_VPORT_XOFFSET_6")
    ∷ (0x284d4, "PA_CL_VPORT_YSCALE_6")
    ∷ (0x284d8, "PA_CL_VPORT_YOFFSET_6")
    ∷ (0x284dc, "PA_CL_VPORT_ZSCALE_6")
    ∷ (0x284e0, "PA_CL_VPORT_ZOFFSET_6")
    ∷ (0x284e4, "PA_CL_VPORT_XSCALE_7")
    ∷ (0x284e8, "PA_CL_VPORT_XOFFSET_7")
    ∷ (0x284ec, "PA_CL_VPORT_YSCALE_7")
    ∷ (0x284f0, "PA_CL_VPORT_YOFFSET_7")
    ∷ (0x284f4, "PA_CL_VPORT_ZSCALE_7")
    ∷ (0x284f8, "PA_CL_VPORT_ZOFFSET_7")
    ∷ (0x284fc, "PA_CL_VPORT_XSCALE_8")
    ∷ (0x28500, "PA_CL_VPORT_XOFFSET_8")
    ∷ (0x28504, "PA_CL_VPORT_YSCALE_8")
    ∷ (0x28508, "PA_CL_VPORT_YOFFSET_8")
    ∷ (0x2850c, "PA_CL_VPORT_ZSCALE_8")
    ∷ (0x28510, "PA_CL_VPORT_ZOFFSET_8")
    ∷ (0x28514, "PA_CL_VPORT_XSCALE_9")
    ∷ (0x28518, "PA_CL_VPORT_XOFFSET_9")
    ∷ (0x2851c, "PA_CL_VPORT_YSCALE_9")
    ∷ (0x28520, "PA_CL_VPORT_YOFFSET_9")
    ∷ (0x28524, "PA_CL_VPORT_ZSCALE_9")
    ∷ (0x28528, "PA_CL_VPORT_ZOFFSET_9")
    ∷ (0x2852c, "PA_CL_VPORT_XSCALE_10")
    ∷ (0x28530, "PA_CL_VPORT_XOFFSET_10")
    ∷ (0x28534, "PA_CL_VPORT_YSCALE_10")
    ∷ (0x28538, "PA_CL_VPORT_YOFFSET_10")
    ∷ (0x2853c, "PA_CL_VPORT_ZSCALE_10")
    ∷ (0x28540, "PA_CL_VPORT_ZOFFSET_10")
    ∷ (0x28544, "PA_CL_VPORT_XSCALE_11")
    ∷ (0x28548, "PA_CL_VPORT_XOFFSET_11")
    ∷ (0x2854c, "PA_CL_VPORT_YSCALE_11")
    ∷ (0x28550, "PA_CL_VPORT_YOFFSET_11")
    ∷ (0x28554, "PA_CL_VPORT_ZSCALE_11")
    ∷ (0x28558, "PA_CL_VPORT_ZOFFSET_11")
    ∷ (0x2855c, "PA_CL_VPORT_XSCALE_12")
    ∷ (0x28560, "PA_CL_VPORT_XOFFSET_12")
    ∷ (0x28564, "PA_CL_VPORT_YSCALE_12")
    ∷ (0x28568, "PA_CL_VPORT_YOFFSET_12")
    ∷ (0x2856c, "PA_CL_VPORT_ZSCALE_12")
    ∷ (0x28570, "PA_CL_VPORT_ZOFFSET_12")
    ∷ (0x28574, "PA_CL_VPORT_XSCALE_13")
    ∷ (0x28578, "PA_CL_VPORT_XOFFSET_13")
    ∷ (0x2857c, "PA_CL_VPORT_YSCALE_13")
    ∷ (0x28580, "PA_CL_VPORT_YOFFSET_13")
    ∷ (0x28584, "PA_CL_VPORT_ZSCALE_13")
    ∷ (0x28588, "PA_CL_VPORT_ZOFFSET_13")
    ∷ (0x2858c, "PA_CL_VPORT_XSCALE_14")
    ∷ (0x28590, "PA_CL_VPORT_XOFFSET_14")
    ∷ (0x28594, "PA_CL_VPORT_YSCALE_14")
    ∷ (0x28598, "PA_CL_VPORT_YOFFSET_14")
    ∷ (0x2859c, "PA_CL_VPORT_ZSCALE_14")
    ∷ (0x285a0, "PA_CL_VPORT_ZOFFSET_14")
    ∷ (0x285a4, "PA_CL_VPORT_XSCALE_15")
    ∷ (0x285a8, "PA_CL_VPORT_XOFFSET_15")
    ∷ (0x285ac, "PA_CL_VPORT_YSCALE_15")
    ∷ (0x285b0, "PA_CL_VPORT_YOFFSET_15")
    ∷ (0x285b4, "PA_CL_VPORT_ZSCALE_15")
    ∷ (0x285b8, "PA_CL_VPORT_ZOFFSET_15")
    ∷ (0x285bc, "PA_CL_UCP_0_X")
    ∷ (0x285c0, "PA_CL_UCP_0_Y")
    ∷ (0x285c4, "PA_CL_UCP_0_Z")
    ∷ (0x285c8, "PA_CL_UCP_0_W")
    ∷ (0x285cc, "PA_CL_UCP_1_X")
    ∷ (0x285d0, "PA_CL_UCP_1_Y")
    ∷ (0x285d4, "PA_CL_UCP_1_Z")
    ∷ (0x285d8, "PA_CL_UCP_1_W")
    ∷ (0x285dc, "PA_CL_UCP_2_X")
    ∷ (0x285e0, "PA_CL_UCP_2_Y")
    ∷ (0x285e4, "PA_CL_UCP_2_Z")
    ∷ (0x285e8, "PA_CL_UCP_2_W")
    ∷ (0x285ec, "PA_CL_UCP_3_X")
    ∷ (0x285f0, "PA_CL_UCP_3_Y")
    ∷ (0x285f4, "PA_CL_UCP_3_Z")
    ∷ (0x285f8, "PA_CL_UCP_3_W")
    ∷ (0x285fc, "PA_CL_UCP_4_X")
    ∷ (0x28600, "PA_CL_UCP_4_Y")
    ∷ (0x28604, "PA_CL_UCP_4_Z")
    ∷ (0x28608, "PA_CL_UCP_4_W")
    ∷ (0x2860c, "PA_CL_UCP_5_X")
    ∷ (0x28610, "PA_CL_UCP_5_Y")
    ∷ (0x28614, "PA_CL_UCP_5_Z")
    ∷ (0x28618, "PA_CL_UCP_5_W")
    ∷ (0x28644, "SPI_PS_INPUT_CNTL_0")
    ∷ (0x28648, "SPI_PS_INPUT_CNTL_1")
    ∷ (0x2864c, "SPI_PS_INPUT_CNTL_2")
    ∷ (0x28650, "SPI_PS_INPUT_CNTL_3")
    ∷ (0x28654, "SPI_PS_INPUT_CNTL_4")
    ∷ (0x28658, "SPI_PS_INPUT_CNTL_5")
    ∷ (0x2865c, "SPI_PS_INPUT_CNTL_6")
    ∷ (0x28660, "SPI_PS_INPUT_CNTL_7")
    ∷ (0x28664, "SPI_PS_INPUT_CNTL_8")
    ∷ (0x28668, "SPI_PS_INPUT_CNTL_9")
    ∷ (0x2866c, "SPI_PS_INPUT_CNTL_10")
    ∷ (0x28670, "SPI_PS_INPUT_CNTL_11")
    ∷ (0x28674, "SPI_PS_INPUT_CNTL_12")
    ∷ (0x28678, "SPI_PS_INPUT_CNTL_13")
    ∷ (0x2867c, "SPI_PS_INPUT_CNTL_14")
    ∷ (0x28680, "SPI_PS_INPUT_CNTL_15")
    ∷ (0x28684, "SPI_PS_INPUT_CNTL_16")
    ∷ (0x28688, "SPI_PS_INPUT_CNTL_17")
    ∷ (0x2868c, "SPI_PS_INPUT_CNTL_18")
    ∷ []
