-- ===== src/Handlers/Colors.antt =====
-- The colours that src/nodes/color_palette.c gives where a model has none of its own:
-- prf_color_palette_default_values, a quarter at a time.
use profit.Prelude.{ℕ, List, [], ◌∷◌, ◌++◌}

abbrev first_colors : List ℕ
first_colors =
    0xffff_ffff ∷ 0xff00_0000 ∷ 0xffff_0000 ∷ 0xff00_ff00 ∷ 0xff00_00ff ∷ 0xffff_ff00 ∷ 0xffff_00ff
    ∷ 0xff00_ffff ∷ 0xff00_7fff ∷ 0xff7f_ff00 ∷ 0xff00_ff7f ∷ 0xffff_007f ∷ 0xffff_7fff
    ∷ 0xff7f_ffff ∷ 0xffff_ff7f ∷ 0xff00_7f7f ∷ 0xff7f_7f00 ∷ 0xff7f_007f ∷ 0xff00_407f
    ∷ 0xff7f_4000 ∷ 0xff40_007f ∷ 0xff40_7f00 ∷ 0xff7f_0040 ∷ 0xff00_7f40 ∷ 0xff20_de5a
    ∷ 0xff20_51de ∷ 0xffaf_ce16 ∷ 0xffce_1638 ∷ 0xffcf_1616 ∷ 0xff16_afce ∷ 0xff16_16ce
    ∷ 0xffee_9290 ∷ 0xff34_0000 ∷ 0xff4f_0000 ∷ 0xff6b_0000 ∷ 0xff86_0000 ∷ 0xffa1_0000
    ∷ 0xffbc_0000 ∷ 0xffd7_0000 ∷ 0xfff3_0000 ∷ 0xfffe_0f0f ∷ 0xffff_2a2a ∷ 0xffff_4545
    ∷ 0xffff_6060 ∷ 0xfffe_7c7c ∷ 0xffff_9797 ∷ 0xffff_b2b2 ∷ 0xffff_cdcd ∷ 0xffc1_a3a3
    ∷ 0xffc5_9f9f ∷ 0xffc9_9b9b ∷ 0xffcd_9797 ∷ 0xffd1_9393 ∷ 0xffd4_9090 ∷ 0xffd8_8c8c
    ∷ 0xffdc_8888 ∷ 0xffe0_8484 ∷ 0xffe4_8080 ∷ 0xffe8_7c7c ∷ 0xffeb_7979 ∷ 0xffef_7575
    ∷ 0xfff3_7171 ∷ 0xfff7_6d6d ∷ 0xfffb_6969 ∷ 0xff34_000a ∷ 0xff4f_000f ∷ 0xff6b_0015
    ∷ 0xff86_001a ∷ 0xffa1_0020 ∷ 0xffbc_0025 ∷ 0xffd7_002b ∷ 0xfff3_0030 ∷ 0xfffe_0f3f
    ∷ 0xffff_2a55 ∷ 0xffff_456a ∷ 0xffff_6080 ∷ 0xfffe_7c96 ∷ 0xffff_97ac ∷ 0xffff_b2c1
    ∷ 0xffff_cdd7 ∷ 0xffc1_a3a9 ∷ 0xffc5_9fa7 ∷ 0xffc9_9ba4 ∷ 0xffcd_97a2 ∷ 0xffd1_93a0
    ∷ 0xffd4_909d ∷ 0xffd8_8c9b ∷ 0xffdc_8899 ∷ 0xffe0_8496 ∷ 0xffe4_8094 ∷ 0xffe8_7c92
    ∷ 0xffeb_7990 ∷ 0xffef_758d ∷ 0xfff3_718b ∷ 0xfff7_6d89 ∷ 0xfffb_6986 ∷ 0xff34_0015
    ∷ 0xff4f_001f ∷ 0xff6b_002a ∷ 0xff86_0035 ∷ 0xffa1_0040 ∷ 0xffbc_004b ∷ 0xffd7_0056
    ∷ 0xfff3_0061 ∷ 0xfffe_0f6f ∷ 0xffff_2a7f ∷ 0xffff_458f ∷ 0xffff_60a0 ∷ 0xfffe_7cb0
    ∷ 0xffff_97c0 ∷ 0xffff_b2d1 ∷ 0xffff_cde1 ∷ 0xffc1_a3af ∷ 0xffc5_9fae ∷ 0xffc9_9bad
    ∷ 0xffcd_97ad ∷ 0xffd1_93ac ∷ 0xffd4_90ab ∷ 0xffd8_8caa ∷ 0xffdc_88aa ∷ 0xffe0_84a9
    ∷ 0xffe4_80a8 ∷ 0xffe8_7ca7 ∷ 0xffeb_79a7 ∷ 0xffef_75a6 ∷ 0xfff3_71a5 ∷ 0xfff7_6da4
    ∷ 0xfffb_69a3 ∷ 0xff34_001f ∷ 0xff4f_002f ∷ 0xff6b_0040 ∷ 0xff86_0050 ∷ 0xffa1_0060
    ∷ 0xffbc_0071 ∷ 0xffd7_0081 ∷ 0xfff3_0091 ∷ 0xfffe_0f9f ∷ 0xffff_2aaa ∷ 0xffff_45b4
    ∷ 0xffff_60bf ∷ 0xfffe_7cca ∷ 0xffff_97d5 ∷ 0xffff_b2e0 ∷ 0xffff_cdeb ∷ 0xffc1_a3b5
    ∷ 0xffc5_9fb6 ∷ 0xffc9_9bb7 ∷ 0xffcd_97b7 ∷ 0xffd1_93b8 ∷ 0xffd4_90b9 ∷ 0xffd8_8cba
    ∷ 0xffdc_88ba ∷ 0xffe0_84bb ∷ 0xffe4_80bc ∷ 0xffe8_7cbd ∷ 0xffeb_79bd ∷ 0xffef_75be
    ∷ 0xfff3_71bf ∷ 0xfff7_6dc0 ∷ 0xfffb_69c1 ∷ 0xff34_002a ∷ 0xff4f_003f ∷ 0xff6b_0055
    ∷ 0xff86_006b ∷ 0xffa1_0081 ∷ 0xffbc_0096 ∷ 0xffd7_00ac ∷ 0xfff3_00c2 ∷ 0xfffe_0fcf
    ∷ 0xffff_2ad4 ∷ 0xffff_45d9 ∷ 0xffff_60df ∷ 0xfffe_7ce4 ∷ 0xffff_97ea ∷ 0xffff_b2ef
    ∷ 0xffff_cdf5 ∷ 0xffc1_a3bb ∷ 0xffc5_9fbd ∷ 0xffc9_9bc0 ∷ 0xffcd_97c2 ∷ 0xffd1_93c4
    ∷ 0xffd4_90c7 ∷ 0xffd8_8cc9 ∷ 0xffdc_88cb ∷ 0xffe0_84ce ∷ 0xffe4_80d0 ∷ 0xffe8_7cd2
    ∷ 0xffeb_79d4 ∷ 0xffef_75d7 ∷ 0xfff3_71d9 ∷ 0xfff7_6ddb ∷ 0xfffb_69de ∷ 0xff34_0034
    ∷ 0xff4f_004f ∷ 0xff6b_006b ∷ 0xff86_0086 ∷ 0xffa1_00a1 ∷ 0xffbc_00bc ∷ 0xffd7_00d7
    ∷ 0xfff3_00f3 ∷ 0xfffe_0ffe ∷ 0xffff_2aff ∷ 0xffff_45ff ∷ 0xffff_60ff ∷ 0xfffe_7cfe
    ∷ 0xffff_97ff ∷ 0xffff_b2ff ∷ 0xffff_cdff ∷ 0xffc1_a3c1 ∷ 0xffc5_9fc5 ∷ 0xffc9_9bc9
    ∷ 0xffcd_97cd ∷ 0xffd1_93d1 ∷ 0xffd4_90d4 ∷ 0xffd8_8cd8 ∷ 0xffdc_88dc ∷ 0xffe0_84e0
    ∷ 0xffe4_80e4 ∷ 0xffe8_7ce8 ∷ 0xffeb_79eb ∷ 0xffef_75ef ∷ 0xfff3_71f3 ∷ 0xfff7_6df7
    ∷ 0xfffb_69fb ∷ 0xff2a_0034 ∷ 0xff3f_004f ∷ 0xff55_006b ∷ 0xff6b_0086 ∷ 0xff81_00a1
    ∷ 0xff96_00bc ∷ 0xffac_00d7 ∷ 0xffc2_00f3 ∷ 0xffcf_0ffe ∷ 0xffd4_2aff ∷ 0xffd9_45ff
    ∷ 0xffdf_60ff ∷ 0xffe4_7cfe ∷ 0xffea_97ff ∷ 0xffef_b2ff ∷ 0xfff5_cdff ∷ 0xffbb_a3c1
    ∷ 0xffbd_9fc5 ∷ 0xffc0_9bc9 ∷ 0xffc2_97cd ∷ 0xffc4_93d1 ∷ 0xffc7_90d4 ∷ 0xffc9_8cd8
    ∷ 0xffcb_88dc ∷ 0xffce_84e0 ∷ 0xffd0_80e4 ∷ 0xffd2_7ce8 ∷ 0xffd4_79eb ∷ 0xffd7_75ef
    ∷ 0xffd9_71f3 ∷ 0xffdb_6df7 ∷ 0xffde_69fb ∷ []

abbrev second_colors : List ℕ
second_colors =
    0xff1f_0034 ∷ 0xff2f_004f ∷ 0xff40_006b ∷ 0xff50_0086 ∷ 0xff60_00a1 ∷ 0xff71_00bc ∷ 0xff81_00d7
    ∷ 0xff91_00f3 ∷ 0xff9f_0ffe ∷ 0xffaa_2aff ∷ 0xffb4_45ff ∷ 0xffbf_60ff ∷ 0xffca_7cfe
    ∷ 0xffd5_97ff ∷ 0xffe0_b2ff ∷ 0xffeb_cdff ∷ 0xffb5_a3c1 ∷ 0xffb6_9fc5 ∷ 0xffb7_9bc9
    ∷ 0xffb7_97cd ∷ 0xffb8_93d1 ∷ 0xffb9_90d4 ∷ 0xffba_8cd8 ∷ 0xffba_88dc ∷ 0xffbb_84e0
    ∷ 0xffbc_80e4 ∷ 0xffbd_7ce8 ∷ 0xffbd_79eb ∷ 0xffbe_75ef ∷ 0xffbf_71f3 ∷ 0xffc0_6df7
    ∷ 0xffc1_69fb ∷ 0xff15_0034 ∷ 0xff1f_004f ∷ 0xff2a_006b ∷ 0xff35_0086 ∷ 0xff40_00a1
    ∷ 0xff4b_00bc ∷ 0xff56_00d7 ∷ 0xff61_00f3 ∷ 0xff6f_0ffe ∷ 0xff7f_2aff ∷ 0xff8f_45ff
    ∷ 0xffa0_60ff ∷ 0xffb0_7cfe ∷ 0xffc0_97ff ∷ 0xffd1_b2ff ∷ 0xffe1_cdff ∷ 0xffaf_a3c1
    ∷ 0xffae_9fc5 ∷ 0xffad_9bc9 ∷ 0xffad_97cd ∷ 0xffac_93d1 ∷ 0xffab_90d4 ∷ 0xffaa_8cd8
    ∷ 0xffaa_88dc ∷ 0xffa9_84e0 ∷ 0xffa8_80e4 ∷ 0xffa7_7ce8 ∷ 0xffa7_79eb ∷ 0xffa6_75ef
    ∷ 0xffa5_71f3 ∷ 0xffa4_6df7 ∷ 0xffa3_69fb ∷ 0xff0a_0034 ∷ 0xff0f_004f ∷ 0xff15_006b
    ∷ 0xff1a_0086 ∷ 0xff20_00a1 ∷ 0xff25_00bc ∷ 0xff2b_00d7 ∷ 0xff30_00f3 ∷ 0xff3f_0ffe
    ∷ 0xff55_2aff ∷ 0xff6a_45ff ∷ 0xff80_60ff ∷ 0xff96_7cfe ∷ 0xffac_97ff ∷ 0xffc1_b2ff
    ∷ 0xffd7_cdff ∷ 0xffa9_a3c1 ∷ 0xffa7_9fc5 ∷ 0xffa4_9bc9 ∷ 0xffa2_97cd ∷ 0xffa0_93d1
    ∷ 0xff9d_90d4 ∷ 0xff9b_8cd8 ∷ 0xff99_88dc ∷ 0xff96_84e0 ∷ 0xff94_80e4 ∷ 0xff92_7ce8
    ∷ 0xff90_79eb ∷ 0xff8d_75ef ∷ 0xff8b_71f3 ∷ 0xff89_6df7 ∷ 0xff86_69fb ∷ 0xff00_0034
    ∷ 0xff00_004f ∷ 0xff00_006b ∷ 0xff00_0086 ∷ 0xff00_00a1 ∷ 0xff00_00bc ∷ 0xff00_00d7
    ∷ 0xff00_00f3 ∷ 0xff0f_0ffe ∷ 0xff2a_2aff ∷ 0xff45_45ff ∷ 0xff60_60ff ∷ 0xff7c_7cfe
    ∷ 0xff97_97ff ∷ 0xffb2_b2ff ∷ 0xffcd_cdff ∷ 0xffa3_a3c1 ∷ 0xff9f_9fc5 ∷ 0xff9b_9bc9
    ∷ 0xff97_97cd ∷ 0xff93_93d1 ∷ 0xff90_90d4 ∷ 0xff8c_8cd8 ∷ 0xff88_88dc ∷ 0xff84_84e0
    ∷ 0xff80_80e4 ∷ 0xff7c_7ce8 ∷ 0xff79_79eb ∷ 0xff75_75ef ∷ 0xff71_71f3 ∷ 0xff6d_6df7
    ∷ 0xff69_69fb ∷ 0xff00_0a34 ∷ 0xff00_0f4f ∷ 0xff00_156b ∷ 0xff00_1a86 ∷ 0xff00_20a1
    ∷ 0xff00_25bc ∷ 0xff00_2bd7 ∷ 0xff00_30f3 ∷ 0xff0f_3ffe ∷ 0xff2a_55ff ∷ 0xff45_6aff
    ∷ 0xff60_80ff ∷ 0xff7c_96fe ∷ 0xff97_acff ∷ 0xffb2_c1ff ∷ 0xffcd_d7ff ∷ 0xffa3_a9c1
    ∷ 0xff9f_a7c5 ∷ 0xff9b_a4c9 ∷ 0xff97_a2cd ∷ 0xff93_a0d1 ∷ 0xff90_9dd4 ∷ 0xff8c_9bd8
    ∷ 0xff88_99dc ∷ 0xff84_96e0 ∷ 0xff80_94e4 ∷ 0xff7c_92e8 ∷ 0xff79_90eb ∷ 0xff75_8def
    ∷ 0xff71_8bf3 ∷ 0xff6d_89f7 ∷ 0xff69_86fb ∷ 0xff00_1534 ∷ 0xff00_1f4f ∷ 0xff00_2a6b
    ∷ 0xff00_3586 ∷ 0xff00_40a1 ∷ 0xff00_4bbc ∷ 0xff00_56d7 ∷ 0xff00_61f3 ∷ 0xff0f_6ffe
    ∷ 0xff2a_7fff ∷ 0xff45_8fff ∷ 0xff60_a0ff ∷ 0xff7c_b0fe ∷ 0xff97_c0ff ∷ 0xffb2_d1ff
    ∷ 0xffcd_e1ff ∷ 0xffa3_afc1 ∷ 0xff9f_aec5 ∷ 0xff9b_adc9 ∷ 0xff97_adcd ∷ 0xff93_acd1
    ∷ 0xff90_abd4 ∷ 0xff8c_aad8 ∷ 0xff88_aadc ∷ 0xff84_a9e0 ∷ 0xff80_a8e4 ∷ 0xff7c_a7e8
    ∷ 0xff79_a7eb ∷ 0xff75_a6ef ∷ 0xff71_a5f3 ∷ 0xff6d_a4f7 ∷ 0xff69_a3fb ∷ 0xff00_1f34
    ∷ 0xff00_2f4f ∷ 0xff00_406b ∷ 0xff00_5086 ∷ 0xff00_60a1 ∷ 0xff00_71bc ∷ 0xff00_81d7
    ∷ 0xff00_91f3 ∷ 0xff0f_9ffe ∷ 0xff2a_aaff ∷ 0xff45_b4ff ∷ 0xff60_bfff ∷ 0xff7c_cafe
    ∷ 0xff97_d5ff ∷ 0xffb2_e0ff ∷ 0xffcd_ebff ∷ 0xffa3_b5c1 ∷ 0xff9f_b6c5 ∷ 0xff9b_b7c9
    ∷ 0xff97_b7cd ∷ 0xff93_b8d1 ∷ 0xff90_b9d4 ∷ 0xff8c_bad8 ∷ 0xff88_badc ∷ 0xff84_bbe0
    ∷ 0xff80_bce4 ∷ 0xff7c_bde8 ∷ 0xff79_bdeb ∷ 0xff75_beef ∷ 0xff71_bff3 ∷ 0xff6d_c0f7
    ∷ 0xff69_c1fb ∷ 0xff00_2a34 ∷ 0xff00_3f4f ∷ 0xff00_556b ∷ 0xff00_6b86 ∷ 0xff00_81a1
    ∷ 0xff00_96bc ∷ 0xff00_acd7 ∷ 0xff00_c2f3 ∷ 0xff0f_cffe ∷ 0xff2a_d4ff ∷ 0xff45_d9ff
    ∷ 0xff60_dfff ∷ 0xff7c_e4fe ∷ 0xff97_eaff ∷ 0xffb2_efff ∷ 0xffcd_f5ff ∷ 0xffa3_bbc1
    ∷ 0xff9f_bdc5 ∷ 0xff9b_c0c9 ∷ 0xff97_c2cd ∷ 0xff93_c4d1 ∷ 0xff90_c7d4 ∷ 0xff8c_c9d8
    ∷ 0xff88_cbdc ∷ 0xff84_cee0 ∷ 0xff80_d0e4 ∷ 0xff7c_d2e8 ∷ 0xff79_d4eb ∷ 0xff75_d7ef
    ∷ 0xff71_d9f3 ∷ 0xff6d_dbf7 ∷ 0xff69_defb ∷ []

abbrev third_colors : List ℕ
third_colors =
    0xff00_3434 ∷ 0xff00_4f4f ∷ 0xff00_6b6b ∷ 0xff00_8686 ∷ 0xff00_a1a1 ∷ 0xff00_bcbc ∷ 0xff00_d7d7
    ∷ 0xff00_f3f3 ∷ 0xff0f_fefe ∷ 0xff2a_ffff ∷ 0xff45_ffff ∷ 0xff60_ffff ∷ 0xff7c_fefe
    ∷ 0xff97_ffff ∷ 0xffb2_ffff ∷ 0xffcd_ffff ∷ 0xffa3_c1c1 ∷ 0xff9f_c5c5 ∷ 0xff9b_c9c9
    ∷ 0xff97_cdcd ∷ 0xff93_d1d1 ∷ 0xff90_d4d4 ∷ 0xff8c_d8d8 ∷ 0xff88_dcdc ∷ 0xff84_e0e0
    ∷ 0xff80_e4e4 ∷ 0xff7c_e8e8 ∷ 0xff79_ebeb ∷ 0xff75_efef ∷ 0xff71_f3f3 ∷ 0xff6d_f7f7
    ∷ 0xff69_fbfb ∷ 0xff00_342a ∷ 0xff00_4f3f ∷ 0xff00_6b55 ∷ 0xff00_866b ∷ 0xff00_a181
    ∷ 0xff00_bc96 ∷ 0xff00_d7ac ∷ 0xff00_f3c2 ∷ 0xff0f_fecf ∷ 0xff2a_ffd4 ∷ 0xff45_ffd9
    ∷ 0xff60_ffdf ∷ 0xff7c_fee4 ∷ 0xff97_ffea ∷ 0xffb2_ffef ∷ 0xffcd_fff5 ∷ 0xffa3_c1bb
    ∷ 0xff9f_c5bd ∷ 0xff9b_c9c0 ∷ 0xff97_cdc2 ∷ 0xff93_d1c4 ∷ 0xff90_d4c7 ∷ 0xff8c_d8c9
    ∷ 0xff88_dccb ∷ 0xff84_e0ce ∷ 0xff80_e4d0 ∷ 0xff7c_e8d2 ∷ 0xff79_ebd4 ∷ 0xff75_efd7
    ∷ 0xff71_f3d9 ∷ 0xff6d_f7db ∷ 0xff69_fbde ∷ 0xff00_341f ∷ 0xff00_4f2f ∷ 0xff00_6b40
    ∷ 0xff00_8650 ∷ 0xff00_a160 ∷ 0xff00_bc71 ∷ 0xff00_d781 ∷ 0xff00_f391 ∷ 0xff0f_fe9f
    ∷ 0xff2a_ffaa ∷ 0xff45_ffb4 ∷ 0xff60_ffbf ∷ 0xff7c_feca ∷ 0xff97_ffd5 ∷ 0xffb2_ffe0
    ∷ 0xffcd_ffeb ∷ 0xffa3_c1b5 ∷ 0xff9f_c5b6 ∷ 0xff9b_c9b7 ∷ 0xff97_cdb7 ∷ 0xff93_d1b8
    ∷ 0xff90_d4b9 ∷ 0xff8c_d8ba ∷ 0xff88_dcba ∷ 0xff84_e0bb ∷ 0xff80_e4bc ∷ 0xff7c_e8bd
    ∷ 0xff79_ebbd ∷ 0xff75_efbe ∷ 0xff71_f3bf ∷ 0xff6d_f7c0 ∷ 0xff69_fbc1 ∷ 0xff00_3415
    ∷ 0xff00_4f1f ∷ 0xff00_6b2a ∷ 0xff00_8635 ∷ 0xff00_a140 ∷ 0xff00_bc4b ∷ 0xff00_d756
    ∷ 0xff00_f361 ∷ 0xff0f_fe6f ∷ 0xff2a_ff7f ∷ 0xff45_ff8f ∷ 0xff60_ffa0 ∷ 0xff7c_feb0
    ∷ 0xff97_ffc0 ∷ 0xffb2_ffd1 ∷ 0xffcd_ffe1 ∷ 0xffa3_c1af ∷ 0xff9f_c5ae ∷ 0xff9b_c9ad
    ∷ 0xff97_cdad ∷ 0xff93_d1ac ∷ 0xff90_d4ab ∷ 0xff8c_d8aa ∷ 0xff88_dcaa ∷ 0xff84_e0a9
    ∷ 0xff80_e4a8 ∷ 0xff7c_e8a7 ∷ 0xff79_eba7 ∷ 0xff75_efa6 ∷ 0xff71_f3a5 ∷ 0xff6d_f7a4
    ∷ 0xff69_fba3 ∷ 0xff00_340a ∷ 0xff00_4f0f ∷ 0xff00_6b15 ∷ 0xff00_861a ∷ 0xff00_a120
    ∷ 0xff00_bc25 ∷ 0xff00_d72b ∷ 0xff00_f330 ∷ 0xff0f_fe3f ∷ 0xff2a_ff55 ∷ 0xff45_ff6a
    ∷ 0xff60_ff80 ∷ 0xff7c_fe96 ∷ 0xff97_ffac ∷ 0xffb2_ffc1 ∷ 0xffcd_ffd7 ∷ 0xffa3_c1a9
    ∷ 0xff9f_c5a7 ∷ 0xff9b_c9a4 ∷ 0xff97_cda2 ∷ 0xff93_d1a0 ∷ 0xff90_d49d ∷ 0xff8c_d89b
    ∷ 0xff88_dc99 ∷ 0xff84_e096 ∷ 0xff80_e494 ∷ 0xff7c_e892 ∷ 0xff79_eb90 ∷ 0xff75_ef8d
    ∷ 0xff71_f38b ∷ 0xff6d_f789 ∷ 0xff69_fb86 ∷ 0xff00_3400 ∷ 0xff00_4f00 ∷ 0xff00_6b00
    ∷ 0xff00_8600 ∷ 0xff00_a100 ∷ 0xff00_bc00 ∷ 0xff00_d700 ∷ 0xff00_f300 ∷ 0xff0f_fe0f
    ∷ 0xff2a_ff2a ∷ 0xff45_ff45 ∷ 0xff60_ff60 ∷ 0xff7c_fe7c ∷ 0xff97_ff97 ∷ 0xffb2_ffb2
    ∷ 0xffcd_ffcd ∷ 0xffa3_c1a3 ∷ 0xff9f_c59f ∷ 0xff9b_c99b ∷ 0xff97_cd97 ∷ 0xff93_d193
    ∷ 0xff90_d490 ∷ 0xff8c_d88c ∷ 0xff88_dc88 ∷ 0xff84_e084 ∷ 0xff80_e480 ∷ 0xff7c_e87c
    ∷ 0xff79_eb79 ∷ 0xff75_ef75 ∷ 0xff71_f371 ∷ 0xff6d_f76d ∷ 0xff69_fb69 ∷ 0xff0a_3400
    ∷ 0xff0f_4f00 ∷ 0xff15_6b00 ∷ 0xff1a_8600 ∷ 0xff20_a100 ∷ 0xff25_bc00 ∷ 0xff2b_d700
    ∷ 0xff30_f300 ∷ 0xff3f_fe0f ∷ 0xff55_ff2a ∷ 0xff6a_ff45 ∷ 0xff80_ff60 ∷ 0xff96_fe7c
    ∷ 0xffac_ff97 ∷ 0xffc1_ffb2 ∷ 0xffd7_ffcd ∷ 0xffa9_c1a3 ∷ 0xffa7_c59f ∷ 0xffa4_c99b
    ∷ 0xffa2_cd97 ∷ 0xffa0_d193 ∷ 0xff9d_d490 ∷ 0xff9b_d88c ∷ 0xff99_dc88 ∷ 0xff96_e084
    ∷ 0xff94_e480 ∷ 0xff92_e87c ∷ 0xff90_eb79 ∷ 0xff8d_ef75 ∷ 0xff8b_f371 ∷ 0xff89_f76d
    ∷ 0xff86_fb69 ∷ 0xff15_3400 ∷ 0xff1f_4f00 ∷ 0xff2a_6b00 ∷ 0xff35_8600 ∷ 0xff40_a100
    ∷ 0xff4b_bc00 ∷ 0xff56_d700 ∷ 0xff61_f300 ∷ 0xff6f_fe0f ∷ 0xff7f_ff2a ∷ 0xff8f_ff45
    ∷ 0xffa0_ff60 ∷ 0xffb0_fe7c ∷ 0xffc0_ff97 ∷ 0xffd1_ffb2 ∷ 0xffe1_ffcd ∷ 0xffaf_c1a3
    ∷ 0xffae_c59f ∷ 0xffad_c99b ∷ 0xffad_cd97 ∷ 0xffac_d193 ∷ 0xffab_d490 ∷ 0xffaa_d88c
    ∷ 0xffaa_dc88 ∷ 0xffa9_e084 ∷ 0xffa8_e480 ∷ 0xffa7_e87c ∷ 0xffa7_eb79 ∷ 0xffa6_ef75
    ∷ 0xffa5_f371 ∷ 0xffa4_f76d ∷ 0xffa3_fb69 ∷ []

abbrev last_colors : List ℕ
last_colors =
    0xff1f_3400 ∷ 0xff2f_4f00 ∷ 0xff40_6b00 ∷ 0xff50_8600 ∷ 0xff60_a100 ∷ 0xff71_bc00 ∷ 0xff81_d700
    ∷ 0xff91_f300 ∷ 0xff9f_fe0f ∷ 0xffaa_ff2a ∷ 0xffb4_ff45 ∷ 0xffbf_ff60 ∷ 0xffca_fe7c
    ∷ 0xffd5_ff97 ∷ 0xffe0_ffb2 ∷ 0xffeb_ffcd ∷ 0xffb5_c1a3 ∷ 0xffb6_c59f ∷ 0xffb7_c99b
    ∷ 0xffb7_cd97 ∷ 0xffb8_d193 ∷ 0xffb9_d490 ∷ 0xffba_d88c ∷ 0xffba_dc88 ∷ 0xffbb_e084
    ∷ 0xffbc_e480 ∷ 0xffbd_e87c ∷ 0xffbd_eb79 ∷ 0xffbe_ef75 ∷ 0xffbf_f371 ∷ 0xffc0_f76d
    ∷ 0xffc1_fb69 ∷ 0xff2a_3400 ∷ 0xff3f_4f00 ∷ 0xff55_6b00 ∷ 0xff6b_8600 ∷ 0xff81_a100
    ∷ 0xff96_bc00 ∷ 0xffac_d700 ∷ 0xffc2_f300 ∷ 0xffcf_fe0f ∷ 0xffd4_ff2a ∷ 0xffd9_ff45
    ∷ 0xffdf_ff60 ∷ 0xffe4_fe7c ∷ 0xffea_ff97 ∷ 0xffef_ffb2 ∷ 0xfff5_ffcd ∷ 0xffbb_c1a3
    ∷ 0xffbd_c59f ∷ 0xffc0_c99b ∷ 0xffc2_cd97 ∷ 0xffc4_d193 ∷ 0xffc7_d490 ∷ 0xffc9_d88c
    ∷ 0xffcb_dc88 ∷ 0xffce_e084 ∷ 0xffd0_e480 ∷ 0xffd2_e87c ∷ 0xffd4_eb79 ∷ 0xffd7_ef75
    ∷ 0xffd9_f371 ∷ 0xffdb_f76d ∷ 0xffde_fb69 ∷ 0xff34_3400 ∷ 0xff4f_4f00 ∷ 0xff6b_6b00
    ∷ 0xff86_8600 ∷ 0xffa1_a100 ∷ 0xffbc_bc00 ∷ 0xffd7_d700 ∷ 0xfff3_f300 ∷ 0xfffe_fe0f
    ∷ 0xffff_ff2a ∷ 0xffff_ff45 ∷ 0xffff_ff60 ∷ 0xfffe_fe7c ∷ 0xffff_ff97 ∷ 0xffff_ffb2
    ∷ 0xffff_ffcd ∷ 0xffc1_c1a3 ∷ 0xffc5_c59f ∷ 0xffc9_c99b ∷ 0xffcd_cd97 ∷ 0xffd1_d193
    ∷ 0xffd4_d490 ∷ 0xffd8_d88c ∷ 0xffdc_dc88 ∷ 0xffe0_e084 ∷ 0xffe4_e480 ∷ 0xffe8_e87c
    ∷ 0xffeb_eb79 ∷ 0xffef_ef75 ∷ 0xfff3_f371 ∷ 0xfff7_f76d ∷ 0xfffb_fb69 ∷ 0xff34_2a00
    ∷ 0xff4f_3f00 ∷ 0xff6b_5500 ∷ 0xff86_6b00 ∷ 0xffa1_8100 ∷ 0xffbc_9600 ∷ 0xffd7_ac00
    ∷ 0xfff3_c200 ∷ 0xfffe_cf0f ∷ 0xffff_d42a ∷ 0xffff_d945 ∷ 0xffff_df60 ∷ 0xfffe_e47c
    ∷ 0xffff_ea97 ∷ 0xffff_efb2 ∷ 0xffff_f5cd ∷ 0xffc1_bba3 ∷ 0xffc5_bd9f ∷ 0xffc9_c09b
    ∷ 0xffcd_c297 ∷ 0xffd1_c493 ∷ 0xffd4_c790 ∷ 0xffd8_c98c ∷ 0xffdc_cb88 ∷ 0xffe0_ce84
    ∷ 0xffe4_d080 ∷ 0xffe8_d27c ∷ 0xffeb_d479 ∷ 0xffef_d775 ∷ 0xfff3_d971 ∷ 0xfff7_db6d
    ∷ 0xfffb_de69 ∷ 0xff34_1f00 ∷ 0xff4f_2f00 ∷ 0xff6b_4000 ∷ 0xff86_5000 ∷ 0xffa1_6000
    ∷ 0xffbc_7100 ∷ 0xffd7_8100 ∷ 0xfff3_9100 ∷ 0xfffe_9f0f ∷ 0xffff_aa2a ∷ 0xffff_b445
    ∷ 0xffff_bf60 ∷ 0xfffe_ca7c ∷ 0xffff_d597 ∷ 0xffff_e0b2 ∷ 0xffff_ebcd ∷ 0xffc1_b5a3
    ∷ 0xffc5_b69f ∷ 0xffc9_b79b ∷ 0xffcd_b797 ∷ 0xffd1_b893 ∷ 0xffd4_b990 ∷ 0xffd8_ba8c
    ∷ 0xffdc_ba88 ∷ 0xffe0_bb84 ∷ 0xffe4_bc80 ∷ 0xffe8_bd7c ∷ 0xffeb_bd79 ∷ 0xffef_be75
    ∷ 0xfff3_bf71 ∷ 0xfff7_c06d ∷ 0xfffb_c169 ∷ 0xff34_1500 ∷ 0xff4f_1f00 ∷ 0xff6b_2a00
    ∷ 0xff86_3500 ∷ 0xffa1_4000 ∷ 0xffbc_4b00 ∷ 0xffd7_5600 ∷ 0xfff3_6100 ∷ 0xfffe_6f0f
    ∷ 0xffff_7f2a ∷ 0xffff_8f45 ∷ 0xffff_a060 ∷ 0xfffe_b07c ∷ 0xffff_c097 ∷ 0xffff_d1b2
    ∷ 0xffff_e1cd ∷ 0xffc1_afa3 ∷ 0xffc5_ae9f ∷ 0xffc9_ad9b ∷ 0xffcd_ad97 ∷ 0xffd1_ac93
    ∷ 0xffd4_ab90 ∷ 0xffd8_aa8c ∷ 0xffdc_aa88 ∷ 0xffe0_a984 ∷ 0xffe4_a880 ∷ 0xffe8_a77c
    ∷ 0xffeb_a779 ∷ 0xffef_a675 ∷ 0xfff3_a571 ∷ 0xfff7_a46d ∷ 0xfffb_a369 ∷ 0xff34_0a00
    ∷ 0xff4f_0f00 ∷ 0xff6b_1500 ∷ 0xff86_1a00 ∷ 0xffa1_2000 ∷ 0xffbc_2500 ∷ 0xffd7_2b00
    ∷ 0xfff3_3000 ∷ 0xfffe_3f0f ∷ 0xffff_552a ∷ 0xffff_6a45 ∷ 0xffff_8060 ∷ 0xfffe_967c
    ∷ 0xffff_ac97 ∷ 0xffff_c1b2 ∷ 0xffff_d7cd ∷ 0xffc1_a9a3 ∷ 0xffc5_a79f ∷ 0xffc9_a49b
    ∷ 0xffcd_a297 ∷ 0xffd1_a093 ∷ 0xffd4_9d90 ∷ 0xffd8_9b8c ∷ 0xffdc_9988 ∷ 0xffe0_9684
    ∷ 0xffe4_9480 ∷ 0xffe8_927c ∷ 0xffeb_9079 ∷ 0xffef_8d75 ∷ 0xfff3_8b71 ∷ 0xfff7_896d
    ∷ 0xfffb_8669 ∷ 0xff34_0000 ∷ 0xff4f_0000 ∷ 0xff6b_0000 ∷ 0xff86_0000 ∷ 0xffa1_0000
    ∷ 0xffbc_0000 ∷ 0xffd7_0000 ∷ 0xfff3_0000 ∷ 0xfffe_0f0f ∷ 0xffff_2a2a ∷ 0xffff_4545
    ∷ 0xffff_6060 ∷ 0xfffe_7c7c ∷ 0xffff_9797 ∷ 0xffff_b2b2 ∷ 0xffff_cdcd ∷ 0xffc1_a3a3
    ∷ 0xffc5_9f9f ∷ 0xffc9_9b9b ∷ 0xffcd_9797 ∷ 0xffd1_9393 ∷ 0xffd4_9090 ∷ 0xffd8_8c8c
    ∷ 0xffdc_8888 ∷ 0xffe0_8484 ∷ 0xffe4_8080 ∷ 0xffe8_7c7c ∷ 0xffeb_7979 ∷ 0xffef_7575
    ∷ 0xfff3_7171 ∷ 0xfff7_6d6d ∷ 0xfffb_6969 ∷ []

abbrev pub default_values : List ℕ
default_values = first_colors ++ (second_colors ++ (third_colors ++ last_colors))
