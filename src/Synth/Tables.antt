-- ===== src/Synth/Tables.antt =====
-- kernel/audio/synth.c: its tables.
use rave_os.Prelude.{ℕ, List, [], ◌∷◌}

-- The phase increment of each piano key, from key 1.
abbrev pub ona_phase_increment : List ℕ
ona_phase_increment =
    5356535 ∷ 5675051 ∷ 6012507 ∷ 6370030 ∷ 6748811 ∷ 7150117 ∷ 7575285 ∷ 8025735 ∷ 8502970
    ∷ 9008582 ∷ 9544261 ∷ 10111792 ∷ 10713070 ∷ 11350103 ∷ 12025015 ∷ 12740059 ∷ 13497623 ∷ 14300233
    ∷ 15150569 ∷ 16051469 ∷ 17005939 ∷ 18017165 ∷ 19088521 ∷ 20223584 ∷ 21426141 ∷ 22700205
    ∷ 24050030 ∷ 25480119 ∷ 26995246 ∷ 28600467 ∷ 30301139 ∷ 32102938 ∷ 34011878 ∷ 36034330
    ∷ 38177043 ∷ 40447168 ∷ 42852281 ∷ 45400411 ∷ 48100060 ∷ 50960238 ∷ 53990491 ∷ 57200933
    ∷ 60602278 ∷ 64205876 ∷ 68023757 ∷ 72068660 ∷ 76354085 ∷ 80894335 ∷ 85704563 ∷ 90800821
    ∷ 96200119 ∷ 101920476 ∷ 107980983 ∷ 114401866 ∷ 121204555 ∷ 128411753 ∷ 136047513 ∷ 144137319
    ∷ 152708170 ∷ 161788671 ∷ 171409126 ∷ 181601643 ∷ 192400238 ∷ 203840952 ∷ 215961966 ∷ 228803732
    ∷ 242409110 ∷ 256823506 ∷ 272095026 ∷ 288274639 ∷ 305416341 ∷ 323577341 ∷ 342818251 ∷ 363203285
    ∷ 384800477 ∷ 407681904 ∷ 431923931 ∷ 457607465 ∷ 484818220 ∷ 513647012 ∷ 544190053 ∷ 576549277
    ∷ 610832681 ∷ 647154683 ∷ 685636503 ∷ 726406571 ∷ 769600953 ∷ 815363807 ∷ []

-- `synth_filter_f_coeff`, by cutoff, and `synth_filter_q_coeff`, by resonance.
abbrev pub f_coeff : List ℕ
f_coeff =
    93 ∷ 95 ∷ 97 ∷ 99 ∷ 101 ∷ 103 ∷ 105 ∷ 107 ∷ 109 ∷ 111 ∷ 114 ∷ 116 ∷ 118 ∷ 121 ∷ 123 ∷ 125 ∷ 128
    ∷ 130 ∷ 133 ∷ 136 ∷ 138 ∷ 141 ∷ 144 ∷ 147 ∷ 150 ∷ 153 ∷ 156 ∷ 159 ∷ 162 ∷ 165 ∷ 168 ∷ 172 ∷ 175
    ∷ 179 ∷ 182 ∷ 186 ∷ 189 ∷ 193 ∷ 197 ∷ 201 ∷ 205 ∷ 209 ∷ 213 ∷ 217 ∷ 222 ∷ 226 ∷ 231 ∷ 235 ∷ 240
    ∷ 245 ∷ 249 ∷ 254 ∷ 259 ∷ 265 ∷ 270 ∷ 275 ∷ 281 ∷ 286 ∷ 292 ∷ 298 ∷ 304 ∷ 310 ∷ 316 ∷ 322 ∷ 328
    ∷ 335 ∷ 342 ∷ 348 ∷ 355 ∷ 362 ∷ 369 ∷ 377 ∷ 384 ∷ 392 ∷ 400 ∷ 408 ∷ 416 ∷ 424 ∷ 432 ∷ 441 ∷ 450
    ∷ 459 ∷ 468 ∷ 477 ∷ 486 ∷ 496 ∷ 506 ∷ 516 ∷ 526 ∷ 537 ∷ 547 ∷ 558 ∷ 569 ∷ 581 ∷ 592 ∷ 604 ∷ 616
    ∷ 628 ∷ 640 ∷ 653 ∷ 666 ∷ 679 ∷ 693 ∷ 707 ∷ 721 ∷ 735 ∷ 749 ∷ 764 ∷ 780 ∷ 795 ∷ 811 ∷ 827 ∷ 843
    ∷ 860 ∷ 877 ∷ 894 ∷ 912 ∷ 930 ∷ 949 ∷ 968 ∷ 987 ∷ 1006 ∷ 1026 ∷ 1047 ∷ 1067 ∷ 1089 ∷ 1110 ∷ 1132
    ∷ 1155 ∷ 1178 ∷ 1201 ∷ 1225 ∷ 1249 ∷ 1274 ∷ 1299 ∷ 1325 ∷ 1351 ∷ 1378 ∷ 1405 ∷ 1433 ∷ 1461
    ∷ 1490 ∷ 1520 ∷ 1550 ∷ 1581 ∷ 1612 ∷ 1644 ∷ 1677 ∷ 1710 ∷ 1744 ∷ 1779 ∷ 1814 ∷ 1850 ∷ 1886
    ∷ 1924 ∷ 1962 ∷ 2001 ∷ 2040 ∷ 2081 ∷ 2122 ∷ 2164 ∷ 2207 ∷ 2251 ∷ 2295 ∷ 2341 ∷ 2387 ∷ 2435
    ∷ 2483 ∷ 2532 ∷ 2582 ∷ 2633 ∷ 2685 ∷ 2738 ∷ 2793 ∷ 2848 ∷ 2904 ∷ 2962 ∷ 3020 ∷ 3080 ∷ 3141
    ∷ 3203 ∷ 3267 ∷ 3331 ∷ 3397 ∷ 3464 ∷ 3533 ∷ 3603 ∷ 3674 ∷ 3746 ∷ 3820 ∷ 3896 ∷ 3973 ∷ 4051
    ∷ 4131 ∷ 4213 ∷ 4296 ∷ 4380 ∷ 4467 ∷ 4555 ∷ 4645 ∷ 4736 ∷ 4830 ∷ 4925 ∷ 5022 ∷ 5120 ∷ 5221
    ∷ 5324 ∷ 5429 ∷ 5535 ∷ 5644 ∷ 5755 ∷ 5868 ∷ 5983 ∷ 6100 ∷ 6220 ∷ 6342 ∷ 6466 ∷ 6593 ∷ 6722
    ∷ 6853 ∷ 6987 ∷ 7123 ∷ 7262 ∷ 7404 ∷ 7548 ∷ 7695 ∷ 7845 ∷ 7998 ∷ 8153 ∷ 8311 ∷ 8472 ∷ 8637
    ∷ 8804 ∷ 8974 ∷ 9147 ∷ 9324 ∷ 9504 ∷ 9687 ∷ 9873 ∷ 10062 ∷ 10255 ∷ 10452 ∷ 10652 ∷ 10855 ∷ 11062
    ∷ 11272 ∷ 11486 ∷ 11704 ∷ 11926 ∷ 12151 ∷ 12380 ∷ 12613 ∷ 12850 ∷ 13090 ∷ 13335 ∷ 13583 ∷ []

abbrev pub q_coeff : List ℕ
q_coeff =
    23174 ∷ 13731 ∷ 9756 ∷ 7566 ∷ 6178 ∷ 5221 ∷ 4521 ∷ 3986 ∷ 3564 ∷ 3223 ∷ 2942 ∷ 2706 ∷ 2505
    ∷ 2331 ∷ 2181 ∷ 2048 ∷ []
