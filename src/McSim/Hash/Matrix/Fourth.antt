-- ===== src/McSim/Hash/Matrix/Fourth.antt =====
-- Rows 48 to 63 of `H3Matrix` in perf_simulation/McSim/PTSHash.cc.
use row_armor.Base.{ℕ, List, [], ◌∷◌}

unfoldable pub fourth_rows : List (List ℕ)
fourth_rows =
    (719581124 ∷ 431808156 ∷ 138301690 ∷ 668222575 ∷ 497413494 ∷ 740492013 ∷ 485033226 ∷ 125301442
      ∷ 831265111 ∷ 879071459 ∷ 341690480 ∷ 152975256 ∷ 850330086 ∷ 717444507 ∷ 694225877
      ∷ 785340566 ∷ [])
    ∷ (1032766252 ∷ 140959364 ∷ 737474726 ∷ 1062767538 ∷ 364464647 ∷ 331414723 ∷ 356152634
        ∷ 642832379 ∷ 158733632 ∷ 374691640 ∷ 285504811 ∷ 345349905 ∷ 876599880 ∷ 476392727
        ∷ 479589210 ∷ 606376325 ∷ [])
    ∷ (174997730 ∷ 778177086 ∷ 319164313 ∷ 163614456 ∷ 10331364 ∷ 599358958 ∷ 8331663 ∷ 237538058
        ∷ 159173957 ∷ 174533880 ∷ 65588684 ∷ 878222844 ∷ 424467599 ∷ 901803515 ∷ 187504218
        ∷ 776690353 ∷ [])
    ∷ (803856182 ∷ 965850321 ∷ 694948067 ∷ 218315960 ∷ 358416571 ∷ 683713254 ∷ 178069303 ∷ 428076035
        ∷ 686176454 ∷ 579553217 ∷ 357306738 ∷ 315018080 ∷ 886852373 ∷ 568563910 ∷ 896839725
        ∷ 257416821 ∷ [])
    ∷ (401650013 ∷ 183289141 ∷ 497957228 ∷ 879734476 ∷ 265024455 ∷ 825794561 ∷ 889237440 ∷ 323359863
        ∷ 100258491 ∷ 991414783 ∷ 313986632 ∷ 85847250 ∷ 362520248 ∷ 276103512 ∷ 1041630342
        ∷ 525981595 ∷ [])
    ∷ (487732740 ∷ 46201705 ∷ 990837834 ∷ 62744493 ∷ 1067364756 ∷ 58015363 ∷ 690846283 ∷ 680262648
        ∷ 997278956 ∷ 469357861 ∷ 432164624 ∷ 996763915 ∷ 211907847 ∷ 167824295 ∷ 144928194
        ∷ 454839915 ∷ [])
    ∷ (41404232 ∷ 514493300 ∷ 259546924 ∷ 578217256 ∷ 972345130 ∷ 123299213 ∷ 346040332 ∷ 1014668104
        ∷ 520910639 ∷ 579955198 ∷ 36627803 ∷ 179072921 ∷ 547684341 ∷ 598950511 ∷ 269497394
        ∷ 854352266 ∷ [])
    ∷ (603906768 ∷ 100863318 ∷ 708837659 ∷ 204175569 ∷ 375560904 ∷ 908375384 ∷ 28314106 ∷ 6303733
        ∷ 175283124 ∷ 749851198 ∷ 308667367 ∷ 415293931 ∷ 225365403 ∷ 1032188331 ∷ 977112710
        ∷ 819705229 ∷ [])
    ∷ (399767123 ∷ 697985692 ∷ 356790426 ∷ 643687584 ∷ 298624218 ∷ 185095167 ∷ 381653926 ∷ 876816342
        ∷ 296720023 ∷ 2205879 ∷ 235816616 ∷ 521850105 ∷ 622753786 ∷ 1021421218 ∷ 726349744
        ∷ 256504902 ∷ [])
    ∷ (851245024 ∷ 1022500222 ∷ 511909628 ∷ 313809625 ∷ 99776025 ∷ 39710175 ∷ 798739932 ∷ 741832408
        ∷ 140631966 ∷ 898295927 ∷ 607660421 ∷ 870669312 ∷ 1051422478 ∷ 789055529 ∷ 669113756
        ∷ 681943450 ∷ [])
    ∷ (853872755 ∷ 491465269 ∷ 503341472 ∷ 98019440 ∷ 258267420 ∷ 335602837 ∷ 320687824 ∷ 1053324395
        ∷ 24932389 ∷ 955011453 ∷ 934255131 ∷ 435625663 ∷ 501568768 ∷ 238967025 ∷ 549987406
        ∷ 248619780 ∷ [])
    ∷ (411151284 ∷ 576471205 ∷ 757985419 ∷ 544137226 ∷ 968135693 ∷ 877548443 ∷ 194586894 ∷ 74882373
        ∷ 248353663 ∷ 21207540 ∷ 273789651 ∷ 853653916 ∷ 861267970 ∷ 533253322 ∷ 3739570 ∷ 661358586
        ∷ [])
    ∷ (271430986 ∷ 71390029 ∷ 257643671 ∷ 949329860 ∷ 348156406 ∷ 251939238 ∷ 445808698 ∷ 48269799
        ∷ 907589462 ∷ 105677619 ∷ 635451508 ∷ 20805932 ∷ 464874661 ∷ 7542147 ∷ 243619464 ∷ 288304568
        ∷ [])
    ∷ (368215982 ∷ 530288964 ∷ 770090421 ∷ 660961164 ∷ 614935537 ∷ 630760399 ∷ 931299233 ∷ 794519275
        ∷ 779918979 ∷ 401746493 ∷ 561237006 ∷ 1027202224 ∷ 258968003 ∷ 339508073 ∷ 1050610516
        ∷ 1064307013 ∷ [])
    ∷ (1039172162 ∷ 448331205 ∷ 928997884 ∷ 49813151 ∷ 198712120 ∷ 992335354 ∷ 671024050 ∷ 879525220
        ∷ 745915336 ∷ 1038822580 ∷ 138669665 ∷ 917958819 ∷ 681422342 ∷ 792868818 ∷ 924762727
        ∷ 816386174 ∷ [])
    ∷ (515190336 ∷ 313808618 ∷ 441296783 ∷ 1022120897 ∷ 792325033 ∷ 354387581 ∷ 59273006 ∷ 280075434
        ∷ 411357221 ∷ 665274694 ∷ 4054464 ∷ 1059046246 ∷ 394261773 ∷ 848616745 ∷ 15446017
        ∷ 517723271 ∷ [])
    ∷ []
