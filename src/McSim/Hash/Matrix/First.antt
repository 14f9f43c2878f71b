-- ===== src/McSim/Hash/Matrix/First.antt =====
-- Rows 0 to 15 of `H3Matrix` in perf_simulation/McSim/PTSHash.cc.
use row_armor.Base.{ℕ, List, [], ◌∷◌}

unfoldable pub first_rows : List (List ℕ)
first_rows =
    (33268410 ∷ 395488709 ∷ 311024285 ∷ 456111753 ∷ 181495008 ∷ 119997521 ∷ 220697869 ∷ 433891432
      ∷ 755927921 ∷ 515226970 ∷ 719448198 ∷ 349842774 ∷ 269183649 ∷ 463275672 ∷ 429800228
      ∷ 521598937 ∷ [])
    ∷ (628677802 ∷ 820947732 ∷ 809435975 ∷ 1024657192 ∷ 887631270 ∷ 412050215 ∷ 391365090
        ∷ 324227279 ∷ 318338329 ∷ 1038393087 ∷ 489807930 ∷ 387366128 ∷ 518096428 ∷ 324184340
        ∷ 429376066 ∷ 447109279 ∷ [])
    ∷ (599747653 ∷ 404960623 ∷ 103933604 ∷ 946416030 ∷ 656460913 ∷ 925957005 ∷ 1047665689
        ∷ 163552053 ∷ 88359290 ∷ 841315415 ∷ 899833584 ∷ 1067336680 ∷ 348549994 ∷ 464045876
        ∷ 270252128 ∷ 829897652 ∷ [])
    ∷ (215495230 ∷ 966696438 ∷ 82589012 ∷ 750102795 ∷ 909780866 ∷ 920285789 ∷ 769759214 ∷ 331966823
        ∷ 939936006 ∷ 439950703 ∷ 883794828 ∷ 1009277508 ∷ 61634610 ∷ 741444350 ∷ 98689608
        ∷ 524144422 ∷ [])
    ∷ (93868534 ∷ 196958667 ∷ 774076619 ∷ 327921978 ∷ 122538783 ∷ 879785030 ∷ 690748527 ∷ 3498564
        ∷ 83163077 ∷ 1027963025 ∷ 582088444 ∷ 466152216 ∷ 312424878 ∷ 550064499 ∷ 646612667
        ∷ 561099434 ∷ [])
    ∷ (1002047931 ∷ 395477707 ∷ 821317480 ∷ 890482112 ∷ 697094476 ∷ 263813044 ∷ 840275189
        ∷ 469664185 ∷ 795625845 ∷ 211504898 ∷ 99204277 ∷ 1004491153 ∷ 725930417 ∷ 1064479221
        ∷ 893834767 ∷ 839719181 ∷ [])
    ∷ (278507126 ∷ 985111995 ∷ 706462983 ∷ 1042178726 ∷ 123281719 ∷ 963778122 ∷ 500881056
        ∷ 726291104 ∷ 134293026 ∷ 568379664 ∷ 317050609 ∷ 533470307 ∷ 1022365922 ∷ 197645211
        ∷ 315125721 ∷ 634827678 ∷ [])
    ∷ (219227366 ∷ 553960647 ∷ 870169525 ∷ 322232839 ∷ 508322497 ∷ 648672696 ∷ 249405795 ∷ 883596102
        ∷ 476433133 ∷ 541372919 ∷ 646647793 ∷ 1042679515 ∷ 43242483 ∷ 600187508 ∷ 499866821
        ∷ 135713210 ∷ [])
    ∷ (52837162 ∷ 96966684 ∷ 401840460 ∷ 1071661176 ∷ 733560065 ∷ 150035417 ∷ 341319946 ∷ 811582750
        ∷ 636173904 ∷ 519054065 ∷ 196321433 ∷ 1028294565 ∷ 882204070 ∷ 522965093 ∷ 48884074
        ∷ 117810166 ∷ [])
    ∷ (650860353 ∷ 789534698 ∷ 328813544 ∷ 473250022 ∷ 143128306 ∷ 173196006 ∷ 846958825 ∷ 174632187
        ∷ 683273509 ∷ 405459497 ∷ 787235556 ∷ 773873501 ∷ 240110267 ∷ 426797736 ∷ 92043842
        ∷ 711789240 ∷ [])
    ∷ (586637493 ∷ 5059646 ∷ 398035664 ∷ 6686087 ∷ 498300175 ∷ 948278148 ∷ 681227731 ∷ 592751744
        ∷ 572019677 ∷ 558044722 ∷ 589368271 ∷ 695745538 ∷ 1073416749 ∷ 529192035 ∷ 550984939
        ∷ 1070620580 ∷ [])
    ∷ (102904663 ∷ 647598516 ∷ 758863940 ∷ 313426443 ∷ 76504114 ∷ 1050747783 ∷ 708436441 ∷ 563815069
        ∷ 224107668 ∷ 875925186 ∷ 167675944 ∷ 926209739 ∷ 279737287 ∷ 1040288182 ∷ 768184312
        ∷ 371708956 ∷ [])
    ∷ (683968868 ∷ 1027427757 ∷ 180781926 ∷ 742898864 ∷ 624078545 ∷ 645659833 ∷ 577225838
        ∷ 987150210 ∷ 723410002 ∷ 224013421 ∷ 993286634 ∷ 33188488 ∷ 247264323 ∷ 888018697
        ∷ 38048664 ∷ 189037096 ∷ [])
    ∷ (475612146 ∷ 426739285 ∷ 873726278 ∷ 529192871 ∷ 607715202 ∷ 388486246 ∷ 987001312 ∷ 474493980
        ∷ 259747270 ∷ 417465536 ∷ 217062395 ∷ 392858482 ∷ 563810075 ∷ 137852805 ∷ 1051814153
        ∷ 72895217 ∷ [])
    ∷ (71277086 ∷ 785496675 ∷ 500608842 ∷ 89633426 ∷ 274085706 ∷ 248467935 ∷ 838061983 ∷ 48106147
        ∷ 773662506 ∷ 49545328 ∷ 9071573 ∷ 100739031 ∷ 602018002 ∷ 904371654 ∷ 534132064 ∷ 332211304
        ∷ [])
    ∷ (401893602 ∷ 735125342 ∷ 775548339 ∷ 210224843 ∷ 256081130 ∷ 482894412 ∷ 350801633
        ∷ 1035713633 ∷ 429458128 ∷ 327281409 ∷ 739927752 ∷ 359327650 ∷ 886942880 ∷ 847691759
        ∷ 752417993 ∷ 359445596 ∷ [])
    ∷ []
