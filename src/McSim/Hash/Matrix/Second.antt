-- ===== src/McSim/Hash/Matrix/Second.antt =====
-- Rows 16 to 31 of `H3Matrix` in perf_simulation/McSim/PTSHash.cc.
use row_armor.Base.{ℕ, List, [], ◌∷◌}

unfoldable pub second_rows : List (List ℕ)
second_rows =
    (267472014 ∷ 1050659620 ∷ 1068232362 ∷ 1049684368 ∷ 17130239 ∷ 690524969 ∷ 793224378 ∷ 14455158
      ∷ 423092885 ∷ 873853424 ∷ 430535778 ∷ 7867877 ∷ 309731959 ∷ 370260786 ∷ 862353083 ∷ 403906850
      ∷ [])
    ∷ (993077283 ∷ 218812656 ∷ 389234651 ∷ 393202875 ∷ 413116501 ∷ 263300295 ∷ 470013158 ∷ 592730725
        ∷ 441847172 ∷ 732392823 ∷ 407574059 ∷ 875664777 ∷ 271347307 ∷ 792954404 ∷ 554774761
        ∷ 1022424300 ∷ [])
    ∷ (675919719 ∷ 637054073 ∷ 784720745 ∷ 149714381 ∷ 813144874 ∷ 502525801 ∷ 635436670
        ∷ 1003196587 ∷ 160786091 ∷ 947509775 ∷ 969788637 ∷ 26854073 ∷ 257964369 ∷ 63898568
        ∷ 539767732 ∷ 772364518 ∷ [])
    ∷ (943076868 ∷ 1021732472 ∷ 697575075 ∷ 15843624 ∷ 617573396 ∷ 534113303 ∷ 122953324 ∷ 964873912
        ∷ 942995378 ∷ 87830944 ∷ 1012914818 ∷ 455484661 ∷ 592160054 ∷ 599844284 ∷ 810394353
        ∷ 836812568 ∷ [])
    ∷ (688992674 ∷ 279465370 ∷ 731582262 ∷ 687883235 ∷ 438178468 ∷ 80493001 ∷ 342701501 ∷ 663561405
        ∷ 23360106 ∷ 531315007 ∷ 508931618 ∷ 36294623 ∷ 231216223 ∷ 840438413 ∷ 255665680
        ∷ 663205938 ∷ [])
    ∷ (857265418 ∷ 552630887 ∷ 8173237 ∷ 792122963 ∷ 210140052 ∷ 823124938 ∷ 667709953 ∷ 751538219
        ∷ 991957789 ∷ 462064153 ∷ 19070176 ∷ 726604748 ∷ 714567823 ∷ 151147895 ∷ 1012619677
        ∷ 697114353 ∷ [])
    ∷ (467105652 ∷ 683256174 ∷ 702387467 ∷ 28730434 ∷ 549942998 ∷ 48712701 ∷ 960519696 ∷ 1008345587
        ∷ 679267717 ∷ 370932249 ∷ 880419471 ∷ 352141567 ∷ 331640403 ∷ 598772468 ∷ 95160685
        ∷ 812053015 ∷ [])
    ∷ (1053491323 ∷ 430526562 ∷ 1014938507 ∷ 109685515 ∷ 765949103 ∷ 177288303 ∷ 1034642653
        ∷ 485421658 ∷ 71850281 ∷ 981034542 ∷ 61620389 ∷ 601367920 ∷ 504420930 ∷ 220599168
        ∷ 583051998 ∷ 158735752 ∷ [])
    ∷ (103033901 ∷ 522494916 ∷ 658494760 ∷ 959206022 ∷ 931348143 ∷ 834510661 ∷ 21542994 ∷ 189699884
        ∷ 679327018 ∷ 171983002 ∷ 96774168 ∷ 456133168 ∷ 543103352 ∷ 923945936 ∷ 970074188
        ∷ 643658485 ∷ [])
    ∷ (566379913 ∷ 805798263 ∷ 840662512 ∷ 820206124 ∷ 796507494 ∷ 223712542 ∷ 118811519 ∷ 662246595
        ∷ 809326534 ∷ 416471323 ∷ 748027186 ∷ 161169753 ∷ 739149488 ∷ 276330378 ∷ 924837051
        ∷ 964873733 ∷ [])
    ∷ (585882743 ∷ 135502711 ∷ 3386031 ∷ 625631285 ∷ 1068193307 ∷ 270342640 ∷ 432739484 ∷ 556606453
        ∷ 826419155 ∷ 1038540977 ∷ 158000202 ∷ 69109538 ∷ 207087256 ∷ 298111218 ∷ 678046259
        ∷ 184611498 ∷ [])
    ∷ (305310710 ∷ 46237988 ∷ 855726974 ∷ 735975153 ∷ 930663798 ∷ 425764232 ∷ 104362407 ∷ 391371443
        ∷ 867622101 ∷ 71645091 ∷ 61824734 ∷ 661902640 ∷ 293738633 ∷ 309416189 ∷ 281710675
        ∷ 879317360 ∷ [])
    ∷ (398146324 ∷ 398293087 ∷ 689145387 ∷ 1038451703 ∷ 521637478 ∷ 516134620 ∷ 314658937
        ∷ 830334981 ∷ 583400300 ∷ 340083705 ∷ 68029852 ∷ 675389876 ∷ 994635780 ∷ 788959180
        ∷ 406967042 ∷ 74403607 ∷ [])
    ∷ (69463153 ∷ 744427484 ∷ 191639960 ∷ 590927798 ∷ 969916795 ∷ 546846769 ∷ 728756758 ∷ 889355646
        ∷ 520855076 ∷ 136068426 ∷ 776132410 ∷ 189663815 ∷ 252051082 ∷ 533662856 ∷ 362198652
        ∷ 1026161384 ∷ [])
    ∷ (584984279 ∷ 1004834381 ∷ 568439705 ∷ 834508761 ∷ 21812513 ∷ 670870173 ∷ 1052043300
        ∷ 341868768 ∷ 473755574 ∷ 124339439 ∷ 36193947 ∷ 437997647 ∷ 137419489 ∷ 58705193
        ∷ 337793711 ∷ 340738909 ∷ [])
    ∷ (898051466 ∷ 512792906 ∷ 234874060 ∷ 655358775 ∷ 683745319 ∷ 671676404 ∷ 428888546 ∷ 639928192
        ∷ 672697722 ∷ 176477579 ∷ 747020991 ∷ 758211282 ∷ 443045009 ∷ 205395173 ∷ 1016944273
        ∷ 5584717 ∷ [])
    ∷ []
