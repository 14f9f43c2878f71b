-- ===== src/McSim/Hash/Matrix/Third.antt =====
-- Rows 32 to 47 of `H3Matrix` in perf_simulation/McSim/PTSHash.cc.
use row_armor.Base.{ℕ, List, [], ◌∷◌}

unfoldable pub third_rows : List (List ℕ)
third_rows =
    (156038300 ∷ 138620174 ∷ 588466825 ∷ 1061494056 ∷ 1013672100 ∷ 1064257198 ∷ 881417791
      ∷ 839470738 ∷ 83519030 ∷ 100875683 ∷ 237486447 ∷ 461483733 ∷ 681527127 ∷ 777996147 ∷ 574635362
      ∷ 815974538 ∷ [])
    ∷ (184168473 ∷ 519509808 ∷ 62531892 ∷ 51821173 ∷ 43787358 ∷ 385711644 ∷ 141325169 ∷ 36069511
        ∷ 584183031 ∷ 571372909 ∷ 671503175 ∷ 226486781 ∷ 194932686 ∷ 1045460970 ∷ 753718579
        ∷ 331442433 ∷ [])
    ∷ (73065106 ∷ 1015327221 ∷ 630916840 ∷ 1058053470 ∷ 306737587 ∷ 296343219 ∷ 907194989
        ∷ 920172546 ∷ 224516225 ∷ 818625553 ∷ 551143849 ∷ 634570650 ∷ 432966225 ∷ 756438259
        ∷ 939564853 ∷ 767999933 ∷ [])
    ∷ (884775648 ∷ 394862257 ∷ 446787794 ∷ 219833788 ∷ 727195727 ∷ 728122304 ∷ 249888353 ∷ 732947974
        ∷ 289908868 ∷ 448282580 ∷ 618161877 ∷ 898939716 ∷ 739554163 ∷ 860631799 ∷ 1058977530
        ∷ 86916736 ∷ [])
    ∷ (143850006 ∷ 352708694 ∷ 200194048 ∷ 979764914 ∷ 629404175 ∷ 546279766 ∷ 72106714 ∷ 860980514
        ∷ 313190585 ∷ 897143111 ∷ 308425797 ∷ 953791785 ∷ 349924906 ∷ 221457005 ∷ 950588925
        ∷ 908254505 ∷ [])
    ∷ (950032043 ∷ 829868728 ∷ 68623614 ∷ 714624605 ∷ 69760597 ∷ 297275854 ∷ 355894016 ∷ 985369737
        ∷ 882852618 ∷ 864071289 ∷ 958512902 ∷ 950910111 ∷ 991368991 ∷ 829645051 ∷ 434698210
        ∷ 771350575 ∷ [])
    ∷ (552695074 ∷ 319195551 ∷ 80297396 ∷ 496413831 ∷ 944046531 ∷ 621525571 ∷ 617653363 ∷ 416729825
        ∷ 441842808 ∷ 9847464 ∷ 99420657 ∷ 1033914550 ∷ 812966458 ∷ 937053011 ∷ 673390195
        ∷ 934577365 ∷ [])
    ∷ (1034695843 ∷ 190969665 ∷ 332900185 ∷ 51897434 ∷ 523888639 ∷ 883512843 ∷ 146908572 ∷ 506785674
        ∷ 565814307 ∷ 692255649 ∷ 314052926 ∷ 826386588 ∷ 430691325 ∷ 866927620 ∷ 413880214
        ∷ 936474339 ∷ [])
    ∷ (129380164 ∷ 741739952 ∷ 1013703462 ∷ 494392795 ∷ 957214600 ∷ 1010879043 ∷ 931790677
        ∷ 94551922 ∷ 988065869 ∷ 120637871 ∷ 882506912 ∷ 395075379 ∷ 210570485 ∷ 812422692
        ∷ 910383687 ∷ 817722285 ∷ [])
    ∷ (51850866 ∷ 283408630 ∷ 1053047202 ∷ 858940389 ∷ 818507731 ∷ 477082181 ∷ 353546901 ∷ 993324368
        ∷ 407093779 ∷ 231608253 ∷ 1067319867 ∷ 73159811 ∷ 429792535 ∷ 971320614 ∷ 565699344
        ∷ 718823399 ∷ [])
    ∷ (408185106 ∷ 491493570 ∷ 596050720 ∷ 310776444 ∷ 703628192 ∷ 454438809 ∷ 523988035 ∷ 728512200
        ∷ 686012353 ∷ 976339656 ∷ 72816924 ∷ 116926720 ∷ 165866591 ∷ 452043792 ∷ 866943072
        ∷ 968545481 ∷ [])
    ∷ (443231195 ∷ 905907843 ∷ 1061421320 ∷ 746360489 ∷ 1043120338 ∷ 1069659155 ∷ 463359031
        ∷ 688303227 ∷ 186550710 ∷ 155347339 ∷ 1044842421 ∷ 1005904570 ∷ 69332909 ∷ 706951903
        ∷ 422513657 ∷ 882038450 ∷ [])
    ∷ (430990623 ∷ 946501980 ∷ 742556791 ∷ 278398643 ∷ 183759217 ∷ 659404315 ∷ 279754382
        ∷ 1069347846 ∷ 843746517 ∷ 222777670 ∷ 990835599 ∷ 548741637 ∷ 129220580 ∷ 1392170
        ∷ 1032654091 ∷ 894058935 ∷ [])
    ∷ (452042227 ∷ 751640705 ∷ 259481376 ∷ 765824585 ∷ 145991469 ∷ 1013683228 ∷ 1055491225
        ∷ 536379588 ∷ 392593350 ∷ 913368594 ∷ 1029429776 ∷ 226857786 ∷ 31505342 ∷ 1054416381
        ∷ 32341741 ∷ 687106649 ∷ [])
    ∷ (404750944 ∷ 811417027 ∷ 869530820 ∷ 773491060 ∷ 810901282 ∷ 979340397 ∷ 1036910290
        ∷ 461764404 ∷ 834235095 ∷ 765695033 ∷ 604692390 ∷ 452158120 ∷ 928988098 ∷ 442719218
        ∷ 1024059719 ∷ 167723114 ∷ [])
    ∷ (974245177 ∷ 1046377300 ∷ 1003424287 ∷ 787349855 ∷ 336314155 ∷ 875074696 ∷ 1018462718
        ∷ 890313003 ∷ 367376809 ∷ 86355556 ∷ 1020618772 ∷ 890710345 ∷ 444741481 ∷ 373230261
        ∷ 767064947 ∷ 840920177 ∷ [])
    ∷ []
