-- ===== src/Modulation/Waveforms.antt =====
-- rds_encoder.c: `symbol_waveforms`, the eight waveforms of 40 samples. A sample is written as a
-- whole number of millionths, which is how the source writes it.
use jmpxrds.Base.{ℕ, List, [], ◌∷◌}
use jmpxrds.Base.Int.{ℤ, pos, minus}

-- The sample -n.
abbrev neg : ℕ → ℤ
neg n = minus n

abbrev waveform_0 : List ℤ
waveform_0 =
    neg 77944
    ∷ neg 231941
    ∷ neg 380444
    ∷ neg 519913
    ∷ neg 646931
    ∷ neg 758415
    ∷ neg 851558
    ∷ neg 923948
    ∷ neg 973663
    ∷ neg 999298
    ∷ neg 1000000
    ∷ neg 975585
    ∷ neg 926511
    ∷ neg 853877
    ∷ neg 759453
    ∷ neg 647450
    ∷ neg 521073
    ∷ neg 381756
    ∷ neg 232917
    ∷ neg 78280
    ∷ pos 78280
    ∷ pos 232917
    ∷ pos 381756
    ∷ pos 521073
    ∷ pos 647450
    ∷ pos 759453
    ∷ pos 853877
    ∷ pos 926511
    ∷ pos 975585
    ∷ pos 1000000
    ∷ pos 999298
    ∷ pos 973663
    ∷ pos 923948
    ∷ pos 851558
    ∷ pos 758415
    ∷ pos 646931
    ∷ pos 519913
    ∷ pos 380444
    ∷ pos 231941
    ∷ pos 77944
    ∷ []

abbrev waveform_1 : List ℤ
waveform_1 =
    neg 77944
    ∷ neg 231941
    ∷ neg 380444
    ∷ neg 519913
    ∷ neg 646931
    ∷ neg 758415
    ∷ neg 851558
    ∷ neg 923948
    ∷ neg 973663
    ∷ neg 999298
    ∷ neg 1000000
    ∷ neg 975585
    ∷ neg 926511
    ∷ neg 853877
    ∷ neg 759453
    ∷ neg 643818
    ∷ neg 509690
    ∷ neg 362621
    ∷ neg 206824
    ∷ neg 46876
    ∷ pos 112461
    ∷ pos 266518
    ∷ pos 410932
    ∷ pos 541642
    ∷ pos 655263
    ∷ pos 750847
    ∷ pos 826167
    ∷ pos 878414
    ∷ pos 907712
    ∷ pos 915311
    ∷ pos 903409
    ∷ pos 875057
    ∷ pos 834101
    ∷ pos 784753
    ∷ pos 731498
    ∷ pos 678793
    ∷ pos 630879
    ∷ pos 591418
    ∷ pos 563372
    ∷ pos 548814
    ∷ []

abbrev waveform_2 : List ℤ
waveform_2 =
    pos 548814
    ∷ pos 563372
    ∷ pos 591418
    ∷ pos 630879
    ∷ pos 678793
    ∷ pos 731498
    ∷ pos 784753
    ∷ pos 834101
    ∷ pos 875057
    ∷ pos 903409
    ∷ pos 915311
    ∷ pos 907712
    ∷ pos 878414
    ∷ pos 826167
    ∷ pos 750847
    ∷ pos 651601
    ∷ pos 530259
    ∷ pos 391766
    ∷ pos 240425
    ∷ pos 81057
    ∷ neg 81057
    ∷ neg 240425
    ∷ neg 391766
    ∷ neg 530259
    ∷ neg 651601
    ∷ neg 750847
    ∷ neg 826167
    ∷ neg 878414
    ∷ neg 907712
    ∷ neg 915311
    ∷ neg 903409
    ∷ neg 875057
    ∷ neg 834101
    ∷ neg 784753
    ∷ neg 731498
    ∷ neg 678793
    ∷ neg 630879
    ∷ neg 591418
    ∷ neg 563372
    ∷ neg 548814
    ∷ []

abbrev waveform_3 : List ℤ
waveform_3 =
    pos 548814
    ∷ pos 563372
    ∷ pos 591418
    ∷ pos 630879
    ∷ pos 678793
    ∷ pos 731498
    ∷ pos 784753
    ∷ pos 834101
    ∷ pos 875057
    ∷ pos 903409
    ∷ pos 915311
    ∷ pos 907712
    ∷ pos 878414
    ∷ pos 826167
    ∷ pos 750847
    ∷ pos 655263
    ∷ pos 541642
    ∷ pos 410932
    ∷ pos 266518
    ∷ pos 112461
    ∷ neg 46876
    ∷ neg 206824
    ∷ neg 362621
    ∷ neg 509690
    ∷ neg 643818
    ∷ neg 759453
    ∷ neg 853877
    ∷ neg 926511
    ∷ neg 975585
    ∷ neg 1000000
    ∷ neg 999298
    ∷ neg 973663
    ∷ neg 923948
    ∷ neg 851558
    ∷ neg 758415
    ∷ neg 646931
    ∷ neg 519913
    ∷ neg 380444
    ∷ neg 231941
    ∷ neg 77944
    ∷ []

abbrev waveform_4 : List ℤ
waveform_4 =
    neg 548814
    ∷ neg 563372
    ∷ neg 591418
    ∷ neg 630879
    ∷ neg 678793
    ∷ neg 731498
    ∷ neg 784753
    ∷ neg 834101
    ∷ neg 875057
    ∷ neg 903409
    ∷ neg 915311
    ∷ neg 907712
    ∷ neg 878414
    ∷ neg 826167
    ∷ neg 750847
    ∷ neg 655263
    ∷ neg 541642
    ∷ neg 410932
    ∷ neg 266518
    ∷ neg 112461
    ∷ pos 46876
    ∷ pos 206824
    ∷ pos 362621
    ∷ pos 509690
    ∷ pos 643818
    ∷ pos 759453
    ∷ pos 853877
    ∷ pos 926511
    ∷ pos 975585
    ∷ pos 1000000
    ∷ pos 999298
    ∷ pos 973663
    ∷ pos 923948
    ∷ pos 851558
    ∷ pos 758415
    ∷ pos 646931
    ∷ pos 519913
    ∷ pos 380444
    ∷ pos 231941
    ∷ pos 77944
    ∷ []

abbrev waveform_5 : List ℤ
waveform_5 =
    neg 548814
    ∷ neg 563372
    ∷ neg 591418
    ∷ neg 630879
    ∷ neg 678793
    ∷ neg 731498
    ∷ neg 784753
    ∷ neg 834101
    ∷ neg 875057
    ∷ neg 903409
    ∷ neg 915311
    ∷ neg 907712
    ∷ neg 878414
    ∷ neg 826167
    ∷ neg 750847
    ∷ neg 651601
    ∷ neg 530259
    ∷ neg 391766
    ∷ neg 240425
    ∷ neg 81057
    ∷ pos 81057
    ∷ pos 240425
    ∷ pos 391766
    ∷ pos 530259
    ∷ pos 651601
    ∷ pos 750847
    ∷ pos 826167
    ∷ pos 878414
    ∷ pos 907712
    ∷ pos 915311
    ∷ pos 903409
    ∷ pos 875057
    ∷ pos 834101
    ∷ pos 784753
    ∷ pos 731498
    ∷ pos 678793
    ∷ pos 630879
    ∷ pos 591418
    ∷ pos 563372
    ∷ pos 548814
    ∷ []

abbrev waveform_6 : List ℤ
waveform_6 =
    pos 77944
    ∷ pos 231941
    ∷ pos 380444
    ∷ pos 519913
    ∷ pos 646931
    ∷ pos 758415
    ∷ pos 851558
    ∷ pos 923948
    ∷ pos 973663
    ∷ pos 999298
    ∷ pos 1000000
    ∷ pos 975585
    ∷ pos 926511
    ∷ pos 853877
    ∷ pos 759453
    ∷ pos 643818
    ∷ pos 509690
    ∷ pos 362621
    ∷ pos 206824
    ∷ pos 46876
    ∷ neg 112461
    ∷ neg 266518
    ∷ neg 410932
    ∷ neg 541642
    ∷ neg 655263
    ∷ neg 750847
    ∷ neg 826167
    ∷ neg 878414
    ∷ neg 907712
    ∷ neg 915311
    ∷ neg 903409
    ∷ neg 875057
    ∷ neg 834101
    ∷ neg 784753
    ∷ neg 731498
    ∷ neg 678793
    ∷ neg 630879
    ∷ neg 591418
    ∷ neg 563372
    ∷ neg 548814
    ∷ []

abbrev waveform_7 : List ℤ
waveform_7 =
    pos 77944
    ∷ pos 231941
    ∷ pos 380444
    ∷ pos 519913
    ∷ pos 646931
    ∷ pos 758415
    ∷ pos 851558
    ∷ pos 923948
    ∷ pos 973663
    ∷ pos 999298
    ∷ pos 1000000
    ∷ pos 975585
    ∷ pos 926511
    ∷ pos 853877
    ∷ pos 759453
    ∷ pos 647450
    ∷ pos 521073
    ∷ pos 381756
    ∷ pos 232917
    ∷ pos 78280
    ∷ neg 78280
    ∷ neg 232917
    ∷ neg 381756
    ∷ neg 521073
    ∷ neg 647450
    ∷ neg 759453
    ∷ neg 853877
    ∷ neg 926511
    ∷ neg 975585
    ∷ neg 1000000
    ∷ neg 999298
    ∷ neg 973663
    ∷ neg 923948
    ∷ neg 851558
    ∷ neg 758415
    ∷ neg 646931
    ∷ neg 519913
    ∷ neg 380444
    ∷ neg 231941
    ∷ neg 77944
    ∷ []

abbrev pub symbol_waveforms : List (List ℤ)
symbol_waveforms =
    waveform_0 ∷ waveform_1 ∷ waveform_2 ∷ waveform_3 ∷ waveform_4 ∷ waveform_5 ∷ waveform_6
    ∷ waveform_7 ∷ []
