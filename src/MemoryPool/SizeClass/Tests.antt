-- ===== src/MemoryPool/SizeClass/Tests.antt =====
-- Runs of the size classes, and the theorems at concrete requests.
use learncc.Prelude.{ℕ, ◌≡◌, ◌↔◌, refl, some, arith}
use learncc.MemoryPool.SizeClass.{round_up, round_up_to, index, index_in, move_num, move_page}
use learncc.MemoryPool.SizeClass.Laws.{index-round_up_iff}

round_up_1000 : round_up 1000 ≡ some 1008
unfolding round_up round_up_to
round_up_1000 = refl

round_up_1001 : round_up 1001 ≡ some 1008
unfolding round_up round_up_to
round_up_1001 = refl

index_1008 : index 1008 ≡ some 70
unfolding index index_in
index_1008 = refl

move_page_64 : move_page 64 ≡ 8
unfolding move_page move_num
move_page_64 = refl

index-round_up_iff_example : (◌≡◌ {A = ℕ} 70 70) ↔ (◌≡◌ {A = ℕ} 1008 1008)
index-round_up_iff_example =
    index-round_up_iff 1000 1001 (omega arith) (omega arith) round_up_1000 round_up_1001 index_1008
      index_1008
