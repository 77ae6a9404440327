-- ===== src/Containers/HashTable/Tests.antt =====
-- Two keys of one bucket.
use learncc.Prelude.{ℕ, ◌≡◌, refl, List, [], ◌∷◌, arith}
use learncc.Containers.HashTable.{find_entry, value_for, add, erase, make, find, insert, remove}
use learncc.Containers.HashTable.Refinement.{
  Change, inserts, removes, apply, apply_all, change, change_all, find-apply_all,
}

abbrev some_changes : List (Change ℕ)
some_changes = inserts 1 5 ∷ (inserts 14 6 ∷ (inserts 1 7 ∷ (removes 14 ∷ [])))

find-apply_all_example : find 1 0 (apply_all some_changes (make 13 (λ k. k))) ≡ 7
unfolding change_all change
find-apply_all_example = find-apply_all some_changes 13 (λ k. k) 1 0 (omega arith)

find_test : find 14 0 (apply_all some_changes (make 13 (λ k. k))) ≡ 0
unfolding find value_for find_entry apply_all apply insert remove add erase make
find_test = refl
