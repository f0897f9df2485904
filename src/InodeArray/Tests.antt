-- ===== src/InodeArray/Tests.antt =====
-- Runs on chains of inode arrays, and the theorems about them at these inputs (inode_array.c).
use pmemfile.Prelude.{ℕ, ◌≡◌, refl, true, false, List, [], ◌∷◌, replicate, arith}
use pmemfile.Run.{ok}
use pmemfile.InodeArray.{
  InodeArray, Added, added, aborted, out_of_fuel, add, unregister, traverse, empty,
}
use pmemfile.InodeArray.Slots.{used_in}
use pmemfile.InodeArray.Chain.{
  ArrayIsValid, new_array-ArrayIsValid, IsValid, cons-IsValid, inode_at, Outcome, add-Outcome,
}
use pmemfile.InodeArray.Removal.{Unregisters, unregister-Unregisters, unregister-add}
use pmemfile.InodeArray.Traversal.{all_inodes, traverse-all_inodes, is_nil, empty-all_inodes}

abbrev full_array : InodeArray
full_array = record { used = 249; inodes = replicate 249 7 }

-- Two inodes with a null slot before each.
abbrev sparse_array : InodeArray
sparse_array = record { used = 2; inodes = 0 ∷ 5 ∷ 0 ∷ 6 ∷ replicate 245 0 }

full_array-ArrayIsValid : ArrayIsValid full_array
unfolding used_in
full_array-ArrayIsValid = record { size = refl; counted = refl }

sparse_array-ArrayIsValid : ArrayIsValid sparse_array
unfolding used_in
sparse_array-ArrayIsValid = record { size = refl; counted = refl }

nothing-IsValid : IsValid []
unfolding IsValid
nothing-IsValid k = new_array-ArrayIsValid

full-IsValid : IsValid (full_array ∷ [])
full-IsValid = cons-IsValid full_array [] full_array-ArrayIsValid nothing-IsValid

both-IsValid : IsValid (full_array ∷ sparse_array ∷ [])
both-IsValid =
    cons-IsValid full_array (sparse_array ∷ []) full_array-ArrayIsValid
      (cons-IsValid sparse_array [] sparse_array-ArrayIsValid nothing-IsValid)

abbrev position : Added → List ℕ
position (added chain k i) = k ∷ i ∷ traverse chain
position aborted = []
position out_of_fuel = []

-- The first null slot takes the inode.
second_takes : position (add 3 false 9 sparse_array []) ≡ 0 ∷ 0 ∷ 9 ∷ 5 ∷ 6 ∷ []
unfolding add traverse
second_takes = refl

add-Outcome_example : Outcome true 9 (full_array ∷ []) (add 2 true 9 full_array [])
add-Outcome_example =
    add-Outcome 9 (λ e. omega arith) 2 true full_array [] full-IsValid (omega arith)

unregister-Unregisters_example :
    (chain' : List InodeArray) × (unregister 1 3 (full_array ∷ sparse_array ∷ []) ≡ ok chain')
    × Unregisters (full_array ∷ sparse_array ∷ []) chain' 1 3
unregister-Unregisters_example =
    unregister-Unregisters (full_array ∷ sparse_array ∷ []) 1 3 both-IsValid (omega arith)
      (λ e. omega arith)

abbrev grown : List InodeArray
grown = full_array ∷ record { used = 1; inodes = 9 ∷ replicate 248 0 } ∷ []

grows : add 2 true 9 full_array [] ≡ added grown 1 0
unfolding add
grows = refl

unregister-add_example :
    (chain' : List InodeArray) × (unregister 1 0 grown ≡ ok chain')
    × IsValid chain'
    × ((k i : ℕ) → inode_at chain' k i ≡ inode_at (full_array ∷ []) k i)
unregister-add_example =
    unregister-add 9 2 true full_array [] grown 1 0 (λ e. omega arith) full-IsValid (omega arith)
      grows

traverse-all_inodes_example :
    traverse (full_array ∷ sparse_array ∷ []) ≡ all_inodes (full_array ∷ sparse_array ∷ [])
traverse-all_inodes_example = traverse-all_inodes (full_array ∷ sparse_array ∷ []) both-IsValid

empty-all_inodes_example :
    empty (full_array ∷ sparse_array ∷ []) ≡ is_nil (all_inodes (full_array ∷ sparse_array ∷ []))
empty-all_inodes_example = empty-all_inodes (full_array ∷ sparse_array ∷ []) both-IsValid
