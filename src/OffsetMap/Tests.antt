-- ===== src/OffsetMap/Tests.antt =====
-- Runs of the offset map, and the theorems about it at these inputs (offset_mapping.c).
use pmemfile.Prelude.{ℕ, ◌-◌, ◌≡◌, refl, Bool, true, false, none, some, arith}
use pmemfile.Run.{ok, fault, null_pointer}
use pmemfile.OffsetMap.{leaf, node, cons, nulls, all_null, width, OffsetMap}
use pmemfile.OffsetMap.Calls.{insert_block, remove_block, add_new_level}
use pmemfile.OffsetMap.Calls.Grow.{IsValid, block_at}
use pmemfile.OffsetMap.Calls.Insert.{Insertion, insert_block-Insertion}
use pmemfile.OffsetMap.Calls.Remove.{Removal, HasBlock, remove_block-Removal}
use pmemfile.OffsetMap.Search.{block_find_closest}
use pmemfile.OffsetMap.Search.Nearest.{Nearest}
use pmemfile.OffsetMap.Search.Clamped.{block_find_closest-Nearest}
use pmemfile.OffsetMap.Reads.{
  read, read_in, Fits, size, nulls-FitsAll, read_in-all_null, all_null-nulls,
}

abbrev empty_map : OffsetMap
empty_map = record { entry = leaf none; levels = 0 }

abbrev always : ℕ → Bool
always k = true

abbrev never : ℕ → Bool
never k = false

-- A page at 16384 is mapped to block 7.
abbrev one_page : OffsetMap
one_page = record { entry = node (cons (leaf none) (cons (leaf (some 7)) (nulls 14))); levels = 1 }

inserts_page :
    insert_block always 7 16384 16384 empty_map
    ≡ ok (record { map = one_page; success = true; calls = 1 })
unfolding insert_block
inserts_page = refl

-- The array of the root cannot be allocated, which insert_block does not see.
root_unchecked : insert_block never 7 16384 16384 empty_map ≡ fault null_pointer
unfolding insert_block
root_unchecked = refl

-- After a level that could not be allocated the map counts it all the same.
level_counted :
    add_new_level never 0 one_page
    ≡ (record { map = record one_page { levels = 2 }; success = false; calls = 1 })
unfolding add_new_level
level_counted = refl

removes_page :
    remove_block always 16384 16384 one_page
    ≡ ok (record { map = empty_map; success = true; calls = 0 })
unfolding remove_block
removes_page = refl

finds_page : block_find_closest (λ b. none) one_page 50000 ≡ ok (some 7)
unfolding block_find_closest nulls
finds_page = refl

finds_before : block_find_closest (λ b. none) one_page 100 ≡ ok none
unfolding block_find_closest nulls
finds_before = refl

empty_map-IsValid : IsValid empty_map
unfolding Fits
empty_map-IsValid = record { fits = tt; root = tt; height = omega arith }

one_page-IsValid : IsValid one_page
unfolding Fits size nulls all_null
one_page-IsValid = record {
  fits = (refl, refl, (tt, (tt, nulls-FitsAll 0 14)));
  root = tt;
  height = omega arith;
}

behind_page : (x : ℕ) → read_in 0 (nulls 14) x ≡ none
behind_page x = read_in-all_null 0 (nulls 14) x (all_null-nulls 14)

one_page-HasBlock : HasBlock 7 16384 16384 one_page
unfolding read
one_page-HasBlock = record {
  there = λ x l m. unfold width in ground arith;
  only = λ x l. unfold width in ground (arith, behind_page (x - 16384 - 16384));
}

insert_block-Insertion_example :
    Insertion never 7 16384 16384 empty_map (insert_block never 7 16384 16384 empty_map)
unfolding read
insert_block-Insertion_example =
    insert_block-Insertion never 7 16384 16384 empty_map empty_map-IsValid (omega arith)
      (omega arith) refl refl (omega arith) (λ x p q. refl)

remove_block-Removal_example :
    Removal always 16384 16384 one_page (remove_block always 16384 16384 one_page)
remove_block-Removal_example =
    remove_block-Removal always 7 16384 16384 one_page one_page-IsValid (omega arith) refl refl
      one_page-HasBlock

block_find_closest-Nearest_example :
    Nearest (λ b. none) (block_at one_page) 50000 (block_find_closest (λ b. none) one_page 50000)
block_find_closest-Nearest_example =
    block_find_closest-Nearest (λ b. none) one_page 50000 one_page-IsValid (omega arith)
