-- ===== src/FileData/Tests.antt =====
-- The look-up in an offset map, at an input (data.c, offset_mapping.c).
use pmemfile.Prelude.{ℕ, ◌-◌, ◌≡◌, refl, Bool, false, none, some, List, [], ◌∷◌, arith, inl}
use pmemfile.Run.{ok}
use pmemfile.OffsetMap.{leaf, node, cons, nulls, all_null, width, OffsetMap}
use pmemfile.OffsetMap.Reads.{
  read, read_in, Fits, size, nulls-FitsAll, read_in-all_null, all_null-nulls,
}
use pmemfile.OffsetMap.Calls.Grow.{IsValid, block_at}
use pmemfile.OffsetMap.Search.{block_find_closest}
use pmemfile.FileData.{made, BlockDesc}
use pmemfile.FileData.Content.{IsPaged}
use pmemfile.FileData.Allocate.Interval.{closest_at}
use pmemfile.FileData.Allocated.{
  Decides, vinode_is_interval_allocated, vinode_is_interval_allocated-Decides,
}
use pmemfile.FileData.Copy.Reading.Range.{closest_from}
use pmemfile.FileData.Removal.{vinode_remove_interval}
use pmemfile.FileData.Lookup.{owner, previous, block_find_closest-closest_at}

-- A file of one page at 16384, and its map.
abbrev one_block : List BlockDesc
one_block =
    record {
      block = record { offset = 16384; size = 16384 };
      initialized = false;
      data_at = λ x. 0;
    }
    ∷ []

abbrev its_map : OffsetMap
its_map = record { entry = node (cons (leaf none) (cons (leaf (some 0)) (nulls 14))); levels = 1 }

its_map-IsValid : IsValid its_map
unfolding Fits size nulls all_null
its_map-IsValid = record {
  fits = (refl, refl, (tt, (tt, nulls-FitsAll 0 14)));
  root = tt;
  height = omega arith;
}

one_block-IsPaged : IsPaged 0 one_block
unfolding IsPaged
one_block-IsPaged = (omega arith, omega arith, refl, refl, omega arith, tt)

behind_page : (x : ℕ) → read_in 0 (nulls 14) x ≡ none
behind_page x = read_in-all_null 0 (nulls 14) x (all_null-nulls 14)

its_map-owner : (x : ℕ) → block_at its_map x ≡ owner one_block x
unfolding read owner width
its_map-owner x = ground (arith, behind_page (x - 16384 - 16384))

block_find_closest-closest_at_example :
    block_find_closest previous its_map 50000 ≡ ok (closest_at 50000 one_block)
block_find_closest-closest_at_example =
    block_find_closest-closest_at its_map one_block 50000 its_map-IsValid one_block-IsPaged
      its_map-owner (omega arith)

vinode_is_interval_allocated-Decides_example :
    (answer : Bool) × Decides one_block 20000 30000 answer
    × (vinode_is_interval_allocated (λ o. closest_from o one_block) 20000 10000 [] ≡ ok answer)
vinode_is_interval_allocated-Decides_example =
    vinode_is_interval_allocated-Decides (λ o. closest_from o one_block) 20000 10000 one_block []
      one_block-IsPaged (λ o. refl) (inl refl) (omega arith) (omega arith)

-- The page goes, and 16384 bytes of space.
removes_page :
    vinode_remove_interval (λ k. made) (λ o. closest_at o one_block) 10000 30000 one_block
    ≡ ok (some ([], 16384))
unfolding vinode_remove_interval closest_at
removes_page = refl
