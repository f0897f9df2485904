-- ===== src/FileData/Allocate/Tests.antt =====
-- Runs of the allocation of file blocks, and the theorems about it at these inputs (data.c, blocks.c).
use pmemfile.Prelude.{ℕ, ◌+◌, ◌^◌, ◌≡◌, refl, true, false, none, some, [], ◌∷◌, arith}
use pmemfile.Run.{ok, fault, assertion}
use pmemfile.FileData.{made, BlockDesc, data_block_info}
use pmemfile.FileData.Content.{IsPaged}
use pmemfile.FileData.Allocate.{vinode_allocate_interval}
use pmemfile.FileData.Allocate.Sizes.{Best, data_block_info-Best}
use pmemfile.FileData.Allocate.Interval.{
  Allocation, closest_at, vinode_allocate_interval-Allocation,
}

-- A blank page at an offset.
abbrev page_at : ℕ → BlockDesc
page_at o = record {
  block = record { offset = o; size = 16384 };
  initialized = false;
  data_at = λ x. 0;
}

first_block :
    vinode_allocate_interval (λ k. made) (λ k x. 0) (λ o. none) false 0 100 20000 []
    ≡ ok (some (record (page_at 0) { block = record { offset = 0; size = 262144 } } ∷ [], 262144))
unfolding vinode_allocate_interval
first_block = refl

-- Two pages before the first block and behind it.
around_block :
    vinode_allocate_interval (λ k. made) (λ k x. 0) (λ o. none) false 0 0 40000 (page_at 16384 ∷ [])
    ≡ ok (some (page_at 0 ∷ page_at 16384 ∷ page_at 32768 ∷ [], 32768))
unfolding vinode_allocate_interval
around_block = refl

-- The first block starts at 4 GB, and the interval ends behind it.
cut_to_zero :
    vinode_allocate_interval
      (λ k. made)
      (λ k x. 0)
      (λ o. none)
      false
      0
      0
      (2 ^ 32 + 1)
      (page_at (2 ^ 32) ∷ [])
    ≡ fault assertion
unfolding vinode_allocate_interval
cut_to_zero = refl

page_at-IsPaged : IsPaged 0 (page_at 16384 ∷ [])
unfolding IsPaged
page_at-IsPaged = (omega arith, omega arith, refl, refl, omega arith, tt)

data_block_info-Best_example : (r : ℕ) × Best 20000 300000 r × (data_block_info 20000 300000 ≡ ok r)
data_block_info-Best_example = data_block_info-Best 20000 300000 (omega arith)

vinode_allocate_interval-Allocation_example :
    Allocation
      (λ k. made)
      0
      40000
      (page_at 16384 ∷ [])
      (vinode_allocate_interval
        (λ k. made)
        (λ k x. 0)
        (λ o. closest_at o (page_at 16384 ∷ []))
        true
        0
        0
        40000
        (page_at 16384 ∷ []))
vinode_allocate_interval-Allocation_example =
    vinode_allocate_interval-Allocation (λ k. made) (λ k x. 0)
      (λ o. closest_at o (page_at 16384 ∷ [])) true 0 0 40000 (page_at 16384 ∷ []) page_at-IsPaged
      (λ o. refl) (omega arith) (omega arith)
