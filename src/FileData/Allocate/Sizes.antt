-- ===== src/FileData/Allocate/Sizes.antt =====
-- The sizes of new blocks (blocks.c).
use pmemfile.Prelude.{
  ℕ, ◌+◌, ◌*◌, ◌%◌, ◌^◌, ◌≤◌, ◌<◌, ◌≡◌, ◌⊎◌, refl, false, ltb, leb, ◌||◌, arith, Bool-cases, inl,
  inr,
}
use pmemfile.Run.{ok}
use pmemfile.OffsetMap.{min_block_size}
use pmemfile.FileData.{pick, data_block_info, expand_to_full_pages, overallocate_size}

-- The three sizes of blocks.
abbrev pub IsClass : ℕ → Type 0
IsClass r = (r ≡ min_block_size) ⊎ (r ≡ 256 * 1024) ⊎ (r ≡ 2 * 1024 * 1024)

-- The least class that has room for the size, or the largest one within the limit.
pub record Best (size limit r : ℕ) : Type 0 where
  pub is_class : IsClass r
  pub within : r ≤ limit
  pub enough : (size ≤ r) ⊎ ((c : ℕ) → IsClass c → c ≤ limit → c ≤ r)
  pub least : (c : ℕ) → IsClass c → size ≤ c → r ≤ c

-- Where the limit is not below the least class, data_block_info returns a class within the limit. It is
-- the least one with room for the size, or, if no class within the limit has, the largest within it.
pub data_block_info-Best :
    (size limit : ℕ)
    → min_block_size ≤ limit
    → (r : ℕ) × Best size limit r × (data_block_info size limit ≡ ok r)
unfolding data_block_info pick
data_block_info-Best size limit l =
    let above : ltb limit min_block_size ≡ false = ground arith in
    elim (Bool-cases (leb size min_block_size)) [
      | inl a ↦ (
        min_block_size,
        record {
          is_class = inl refl;
          within = l;
          enough = inl (ground arith);
          least = λ c h m. ground arith;
        },
        rw (above, a) refl,
      )
      | inr a ↦ elim (Bool-cases (ltb limit (256 * 1024))) [
        | inl b ↦ (
          min_block_size,
          record {
            is_class = inl refl;
            within = l;
            enough = inr (λ c h m. ground arith);
            least = λ c h m. ground arith;
          },
          rw (above, a, b) refl,
        )
        | inr b ↦ elim (Bool-cases (leb size (256 * 1024) || ltb limit (2 * 1024 * 1024))) [
          | inl d ↦ (
            256 * 1024,
            record {
              is_class = inr (inl refl);
              within = ground arith;
              enough = elim (Bool-cases (leb size (256 * 1024))) [
                | inl e ↦ inl (ground arith)
                | inr e ↦ inr (λ c h m. ground arith)
              ];
              least = λ c h m. ground arith;
            },
            ground arith,
          )
          | inr d ↦ (
            2 * 1024 * 1024,
            record {
              is_class = inr (inr refl);
              within = ground arith;
              enough = inr (λ c h m. ground arith);
              least = λ c h m. ground arith;
            },
            ground arith,
          )
        ]
      ]
    ]

-- Whole pages that contain the interval.
pub expand-contains :
    (offset length : ℕ)
    → 0 < length
    → offset + length ≤ 2 ^ 63
    → let (o, s) = expand_to_full_pages offset length in
      (o % min_block_size ≡ 0)
      × (s % min_block_size ≡ 0)
      × (0 < s)
      × (o ≤ offset)
      × (offset + length ≤ o + s)
      × (o + s < offset + length + min_block_size)
unfolding expand_to_full_pages
expand-contains offset length pos b =
    (omega arith, omega arith, omega arith, omega arith, omega arith, omega arith)

pub overallocate-ge :
    (size : ℕ) → (size ≤ overallocate_size size) × (overallocate_size size ≤ size + 2 ^ 26)
unfolding overallocate_size
overallocate-ge size = (ground arith, ground arith)
