-- ===== src/FileData/Content.antt =====
-- A file as the bytes that its blocks hold (data.c), and its blocks in order.
use pmemfile.Prelude.{
  ℕ, ◌+◌, ◌-◌, ◌%◌, ◌^◌, ◌≤◌, ◌<◌, ◌≡◌, refl, Bool, false, ◌||◌, ◌==◌, List, [], ◌∷◌, if◌then◌else◌,
  arith,
}
use pmemfile.OffsetMap.{min_block_size}
use pmemfile.FileData.{BlockDesc, covers, end_of}

-- The blocks start at `lo` or later, are made of whole pages, and end before the next one starts.
unfoldable pub IsPaged : ℕ → List BlockDesc → Type 0
IsPaged lo [] = Unit
IsPaged lo (b ∷ bs) =
    (lo ≤ b.block.offset)
    × (0 < b.block.size)
    × (b.block.offset % min_block_size ≡ 0)
    × (b.block.size % min_block_size ≡ 0)
    × (end_of b ≤ 2 ^ 64)
    × IsPaged (end_of b) bs

-- Some block covers the offset.
unfoldable pub covered : List BlockDesc → ℕ → Bool
covered [] x = false
covered (b ∷ bs) x = covers b x || covered bs x

-- The byte at an offset: 0 in a hole and in a block that has not been written.
abbrev pub byte_of : BlockDesc → ℕ → ℕ
byte_of b x = if b.initialized then b.data_at (x - b.block.offset) else 0

unfoldable pub content : List BlockDesc → ℕ → ℕ
content [] x = 0
content (b ∷ bs) x = if covers b x then byte_of b x else content bs x

-- The bytes of all blocks.
unfoldable pub total : List BlockDesc → ℕ
total [] = 0
total (b ∷ bs) = b.block.size + total bs

-- Some block starts at the offset.
unfoldable pub starts_at : ℕ → List BlockDesc → Bool
starts_at k [] = false
starts_at k (b ∷ bs) = b.block.offset == k || starts_at k bs

pub IsPaged-lower : (lo lo' : ℕ) (bs : List BlockDesc) → lo' ≤ lo → IsPaged lo bs → IsPaged lo' bs
unfolding IsPaged
IsPaged-lower lo lo' [] l h = tt
IsPaged-lower lo lo' (b ∷ bs) l (s, z, o, w, t, h) = (omega arith, z, o, w, t, h)

pub content_below : (lo x : ℕ) (bs : List BlockDesc) → IsPaged lo bs → x < lo → content bs x ≡ 0
unfolding IsPaged content
content_below lo x [] h l = refl
content_below lo x (b ∷ bs) (s, z, o, w, t, h) l =
    ground (arith, content_below (end_of b) x bs h (omega arith))
