-- ===== src/FileData/Copy.antt =====
-- iterate_on_file_range and what it calls (data.c). A buffer is a function from positions to bytes; a
-- pointer into it is the buffer with a position. A pointer to a block is the list from that block on.
pub mod Reading
pub mod Writing
pub mod RoundTrip
mod Tests
use pmemfile.Prelude.{
  ℕ, zero, suc, ◌+◌, ◌-◌, ◌%◌, ◌^◌, Bool, true, false, ◌&&◌, ◌||◌, not, Option, none, some, List,
  [], ◌∷◌, ltb, leb, ◌==◌, if◌then◌else◌,
}
use pmemfile.Run.{Run, ok, fault, assertion, null_pointer, fuel_spent, ◌>>=◌}
use pmemfile.FileData.{BlockDesc, covers}

-- memcpy and memset: `len` bytes from `at` on.
abbrev pub copy_in : (ℕ → ℕ) → (at len : ℕ) → (ℕ → ℕ) → ℕ → ℕ
copy_in buf at len src j = if leb at j && ltb j (at + len) then src (j - at) else buf j

unfoldable pub read_block_range :
    Option BlockDesc → (offset len : ℕ) → (ℕ → ℕ) → (at : ℕ) → Run (ℕ → ℕ)
read_block_range none offset len buf at =
    if len == 0 then fault assertion else ok (copy_in buf at len (λ j. 0))
read_block_range (some b) offset len buf at =
    if len == 0 || not (ltb offset b.block.size) || ltb b.block.size (offset + len)
    then fault assertion
    else if b.initialized
    then ok (copy_in buf at len (λ j. b.data_at (offset + j)))
    else ok (copy_in buf at len (λ j. 0))

-- The data of a block that is written for the first time is cleared on both sides.
pub cleared_sides : BlockDesc → (offset len : ℕ) → ℕ → ℕ
cleared_sides b offset len =
    if b.initialized
    then b.data_at
    else copy_in (copy_in b.data_at 0 offset (λ j. 0)) (offset + len)
        (b.block.size - (offset + len)) (λ j. 0)

pub write_block_range : BlockDesc → (offset len : ℕ) → (ℕ → ℕ) → (at : ℕ) → Run BlockDesc
unfolding cleared_sides
write_block_range b offset len buf at =
    if len == 0 || not (ltb offset b.block.size) || ltb b.block.size (offset + len)
    then fault assertion
    else ok (record b {
      initialized = true;
      data_at = copy_in (cleared_sides b offset len) offset len (λ j. buf (at + j));
    })

-- The bytes of a block from the offset on that the range takes.
abbrev pub in_block_len : BlockDesc → (offset len : ℕ) → ℕ
in_block_len b offset len =
    let rest = b.block.size - (offset - b.block.offset) in if ltb len rest then len else rest

-- The bytes of a hole that the range takes, up to the next block if there is one.
abbrev pub hole_len : List BlockDesc → (offset len : ℕ) → ℕ
hole_len [] offset len = len
hole_len (n ∷ ns) offset len =
    let hole_end = (n.block.offset + 2 ^ 64 - offset) % 2 ^ 64 in
    if ltb hole_end len then hole_end else len

-- The block where the loop goes on after a hole.
abbrev pub after_hole : (next block : List BlockDesc) → List BlockDesc
after_hole [] block = block
after_hole (n ∷ ns) block = n ∷ ns

-- The loop for reading, with vinode->first_block. It returns the buffer and the last block used. A turn
-- that takes no byte fails an assert, so that the fuel bounds the bytes.
unfoldable pub read_range :
    (fuel : ℕ) (first last block : List BlockDesc) (offset len : ℕ)
    → (ℕ → ℕ)
    → (at : ℕ) → Run ((ℕ → ℕ) × List BlockDesc)
unfolding read_block_range
read_range zero first last block offset len buf at =
    if len == 0 then ok (buf, last) else fault fuel_spent
read_range (suc fuel) first last [] offset len buf at = elim (len == 0) [
  | true ↦ ok (buf, last)
  | false ↦
      let n = hole_len first offset len in
      read_block_range none 0 n buf at >>= λ buf'.
      read_range fuel first last (after_hole first []) (offset + n) (len - n) buf' (at + n)
]
read_range (suc fuel) first last (b ∷ next) offset len buf at = elim (len == 0) [
  | true ↦ ok (buf, last)
  | false ↦ elim (covers b offset) [
    | true ↦
        let n = in_block_len b offset len in
        read_block_range (some b) (offset - b.block.offset) n buf at >>= λ buf'.
        read_range fuel first (b ∷ next) next (offset + n) (len - n) buf' (at + n)
    | false ↦
        let n = hole_len next offset len in
        read_block_range none 0 n buf at >>= λ buf'.
        read_range fuel first last (after_hole next (b ∷ next)) (offset + n) (len - n) buf' (at + n)
  ]
]

-- The loop for writing: the blocks from the starting one on, as they are then.
pub write_range : List BlockDesc → (offset len : ℕ) → (ℕ → ℕ) → (at : ℕ) → Run (List BlockDesc)
unfolding write_block_range
write_range [] offset len buf at = if len == 0 then ok [] else fault assertion
write_range (b ∷ next) offset len buf at = elim (len == 0) [
  | true ↦ ok (b ∷ next)
  | false ↦ elim (covers b offset) [
    | false ↦ fault assertion
    | true ↦
        let n = in_block_len b offset len in
        write_block_range b (offset - b.block.offset) n buf at >>= λ b'.
        write_range next (offset + n) (len - n) buf (at + n) >>= λ bs. ok (b' ∷ bs)
  ]
]

-- The call for writing from the block at a position.
pub write_at : ℕ → List BlockDesc → (offset len : ℕ) → (ℕ → ℕ) → Run (List BlockDesc)
unfolding write_range
write_at i [] offset len buf = fault null_pointer
write_at zero (b ∷ bs) offset len buf = write_range (b ∷ bs) offset len buf 0
write_at (suc i) (b ∷ bs) offset len buf = write_at i bs offset len buf >>= λ bs'. ok (b ∷ bs')
