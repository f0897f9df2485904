-- ===== src/Lseek.antt =====
-- Moving the offset of an open file (src/libpmemfile-posix/lseek.c). A block pointer is the list of
-- blocks from that block on in the order of `next`, and NULL is the empty list. find_closest_block
-- looks a block up in the vinode's offset map (data.c, offset_mapping.c): it is a parameter.
-- Offsets that the code has as pmemfile_off_t are natural numbers where it has tested their sign.
pub mod Offsets
pub mod Blocks
pub mod Search
pub mod LastEntries
pub mod Directories
mod Tests
use pmemfile.Prelude.{
  ℕ, zero, suc, ◌+◌, ◌-◌, ◌*◌, ◌%◌, ◌^◌, Bool, true, false, ◌&&◌, not, Option, none, some, List, [],
  ◌∷◌, length, get_or, ltb, leb, ◌==◌, if◌then◌else◌,
}
use pmemfile.Prelude.Int.{ℤ, pos, negsuc}
use pmemfile.Errno.{Errno, efault, einval, ebadf, enxio, Reply, done, fail}
use pmemfile.Run.{Run, ok, fault, assertion, ◌>>=◌}

pub record Block : Type 0 where
  pub offset : ℕ
  pub size : ℕ

abbrev pub is_offset_in_block : Block → ℕ → Bool
is_offset_in_block b offset = leb b.offset offset && ltb offset (b.offset + b.size)

abbrev pub offset_or : List Block → ℕ → ℕ
offset_or [] fsize = fsize
offset_or (b ∷ bs) fsize = b.offset

-- The walk of lseek_seek_hole from the block found.
pub hole_from : ℕ → List Block → ℕ → ℕ
hole_from fsize [] offset = offset
hole_from fsize (block ∷ next) offset =
    let block_end = block.offset + block.size in
    let offset' = (if leb offset block_end then block_end else offset) in
    let rest = hole_from fsize next offset' in
    if not (ltb offset fsize)
    then offset
    else elim next [ [] ↦ offset' | n ∷ _ ↦ if ltb offset' n.offset then offset' else rest ]

-- A directory is the list of its arrays of entries; an entry is whether its name is not empty.
abbrev pub Dir : Type 0
Dir = List Bool

-- The index of the last entry in use, counting from `i`; `last` if there is none.
pub last_used : ℕ → Option ℕ → Dir → Option ℕ
last_used i last [] = last
last_used i last (used ∷ dir) = last_used (i + 1) (if used then some i else last) dir

-- The array with the last entry in use, its number and length and the index of the entry.
pub record LastEntry : Type 0 where
  pub dir_num : ℕ
  pub num_elements : ℕ
  pub index : ℕ

abbrev pub scan_dir : ℕ → Dir → Option LastEntry → Option LastEntry
scan_dir dir_num dir found = elim (last_used 0 none dir) [
  | none ↦ found
  | some i ↦ some (record { dir_num = dir_num; num_elements = length dir; index = i })
]

-- The loop: an array is passed over if the first entry of the next one is in use.
pub last_entry : ℕ → Option LastEntry → List Dir → Option LastEntry
unfolding last_used
last_entry dir_num found [] = found
last_entry dir_num found (dir ∷ rest) =
    let passed : Bool = elim rest [ [] ↦ false | next ∷ _ ↦ get_or next 0 false ] in
    last_entry (dir_num + 1) (if passed then found else scan_dir dir_num dir found) rest

-- lseek_end_directory with an offset of 0.
pub end_directory : List Dir → ℕ
unfolding last_entry
end_directory dirs = elim (last_entry 0 none dirs) [
  | none ↦ 0
  | some e ↦
      if e.index + 1 == e.num_elements
      then (e.dir_num + 1) * 2 ^ 32
      else e.dir_num * 2 ^ 32 + (e.index + 1)
]

-- The sum of an offset and a signed one.
abbrev pub plus : ℕ → ℤ → ℤ
plus e (pos n) = pos (e + n)
plus e (negsuc n) = if ltb n e then pos (e - suc n) else negsuc (n - e)

abbrev pub int64_max : ℕ
int64_max = 2 ^ 63 - 1

-- `(size_t)off`
abbrev pub to_size : ℤ → ℕ
to_size (pos n) = n % 2 ^ 64
to_size (negsuc n) = 2 ^ 64 - 1 - n % 2 ^ 64

pub add_off : ℕ → ℤ → Run ℤ
add_off cur off =
    if not (leb cur int64_max)
    then fault assertion
    else let sum = (cur + to_size off) % 2 ^ 64 in
      if ltb int64_max sum then ok (negsuc 0) else ok (pos sum)

pub data Kind : Type 0 where
  regular_file directory symlink other : Kind

pub data Whence : Type 0 where
  seek_set seek_cur seek_end seek_data seek_hole unknown : Whence

-- An open file and what the call reads of its inode.
pub record File : Type 0 where
  pub path_only : Bool
  pub offset : ℕ
  pub kind : Kind
  pub size : ℕ
  pub blocks : List Block
  pub dirs : List Dir

-- A new offset, or the negative of an error number.
pub data Sought : Type 0 where
  found : ℤ → Sought
  error : Errno → Sought

-- The part on directories of lseek_seek_data_or_hole.
pub seek_in_directory : Bool → ℕ → ℤ → Sought
seek_in_directory true end (negsuc n) = error einval
seek_in_directory true end (pos n) = if ltb n end then found (pos n) else error enxio
seek_in_directory false end (negsuc n) = found (pos end)
seek_in_directory false end (pos n) = if ltb n end then found (pos end) else error enxio

-- What pmemfile_lseek_locked does with the result.
pub move_to : File → Sought → Reply ℕ × File
move_to f (found (pos n)) = (done n, record f { offset = n })
move_to f (found (negsuc n)) = (fail einval, f)
move_to f (error e) = (fail e, f)

abbrev pub can_seek : Kind → Bool
can_seek regular_file = true
can_seek directory = true
can_seek symlink = false
can_seek other = false

module _ (find_closest_block : ℕ → List Block) where
  -- lseek_seek_data, in the file with these blocks.
  pub data_from : List Block → ℕ → ℕ → ℕ
  data_from blocks fsize offset = elim (find_closest_block offset) [
    | [] ↦ offset_or blocks fsize
    | b ∷ next ↦ if is_offset_in_block b offset then offset else offset_or next fsize
  ]

  abbrev pub hole_at : ℕ → ℕ → ℕ
  hole_at fsize offset = hole_from fsize (find_closest_block offset) offset

  -- The part on regular files of lseek_seek_data_or_hole, with the lock held. The flag says that data
  -- is wanted.
  pub seek_in_file : Bool → File → ℕ → Run Sought
  unfolding data_from hole_from
  seek_in_file true f offset =
      let r = data_from f.blocks f.size offset in
      if leb r f.size then ok (found (pos r)) else fault assertion
  seek_in_file false f offset =
      let r = hole_at f.size offset in ok (found (pos (if ltb f.size r then f.size else r)))

  -- `locked` is the number whose negative vinode_rdlock_with_block_tree returns, if that is not 0
  -- (FileCalls/Read.antt): 1, that is EPERM, where the block tree cannot be built.
  pub seek_data_or_hole : Bool → Option Errno → File → ℤ → Run Sought
  unfolding seek_in_file seek_in_directory end_directory
  seek_data_or_hole wants_data locked f offset = elim f.kind [
    | regular_file ↦ elim offset [
      | negsuc n ↦ ok (error enxio)
      | pos n ↦
          if not (ltb n f.size)
          then ok (error enxio)
          else elim locked [ some e ↦ ok (error e) | none ↦ seek_in_file wants_data f n ]
    ]
    | directory ↦ elim locked [
      | some e ↦ ok (error e)
      | none ↦ ok (seek_in_directory wants_data (end_directory f.dirs) offset)
    ]
    | symlink ↦ ok (error enxio)
    | other ↦ ok (error enxio)
  ]

  -- The `switch` on `whence`.
  pub target : Option Errno → File → ℤ → Whence → Run Sought
  unfolding add_off end_directory seek_data_or_hole
  target locked f offset seek_set = ok (found offset)
  target locked f offset seek_cur = add_off f.offset offset >>= λ r. ok (found r)
  target locked f offset seek_end = elim f.kind [
    | directory ↦ ok (found (plus (end_directory f.dirs) offset))
    | _ ↦ add_off f.size offset >>= λ r. ok (found r)
  ]
  target locked f offset seek_data = seek_data_or_hole true locked f offset
  target locked f offset seek_hole = seek_data_or_hole false locked f offset
  target locked f offset unknown = ok (found (negsuc 0))

  pub lseek_locked : Option Errno → File → ℤ → Whence → Run (Reply ℕ × File)
  unfolding target move_to
  lseek_locked locked f offset whence =
      if f.path_only
      then ok (fail ebadf, f)
      else if not (can_seek f.kind)
      then ok (fail einval, f)
      else target locked f offset whence >>= λ r. ok (move_to f r)

  -- pmemfile_lseek; `pool` says whether the pool is not NULL.
  pub lseek : Bool → Option Errno → Option File → ℤ → Whence → Run (Reply ℕ × Option File)
  unfolding lseek_locked
  lseek pool locked none offset whence = ok (fail efault, none)
  lseek pool locked (some f) offset whence =
      if not pool
      then ok (fail efault, some f)
      else lseek_locked locked f offset whence >>= λ r. ok (r.0, some r.1)
