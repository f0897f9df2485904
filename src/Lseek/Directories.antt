-- ===== src/Lseek/Directories.antt =====
-- The end of a directory for lseek (lseek.c, lseek_end_directory).
use pmemfile.Prelude.{
  ℕ, ◌+◌, ◌*◌, ◌^◌, ◌≤◌, ◌<◌, ◌≡◌, ◌⊎◌, refl, true, false, Option, none, some, List, [], length,
  get_or, ltb, ◌==◌, if◌then◌else◌, arith, Bool-cases, inl, inr, get_or_outside,
}
use pmemfile.Prelude.Int.{pos}
use pmemfile.Run.{ok}
use pmemfile.Errno.{Reply, done, fail, enxio}
use pmemfile.Lseek.{
  Block, Dir, File, directory, LastEntry, last_entry, end_directory, lseek, seek_end, seek_data,
  seek_hole,
}
use pmemfile.Lseek.LastEntries.{
  used_at, ScanAll, kept_all, newer_all, last_entry-scan_all, scan_all-ScanAll,
}

-- The offset just past an entry; after the last of an array it is the start of the next array.
abbrev pub past : List Dir → ℕ → ℕ → ℕ
past dirs d i =
    if i + 1 == length (get_or dirs d []) then (d + 1) * 2 ^ 32 else d * 2 ^ 32 + (i + 1)

-- Every entry in use is before the offset, which is just past one of them or 0.
pub record IsEnd (dirs : List Dir) (r : ℕ) : Type 0 where
  pub after : (d i : ℕ) → used_at dirs d i ≡ true → d * 2 ^ 32 + i < r
  pub tight : (r ≡ 0) ⊎ ((d : ℕ) × (i : ℕ) × (used_at dirs d i ≡ true) × (r ≡ past dirs d i))

used_at-lt : (dirs : List Dir) (d i : ℕ) → used_at dirs d i ≡ true → i < length (get_or dirs d [])
used_at-lt dirs d i e = elim (Bool-cases (ltb i (length (get_or dirs d [])))) [
  | inl l ↦ ground arith
  | inr g ↦ absurd (ground (arith, get_or_outside (get_or dirs d []) i false))
]

ScanAll-IsEnd :
    (dirs : List Dir) (o : Option LastEntry)
    → ((d : ℕ) → length (get_or dirs d []) ≤ 2 ^ 32)
    → ScanAll 0 none dirs o
    → IsEnd dirs (elim o [
      | none ↦ 0
      | some e ↦
          if e.index + 1 == e.num_elements
          then (e.dir_num + 1) * 2 ^ 32
          else e.dir_num * 2 ^ 32 + (e.index + 1)
    ])
ScanAll-IsEnd dirs none short (kept_all h) = record {
  after = λ d i e. absurd (ground (arith, h d i));
  tight = inl refl;
}
ScanAll-IsEnd dirs (some e) short (newer_all d _ p q u m) =
    let i = e.index in
    let same : e.dir_num ≡ d = omega arith in
    rw (same, q)
      (record {
        after = λ b j v. elim (m b j v) [
          | inl l ↦ ground (arith, short b, used_at-lt dirs b j v)
          | inr (z, l) ↦ ground (arith, short b, used_at-lt dirs b j v)
        ];
        tight = inr (d, i, u, refl);
      })

-- A directory, open at `p`.
abbrev pub directory_at : List Dir → ℕ → File
directory_at dirs p = record {
  path_only = false;
  offset = p;
  kind = directory;
  size = 0;
  blocks = [];
  dirs = dirs;
}

-- The position `r`, and the answer of a call that goes there.
abbrev pub arrive_at : List Dir → ℕ → Reply ℕ × Option File
arrive_at dirs r = (done r, some (directory_at dirs r))

-- On a directory with at most 2 ^ 32 entries in each array, the calls agree on its end: the number of an
-- array in the upper half and an index in the lower one, such that every entry in use is before it and
-- it is just past one of them, or 0. SEEK_END with an offset of 0 goes there. From an offset before
-- it, not negative, SEEK_DATA goes to the offset itself and SEEK_HOLE to the end; from the end on both
-- are ENXIO and the offset stays.
pub lseek-IsEnd :
    (find_closest_block : ℕ → List Block) (dirs : List Dir) (p : ℕ)
    → ((d : ℕ) → length (get_or dirs d []) ≤ 2 ^ 32)
    → let call = lseek find_closest_block true none (some (directory_at dirs p)) in
      let refused : Reply ℕ × Option File = (fail enxio, some (directory_at dirs p)) in
      (r : ℕ) × IsEnd dirs r
      × (call (pos 0) seek_end ≡ ok (arrive_at dirs r))
      × ((o : ℕ) → call (pos o) seek_data ≡ ok (if ltb o r then arrive_at dirs o else refused))
      × ((o : ℕ) → call (pos o) seek_hole ≡ ok (if ltb o r then arrive_at dirs r else refused))
unfolding lseek end_directory
lseek-IsEnd find_closest_block dirs p short =
    let e : end_directory dirs + 0 ≡ end_directory dirs = omega arith in
    (
      end_directory dirs,
      ScanAll-IsEnd dirs (last_entry 0 none dirs) short
          (rw (last_entry-scan_all 0 none dirs) (scan_all-ScanAll 0 none dirs)),
      rw e refl,
      λ o. elim (Bool-cases (ltb o (end_directory dirs))) [ inl b ↦ rw b refl | inr b ↦ rw b refl ],
      λ o. elim (Bool-cases (ltb o (end_directory dirs))) [ inl b ↦ rw b refl | inr b ↦ rw b refl ],
    )
