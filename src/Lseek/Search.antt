-- ===== src/Lseek/Search.antt =====
-- SEEK_DATA and SEEK_HOLE as calls (lseek.c), against the set of offsets that some block covers.
use pmemfile.Prelude.{[], ℕ, false, List}
use pmemfile.Lseek.{Block, File, regular_file}

-- A regular file of this size and these blocks, open at `p`.
abbrev pub file_at : List Block → ℕ → ℕ → File
file_at blocks size p = record {
  path_only = false;
  offset = p;
  kind = regular_file;
  size = size;
  blocks = blocks;
  dirs = [];
}
