-- ===== src/Lseek/Tests.antt =====
-- Runs of lseek, and the theorems about it at these inputs (lseek.c).
use pmemfile.Prelude.{
  Option, suc, zero, length, get_or, ◌≤◌, ltb, ℕ, ◌+◌, ◌^◌, ◌≡◌, refl, true, false, none, some,
  List, [], ◌∷◌, if◌then◌else◌, arith,
}
use pmemfile.Prelude.Int.{pos, negsuc}
use pmemfile.Run.{ok, fault, assertion}
use pmemfile.Errno.{Reply, done, fail, enxio}
use pmemfile.Lseek.{
  File, Dir, Block, lseek, end_directory, plus, seek_set, seek_cur, seek_end, seek_data, seek_hole,
}
use pmemfile.Lseek.Blocks.{closest}
use pmemfile.Lseek.Search.{file_at}
use pmemfile.Lseek.Directories.{IsEnd, directory_at, arrive_at, lseek-IsEnd}
use pmemfile.Lseek.Offsets.{arrive, lseek-arrive}

-- Data in [10, 20), [20, 24) and [40, 50).
abbrev islands : List Block
islands =
    record { offset = 10; size = 10 }
    ∷ record { offset = 20; size = 4 }
    ∷ record { offset = 40; size = 10 }
    ∷ []

finds_data :
    lseek (λ o. closest o islands) true none (some (file_at islands 60 0)) (pos 30) seek_data
    ≡ ok (done 40, some (file_at islands 60 40))
unfolding lseek closest
finds_data = refl

finds_hole :
    lseek (λ o. closest o islands) true none (some (file_at islands 60 0)) (pos 12) seek_hole
    ≡ ok (done 24, some (file_at islands 60 24))
unfolding lseek closest
finds_hole = refl

-- Blocks allocated beyond the end of a file of 30 bytes that ends in a hole.
data_beyond :
    lseek (λ o. closest o islands) true none (some (file_at islands 30 0)) (pos 25) seek_data
    ≡ fault assertion
unfolding lseek closest
data_beyond = refl

-- The last entry in use is the second of three in the second array.
ends_inside : end_directory ((true ∷ []) ∷ (false ∷ true ∷ false ∷ []) ∷ []) ≡ 2 ^ 32 + 2
unfolding end_directory
ends_inside = refl

-- The last entry in use is the last of the first array.
ends_at_array : end_directory ((true ∷ true ∷ []) ∷ (false ∷ []) ∷ []) ≡ 2 ^ 32
unfolding end_directory
ends_at_array = refl

lseek-arrive_example :
    let run = lseek (λ o. closest o islands) true none (some (file_at islands 60 7)) (negsuc 9) in
    (run seek_set ≡ ok (arrive islands 60 7 (plus 0 (negsuc 9))))
    × (run seek_cur ≡ ok (arrive islands 60 7 (plus 7 (negsuc 9))))
    × (run seek_end ≡ ok (arrive islands 60 7 (plus 60 (negsuc 9))))
lseek-arrive_example =
    lseek-arrive (λ o. closest o islands) islands 60 7 (negsuc 9) (omega arith) (omega arith)
      (omega arith)

abbrev two_arrays : List Dir
two_arrays = (true ∷ true ∷ []) ∷ (true ∷ false ∷ []) ∷ []

two_arrays_short : (d : ℕ) → length (get_or two_arrays d []) ≤ 2 ^ 32
two_arrays_short zero = omega arith
two_arrays_short (suc zero) = omega arith
two_arrays_short (suc (suc d)) = omega arith

lseek-IsEnd_example :
    let call = lseek (λ o. []) true none (some (directory_at two_arrays 1)) in
    let refused : Reply ℕ × Option File = (fail enxio, some (directory_at two_arrays 1)) in
    (r : ℕ) × IsEnd two_arrays r
    × (call (pos 0) seek_end ≡ ok (arrive_at two_arrays r))
    × ((o : ℕ) → call (pos o) seek_data ≡ ok (if ltb o r then arrive_at two_arrays o else refused))
    × ((o : ℕ) → call (pos o) seek_hole ≡ ok (if ltb o r then arrive_at two_arrays r else refused))
lseek-IsEnd_example = lseek-IsEnd (λ o. []) two_arrays 1 two_arrays_short
