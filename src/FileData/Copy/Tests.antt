-- ===== src/FileData/Copy/Tests.antt =====
-- Runs of the copying of file data, and the theorems about it at these inputs (data.c).
use pmemfile.Prelude.{ℕ, ◌+◌, ◌≡◌, refl, true, Option, none, some, List, [], ◌∷◌, arith}
use pmemfile.Run.{Run, ok, fault}
use pmemfile.FileData.{BlockDesc}
use pmemfile.FileData.Content.{IsPaged, covered, content}
use pmemfile.FileData.Copy.{read_range, write_at, read_block_range}
use pmemfile.FileData.Copy.Reading.{Joined, Reads}
use pmemfile.FileData.Copy.Reading.Range.{closest_from, read_range-content}
use pmemfile.FileData.Copy.RoundTrip.{write_at-read_range}
use pmemfile.FileData.Allocate.Interval.{closest_at}

-- A page of ones, a hole of a page, and a page of twos.
abbrev ones_twos : List BlockDesc
ones_twos =
    record { block = record { offset = 0; size = 16384 }; initialized = true; data_at = λ x. 1 }
    ∷ record {
      block = record { offset = 32768; size = 16384 };
      initialized = true;
      data_at = λ x. 2;
    }
    ∷ []

abbrev byte_read : Run ((ℕ → ℕ) × List BlockDesc) → ℕ → Option ℕ
byte_read (ok (buf, last)) x = some (buf x)
byte_read (fault f) x = none

-- From the hole on.
reads_twos :
    byte_read (read_range 30000 ones_twos ones_twos ones_twos 20000 20000 (λ x. 9) 0) 19999 ≡ some 2
unfolding read_range read_block_range
reads_twos = refl

-- From the ones on, past the hole: the twos are read as zeros.
twos_lost :
    byte_read (read_range 40000 ones_twos ones_twos ones_twos 10000 40000 (λ x. 9) 0) 30000 ≡ some 0
unfolding read_range read_block_range
twos_lost = refl

twos_there : content ones_twos (10000 + 30000) ≡ 2
unfolding content
twos_there = refl

ones_twos-IsPaged : IsPaged 0 ones_twos
unfolding IsPaged
ones_twos-IsPaged = (
  omega arith,
  omega arith,
  refl,
  refl,
  omega arith,
  (omega arith, omega arith, refl, refl, omega arith, tt),
)

read_range-content_example :
    Reads
      (content ones_twos)
      20000
      20000
      (λ x. 9)
      0
      (read_range 20000 ones_twos
        (closest_from 20000 ones_twos)
        (closest_from 20000 ones_twos)
        20000
        20000
        (λ x. 9)
        0)
unfolding Joined
read_range-content_example =
    read_range-content 20000 20000 ones_twos (λ x. 9) ones_twos-IsPaged
      ((λ l m. absurd (omega arith)), tt) (omega arith)

write_at-read_range_example :
    (bs' : List BlockDesc) × (write_at 0 ones_twos 100 50 (λ x. 7) ≡ ok bs')
    × Reads
        (λ x. 7)
        100
        50
        (λ x. 9)
        0
        (read_range 50 bs' (closest_from 100 bs') (closest_from 100 bs') 100 50 (λ x. 9) 0)
unfolding closest_at covered
write_at-read_range_example =
    write_at-read_range 100 50 0 ones_twos (λ x. 7) (λ x. 9) ones_twos-IsPaged refl (omega arith)
      (λ x l m. ground arith) (omega arith)
