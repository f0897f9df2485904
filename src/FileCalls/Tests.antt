-- ===== src/FileCalls/Tests.antt =====
-- Calls on one file of one block (read.c, write.c, truncate.c, fallocate.c): the theorems at these inputs.
use pmemfile.Prelude.{
  ◌+◌, refl, true, false, none, some, List, [], ◌∷◌, ltb, ◌==◌, if◌then◌else◌, arith, Bool-cases,
  inl, inr,
}
use pmemfile.Lseek.{regular_file}
use pmemfile.FileData.{made, BlockDesc}
use pmemfile.FileData.Content.{IsPaged, content, total, starts_at}
use pmemfile.FileData.Allocate.Interval.{closest_at}
use pmemfile.FileData.Copy.Reading.{Joined}
use pmemfile.FileCalls.{Time, Vinode, Handle, Iov, Environment}
use pmemfile.FileCalls.Contents.{IsFile, Finds, lengths}
use pmemfile.FileCalls.Write.{pmemfile_pwritev_internal}
use pmemfile.FileCalls.Write.Loop.{HasBases, no_more, based}
use pmemfile.FileCalls.Write.Outcome.{WriteOutcome, pwritev-WriteOutcome}
use pmemfile.FileCalls.Read.{pmemfile_preadv_internal}
use pmemfile.FileCalls.Read.Effect.{ReadOutcome, preadv-ReadOutcome}
use pmemfile.FileCalls.Resize.{vinode_truncate, fallocate_check_arguments, vinode_fallocate}
use pmemfile.FileCalls.Resize.Truncate.{TruncateOutcome, truncate-TruncateOutcome}
use pmemfile.FileCalls.Resize.Fallocate.{FallocateOutcome, fallocate-FallocateOutcome}
use pmemfile.FileCalls.Sequences.{Shared, writev, ftruncate}
use pmemfile.FileCalls.Sequences.Fresh.{IsFresh, IsShared}
use pmemfile.FileCalls.Sequences.Refinement.{
  CallStep, run_calls, AreBounded, IsBounded, Refines, run_calls-Refines,
}

-- A block of a page that holds 100 bytes, in a file of that size whose tree is not built.
abbrev page : BlockDesc
page = record {
  block = record { offset = 0; size = 16384 };
  initialized = true;
  data_at = λ j. if ltb j 100 then 65 else 0;
}

abbrev early : Time
early = record { sec = 1; nsec = 0 }

abbrev small_file : Vinode
small_file = record {
  kind = regular_file;
  size = 100;
  allocated_space = 16384;
  blocks = page ∷ [];
  has_tree = false;
  block_pointer_invalidation_counter = 0;
  atime = early;
  atime_dirty = true;
  inode_atime = early;
  mtime = early;
  ctime = early;
}

abbrev outside : Environment
outside = record {
  find = λ bs o. closest_at o bs;
  rebuild = made;
  allocated = λ k. made;
  fresh = λ k j. 7;
  relocated = λ k. made;
  overallocate_on_append = true;
  abort_errno = 12;
  clock = λ k. record { sec = 10 + k; nsec = 0 };
}

outside-Finds : Finds outside
outside-Finds = record { closest = λ bs o. refl }

small_file-IsFile : IsFile small_file
unfolding IsPaged total content
small_file-IsFile = record {
  paged = (omega arith, omega arith, refl, refl, omega arith, tt);
  counted = refl;
  beyond = λ x l. ground arith;
}

abbrev two_buffers : List Iov
two_buffers =
    record { iov_base = some (λ j. 66); iov_len = 10 }
    ∷ record { iov_base = some (λ j. 67 + j); iov_len = 20 }
    ∷ []

two_buffers-HasBases : HasBases two_buffers
two_buffers-HasBases = based _ (λ j. 66) _ refl (based _ (λ j. 67 + j) _ refl no_more)

pwritev-WriteOutcome_example :
    WriteOutcome outside 16380 two_buffers small_file
      (pmemfile_pwritev_internal outside false 16380 none two_buffers small_file)
unfolding lengths
pwritev-WriteOutcome_example =
    pwritev-WriteOutcome outside false 16380 none two_buffers small_file outside-Finds
      small_file-IsFile tt two_buffers-HasBases (omega arith) (omega arith)

preadv-ReadOutcome_example :
    ReadOutcome small_file 90 0 two_buffers
      (pmemfile_preadv_internal outside small_file 90 0 (some 0) two_buffers)
unfolding lengths Joined starts_at
preadv-ReadOutcome_example =
    preadv-ReadOutcome outside small_file outside-Finds small_file-IsFile.paged (omega arith) 90 0
      (some 0) two_buffers refl two_buffers-HasBases (omega arith) tt

truncate-TruncateOutcome_example :
    TruncateOutcome outside 40000 small_file (vinode_truncate outside 40000 small_file)
truncate-TruncateOutcome_example =
    truncate-TruncateOutcome outside 40000 small_file outside-Finds small_file-IsFile (omega arith)
      (omega arith) (omega arith)

fallocate-FallocateOutcome_example :
    FallocateOutcome outside 3 50 20 small_file (vinode_fallocate outside 3 50 20 small_file)
unfolding fallocate_check_arguments
fallocate-FallocateOutcome_example =
    fallocate-FallocateOutcome outside 3 50 20 small_file outside-Finds small_file-IsFile refl refl
      (omega arith) (omega arith)

abbrev at_start : Handle
at_start = record {
  can_read = true;
  can_write = true;
  no_atime = false;
  append = false;
  path_only = false;
  offset = 0;
  block_pointer_cache = none;
  last_block_pointer_invalidation_observed = 0;
}

-- Two writers, one of which appends.
abbrev two_handles : Shared
two_handles = record {
  file = small_file;
  handles = λ i. if i == 0 then at_start else record at_start { append = true };
}

abbrev four_calls : List CallStep
four_calls =
    record { environment = outside; handle = 0; request = writev two_buffers }
    ∷ record { environment = outside; handle = 1; request = writev two_buffers }
    ∷ record { environment = outside; handle = 1; request = ftruncate 5 }
    ∷ record { environment = outside; handle = 0; request = writev two_buffers }
    ∷ []

at_start-IsFresh : IsFresh small_file at_start
at_start-IsFresh = record { not_ahead = omega arith; valid = λ q. tt }

two_handles-IsShared : IsShared 0 two_handles
two_handles-IsShared = record {
  file = small_file-IsFile;
  size = omega arith;
  count = omega arith;
  fresh = λ i. elim (Bool-cases (i == 0)) [
    | inl e ↦ rw e at_start-IsFresh
    | inr e ↦ rw e (record { not_ahead = omega arith; valid = λ q. tt })
  ];
  offset = λ i. ground arith;
}

run_calls-Refines_example : Refines four_calls 0 two_handles (run_calls four_calls two_handles)
unfolding AreBounded IsBounded lengths
run_calls-Refines_example =
    run_calls-Refines four_calls 0 two_handles two_handles-IsShared
      (
        outside-Finds,
        omega arith,
        (
          outside-Finds,
          omega arith,
          (outside-Finds, omega arith, (outside-Finds, omega arith, tt)),
        ),
      )
      (omega arith)
