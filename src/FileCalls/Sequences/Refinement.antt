-- ===== src/FileCalls/Sequences/Refinement.antt =====
-- Sequences of calls against what they promise (write.c, truncate.c, fallocate.c).
use pmemfile.Prelude.{ℕ, ◌+◌, ◌^◌, ◌≤◌, List, [], ◌∷◌, length, arith}
use mathlib.Core.Path.{subst}
use pmemfile.Run.{Run, ok, fault, null_pointer, ◌>>=◌}
use pmemfile.FileCalls.{Environment, Answer}
use pmemfile.FileCalls.Contents.{Finds, lengths, Crashes}
use pmemfile.FileCalls.Sequences.{Request, writev, pwritev, ftruncate, fallocate, Shared, make_call}
use pmemfile.FileCalls.Sequences.Fresh.{IsShared}
use pmemfile.FileCalls.Sequences.Step.{Specified, Stepped, stepped, broken}
use pmemfile.FileCalls.Sequences.Writes.{writev-Stepped, pwritev-Stepped}
use pmemfile.FileCalls.Sequences.Resizes.{ftruncate-Stepped, fallocate-Stepped}

-- A call with what it meets outside, and the number of the handle that makes it.
pub record CallStep : Type 0 where
  pub environment : Environment
  pub handle : ℕ
  pub request : Request

-- Calls one after another, and what each returns.
unfoldable pub run_calls : List CallStep → Shared → Run (List Answer × Shared)
run_calls [] s = ok ([], s)
run_calls (t ∷ ts) s = make_call t.environment t.handle t.request s >>= λ r.
    run_calls ts r.1 >>= λ q. ok (r.0 ∷ q.0, q.1)

-- Each call does to the size and the bytes of the file what it promises.
pub data Follows : List CallStep → Shared → List Answer → Shared → Type 0 where
  finished : (s : Shared) → Follows [] s [] s
  after :
      (t : CallStep) (ts : List CallStep) (s s1 s2 : Shared) (a : Answer) (rest : List Answer)
      → Specified t.environment t.handle t.request s s1 a
      → Follows ts s1 rest s2
      → Follows (t ∷ ts) s (a ∷ rest) s2

-- The calls before one do what they promise, and in that one NULL is followed.
pub data Breaks : List CallStep → Shared → Type 0 where
  here :
      (t : CallStep) (ts : List CallStep) (s : Shared)
      → Crashes t.environment s.file
      → Breaks (t ∷ ts) s
  further :
      (t : CallStep) (ts : List CallStep) (s s1 : Shared) (a : Answer)
      → Specified t.environment t.handle t.request s s1 a
      → Breaks ts s1
      → Breaks (t ∷ ts) s

-- The sizes for which a call is treated.
unfoldable pub IsBounded : Request → Type 0
IsBounded (writev iov) = lengths iov ≤ 2 ^ 31
IsBounded (pwritev iov offset) = (lengths iov ≤ 2 ^ 31) × (offset ≤ 2 ^ 60)
IsBounded (ftruncate length) = length ≤ 2 ^ 31
IsBounded (fallocate mode offset length) = (length ≤ 2 ^ 30) × (offset ≤ 2 ^ 60)

unfoldable pub AreBounded : List CallStep → Type 0
AreBounded [] = Unit
AreBounded (t ∷ ts) = Finds t.environment × IsBounded t.request × AreBounded ts

make_call-Stepped :
    (env : Environment) (calls i : ℕ) (req : Request) (s : Shared)
    → IsShared calls s
    → calls ≤ 2 ^ 28
    → Finds env
    → IsBounded req
    → Stepped env calls i req s (make_call env i req s)
unfolding IsBounded
make_call-Stepped env calls i (writev iov) s h c f u = writev-Stepped env calls i s h c iov f u
make_call-Stepped env calls i (pwritev iov offset) s h c f (u, w) =
    pwritev-Stepped env calls i s h c iov offset f u w
make_call-Stepped env calls i (ftruncate length) s h c f u =
    ftruncate-Stepped env calls i s h c length f u
make_call-Stepped env calls i (fallocate mode offset length) s h c f (u, w) =
    fallocate-Stepped env calls i s h c mode offset length f u w

pub data Refines (ts : List CallStep) (calls : ℕ) (s : Shared)
    : Run (List Answer × Shared) → Type 0 where
  refines :
      (rest : List Answer) (s' : Shared)
      → IsShared (calls + length ts) s'
      → Follows ts s rest s'
      → Refines ts calls s (ok (rest, s'))
  breaks : Breaks ts s → Refines ts calls s (fault null_pointer)

Refines-cons :
    (t : CallStep) (ts : List CallStep) (calls : ℕ) (s : Shared) (m : Run (Answer × Shared))
    → Stepped t.environment calls t.handle t.request s m
    → ((s1 : Shared) → IsShared (calls + 1) s1 → Refines ts (calls + 1) s1 (run_calls ts s1))
    → Refines (t ∷ ts) calls s (m >>= λ r. run_calls ts r.1 >>= λ q. ok (r.0 ∷ q.0, q.1))
Refines-cons t ts calls s (ok _) (stepped a s1 h p) f = from_rest _ (f s1 h)
  where
    from_rest :
        (m : Run (List Answer × Shared))
        → Refines ts (calls + 1) s1 m
        → Refines (t ∷ ts) calls s (m >>= λ q. ok (a ∷ q.0, q.1))
    from_rest (ok _) (refines rest s2 h2 q) =
        refines (a ∷ rest) s2 (subst (λ n. IsShared n s2) (omega arith) h2)
          (after t ts s s1 s2 a rest p q)
    from_rest (fault _) (breaks b) = breaks (further t ts s s1 a p b)
Refines-cons t ts calls s (fault _) (broken n) f = breaks (here t ts s n)

-- From a well-formed file with handles whose pointers are NULL or to blocks of the file, or older than the last
-- removal, any sequence of calls of writev, pwritev, ftruncate and fallocate by the handles ends, with no
-- pointer followed to where no block starts and no assert failed; or it comes to a call in which NULL is
-- followed, since the allocation of a root of the tree failed, after calls that are as follows. The look-ups find what they promise. The
-- calls made before and these are at most 2 ^ 28; each writes at most 2 GB, sets a size of at most 2 GB, or
-- reserves or punches at most 1 GB, and the offsets given are at most 2 ^ 60; and the size, the offsets of the
-- handles and the removals counted are at first within what the calls made before reach. A call that
-- succeeds makes the size and the bytes of the file, its value and the offset of its handle what the call
-- promises. A call that fails leaves the size, the bytes and that offset as they were, and then its arguments
-- or its handle do not allow it, or the tree of the blocks could not be built, or an allocation failed, or a block moved by a
-- removal could not be put into the tree again. The file is well formed at the end.
pub run_calls-Refines :
    (ts : List CallStep) (calls : ℕ) (s : Shared)
    → IsShared calls s
    → AreBounded ts
    → calls + length ts ≤ 2 ^ 28
    → Refines ts calls s (run_calls ts s)
unfolding run_calls AreBounded
run_calls-Refines [] calls s h b c =
    refines [] s (subst (λ n. IsShared n s) (omega arith) h) (finished s)
run_calls-Refines (t ∷ ts) calls s h (f, b, bs) c =
    Refines-cons t ts calls s _
      (make_call-Stepped t.environment calls t.handle t.request s h (omega arith) f b)
      (λ s1 h1. run_calls-Refines ts (calls + 1) s1 h1 bs (omega arith))
