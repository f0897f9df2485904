-- ===== src/FileCalls/Sequences/Step.antt =====
-- One call by a handle on a file (write.c, truncate.c, fallocate.c).
use pmemfile.Prelude.{ℕ, ◌+◌, ◌≡◌, false, arith}
use pmemfile.Prelude.Int.{ℤ}
use pmemfile.Run.{Run, ok, fault, null_pointer}
use pmemfile.FileData.{stopped}
use pmemfile.FileCalls.{Vinode, Handle, Environment, Answer, done, fail}
use pmemfile.FileCalls.Contents.{bytes_of, Crashes}
use pmemfile.FileCalls.Sequences.{
  Request, Shared, size_after, bytes_after, value_of, offset_after, permitted,
}
use pmemfile.FileCalls.Sequences.Fresh.{IsShared}

-- Why a call fails.
pub data Excused (env : Environment) (v : Vinode) (h : Handle) (req : Request) : Type 0 where
  not_permitted : permitted v h req ≡ false → Excused env v h req
  tree_missing : v.has_tree ≡ false → env.rebuild ≡ stopped → Excused env v h req
  out_of_space : (j : ℕ) → env.allocated j ≡ stopped → Excused env v h req
  not_put_again : (j : ℕ) → env.relocated j ≡ stopped → Excused env v h req

-- The file and the handle after a make_call, by what it returns.
pub data Specified (env : Environment) (i : ℕ) (req : Request) (s s' : Shared)
    : Answer → Type 0 where
  succeeds :
      s'.file.size ≡ size_after (s.handles i) req s.file.size
      → ((x : ℕ)
          → bytes_of s'.file x ≡ bytes_after (s.handles i) req s.file.size (bytes_of s.file) x)
      → (s'.handles i).offset ≡ offset_after (s.handles i) req
      → Specified env i req s s' (done (value_of req))
  fails :
      (e : ℤ)
      → Excused env s.file (s.handles i) req
      → s'.file.size ≡ s.file.size
      → ((x : ℕ) → bytes_of s'.file x ≡ bytes_of s.file x)
      → (s'.handles i).offset ≡ (s.handles i).offset
      → Specified env i req s s' (fail e)

pub data Stepped (env : Environment) (calls i : ℕ) (req : Request) (s : Shared)
    : Run (Answer × Shared) → Type 0 where
  stepped :
      (a : Answer) (s' : Shared)
      → IsShared (calls + 1) s'
      → Specified env i req s s' a
      → Stepped env calls i req s (ok (a, s'))
  broken : Crashes env s.file → Stepped env calls i req s (fault null_pointer)

pub IsShared-later : (calls : ℕ) (s : Shared) → IsShared calls s → IsShared (calls + 1) s
IsShared-later calls s h = record {
  file = h.file;
  size = omega (arith, h.size);
  count = omega (arith, h.count);
  fresh = h.fresh;
  offset = λ i. omega (arith, h.offset i);
}
