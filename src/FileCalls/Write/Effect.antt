-- ===== src/FileCalls/Write/Effect.antt =====
-- What a write does to a file (write.c, pmemfile_pwritev_internal).
use pmemfile.Prelude.{
  ℕ, ◌+◌, ◌^◌, ◌≤◌, ◌<◌, ◌≡◌, ◌∙◌, refl, sym, true, false, Option, List, [], ◌∷◌, ltb, ◌==◌,
  if◌then◌else◌, arith,
}
use pmemfile.Run.{Run, ok, fault, assertion, ◌>>=◌}
use pmemfile.FileData.{BlockDesc}
use pmemfile.FileData.Content.{covered, starts_at}
use pmemfile.FileData.Copy.Writing.{overwritten}
use pmemfile.FileCalls.{Time, Vinode, Iov, Environment, Answer, done}
use pmemfile.FileCalls.Contents.{IsFile, bytes_of, Finds, gathered, lengths}
use pmemfile.FileCalls.Hints.{Known}
use pmemfile.FileCalls.Write.{len_to_add, sum_lens, update_inode, write_data}
use pmemfile.FileCalls.Write.Piece.{Rewritten}
use pmemfile.FileCalls.Write.Loop.{LoopWrites, loop_writes, HasBases, write_loop-LoopWrites}

-- The file after the bytes of the buffers have been written.
pub record Wrote (offset : ℕ) (iov : List Iov) (v v' : Vinode) : Type 0 where
  pub file : IsFile v'
  pub bytes :
      (x : ℕ) → bytes_of v' x ≡ overwritten offset (lengths iov) (gathered iov) 0 (bytes_of v) x
  pub size : v'.size ≡ (if ltb v.size (offset + lengths iov) then offset + lengths iov else v.size)
  pub kind : v'.kind ≡ v.kind
  pub counter : v'.block_pointer_invalidation_counter ≡ v.block_pointer_invalidation_counter
  pub starts : (k : ℕ) → starts_at k v.blocks ≡ true → starts_at k v'.blocks ≡ true

pub data DataWrites (offset : ℕ) (iov : List Iov) (v : Vinode)
    : Run (Answer × Vinode × Option ℕ) → Type 0 where
  data_writes :
      (v' : Vinode) (last : Option ℕ)
      → Wrote offset iov v v'
      → Known last v'.blocks
      → DataWrites offset iov v (ok (done (lengths iov), v', last))

len_to_add_lem : (offset sum n : ℕ) → offset + (sum + n) ≤ 2 ^ 62 → len_to_add offset sum n ≡ n
unfolding len_to_add
len_to_add_lem offset sum n u = ground arith

pub sum_lens_lem :
    (offset sum : ℕ) (iov : List Iov)
    → offset + (sum + lengths iov) ≤ 2 ^ 62
    → sum_lens offset sum iov ≡ sum + lengths iov
unfolding sum_lens lengths
sum_lens_lem offset sum [] u = omega arith
sum_lens_lem offset sum (e ∷ iov) u =
    let n = e.iov_len in
    let whole : (n == n) ≡ true = ground arith in
    rw
      (
        len_to_add_lem offset sum n (omega arith),
        whole,
        sum_lens_lem offset (sum + n) iov (omega arith),
      )
      (omega arith)

Wrote-update :
    (t0 t1 : Time) (offset : ℕ) (iov : List Iov) (v : Vinode) (bs : List BlockDesc)
    (last : Option ℕ)
    → IsFile v
    → Rewritten offset (lengths iov) (gathered iov) v.blocks bs last
    → Wrote offset iov v
        (update_inode t0 t1 (offset + lengths iov) (record v { mtime = t0; blocks = bs }))
unfolding update_inode
Wrote-update t0 t1 offset iov v bs last f r = record {
  file = record {
    paged = r.paged;
    counted = f.counted ∙ sym r.places.totals;
    beyond = λ x l. r.bytes x ∙ ground (arith, f.beyond x);
  };
  bytes = r.bytes;
  size = refl;
  kind = refl;
  counter = refl;
  starts = λ k h. r.places.starts k ∙ h;
}

pub write_data-DataWrites :
    (env : Environment) (offset : ℕ) (last : Option ℕ) (iov : List Iov) (v : Vinode)
    → Finds env
    → IsFile v
    → Known last v.blocks
    → HasBases iov
    → 0 < lengths iov
    → offset + lengths iov ≤ 2 ^ 62
    → ((x : ℕ) → offset ≤ x → x < offset + lengths iov → covered v.blocks x ≡ true)
    → DataWrites offset iov v (write_data env offset last iov v)
unfolding write_data
write_data-DataWrites env offset last iov v f h k b pos u c = from_loop _ (
    write_loop-LoopWrites env offset 0 last iov (record v { mtime = env.clock 0 }) f h.paged k b u
      (omega arith) c)
  where
    from_loop :
        (m : Run (ℕ × Vinode × Option ℕ))
        → LoopWrites offset
            (lengths iov)
            (0 + lengths iov)
            (gathered iov)
            (record v { mtime = env.clock 0 })
            m
        → DataWrites offset iov v (
            m >>= λ r.
            if r.0 == 0
            then fault assertion
            else ok (done r.0, update_inode (env.clock 0) (env.clock 1) (offset + r.0) r.1, r.2))
    from_loop (ok _) (loop_writes bs last' r) =
        let z : 0 + lengths iov ≡ lengths iov = omega arith in
        let some : (lengths iov == 0) ≡ false = ground arith in
        rw (z, some)
          (data_writes _ last' (Wrote-update (env.clock 0) (env.clock 1) offset iov v bs last' h r)
            r.known)
    from_loop (fault _) w = elim w [ ]
