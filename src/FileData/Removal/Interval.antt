-- ===== src/FileData/Removal/Interval.antt =====
-- What vinode_remove_interval leaves of a file (data.c).
use pmemfile.Prelude.{
  ℕ, suc, ◌+◌, ◌-◌, ◌^◌, ◌≤◌, ◌<◌, ◌≡◌, refl, false, Option, none, some, List, [], ◌∷◌, ltb, leb,
  ◌==◌, arith, Bool-cases, inl, inr,
}
use pmemfile.Run.{ok, fault, null_pointer, ◌>>=◌}
use pmemfile.FileData.{Attempt, stopped, null_followed, BlockDesc, end_of}
use pmemfile.FileData.Allocate.{Filled}
use pmemfile.FileData.Content.{IsPaged, content, total, content_below}
use pmemfile.FileData.Allocate.Interval.{closest_at, one_on, none_later}
use pmemfile.FileData.Removal.{put_behind, rev_onto, remove_at, vinode_remove_interval}
use pmemfile.FileData.Removal.Zeros.{
  IsBack, IsBack-higher, punched, Left, Leaving, leaving, not_moved, null_moved,
  remove_back-Leaving, rev_onto-IsPaged, rev_onto-content, rev_onto-total,
}

-- What the call returns of the blocks of a file.
pub record Removes (offset len : ℕ) (bs : List BlockDesc) (r : List BlockDesc × ℕ) : Type 0 where
  pub paged : IsPaged 0 r.0
  pub bytes : (x : ℕ) → content r.0 x ≡ punched offset len (content bs) x
  pub counted : total r.0 + r.1 ≡ total bs

-- How it ends: with such blocks; or in an aborted transaction where a description that was moved could not
-- be put into the tree again; or there NULL is followed.
pub data Removing (relocated : ℕ → Attempt) (offset len : ℕ) (bs : List BlockDesc)
    : Filled → Type 0 where
  removing :
      (r : List BlockDesc × ℕ)
      → Removes offset len bs r
      → Removing relocated offset len bs (ok (some r))
  not_relocated : (j : ℕ) → relocated j ≡ stopped → Removing relocated offset len bs (ok none)
  null_relocated :
      (j : ℕ) → relocated j ≡ null_followed → Removing relocated offset len bs (fault null_pointer)

bytes_before :
    (lo o x : ℕ) (bs : List BlockDesc)
    → IsPaged lo bs
    → closest_at o bs ≡ none
    → x ≤ o
    → content bs x ≡ 0
unfolding IsPaged content
bytes_before lo o x [] p e l = refl
bytes_before lo o x (b ∷ bs) (s, z, a, w, t, h) e l =
    let q = none_later o b bs e in
    content_below b.block.offset x (b ∷ bs) (omega arith, z, a, w, t, h) (omega arith)

-- From the block that the look-up finds.
Left-Removes :
    (offset len hi : ℕ) (front bs : List BlockDesc) (r : List BlockDesc × ℕ)
    → IsBack hi front
    → IsPaged hi bs
    → closest_at (offset + len - 1) bs ≡ none
    → Left offset len hi front r
    → Removes offset len (rev_onto front bs) (rev_onto r.0 bs, r.1)
Left-Removes offset len hi front bs r h p e l = record {
  paged = rev_onto-IsPaged hi r.0 bs l.back p;
  bytes = λ x.
      rw (rev_onto-content hi x r.0 bs l.back p, rev_onto-content hi x front bs h p)
        (elim (Bool-cases (ltb x hi)) [
          | inl c ↦ rw c (l.bytes x)
          | inr c ↦ rw c (ground (arith, bytes_before hi (offset + len - 1) x bs p e))
        ]);
  counted = omega (arith, l.counted, rev_onto-total r.0 bs, rev_onto-total front bs);
}

Leaving-Removing :
    (relocated : ℕ → Attempt) (offset len hi : ℕ) (front bs : List BlockDesc) (m : Filled)
    → IsBack hi front
    → IsPaged hi bs
    → closest_at (offset + len - 1) bs ≡ none
    → Leaving relocated offset len hi front m
    → Removing relocated offset len (rev_onto front bs) (m >>= λ r. ok (put_behind bs r))
unfolding put_behind
Leaving-Removing relocated offset len hi front bs (ok _) h p e (leaving r l) =
    removing _ (Left-Removes offset len hi front bs r h p e l)
Leaving-Removing relocated offset len hi front bs (ok _) h p e (not_moved j a) = not_relocated j a
Leaving-Removing relocated offset len hi front bs (fault _) h p e (null_moved j a) =
    null_relocated j a

remove_at-Removing :
    (relocated : ℕ → Attempt) (offset len i hi : ℕ) (front bs : List BlockDesc)
    → 0 < len
    → IsBack hi front
    → IsPaged hi bs
    → closest_at (offset + len - 1) bs ≡ some i
    → Removing relocated offset len (rev_onto front bs) (remove_at relocated offset len i front bs)
unfolding remove_at rev_onto closest_at IsPaged IsBack
remove_at-Removing relocated offset len i hi front [] pos h p e = absurd (cc)
remove_at-Removing relocated offset len i hi front (b ∷ bs) pos h (s, z, o, w, t, p) e =
    let low = IsBack-higher hi b.block.offset front s h in
    elim (Bool-cases (leb b.block.offset (offset + len - 1))) [
      | inr c ↦ let t = rw c at e in absurd (cc)
      | inl c ↦
          from_rest (closest_at (offset + len - 1) bs) refl (rw c at e) (ground arith)
            (omega arith, z, o, w, t, low)
            (λ j q.
              remove_at-Removing relocated offset len j (end_of b) (b ∷ front) bs pos
                (omega arith, z, o, w, t, low) p q)
    ]
  where
    from_rest :
        (r : Option ℕ)
        → closest_at (offset + len - 1) bs ≡ r
        → one_on r ≡ some i
        → b.block.offset ≤ offset + len - 1
        → IsBack (end_of b) (b ∷ front)
        → ((j : ℕ)
            → closest_at (offset + len - 1) bs ≡ some j
            → Removing relocated offset len
                (rev_onto (b ∷ front) bs)
                (remove_at relocated offset len j (b ∷ front) bs))
        → Removing relocated offset len
            (rev_onto front (b ∷ bs))
            (remove_at relocated offset len i front (b ∷ bs))
    from_rest none q u l back f =
        let k : i ≡ 0 = cc in
        rw k (
          Leaving-Removing relocated offset len (end_of b) (b ∷ front) bs _ back p q
            (remove_back-Leaving relocated offset len (end_of b) 0 (b ∷ front) back (omega arith)))
    from_rest (some j) q u l back f = let k : i ≡ suc j = cc in rw k (f j q)

pub vinode_remove_interval-Removing :
    (relocated : ℕ → Attempt) (find_closest_block : ℕ → Option ℕ) (offset len : ℕ)
    (bs : List BlockDesc)
    → IsPaged 0 bs
    → ((o : ℕ) → find_closest_block o ≡ closest_at o bs)
    → 0 < len
    → offset + len ≤ 2 ^ 64
    → Removing relocated offset len bs
        (vinode_remove_interval relocated find_closest_block offset len bs)
unfolding vinode_remove_interval IsBack rev_onto
vinode_remove_interval-Removing relocated find offset len bs p finds pos fits =
    let some_len : (len == 0) ≡ false = ground arith in
    rw (some_len, finds (offset + len - 1)) (from_found (closest_at (offset + len - 1) bs) refl)
  where
    from_found :
        (r : Option ℕ)
        → closest_at (offset + len - 1) bs ≡ r
        → Removing relocated offset len bs
            (elim r [ none ↦ ok (some (bs, 0)) | some i ↦ remove_at relocated offset len i [] bs ])
    from_found none e = removing _ (record {
      paged = p;
      bytes = λ x. ground (arith, bytes_before 0 (offset + len - 1) x bs p e);
      counted = omega arith;
    })
    from_found (some i) e = remove_at-Removing relocated offset len i 0 [] bs pos tt p e
