-- ===== src/Creds/Access.antt =====
-- The access check (creds.c, can_access) against the rule of POSIX for permission bits.
use pmemfile.Prelude.{
  ℕ, ◌+◌, ◌*◌, ◌/◌, ◌%◌, ◌<◌, ◌≡◌, ◌∙◌, refl, Bool, true, false, ◌&&◌, ◌||◌, zero, suc, Bool-cases,
  inl, inr, Option, none, some, arith, ◌==◌, if◌then◌else◌, not, bit_and, test_bit, every_below,
  every_below_lem,
}
use pmemfile.Creds.{
  Cred, InodePerms, want_read, want_write, want_execute, cap_fowner, use_faccess, use_eaccess,
  use_raccess, require_all, required, gid_in_list, caller, can_access,
}

-- Each wanted permission is granted by the class whose bits begin at `shift`.
abbrev pub grants : ℕ → ℕ → Bool → Bool → Bool → Bool
grants mode shift r w x =
    (not r || test_bit mode (shift + 2))
    && ((not w || test_bit mode (shift + 1)) && (not x || test_bit mode shift))

-- The class of the file that a caller is in: 6 owner, 3 group, 0 others.
abbrev pub class_shift : Cred → InodePerms → ℕ → ℕ → ℕ
class_shift c perms uid gid =
    if perms.uid == uid
    then 6
    else if perms.gid == gid || gid_in_list c.groups perms.gid
    then 3
    else 0

abbrev agree : Bool → Bool → Bool
agree true b = b
agree false b = not b

abbrev table_row : (r w x : Bool) → ℕ → Bool
table_row r w x p =
    agree (let req = require_all r w x 0o400 0o200 0o100 in bit_and p req == req) (grants p 6 r w x)
    && (agree (let req = require_all r w x 0o40 0o20 0o10 in bit_and p req == req)
          (grants p 3 r w x)
        && agree (let req = require_all r w x 4 2 1 in bit_and p req == req) (grants p 0 r w x))

table : (r w x : Bool) → every_below (table_row r w x) 512 ≡ true
unfolding every_below
table true true true = refl
table true true false = refl
table true false true = refl
table true false false = refl
table false true true = refl
table false true false = refl
table false false true = refl
table false false false = refl

agree-eq : (a b : Bool) → agree a b ≡ true → a ≡ b
agree-eq a b h = ground arith

and_left : (a b : Bool) → (a && b) ≡ true → a ≡ true
and_left a b h = ground arith

and_right : (a b : Bool) → (a && b) ≡ true → b ≡ true
and_right a b h = ground arith

-- One class: the mask test of the code is the test of each wanted bit.
module _ (r w x : Bool) (p : ℕ) (h : p < 512) where
  row : table_row r w x p ≡ true
  row = every_below_lem (table_row r w x) h (table r w x)

  mask_owner :
      (let req = require_all r w x 0o400 0o200 0o100 in bit_and p req == req) ≡ grants p 6 r w x
  mask_owner = agree-eq _ _ (and_left _ _ row)

  mask_group :
      (let req = require_all r w x 0o40 0o20 0o10 in bit_and p req == req) ≡ grants p 3 r w x
  mask_group = agree-eq _ _ (and_left _ _ (and_right _ _ row))

  mask_other : (let req = require_all r w x 4 2 1 in bit_and p req == req) ≡ grants p 0 r w x
  mask_other = agree-eq _ _ (and_right _ _ (and_right _ _ row))

-- Masking a mode by 0777 keeps its nine permission bits.
grants_low :
    (f : ℕ) (r w x : Bool)
    → (grants (f % 512) 6 r w x ≡ grants f 6 r w x)
      × (grants (f % 512) 3 r w x ≡ grants f 3 r w x)
      × (grants (f % 512) 0 r w x ≡ grants f 0 r w x)
grants_low f r w x = (ground arith, ground arith, ground arith)

-- The user and group id that an access type stands for.
abbrev pub ids_of : ℕ → Cred → Option (ℕ × ℕ)
ids_of zero c = some (c.fsuid, c.fsgid)
ids_of (suc zero) c = some (c.euid, c.egid)
ids_of (suc (suc zero)) c = some (c.ruid, c.rgid)
ids_of _ c = none

caller-eq :
    (c : Cred) (n : ℕ)
    → (if n * 8 == use_faccess
        then some (c.fsuid, c.fsgid)
        else if n * 8 == use_eaccess
        then some (c.euid, c.egid)
        else if n * 8 == use_raccess
        then some (c.ruid, c.rgid)
        else none)
      ≡ ids_of n c
caller-eq c zero = refl
caller-eq c (suc zero) = refl
caller-eq c (suc (suc zero)) = refl
caller-eq c (suc (suc (suc n))) = ground arith

required-grants :
    (c : Cred) (perms : InodePerms) (uid gid acc : ℕ)
    → (let req = required c perms uid gid acc in bit_and (perms.flags % 512) req == req)
      ≡ grants perms.flags
          (class_shift c perms uid gid)
          (want_read acc)
          (want_write acc)
          (want_execute acc)
unfolding required
required-grants c perms uid gid acc =
    let r = want_read acc in
    let w = want_write acc in
    let x = want_execute acc in
    let p = perms.flags % 512 in
    let low : p < 512 = omega arith in
    let kept = grants_low perms.flags r w x in
    elim (Bool-cases (perms.uid == uid)) [
      | inl own ↦ rw own (mask_owner r w x p low ∙ kept.0)
      | inr e ↦ elim (Bool-cases (perms.gid == gid || gid_in_list c.groups perms.gid)) [
        | inl grp ↦ rw (e, grp) (mask_group r w x p low ∙ kept.1)
        | inr f ↦ rw (e, f) (mask_other r w x p low ∙ kept.2)
      ]
    ]

-- What the permission bits allow a caller known by these ids; an unknown access type has none.
pub allows : Cred → InodePerms → ℕ → Option (ℕ × ℕ) → Bool
allows c perms acc none = false
allows c perms acc (some (uid, gid)) =
    grants perms.flags (class_shift c perms uid gid) (want_read acc) (want_write acc)
      (want_execute acc)

check-allows :
    (c : Cred) (perms : InodePerms) (acc : ℕ) (o : Option (ℕ × ℕ))
    → elim o [
      | none ↦ false
      | some (uid, gid) ↦
          let req = required c perms uid gid acc in bit_and (perms.flags % 512) req == req
    ]
      ≡ allows c perms acc o
unfolding allows
check-allows c perms acc none = refl
check-allows c perms acc (some (uid, gid)) = required-grants c perms uid gid acc

-- can_access grants exactly what POSIX does: everything to CAP_FOWNER; nothing to an unknown access
-- type; else each wanted permission must be in the class of the caller, which is the owner's if the
-- owner matches, else the group's if a group id matches, else that of others, and no other class helps.
pub can_access_exact :
    (c : Cred) (perms : InodePerms) (acc : ℕ)
    → can_access c perms acc
      ≡ (test_bit c.caps cap_fowner || allows c perms acc (ids_of (acc / 8 % 4) c))
unfolding can_access
can_access_exact c perms acc =
    rw (← caller-eq c (acc / 8 % 4), ← check-allows c perms acc (caller c acc))
      (elim (Bool-cases (test_bit c.caps cap_fowner)) [ inl e ↦ rw e | inr e ↦ rw e ])
