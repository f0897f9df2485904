-- ===== src/Creds/Tests.antt =====
-- Runs of the credential calls, and the theorems about them at these inputs (creds.c).
use pmemfile.Prelude.{
  ℕ, ◌≡◌, refl, true, false, ◌&&◌, ◌||◌, ◌⊎◌, not, none, some, [], ◌∷◌, length, ltb, ◌==◌,
  if◌then◌else◌, test_bit,
}
use pmemfile.Run.{ok, fault, freed_memory, ◌>>=◌}
use pmemfile.Errno.{efault, einval, done, fail}
use pmemfile.Creds.{
  Cred, InodePerms, no_id, setreuid, setfsuid, setgroups, getgroups, setcap, clrcap, getuid,
  geteuid, getgid, getegid, required, gid_in_list, cap_fowner, can_access,
}
use pmemfile.Creds.Ids.{is_settable, setreuid_ids, getgroups-setgroups}
use pmemfile.Creds.Caps.{is_supported, Updates, stores, caps_exact}
use pmemfile.Creds.Access.{allows, ids_of, can_access_exact}

abbrev alice : Cred
alice = record {
  ruid = 1000;
  rgid = 100;
  euid = 1000;
  egid = 100;
  fsuid = 1000;
  fsgid = 100;
  groups = 100 ∷ 27 ∷ [];
  caps = 0;
}

abbrev shared : InodePerms
shared = record { flags = 0o100640; uid = 7; gid = 27 }

-- A file of group 27 with mode 0640 can be read through a supplementary group, and not written.
reads_by_group : can_access alice shared 1 ≡ true
unfolding can_access required gid_in_list
reads_by_group = refl

writes_not : can_access alice shared 2 ≡ false
unfolding can_access required gid_in_list
writes_not = refl

null_pool : setreuid none 1 1 ≡ (fail efault, none)
unfolding setreuid
null_pool = refl

too_large : setfsuid (some alice) 0x8000_0000 ≡ (fail einval, some alice)
unfolding setfsuid
too_large = refl

setreuid_ids_example :
    (c' : Cred) × (setreuid (some alice) no_id 0 ≡ (
      if is_settable no_id && is_settable 0 then (done 0, some c') else (fail einval, some alice)))
    × (getuid c' ≡ (if no_id == 4294967295 then getuid alice else no_id))
    × (geteuid c' ≡ (if 0 == 4294967295 then geteuid alice else 0))
    × (c'.fsuid ≡ (if 0 == 4294967295 then alice.fsuid else 0))
    × (getgid c' ≡ getgid alice)
    × (getegid c' ≡ getegid alice)
    × (c'.fsgid ≡ alice.fsgid)
    × (c'.groups ≡ alice.groups)
    × (c'.caps ≡ alice.caps)
setreuid_ids_example = setreuid_ids alice no_id 0

getgroups-setgroups_example :
    (setgroups (some alice) (5 ∷ []) true >>= λ r. ok ((getgroups r.1 (some 8)).0)) ≡ (
      let same = (1 == 2) in
      let now = (if true || same then 5 ∷ [] else alice.groups) in
      if not true && not same && 1 == 0
      then fault freed_memory
      else ok (if ltb 8 (length now) then fail einval else done now))
getgroups-setgroups_example = getgroups-setgroups alice (5 ∷ []) true 8

caps_exact_example :
    ((is_supported 3 ≡ true)
      × (on off : ℕ) × (setcap (some alice) 3 ≡ stores alice on)
      × (clrcap (some alice) 3 ≡ stores alice off)
      × Updates alice.caps 3 true on
      × Updates alice.caps 3 false off)
    ⊎ ((is_supported 3 ≡ false)
        × (setcap (some alice) 3 ≡ (fail einval, some alice))
        × (clrcap (some alice) 3 ≡ (fail einval, some alice)))
caps_exact_example = caps_exact alice 3

can_access_exact_example :
    can_access alice shared 1
    ≡ (test_bit alice.caps cap_fowner || allows alice shared 1 (ids_of 0 alice))
can_access_exact_example = can_access_exact alice shared 1
