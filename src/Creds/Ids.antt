-- ===== src/Creds/Ids.antt =====
-- What the calls that change ids and groups do to them (creds.c).
use pmemfile.Prelude.{
  ℕ, ◌≡◌, Bool, some, List, length, arith, not, ◌&&◌, ◌||◌, ◌==◌, ltb, leb, if◌then◌else◌,
}
use pmemfile.Run.{ok, fault, freed_memory, ◌>>=◌}
use pmemfile.Errno.{done, fail, einval}
use pmemfile.Creds.{
  Cred, set_reuid, setreuid, setgroups, getgroups, getuid, geteuid, getgid, getegid,
}

-- An id that is not negative as an `int`, or the -1 for an id that is to stay.
abbrev pub is_settable : ℕ → Bool
is_settable id = leb id 2147483647 || id == 4294967295

-- setreuid refuses an id above 2 ^ 31 - 1 other than 2 ^ 32 - 1, which is -1, and then changes nothing.
-- Otherwise an id of -1 leaves its own alone, the filesystem id follows the effective one, and nothing else changes.
pub setreuid_ids :
    (c : Cred) (ruid euid : ℕ)
    → (c' : Cred) × (setreuid (some c) ruid euid ≡ (
        if is_settable ruid && is_settable euid then (done 0, some c') else (fail einval, some c)))
      × (getuid c' ≡ (if ruid == 4294967295 then getuid c else ruid))
      × (geteuid c' ≡ (if euid == 4294967295 then geteuid c else euid))
      × (c'.fsuid ≡ (if euid == 4294967295 then c.fsuid else euid))
      × (getgid c' ≡ getgid c)
      × (getegid c' ≡ getegid c)
      × (c'.fsgid ≡ c.fsgid)
      × (c'.groups ≡ c.groups)
      × (c'.caps ≡ c.caps)
unfolding setreuid
setreuid_ids c ruid euid = (
  set_reuid ruid euid c,
  ground arith,
  ground arith,
  ground arith,
  ground arith,
  ground arith,
  ground arith,
  ground arith,
  ground arith,
  ground arith,
)

-- The groups that setgroups stores come back from getgroups, if the caller's array holds them all;
-- a smaller array is EINVAL, and a failed reallocation leaves the old groups. But if the last group is taken away
-- and the reallocation returns NULL, the array in use has been freed.
pub getgroups-setgroups :
    (c : Cred) (list : List ℕ) (allocated : Bool) (size : ℕ)
    → (setgroups (some c) list allocated >>= λ r. ok ((getgroups r.1 (some size)).0)) ≡ (
        let same = length list == length c.groups in
        let now = (if allocated || same then list else c.groups) in
        if not allocated && not same && length list == 0
        then fault freed_memory
        else ok (if ltb size (length now) then fail einval else done now))
unfolding getgroups setgroups
getgroups-setgroups c list allocated size = ground arith
