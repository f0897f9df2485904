-- ===== src/Creds.antt =====
-- Credentials (src/libpmemfile-posix/creds.c): the ids, groups and capabilities of a pool, and the
-- access check. A NULL pool is `none`; the read-write lock makes each call one step.
-- A group array and its `groupsnum` are one list.
pub mod Ids
pub mod Caps
pub mod Access
mod Tests
use pmemfile.Prelude.{
  ℕ, ◌*◌, ◌/◌, ◌%◌, Bool, true, false, ◌&&◌, ◌||◌, Option, none, some, List, [], ◌∷◌, length, ltb,
  ◌==◌, if◌then◌else◌, not, bit_and, bit_or, test_bit, set_bit, clear_bit,
}
use pmemfile.Run.{Run, ok, fault, freed_memory}
use pmemfile.Errno.{efault, einval, enomem, Reply, done, fail}

pub record Cred : Type 0 where
  pub ruid : ℕ
  pub rgid : ℕ
  pub euid : ℕ
  pub egid : ℕ
  pub fsuid : ℕ
  pub fsgid : ℕ
  pub groups : List ℕ
  pub caps : ℕ

pub record InodePerms : Type 0 where
  pub flags : ℕ
  pub uid : ℕ
  pub gid : ℕ

-- (pmemfile_uid_t)-1
abbrev pub no_id : ℕ
no_id = 0xffff_ffff

abbrev pub int_max : ℕ
int_max = 0x7fff_ffff

-- The NULL test with which each entry point starts.
abbrev pub with_pool {ℓ} :
    {A : Type ℓ} → Option Cred → (Cred → Reply A × Cred) → Reply A × Option Cred
with_pool none f = (fail efault, none)
with_pool (some c) f = let (r, c') = f c in (r, some c')

-- `id != (pmemfile_uid_t)-1 && id > INT_MAX`
abbrev pub is_bad_id : ℕ → Bool
is_bad_id id = not (id == no_id) && ltb int_max id

abbrev pub set_reuid : ℕ → ℕ → Cred → Cred
set_reuid ruid euid c =
    let c' = (if ruid == no_id then c else record c { ruid = ruid }) in
    if euid == no_id then c' else record c' { euid = euid; fsuid = euid }

pub setreuid : Option Cred → ℕ → ℕ → Reply ℕ × Option Cred
setreuid p ruid euid = with_pool p λ c.
    if is_bad_id ruid
    then (fail einval, c)
    else if is_bad_id euid
    then (fail einval, c)
    else (done 0, set_reuid ruid euid c)

abbrev pub set_regid : ℕ → ℕ → Cred → Cred
set_regid rgid egid c =
    let c' = (if rgid == no_id then c else record c { rgid = rgid }) in
    if egid == no_id then c' else record c' { egid = egid; fsgid = egid }

pub setregid : Option Cred → ℕ → ℕ → Reply ℕ × Option Cred
setregid p rgid egid = with_pool p λ c.
    if is_bad_id rgid
    then (fail einval, c)
    else if is_bad_id egid
    then (fail einval, c)
    else (done 0, set_regid rgid egid c)

pub setuid : Option Cred → ℕ → Reply ℕ × Option Cred
unfolding setreuid
setuid p uid = setreuid p no_id uid

pub setgid : Option Cred → ℕ → Reply ℕ × Option Cred
unfolding setregid
setgid p gid = setregid p no_id gid

pub seteuid : Option Cred → ℕ → Reply ℕ × Option Cred
unfolding setreuid
seteuid p uid = setreuid p no_id uid

pub setegid : Option Cred → ℕ → Reply ℕ × Option Cred
unfolding setregid
setegid p gid = setregid p no_id gid

-- The getters do not test the pool.
abbrev pub getuid : Cred → ℕ
getuid c = c.ruid

abbrev pub getgid : Cred → ℕ
getgid c = c.rgid

abbrev pub geteuid : Cred → ℕ
geteuid c = c.euid

abbrev pub getegid : Cred → ℕ
getegid c = c.egid

-- The previous id is returned as an `int`, which holds it if it is at most INT_MAX.
pub setfsuid : Option Cred → ℕ → Reply ℕ × Option Cred
setfsuid p fsuid =
    with_pool p λ c.
      if ltb int_max fsuid then (fail einval, c) else (done c.fsuid, record c { fsuid = fsuid })

pub setfsgid : Option Cred → ℕ → Reply ℕ × Option Cred
setfsgid p fsgid =
    with_pool p λ c.
      if ltb int_max fsgid then (fail einval, c) else (done c.fsgid, record c { fsgid = fsgid })

-- The size is an `int`: `none` stands for a negative one. On success the list is what `memcpy`
-- wrote to the caller's array.
pub getgroups : Option Cred → Option ℕ → Reply (List ℕ) × Option Cred
getgroups p none = with_pool p λ c. (fail einval, c)
getgroups p (some size) =
    with_pool p λ c. if ltb size (length c.groups) then (fail einval, c) else (done c.groups, c)

-- `allocated` says whether `realloc`, if it is called, returned memory. For no group it may free the old
-- array and return NULL, and the pool keeps the pointer to that array: the model ends there.
pub setgroups : Option Cred → List ℕ → Bool → Run (Reply ℕ × Option Cred)
setgroups none list allocated = ok (fail efault, none)
setgroups (some c) list allocated =
    if length list == length c.groups || allocated
    then ok (done 0, some (record c { groups = list }))
    else if length list == 0
    then fault freed_memory
    else ok (fail enomem, some c)

abbrev pub cap_chown : ℕ
cap_chown = 0

abbrev pub cap_fowner : ℕ
cap_fowner = 3

abbrev pub cap_fsetid : ℕ
cap_fsetid = 4

-- The cases of the `switch`.
abbrev pub is_known_cap : ℕ → Bool
is_known_cap cap = cap == cap_chown || cap == cap_fowner || cap == cap_fsetid

pub setcap : Option Cred → ℕ → Reply ℕ × Option Cred
setcap p cap = with_pool p λ c.
    if is_known_cap cap then (done 0, record c { caps = set_bit c.caps cap }) else (fail einval, c)

pub clrcap : Option Cred → ℕ → Reply ℕ × Option Cred
clrcap p cap = with_pool p λ c.
    if is_known_cap cap
    then (done 0, record c { caps = clear_bit c.caps cap })
    else (fail einval, c)

-- A copy of the credentials, or `none` if a group array is needed and `malloc` fails.
pub cred_acquire : Cred → Bool → Option Cred
cred_acquire c allocated =
    if 0 == length c.groups then some c else if allocated then some c else none

pub gid_in_list : List ℕ → ℕ → Bool
gid_in_list [] gid = false
gid_in_list (g ∷ groups) gid = g == gid || gid_in_list groups gid

-- The low three bits of `acc` say what is wanted, the next two by which ids.
abbrev pub want_read : ℕ → Bool
want_read acc = test_bit acc 0

abbrev pub want_write : ℕ → Bool
want_write acc = test_bit acc 1

abbrev pub want_execute : ℕ → Bool
want_execute acc = test_bit acc 2

abbrev pub use_faccess : ℕ
use_faccess = 0

abbrev pub use_eaccess : ℕ
use_eaccess = 8

abbrev pub use_raccess : ℕ
use_raccess = 16

-- `acc & PFILE_ACCESS_MASK`
abbrev pub acctype : ℕ → ℕ
acctype acc = acc / 8 % 4 * 8

-- `if (wanted) req |= bit`
abbrev pub require : Bool → ℕ → ℕ → ℕ
require wanted bit req = if wanted then bit_or req bit else req

abbrev pub require_all : (read write execute : Bool) → (r w x : ℕ) → ℕ
require_all read write execute r w x = require execute x (require write w (require read r 0))

-- The permission bits that `acc` asks for, of the class that the file's ids put the caller in.
pub required : Cred → InodePerms → ℕ → ℕ → ℕ → ℕ
required c perms uid gid acc =
    let all = require_all (want_read acc) (want_write acc) (want_execute acc) in
    if perms.uid == uid
    then all 0o400 0o200 0o100
    else if perms.gid == gid || gid_in_list c.groups perms.gid
    then all 0o40 0o20 0o10
    else all 4 2 1

-- The ids that the check goes by, or `none` for an unknown access type.
abbrev pub caller : Cred → ℕ → Option (ℕ × ℕ)
caller c acc =
    if acctype acc == use_faccess
    then some (c.fsuid, c.fsgid)
    else if acctype acc == use_eaccess
    then some (c.euid, c.egid)
    else if acctype acc == use_raccess
    then some (c.ruid, c.rgid)
    else none

pub can_access : Cred → InodePerms → ℕ → Bool
can_access c perms acc = if test_bit c.caps cap_fowner then true else elim (caller c acc) [
  | none ↦ false
  | some (uid, gid) ↦
      let req = required c perms uid gid acc in bit_and (perms.flags % 512) req == req
]
