-- ===== src/Run.antt =====
-- Code that may leave what C defines, and what holds whenever it returns.
use pmemfile.Prelude.{◌≡◌, refl, Bool, true, false, if◌then◌else◌}
use mathlib.Core.Path.{subst}

-- What a piece of code does: it returns, or it leaves what C defines.
pub data Fault : Type 0 where
  -- an array is read or written outside its bounds
  out_of_bounds : Fault
  -- an `assert` does not hold
  assertion : Fault
  -- a NULL pointer is followed
  null_pointer : Fault
  -- a pointer to one thing is followed as if it were to another
  wild_pointer : Fault
  -- a size or an offset is not a multiple of the least block size
  unaligned : Fault
  -- memory that has been freed is kept in use
  freed_memory : Fault
  -- the fuel of a loop is used up
  fuel_spent : Fault

pub data Run {ℓ} (A : Type ℓ) : Type ℓ where
  ok : A → Run A
  fault : Fault → Run A

infixl 5 ◌>>=◌
abbrev pub ◌>>=◌ {ℓ κ} : {A : Type ℓ} {B : Type κ} → Run A → (A → Run B) → Run B
ok a >>= f = f a
fault e >>= f = fault e

-- Every value that the code returns has the property.
pub record Ensures {ℓ} {A : Type ℓ} (P : A → Type 0) (m : Run A) : Type ℓ where
  pub at : (a : A) → m ≡ ok a → P a

module _ {ℓ} {A : Type ℓ} {P : A → Type 0} where
  pub Ensures-ok : (a : A) → P a → Ensures P (ok a)
  Ensures-ok a h = record { at = λ b e. subst P (ok-injective e) h }
    where
      ok-injective : {b : A} → ok a ≡ ok b → a ≡ b
      ok-injective e = cc

  pub Ensures-fault : (f : Fault) → Ensures P (fault f)
  Ensures-fault f = record { at = λ a e. cc }

  pub Ensures-if :
      (b : Bool) (m n : Run A)
      → (b ≡ true → Ensures P m)
      → (b ≡ false → Ensures P n)
      → Ensures P (if b then m else n)
  Ensures-if true m n km kn = km refl
  Ensures-if false m n km kn = kn refl

module _ {ℓ κ} {A : Type ℓ} {B : Type κ} {P : B → Type 0} where
  pub Ensures-bind :
      (m : Run A) (f : A → Run B) → ((a : A) → m ≡ ok a → Ensures P (f a)) → Ensures P (m >>= f)
  Ensures-bind (ok a) f k = k a refl
  Ensures-bind (fault e) f k = record { at = λ a e. cc }
