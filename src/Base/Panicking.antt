-- ===== src/Base/Panicking.antt =====
-- Rust code that may panic: a run returns a value or panics. The development profile of Cargo, which
-- is what the kernel is built and tested with by default, checks for overflow.
use Prim.Native.String.{String}
use mathlib.Core.Path.{◌≡◌, refl}
use mathlib.Core.Bool.{Bool, true, false}
use mathlib.Core.Option.{Option, none, some}

pub data Panic : Type 0 where
  index_out_of_bounds overflow unwrap_none unreachable_code : Panic
  message : String → Panic

pub data Run {ℓ} (A : Type ℓ) : Type ℓ where
  ret : A → Run A
  panics : Panic → Run A

infixl 5 ◌>>=◌ ◌>>◌
abbrev pub ◌>>=◌ {ℓ κ} : {A : Type ℓ} {B : Type κ} → Run A → (A → Run B) → Run B
ret a >>= f = f a
panics p >>= f = panics p

abbrev pub ◌>>◌ {ℓ} : {B : Type ℓ} → Run (Unit {0}) → Run B → Run B
m >> k = m >>= λ _. k

-- `Option::expect` and `Option::unwrap`.
abbrev pub or_panic {ℓ} : {A : Type ℓ} → Panic → Option A → Run A
or_panic p (some a) = ret a
or_panic p none = panics p

-- `assert!`.
abbrev pub check : Bool → Panic → Run (Unit {0})
check true p = ret tt
check false p = panics p

pub >>=-eq-ret {ℓ κ} :
    {A : Type ℓ} {B : Type κ} (m : Run A) (f : A → Run B) {b : B}
    → (m >>= f) ≡ ret b
    → (a : A) × (m ≡ ret a) × (f a ≡ ret b)
>>=-eq-ret (ret a) f h = (a, refl, h)
>>=-eq-ret (panics p) f h = cc

pub ret-injective {ℓ} : {A : Type ℓ} {a b : A} → ret a ≡ ret b → a ≡ b
ret-injective e = cc

pub panics-ne-ret {ℓ} : {A : Type ℓ} {p : Panic} {a : A} → panics p ≡ ret a → ⊥
panics-ne-ret e = cc
