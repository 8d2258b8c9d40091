-- ===== src/Base/Slices.antt =====
-- `take`, `drop` and `set` on lists.
use Prim.Native.Nat.{ℕ, zero, suc, ◌-◌, ◌<◌, ◌≤◌}
use mathlib.Core.Path.{◌≡◌, refl, ap}
use mathlib.Core.Logic.{◌⊎◌, inl, inr}
use mathlib.Core.List.{List, [], ◌∷◌, ◌++◌}
use mathlib.Core.Option.{some}
use native.Mathlib.Omega.{arith}
use capucho_os.Base.Lists.{length, get_elem?, set, take, drop}

module _ {ℓ} {A : Type ℓ} where
  pub length-drop : (n : ℕ) (xs : List A) → length (drop n xs) ≡ length xs - n
  length-drop zero xs = omega arith
  length-drop (suc n) [] = omega arith
  length-drop (suc n) (x ∷ xs) = omega (arith, length-drop n xs)

  pub drop-all : (n : ℕ) (xs : List A) → length xs ≤ n → drop n xs ≡ []
  drop-all zero [] h = refl
  drop-all zero (x ∷ xs) h = absurd (omega arith)
  drop-all (suc n) [] h = refl
  drop-all (suc n) (x ∷ xs) h = drop-all n xs (omega arith)

  pub take-append-drop : (n : ℕ) (xs : List A) → take n xs ++ drop n xs ≡ xs
  take-append-drop zero xs = refl
  take-append-drop (suc n) [] = refl
  take-append-drop (suc n) (x ∷ xs) = ap (◌∷◌ x) (take-append-drop n xs)

  pub take-all : (n : ℕ) (xs : List A) → length xs ≤ n → take n xs ≡ xs
  take-all zero [] h = refl
  take-all zero (x ∷ xs) h = absurd (omega arith)
  take-all (suc n) [] h = refl
  take-all (suc n) (x ∷ xs) h = ap (◌∷◌ x) (take-all n xs (omega arith))

  pub drop-drop : (n : ℕ) (xs : List A) → drop n (drop 1 xs) ≡ drop (suc n) xs
  drop-drop zero [] = refl
  drop-drop (suc n) [] = refl
  drop-drop zero (x ∷ xs) = refl
  drop-drop (suc n) (x ∷ xs) = refl

  pub drop-append : (n : ℕ) (xs ys : List A) → n ≤ length xs → drop n (xs ++ ys) ≡ drop n xs ++ ys
  drop-append zero xs ys h = refl
  drop-append (suc n) [] ys h = absurd (omega arith)
  drop-append (suc n) (x ∷ xs) ys h = drop-append n xs ys (omega arith)

  pub set-set : (xs : List A) (i : ℕ) (a b : A) → set (set xs i a) i b ≡ set xs i b
  set-set [] i a b = refl
  set-set (x ∷ xs) zero a b = refl
  set-set (x ∷ xs) (suc i) a b = ap (◌∷◌ x) (set-set xs i a b)

  -- A write at `n` moves the seam between two lists one place up, where it writes what the second
  -- list has there.
  pub take-set-drop :
      (n : ℕ) (xs ys : List A) (y : A)
      → n < length xs
      → get_elem? ys n ≡ some y
      → take (suc n) (set xs n y) ++ drop (suc n) ys ≡ take n xs ++ drop n ys
  take-set-drop n [] ys y h e = absurd (omega arith)
  take-set-drop zero (x ∷ xs) [] y h e = absurd (cc)
  take-set-drop zero (x ∷ xs) (z ∷ ys) y h e = cc
  take-set-drop (suc n) (x ∷ xs) [] y h e = absurd (cc)
  take-set-drop (suc n) (x ∷ xs) (z ∷ ys) y h e =
      ap (◌∷◌ x) (take-set-drop n xs ys y (omega arith) e)

  pub drop-set : (n i : ℕ) (xs : List A) (y : A) → i < n → drop n (set xs i y) ≡ drop n xs
  drop-set zero i xs y h = absurd (omega arith)
  drop-set (suc n) i [] y h = refl
  drop-set (suc n) zero (x ∷ xs) y h = refl
  drop-set (suc n) (suc i) (x ∷ xs) y h = drop-set n i xs y (omega arith)

  pub set-append :
      (xs : List A) (y z : A) (n : ℕ) → length xs ≡ n → set (xs ++ y ∷ []) n z ≡ xs ++ z ∷ []
  set-append [] y z zero h = refl
  set-append [] y z (suc n) h = absurd (omega arith)
  set-append (x ∷ xs) y z zero h = absurd (omega arith)
  set-append (x ∷ xs) y z (suc n) h = ap (◌∷◌ x) (set-append xs y z n (omega arith))

module _ {ℓ} {A : Type ℓ} where
  pub take-set-one :
      (n : ℕ) (xs : List A) (y : A) (zs : List A)
      → n < length xs
      → take (suc n) (set xs n y) ++ zs ≡ take n xs ++ y ∷ zs
  take-set-one n [] y zs h = absurd (omega arith)
  take-set-one zero (x ∷ xs) y zs h = refl
  take-set-one (suc n) (x ∷ xs) y zs h = ap (◌∷◌ x) (take-set-one n xs y zs (omega arith))

  pub drop-step :
      (n : ℕ) (xs : List A) (x : A) → get_elem? xs n ≡ some x → drop n xs ≡ x ∷ drop (suc n) xs
  drop-step n [] x h = absurd (cc)
  drop-step zero (y ∷ xs) x h = cc
  drop-step (suc n) (y ∷ xs) x h = drop-step n xs x h

  pub get_elem?-last :
      (xs : List A) (y : A) (n : ℕ) → length xs ≡ n → get_elem? (xs ++ y ∷ []) n ≡ some y
  get_elem?-last [] y zero h = refl
  get_elem?-last [] y (suc n) h = absurd (omega arith)
  get_elem?-last (x ∷ xs) y zero h = absurd (omega arith)
  get_elem?-last (x ∷ xs) y (suc n) h = get_elem?-last xs y n (omega arith)

  pub some_elem : (xs : List A) (i : ℕ) → i < length xs → (a : A) × (get_elem? xs i ≡ some a)
  some_elem [] i h = absurd (omega arith)
  some_elem (x ∷ xs) zero h = (x, refl)
  some_elem (x ∷ xs) (suc i) h = some_elem xs i (omega arith)

  pub get_elem?-snoc :
      (xs : List A) (y : A) (i : ℕ) (x : A)
      → get_elem? (xs ++ y ∷ []) i ≡ some x
      → (get_elem? xs i ≡ some x) ⊎ (y ≡ x)
  get_elem?-snoc [] y zero x h = inr (cc)
  get_elem?-snoc [] y (suc i) x h = absurd (cc)
  get_elem?-snoc (z ∷ xs) y zero x h = inl h
  get_elem?-snoc (z ∷ xs) y (suc i) x h = get_elem?-snoc xs y i x h

  pub get_elem?-drop_one : (xs : List A) (i : ℕ) → get_elem? (drop 1 xs) i ≡ get_elem? xs (suc i)
  get_elem?-drop_one [] i = refl
  get_elem?-drop_one (x ∷ xs) i = refl
