-- ===== src/Base/Dict.antt =====
-- A map with numbers as keys: `BTreeMap<u64, V>` as far as it is read and written by key.
use Prim.Native.Nat.{ℕ}
use mathlib.Core.Path.{◌≡◌, refl}
use mathlib.Core.Logic.{◌≢◌}
use mathlib.Core.List.{List, [], ◌∷◌}
use mathlib.Core.Option.{Option, none, some}
use native.Mathlib.Omega.{arith}
use capucho_os.Base.Tests.{◌==◌, if◌then◌else◌}

abbrev pub Dict : Type 0 → Type 0
Dict V = List (ℕ × V)

module _ {V : Type 0} where
  abbrev pub get : Dict V → ℕ → Option V
  get [] key = none
  get ((k, v) ∷ rest) key = if k == key then some v else get rest key

  abbrev pub put : Dict V → ℕ → V → Dict V
  put [] key v = (key, v) ∷ []
  put ((k, w) ∷ rest) key v = if k == key then (k, v) ∷ rest else (k, w) ∷ put rest key v

  abbrev pub remove : Dict V → ℕ → Dict V
  remove [] key = []
  remove ((k, w) ∷ rest) key = if k == key then rest else (k, w) ∷ remove rest key

  -- No key stands twice.
  abbrev pub HasKeysOnce : Dict V → Type 0
  HasKeysOnce [] = Unit
  HasKeysOnce ((k, v) ∷ rest) = (get rest k ≡ none) × HasKeysOnce rest

  pub get-put :
      (d : Dict V) (key j : ℕ) (v : V)
      → get (put d key v) j ≡ (if key == j then some v else get d j)
  get-put [] key j v = refl
  get-put ((k, w) ∷ rest) key j v = ground (arith, get-put rest key j v)

  pub get-remove_ne : (d : Dict V) (key j : ℕ) → key ≢ j → get (remove d key) j ≡ get d j
  get-remove_ne [] key j ne = refl
  get-remove_ne ((k, w) ∷ rest) key j ne = ground (arith, get-remove_ne rest key j ne)

  pub get-remove_self : (d : Dict V) (key : ℕ) → HasKeysOnce d → get (remove d key) key ≡ none
  get-remove_self [] key h = refl
  get-remove_self ((k, w) ∷ rest) key h = ground (arith, get-remove_self rest key h.1)

  pub put-HasKeysOnce : (d : Dict V) (key : ℕ) (v : V) → HasKeysOnce d → HasKeysOnce (put d key v)
  put-HasKeysOnce [] key v h = (refl, tt)
  put-HasKeysOnce ((k, w) ∷ rest) key v h =
      ground (arith, put-HasKeysOnce rest key v h.1, get-put rest key k v)

  pub remove-HasKeysOnce : (d : Dict V) (key : ℕ) → HasKeysOnce d → HasKeysOnce (remove d key)
  remove-HasKeysOnce [] key h = tt
  remove-HasKeysOnce ((k, w) ∷ rest) key h =
      ground (arith, remove-HasKeysOnce rest key h.1, get-remove_ne rest key k)
