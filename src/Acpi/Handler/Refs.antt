-- ===== src/Acpi/Handler/Refs.antt =====
-- The table of the mapped regions with their counts, `mapping_refs` of `Handler` in src/acpi.rs.
use capucho_os.Base.{
  ℕ, ◌≡◌, ◌≤◌, ◌⊎◌, inl, inr, Option, none, some, ◌==◌, if◌then◌else◌, arith, Bool-cases,
}
use capucho_os.Base.Dict.{
  Dict, get, put, remove, HasKeysOnce, get-put, get-remove_ne, get-remove_self, put-HasKeysOnce,
  remove-HasKeysOnce,
}
use capucho_os.Memory.Paging.{UnmapGuard}

abbrev pub count : Option (ℕ × UnmapGuard) → ℕ
count none = 0
count (some (rc, guard)) = rc

-- Every key stands once, with a count of at least 1.
pub record IsCounted (refs : Dict (ℕ × UnmapGuard)) : Type 0 where
  pub once : HasKeysOnce refs
  pub positive : (key : ℕ) → (get refs key ≡ none) ⊎ (1 ≤ count (get refs key))

pub count-put :
    (refs : Dict (ℕ × UnmapGuard)) (key j rc : ℕ) (guard : UnmapGuard)
    → count (get (put refs key (rc, guard)) j) ≡ (if key == j then rc else count (get refs j))
count-put refs key j rc guard = elim (Bool-cases (key == j)) [
  | inl e ↦ rw (get-put refs key j (rc, guard), e)
  | inr e ↦ rw (get-put refs key j (rc, guard), e)
]

pub put-IsCounted :
    (refs : Dict (ℕ × UnmapGuard)) (key rc : ℕ) (guard : UnmapGuard)
    → 1 ≤ rc
    → IsCounted refs
    → IsCounted (put refs key (rc, guard))
put-IsCounted refs key rc guard p h = record {
  once = put-HasKeysOnce refs key (rc, guard) h.once;
  positive = λ j. elim (Bool-cases (key == j)) [
    | inl same ↦ inr (rw (count-put refs key j rc guard, same) p)
    | inr other ↦ rw (get-put refs key j (rc, guard), other) (h.positive j)
  ];
}

pub get-remove :
    (refs : Dict (ℕ × UnmapGuard)) (key j : ℕ)
    → IsCounted refs
    → get (remove refs key) j ≡ (if key == j then none else get refs j)
get-remove refs key j h = elim (Bool-cases (key == j)) [
  | inl same ↦ let eq : key ≡ j = ground arith in rw (same, ← eq) (get-remove_self refs key h.once)
  | inr other ↦ rw other (get-remove_ne refs key j (ground arith))
]

pub count-remove :
    (refs : Dict (ℕ × UnmapGuard)) (key j : ℕ)
    → IsCounted refs
    → count (get (remove refs key) j) ≡ (if key == j then 0 else count (get refs j))
count-remove refs key j h = elim (Bool-cases (key == j)) [
  | inl e ↦ rw (get-remove refs key j h, e)
  | inr e ↦ rw (get-remove refs key j h, e)
]

pub remove-IsCounted :
    (refs : Dict (ℕ × UnmapGuard)) (key : ℕ) → IsCounted refs → IsCounted (remove refs key)
remove-IsCounted refs key h = record {
  once = remove-HasKeysOnce refs key h.once;
  positive = λ j. elim (Bool-cases (key == j)) [
    | inl same ↦ inl (rw (get-remove refs key j h, same))
    | inr other ↦ rw (get-remove refs key j h, other) (h.positive j)
  ];
}
