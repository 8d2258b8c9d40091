-- ===== src/Acpi/Handler/History.antt =====
-- `Handler` of src/acpi.rs after any sequence of `map` and `unmap` from a new one.
use capucho_os.Base.{
  inr, ℕ, ◌+◌, ◌-◌, ◌≡◌, ◌≤◌, List, [], ◌∷◌, ret, ◌==◌, if◌then◌else◌, arith, inl, Bool-cases, refl,
  ◌∙◌,
}
use capucho_os.Memory.External.{Crates, Mapper}
use capucho_os.Memory.Paging.{PagingContext}
use capucho_os.Acpi.Handler.{Handler, new, map, unmap}
use capucho_os.Acpi.Handler.Counts.{refs_of, Recounts, Maps, Unmaps, map-Maps, unmap-Unmaps}
use capucho_os.Acpi.Handler.Refs.{IsCounted}

pub data Operation : Type 0 where
  mapped unmapped : ℕ → Operation

-- How often the frame was mapped, and unmapped.
abbrev pub maps : ℕ → List Operation → ℕ
maps j [] = 0
maps j (mapped k ∷ past) = (if k == j then 1 else 0) + maps j past
maps j (unmapped k ∷ past) = maps j past

abbrev pub unmaps : ℕ → List Operation → ℕ
unmaps j [] = 0
unmaps j (mapped k ∷ past) = unmaps j past
unmaps j (unmapped k ∷ past) = (if k == j then 1 else 0) + unmaps j past

module _ (crates : Crates) (mapper : Mapper) (first : PagingContext crates mapper) where
  -- The operations, the latest one first, that lead from a new handler to this one.
  pub data Reach : List Operation → Handler crates mapper → Type 0 where
    start : Reach [] (new crates mapper first)
    map_step :
        {past : List Operation} {h next : Handler crates mapper} (key : ℕ)
        → Reach past h
        → map crates mapper h key ≡ ret next
        → Reach (mapped key ∷ past) next
    unmap_step :
        {past : List Operation} {h next : Handler crates mapper} (key : ℕ)
        → Reach past h
        → unmap crates mapper h key ≡ ret next
        → Reach (unmapped key ∷ past) next

  -- The counts after the operations `past`.
  pub record Balanced (past : List Operation) (h : Handler crates mapper) : Type 0 where
    pub counted : IsCounted h.mapping_refs
    pub balance : (j : ℕ) → refs_of crates mapper h j + unmaps j past ≡ maps j past

  map_step-Balanced :
      {past : List Operation} (h next : Handler crates mapper) (key : ℕ)
      → Balanced past h
      → Recounts crates mapper h next key (refs_of crates mapper h key + 1)
      → Balanced (mapped key ∷ past) next
  map_step-Balanced {past} h next key b step = record {
    counted = step.counted;
    balance = λ j. elim (Bool-cases (key == j)) [
      | inl e ↦
          let eq : key ≡ j = ground arith in
          let up : refs_of crates mapper next j ≡ refs_of crates mapper h j + 1 =
            step.counts j ∙ rw (e, eq) in
          rw e (omega (arith, up, b.balance j))
      | inr e ↦
          let same : refs_of crates mapper next j ≡ refs_of crates mapper h j =
            step.counts j ∙ rw e in
          rw e (omega (arith, same, b.balance j))
    ];
  }

  unmap_step-Balanced :
      {past : List Operation} (h next : Handler crates mapper) (key : ℕ)
      → Balanced past h
      → 1 ≤ refs_of crates mapper h key
      → Recounts crates mapper h next key (refs_of crates mapper h key - 1)
      → Balanced (unmapped key ∷ past) next
  unmap_step-Balanced {past} h next key b pos step = record {
    counted = step.counted;
    balance = λ j. elim (Bool-cases (key == j)) [
      | inl e ↦
          let eq : key ≡ j = ground arith in
          let pos' : 1 ≤ refs_of crates mapper h j = rw (← eq) pos in
          let down : refs_of crates mapper next j ≡ refs_of crates mapper h j - 1 =
            step.counts j ∙ rw (e, eq) in
          rw e (omega (arith, pos', down, b.balance j))
      | inr e ↦
          let same : refs_of crates mapper next j ≡ refs_of crates mapper h j =
            step.counts j ∙ rw e in
          rw e (omega (arith, same, b.balance j))
    ];
  }

  Reach-Balanced :
      {past : List Operation} {h : Handler crates mapper} → Reach past h → Balanced past h
  Reach-Balanced start = record {
    counted = record { once = tt; positive = λ key. inl refl };
    balance = λ j. refl;
  }
  Reach-Balanced (map_step {h = h} {next = next} key r e) =
      let b = Reach-Balanced r in
      let out = rw e at (map-Maps crates mapper h key b.counted) in
      map_step-Balanced h next key b out.0
  Reach-Balanced (unmap_step {h = h} {next = next} key r e) =
      let b = Reach-Balanced r in
      let out = rw e at (unmap-Unmaps crates mapper h key b.counted) in
      unmap_step-Balanced h next key b out.0 out.1

  -- After any sequence of operations that returned, the count of a frame is the number of its `map`s
  -- less that of its `unmap`s, and whatever frame comes next, the outcomes of `map` and `unmap` are those
  -- of `Maps` and `Unmaps`.
  pub Reach-Serves :
      {past : List Operation} (h : Handler crates mapper) (key : ℕ)
      → Reach past h
      → Balanced past h
        × Maps crates mapper h key (map crates mapper h key)
        × Unmaps crates mapper h key (unmap crates mapper h key)
  Reach-Serves h key r =
      let b = Reach-Balanced r in
      (b, map-Maps crates mapper h key b.counted, unmap-Unmaps crates mapper h key b.counted)
