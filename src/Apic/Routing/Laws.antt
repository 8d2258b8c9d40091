-- ===== src/Apic/Routing/Laws.antt =====
-- The choice of the I/O APIC by `get_interrupt_ioapic` of src/apic.rs.
use mathlib.Core.List.{append-nil}
use capucho_os.Base.{
  ◌⊎◌, ◌%◌, ℕ, suc, ◌+◌, ◌-◌, ◌≡◌, ◌≢◌, ◌≤◌, ◌<◌, inl, inr, refl, false, List, [], ◌∷◌, ◌++◌, none,
  some, ret, get_elem?, All, ltb, arith, Bool-cases, sym, ap, ◌∙◌,
}
use capucho_os.Apic.Routing.{
  InterruptSourceOverride, IoApic, Apic, find_source, get_interrupt_source, search_ioapic,
  get_interrupt_ioapic,
}

-- `idx` is the index of a member of `all` whose base is the greatest one at most `vector`.
pub record IsHandler (all : List IoApic) (vector idx : ℕ) : Type 0 where
  pub apic : IoApic
  pub at : get_elem? all idx ≡ some apic
  pub low : apic.base_interrupt ≤ vector
  pub greatest :
      (j : ℕ) (a : IoApic)
      → get_elem? all j ≡ some a
      → a.base_interrupt ≤ vector
      → a.base_interrupt ≤ apic.base_interrupt

module _ (all : List IoApic) (vector : ℕ) where
  -- No member before index `i` is better than the base `b`.
  abbrev NoneBetter : ℕ → ℕ → Type 0
  NoneBetter i b =
      (j : ℕ) (a : IoApic)
      → j < i
      → get_elem? all j ≡ some a
      → a.base_interrupt ≤ vector
      → a.base_interrupt ≤ b

  NoneBetter-suc :
      (i b c : ℕ) (a : IoApic)
      → get_elem? all i ≡ some a
      → (a.base_interrupt ≤ vector → a.base_interrupt ≤ c)
      → b ≤ c
      → NoneBetter i b
      → NoneBetter (suc i) c
  NoneBetter-suc i b c a at here le best j x p e q = elim (Bool-cases (ltb j i)) [
    | inl before ↦ omega (arith, best j x (ground arith) e q)
    | inr last ↦
        let same : j ≡ i = ground arith in
        let e' : some x ≡ some a = sym e ∙ ap (get_elem? all) same ∙ at in ground (arith, here)
  ]

  -- The loop from index `i` on, with `rest` ahead.
  search-IsHandler :
      (i : ℕ) (rest : List IoApic) (idx : ℕ) (c : IoApic)
      → ((k : ℕ) → get_elem? all (i + k) ≡ get_elem? rest k)
      → get_elem? all idx ≡ some c
      → c.base_interrupt ≤ vector
      → NoneBetter i c.base_interrupt
      → IsHandler all vector (search_ioapic vector i idx c.base_interrupt rest)
  unfolding search_ioapic
  search-IsHandler i [] idx c ahead at low best = record {
    apic = c;
    at = at;
    low = low;
    greatest = λ j a e q. elim (Bool-cases (ltb j i)) [
      | inl before ↦ best j a (ground arith) e q
      | inr past ↦
          let there : i + (j - i) ≡ j = ground arith in
          let e' : none ≡ some a = sym (ahead (j - i)) ∙ ap (get_elem? all) there ∙ e in absurd (cc)
    ];
  }
  search-IsHandler i (a ∷ rest) idx c ahead at low best =
      let here : get_elem? all i ≡ some a = let t : i + 0 ≡ i = omega arith in rw t at (ahead 0) in
      let ahead' : (k : ℕ) → get_elem? all (suc i + k) ≡ get_elem? rest k =
        λ k. let t : i + suc k ≡ suc i + k = omega arith in rw t at (ahead (suc k)) in
      elim (Bool-cases (ltb vector a.base_interrupt)) [
        | inl high ↦ rw high (
            search-IsHandler (suc i) rest idx c ahead' at low (
              NoneBetter-suc i c.base_interrupt c.base_interrupt a here (λ p. absurd (ground arith))
                (omega arith) best))
        | inr fits ↦ elim (Bool-cases (ltb c.base_interrupt a.base_interrupt)) [
          | inl better ↦
              rw (fits, better)
                (search-IsHandler (suc i) rest i a ahead' here (ground arith) (
                  NoneBetter-suc i c.base_interrupt a.base_interrupt a here (λ p. omega arith)
                    (ground arith) best))
          | inr worse ↦
              rw (fits, worse)
                (search-IsHandler (suc i) rest idx c ahead' at low (
                  NoneBetter-suc i c.base_interrupt c.base_interrupt a here (λ p. ground arith)
                    (omega arith) best))
        ]
      ]

-- If the first I/O APIC has a base at most the vector, the one that is chosen has the greatest base
-- of all those that have one at most the vector.
get_interrupt_ioapic-IsHandler :
    (this : Apic) (vector : ℕ) (first : IoApic) (rest : List IoApic)
    → this.io_apics ≡ first ∷ rest
    → first.base_interrupt ≤ vector
    → (idx : ℕ) × (get_interrupt_ioapic this vector ≡ ret idx) × IsHandler this.io_apics vector idx
unfolding get_interrupt_ioapic
get_interrupt_ioapic-IsHandler this vector first rest e low =
    let head : get_elem? this.io_apics 0 ≡ some first = rw e in
    (
      search_ioapic vector 0 0 first.base_interrupt this.io_apics,
      rw head,
      search-IsHandler this.io_apics vector 0 this.io_apics 0 first
          (λ k. let t : 0 + k ≡ k = omega arith in rw t) head low (λ j a p q. absurd (omega arith)),
    )

search-first_high :
    (vector i base : ℕ) (rest : List IoApic)
    → vector < base
    → search_ioapic vector i 0 base rest ≡ 0
unfolding search_ioapic
search-first_high vector i base [] h = refl
search-first_high vector i base (a ∷ rest) h = elim (Bool-cases (ltb vector a.base_interrupt)) [
  | inl high ↦ rw high (search-first_high vector (suc i) base rest h)
  | inr fits ↦
      let no_better : ltb base a.base_interrupt ≡ false = ground arith in
      rw (fits, no_better) (search-first_high vector (suc i) base rest h)
]

-- If the first I/O APIC has a base above the vector, it is chosen all the same, whatever the others
-- are.
get_interrupt_ioapic_high :
    (this : Apic) (vector : ℕ) (first : IoApic) (rest : List IoApic)
    → this.io_apics ≡ first ∷ rest
    → vector < first.base_interrupt
    → get_interrupt_ioapic this vector ≡ ret 0
unfolding get_interrupt_ioapic
get_interrupt_ioapic_high this vector first rest e h =
    rw e (ap ret (search-first_high vector 0 first.base_interrupt (first ∷ rest) h))

-- What is chosen for the vector: the greatest base at most the vector, if the first I/O APIC has such a
-- base, and otherwise the first one.
abbrev pub IsChosen : List IoApic → ℕ → IoApic → ℕ → Type 0
IsChosen apics vector first idx =
    ((first.base_interrupt ≤ vector) × IsHandler apics vector idx)
    ⊎ ((vector < first.base_interrupt) × (idx ≡ 0))

-- With at least one I/O APIC no panic is met. If the first one has a base at most the vector, the one
-- that is chosen has the greatest base of all those that have one at most the vector; otherwise the
-- first one is chosen all the same, whatever the others are.
pub get_interrupt_ioapic-IsChosen :
    (this : Apic) (vector : ℕ) (first : IoApic) (rest : List IoApic)
    → this.io_apics ≡ first ∷ rest
    → (idx : ℕ) × (get_interrupt_ioapic this vector ≡ ret idx)
      × IsChosen this.io_apics vector first idx
get_interrupt_ioapic-IsChosen this vector first rest e =
    elim (Bool-cases (ltb vector first.base_interrupt)) [
      | inl above ↦
          let high : vector < first.base_interrupt = ground arith in
          (0, get_interrupt_ioapic_high this vector first rest e high, inr (high, refl))
      | inr below ↦
          let low : first.base_interrupt ≤ vector = ground arith in
          let (idx, run, best) = get_interrupt_ioapic-IsHandler this vector first rest e low in
          (idx, run, inl (low, best))
    ]

find_source-append :
    (vector : ℕ) (before after : List InterruptSourceOverride)
    → All (λ o. o.isa_source ≢ vector) before
    → find_source (before ++ after) vector ≡ find_source after vector
unfolding find_source
find_source-append vector [] after h = refl
find_source-append vector (o ∷ before) after h =
    ground (arith, find_source-append vector before after h.1)

-- The interrupt source is the one of the first override for the vector, cut to 8 bits.
pub get_interrupt_source_first :
    (this : Apic) (vector : ℕ) (before after : List InterruptSourceOverride)
    (v : InterruptSourceOverride)
    → this.interrupt_source_overrides ≡ before ++ v ∷ after
    → All (λ o. o.isa_source ≢ vector) before
    → v.isa_source ≡ vector
    → get_interrupt_source this vector ≡ v.global_system_interrupt % 256
unfolding get_interrupt_source find_source
get_interrupt_source_first this vector before after v e h m =
    rw (e, find_source-append vector before (v ∷ after) h) (ground arith)

-- Without an override for it the vector is its own source.
pub get_interrupt_source_none :
    (this : Apic) (vector : ℕ)
    → All (λ o. o.isa_source ≢ vector) this.interrupt_source_overrides
    → get_interrupt_source this vector ≡ vector
unfolding get_interrupt_source find_source
get_interrupt_source_none this vector h =
    rw (← append-nil this.interrupt_source_overrides)
      (find_source-append vector this.interrupt_source_overrides [] h)
