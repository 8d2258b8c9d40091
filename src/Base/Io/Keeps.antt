-- ===== src/Base/Io/Keeps.antt =====
-- Device accesses that return, and add to the log only events that a predicate allows.
use capucho_os.Base.{check, Panic, true, Bool, false, ◌≡◌, List, ◌∷◌, refl, ◌%◌, All, ret, ◌^◌, ℕ}
use capucho_os.Base.Io.{lift, log, mem_read, pure, Event, read_volatile, Io, Machine, ◌>>=◌, ◌>>◌}

pub record Keeps {ℓ} {A : Type ℓ} (P : Event → Type 0) (m : Io A) : Type ℓ where
  pub outcome :
      (mach : Machine) (past : List Event)
      → All P past
      → (a : A) × (log : List Event) × (m mach past ≡ ret (a, log)) × All P log

pub pure-Keeps {ℓ} : {A : Type ℓ} {P : Event → Type 0} (a : A) → Keeps P (pure a)
pure-Keeps a = record { outcome = λ mach past h. (a, past, refl, h) }

pub then-Keeps {ℓ κ} :
    {A : Type ℓ} {B : Type κ} {P : Event → Type 0} {m : Io A} {f : A → Io B}
    → Keeps P m
    → ((a : A) → Keeps P (f a))
    → Keeps P (m >>= f)
then-Keeps h k = record {
  outcome = λ mach past all.
      let (a, log, run, all') = h.outcome mach past all in
      let (b, end, run', all'') = (k a).outcome mach log all' in
      (b, end, rw (◌>>=◌, run, run'), all'');
}

pub read_volatile-Keeps :
    {P : Event → Type 0} (addr : ℕ) → ((v : ℕ) → P (mem_read addr v)) → Keeps P (read_volatile addr)
read_volatile-Keeps addr p = record {
  outcome = λ mach past h.
      let v = mach.mem_value past addr % 2 ^ 32 in (v, mem_read addr v ∷ past, refl, (p v, h));
}

pub log-Keeps : {P : Event → Type 0} (e : Event) → P e → Keeps P (log e)
log-Keeps e p = record { outcome = λ mach past h. (tt, e ∷ past, refl, (p, h)) }

-- `assert!` of a condition that holds.
pub check-Keeps {ℓ} :
    {A : Type ℓ} {P : Event → Type 0} {m : Io A} (b : Bool) (p : Panic)
    → b ≡ true
    → Keeps P m
    → Keeps P (lift (check b p) >> m)
check-Keeps true p e h = h
check-Keeps false p e h = absurd (cc)
