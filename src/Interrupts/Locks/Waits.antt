-- ===== src/Interrupts/Locks/Waits.antt =====
-- No context of the kernel ever waits for a lock: the locks that a handler takes are taken by the main
-- code only while the interrupts are off.
use capucho_os.Apic.Start.Route.{held}
use capucho_os.Interrupts.Locks.{
  acpi_accesses, acpi_lock, allocates_access, all_accesses, Access, maps_access, heap_actions,
  counts_access, logs_access, unmaps_access, access_actions, release, paging_actions, repeated,
  Reach, Config, keyboard_lock, Interrupt, main_step, Lock, maps_pages, at_start, pics_lock,
  hands_over, handler_end, interrupt, reach_step, first_action, Action, writer_lock, uses_heap,
  is_held, Block, handler_actions, logs, Processor, main_actions, next_action, Step, perform,
  keyboard_interrupt, timer_interrupt, prints, handler_step,
}
use capucho_os.Base.{
  zero, ◌∙◌, suc, [], arith, true, sym, ◌≡◌, none, ap, Option, ◌∷◌, List, Bool, not, some, subst,
  if◌then◌else◌, refl, false, ◌&&◌, ℕ,
}

-- None of the locks of the handlers is taken.
abbrev is_free : List Lock → Bool
is_free held =
    not (is_held pics_lock held)
    && (not (is_held keyboard_lock held) && not (is_held writer_lock held))

-- An interrupt may come only while the locks of the handlers are free.
abbrev may_interrupt : Config → Bool
may_interrupt c = if c.interrupts then is_free c.held else true

-- The actions never wait when they run alone, and an interrupt may come between any two of them.
abbrev disciplined : Config → List Action → Bool
disciplined c [] = may_interrupt c
disciplined c (a ∷ rest) =
    may_interrupt c && elim (perform a c) [ none ↦ false | some d ↦ disciplined d rest ]

-- The configuration after all actions, or none if one waits.
abbrev run_all : Config → List Action → Option Config
run_all c [] = some c
run_all c (a ∷ rest) = elim (perform a c) [ none ↦ none | some d ↦ run_all d rest ]

abbrev running : Config
running = record { interrupts = true; saved = []; held = [] }

-- Inside `without_interrupts` or outside of it, with these locks taken.
abbrev within : Bool → List Lock → Config
within false held = record { interrupts = true; saved = []; held = held }
within true held = record { interrupts = false; saved = true ∷ []; held = held }

disciplined-heap :
    (inside : Bool) (n : ℕ) (rest : List Action)
    → disciplined (within inside []) (repeated n heap_actions rest)
      ≡ disciplined (within inside []) rest
disciplined-heap inside zero rest = refl
disciplined-heap false (suc n) rest = disciplined-heap false n rest
disciplined-heap true (suc n) rest = disciplined-heap true n rest

-- The same while the lock of the handler is taken.
disciplined-acpi_heap :
    (inside : Bool) (n : ℕ) (rest : List Action)
    → disciplined (within inside (acpi_lock ∷ [])) (repeated n heap_actions rest)
      ≡ disciplined (within inside (acpi_lock ∷ [])) rest
disciplined-acpi_heap inside zero rest = refl
disciplined-acpi_heap false (suc n) rest = disciplined-acpi_heap false n rest
disciplined-acpi_heap true (suc n) rest = disciplined-acpi_heap true n rest

disciplined-access :
    (inside : Bool) (a : Access) (rest : List Action)
    → disciplined (within inside []) rest ≡ true
    → disciplined (within inside []) (access_actions a rest) ≡ true
disciplined-access false (maps_access n) rest h =
    disciplined-acpi_heap false n (release acpi_lock ∷ rest) ∙ h
disciplined-access true (maps_access n) rest h =
    disciplined-acpi_heap true n (release acpi_lock ∷ rest) ∙ h
disciplined-access false (unmaps_access n) rest h = disciplined-acpi_heap false n _ ∙ h
disciplined-access true (unmaps_access n) rest h = disciplined-acpi_heap true n _ ∙ h
disciplined-access false counts_access rest h = h
disciplined-access true counts_access rest h = h
disciplined-access false allocates_access rest h = h
disciplined-access true allocates_access rest h = h
disciplined-access false logs_access rest h = h
disciplined-access true logs_access rest h = h

disciplined-accesses :
    (inside : Bool) (accesses : List Access) (rest : List Action)
    → disciplined (within inside []) rest ≡ true
    → disciplined (within inside []) (all_accesses accesses rest) ≡ true
disciplined-accesses inside [] rest h = h
disciplined-accesses inside (a ∷ accesses) rest h =
    disciplined-access inside a _ (disciplined-accesses inside accesses rest h)

disciplined-paging :
    (n : ℕ) (rest : List Action)
    → disciplined (within true []) (repeated n paging_actions rest)
      ≡ disciplined (within true []) rest
disciplined-paging zero rest = refl
disciplined-paging (suc n) rest = disciplined-paging n rest

main_actions-disciplined : (blocks : List Block) → disciplined running (main_actions blocks) ≡ true
main_actions-disciplined [] = refl
main_actions-disciplined (prints ∷ blocks) = main_actions-disciplined blocks
main_actions-disciplined (logs ∷ blocks) = main_actions-disciplined blocks
main_actions-disciplined (maps_pages ∷ blocks) = main_actions-disciplined blocks
main_actions-disciplined (uses_heap ∷ blocks) = main_actions-disciplined blocks
main_actions-disciplined (acpi_accesses accesses ∷ blocks) =
    disciplined-accesses false accesses _ (main_actions-disciplined blocks)
main_actions-disciplined (hands_over accesses n m ∷ blocks) =
    disciplined-accesses true accesses _
      (disciplined-heap true n _ ∙ (disciplined-paging m _ ∙ main_actions-disciplined blocks))

abbrev masked : Config → Config
masked c = record c { interrupts = false }

-- A handler that starts while its locks are free runs to its end, and leaves all as it was.
run_all-handler_actions :
    (c : Config) (i : Interrupt)
    → is_free c.held ≡ true
    → run_all (masked c) (handler_actions i) ≡ some (masked c)
run_all-handler_actions c i free = by_interrupt i
  where
    no_pics : is_held pics_lock c.held ≡ false
    no_pics = ground (arith, free)

    no_keyboard : is_held keyboard_lock c.held ≡ false
    no_keyboard = ground (arith, free)

    no_writer : is_held writer_lock c.held ≡ false
    no_writer = ground (arith, free)

    by_interrupt : (j : Interrupt) → run_all (masked c) (handler_actions j) ≡ some (masked c)
    by_interrupt timer_interrupt = rw (run_all, no_pics)
    by_interrupt (keyboard_interrupt true) = rw (run_all, no_keyboard, no_writer, no_pics)
    by_interrupt (keyboard_interrupt false) = rw (run_all, no_keyboard, no_pics)

-- What holds of every state: the main code is disciplined from the configuration that it has, and a
-- handler that runs will end in that configuration.
abbrev Sound : Config → List Action → Option (List Action) → Type 0
Sound c main none = disciplined c main ≡ true
Sound c main (some left) =
    (before : Config) × (before.interrupts ≡ true)
    × (disciplined before main ≡ true)
    × (run_all c left ≡ some (masked before))

some-injective {ℓ} : {A : Type ℓ} {a b : A} → some a ≡ some b → a ≡ b
some-injective e = cc

and_parts : (x y : Bool) → (x && y) ≡ true → (x ≡ true) × (y ≡ true)
and_parts true y h = (refl, h)
and_parts false y h = absurd (cc)

disciplined-step :
    (c d : Config) (a : Action) (rest : List Action)
    → perform a c ≡ some d
    → disciplined c (a ∷ rest) ≡ true
    → disciplined d rest ≡ true
disciplined-step c d a rest e h = rw e at ((and_parts (may_interrupt c) _ h).1)

may_interrupt-is_free :
    (c : Config) → c.interrupts ≡ true → may_interrupt c ≡ true → is_free c.held ≡ true
may_interrupt-is_free c on h = rw on at h

disciplined-is_free :
    (c : Config) (main : List Action)
    → c.interrupts ≡ true
    → disciplined c main ≡ true
    → is_free c.held ≡ true
disciplined-is_free c [] on h = may_interrupt-is_free c on h
disciplined-is_free c (a ∷ main) on h =
    may_interrupt-is_free c on (and_parts (may_interrupt c) _ h).0

run_all-step :
    (c d : Config) (a : Action) (rest : List Action) (end : Config)
    → perform a c ≡ some d
    → run_all c (a ∷ rest) ≡ some end
    → run_all d rest ≡ some end
run_all-step c d a rest end e h = rw (run_all, e) at h

-- The flag is set again at the end of the handler.
unmasked :
    (c before : Config)
    → before.interrupts ≡ true
    → c ≡ masked before
    → record c { interrupts = true } ≡ before
unmasked c before on e = rw e (ap (λ b. record before { interrupts = b }) (sym on))

Step-Sound :
    {p q : Processor} → Step p q → Sound p.config p.main p.handler → Sound q.config q.main q.handler
Step-Sound (main_step {c} {d} {a} {rest} e) h = disciplined-step c d a rest e h
Step-Sound (interrupt {c} {rest} i on) h =
    (c, on, h, run_all-handler_actions c i (disciplined-is_free c rest on h))
Step-Sound (handler_step {c} {d} {a} {rest} {left} e) (before, on, h, run) =
    (before, on, h, run_all-step c d a left (masked before) e run)
Step-Sound (handler_end {c} {rest}) (before, on, h, run) =
    subst (λ x. disciplined x rest ≡ true) (sym (unmasked c before on (some-injective run))) h

Reach-Sound :
    {blocks : List Block} {p : Processor} → Reach blocks p → Sound p.config p.main p.handler
Reach-Sound {blocks} at_start = main_actions-disciplined blocks
Reach-Sound (reach_step r s) = Step-Sound s (Reach-Sound r)

disciplined-proceeds :
    (c : Config) (main : List Action) (a : Action)
    → disciplined c main ≡ true
    → first_action main ≡ some a
    → (d : Config) × (perform a c ≡ some d)
disciplined-proceeds c [] a h e = absurd (cc)
disciplined-proceeds c (b ∷ rest) a h e =
    let same : b ≡ a = some-injective e in
    subst (λ x. (d : Config) × (perform x c ≡ some d)) same
      (by_outcome (perform b c) refl (and_parts (may_interrupt c) _ h).1)
  where
    by_outcome :
        (o : Option Config)
        → perform b c ≡ o
        → elim (perform b c) [ none ↦ false | some d ↦ disciplined d rest ] ≡ true
        → (d : Config) × (perform b c ≡ some d)
    by_outcome none e k = absurd (let t : false ≡ true = rw e at k in cc)
    by_outcome (some d) e k = (d, e)

run_all-proceeds :
    (c : Config) (left : List Action) (a : Action) (end : Config)
    → run_all c left ≡ some end
    → first_action left ≡ some a
    → (d : Config) × (perform a c ≡ some d)
run_all-proceeds c [] a end h e = absurd (cc)
run_all-proceeds c (b ∷ rest) a end h e =
    let same : b ≡ a = some-injective e in
    subst (λ x. (d : Config) × (perform x c ≡ some d)) same (by_outcome (perform b c) refl h)
  where
    by_outcome :
        (o : Option Config)
        → perform b c ≡ o
        → elim (perform b c) [ none ↦ none | some d ↦ run_all d rest ] ≡ some end
        → (d : Config) × (perform b c ≡ some d)
    by_outcome none e k = absurd (let t : none ≡ some end = rw e at k in cc)
    by_outcome (some d) e k = (d, e)

Sound-proceeds :
    (c : Config) (main : List Action) (handler : Option (List Action)) (a : Action)
    → Sound c main handler
    → next_action (record { config = c; main = main; handler = handler }) ≡ some a
    → (d : Config) × (perform a c ≡ some d)
Sound-proceeds c main none a h e = disciplined-proceeds c main a h e
Sound-proceeds c main (some left) a (before, on, h, run) e =
    run_all-proceeds c left a (masked before) run e

-- After the first line of the kernel and the start of the controllers, whatever blocks of locking code
-- the main code runs after the interrupts are enabled, in any order, with any accesses of the crates
-- of the tables and of AML, and wherever interrupts come, timer or keyboard: the next action of what
-- is running does not wait for a lock. Exceptions and panics are not among the steps.
pub Reach-proceeds :
    (blocks : List Block) (p : Processor) (a : Action)
    → Reach blocks p
    → next_action p ≡ some a
    → (d : Config) × (perform a p.config ≡ some d)
Reach-proceeds blocks p a r e = Sound-proceeds p.config p.main p.handler a (Reach-Sound r) e
