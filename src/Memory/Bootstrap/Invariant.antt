-- ===== src/Memory/Bootstrap/Invariant.antt =====
-- The state of the bootstrap allocator of src/memory/frame_allocator/bootstrap.rs against the
-- frames that it has handed out.
use native.Mathlib.Numerals.{add-one}
use capucho_os.Base.{
  panics-ne-ret, Panic, ret-injective, ℕ, zero, suc, ◌+◌, ◌-◌, ◌*◌, ◌≡◌, ◌≢◌, ◌≤◌, ◌<◌, List, [],
  ◌∷◌, ◌++◌, Option, none, some, ret, panics, get_elem?, get_or, set, length, length-set,
  get_or-set_self, get_or-set_ne, get_elem?-eq-get_or, ◌==◌, arith, Bool-cases, Option-cases, ◌⊎◌,
  inl, inr, ◌∙◌, sym, subst,
}
use capucho_os.Memory.External.{Crates, Calls, no_call, call, failed_call}
use capucho_os.Memory.Region.{MemoryRegion, IsSorted}
use capucho_os.Memory.Region.Laws.{Member}
use capucho_os.Memory.Bootstrap.{
  BootStrapAllocator, frame_addresses, nth_frame, take_frame, boot_allocate_frame,
}
use capucho_os.Memory.Bootstrap.Taken.{taken, frame_at, frame_at-IsNext, taken-suc, taken_mono}
use capucho_os.Memory.Bootstrap.Allocate.{as_frame, nth_frame-frame_at}

-- The frame `f` is one of the first `taken` frames of region `b`.
pub record IsTaken (map : List MemoryRegion) (n f : ℕ) : Type 0 where
  pub block : ℕ
  pub region : MemoryRegion
  pub at : get_elem? map block ≡ some region
  pub from_start : region.range.start_frame_number * 4096 ≤ f
  pub below_taken : f < (region.range.start_frame_number + taken block n 0 map) * 4096

-- The allocator has handed out the frames `fs`, each of them counted in `used`.
pub record IsBoot (map : List MemoryRegion) (fs : List ℕ) (s : BootStrapAllocator) : Type 0 where
  pub same_map : s.memory_map ≡ map
  pub room : length s.used ≡ 64
  pub counts : (b : ℕ) → get_or s.used b 0 ≡ taken b s.next 0 map
  pub logged : (f : ℕ) → Member f fs → IsTaken map s.next f

IsTaken-suc : {map : List MemoryRegion} {n f : ℕ} → IsTaken map n f → IsTaken map (suc n) f
IsTaken-suc {map} {n} h = record {
  block = h.block;
  region = h.region;
  at = h.at;
  from_start = h.from_start;
  below_taken = omega (arith, h.below_taken, taken_mono h.block n 0 map);
}

get_elem?-lt :
    (b : ℕ) {r : MemoryRegion} (rs : List MemoryRegion) → get_elem? rs b ≡ some r → b < length rs
get_elem?-lt b [] e = absurd (cc)
get_elem?-lt zero (r ∷ rs) e = omega arith
get_elem?-lt (suc b) (r ∷ rs) e = omega (arith, get_elem?-lt b rs e)

abbrev with_frame : Option ℕ → List ℕ → List ℕ
with_frame none fs = fs
with_frame (some f) fs = f ∷ fs

module _ (crates : Crates) (map : List MemoryRegion) (sorted : IsSorted 0 map)
    (few : length map ≤ 64) where
  take_frame-IsBoot :
      {fs : List ℕ} (s : BootStrapAllocator) (f block : ℕ)
      → IsBoot map fs s
      → frame_at s.next 0 map ≡ some (f, block)
      → (t : BootStrapAllocator) × (take_frame crates s (f * 4096) block ≡ ret (some (f * 4096), t))
        × IsBoot map ((f * 4096) ∷ fs) t
  unfolding take_frame
  take_frame-IsBoot {fs} s f block h e =
      let next = frame_at-IsNext s.next 0 f block map e in
      let off : block - 0 ≡ block = omega arith in
      let at : get_elem? map block ≡ some next.region = rw off at next.at in
      let in_room : block < length s.used = omega (arith, get_elem?-lt block map at, h.room) in
      let count = get_or s.used block 0 in
      let t = record s { next = s.next + 1; used = set s.used block (count + 1) } in
      let one_more = taken-suc block s.next 0 f block map e in
      let counted : (b : ℕ)
          → get_or (set s.used block (count + 1)) b 0 ≡ taken b (suc s.next) 0 map =
        λ b. elim (Bool-cases (b == block)) [
          | inl same ↦
              let eq : b ≡ block = ground arith in
              rw (eq, get_or-set_self s.used block (count + 1) 0 in_room)
                (ground (arith, one_more, h.counts block))
          | inr other ↦
              rw (get_or-set_ne s.used block b (count + 1) 0 (ground arith))
                (ground (arith, taken-suc b s.next 0 f block map e, h.counts b))
        ] in
      (
        t,
        rw (get_elem?-eq-get_or s.used block 0 in_room),
        record {
          same_map = h.same_map;
          room = length-set s.used block (count + 1) ∙ h.room;
          counts = λ b. rw (add-one s.next) (counted b);
          logged = λ g m. elim m [
            | inl p ↦ record {
              block = block;
              region = next.region;
              at = at;
              from_start = omega (arith, next.first);
              below_taken = rw (add-one s.next) (ground (arith, next.first, one_more));
            }
            | inr p ↦ rw (add-one s.next) (IsTaken-suc (h.logged g p))
          ];
        },
      )

  -- Every call hands out a frame or finds none; it never panics.
  pub boot_allocate_frame-IsBoot :
      {fs : List ℕ} (s : BootStrapAllocator)
      → IsBoot map fs s
      → (boot_allocate_frame crates s ≡ ret (none, s))
        ⊎ ((f : ℕ) × (t : BootStrapAllocator) × (boot_allocate_frame crates s ≡ ret (some f, t))
            × IsBoot map (f ∷ fs) t)
  unfolding boot_allocate_frame
  boot_allocate_frame-IsBoot {fs} s h =
      let nth : nth_frame crates s.next (frame_addresses crates 0 s.memory_map)
          ≡ ret (as_frame (frame_at s.next 0 map)) =
        rw h.same_map (nth_frame-frame_at crates s.next 0 0 map sorted) in
      elim (Option-cases (frame_at s.next 0 map)) [
        | inl e ↦ inl (rw (nth, e))
        | inr ((f, block), e) ↦
            let (t, out, boot) = take_frame-IsBoot s f block h e in
            inr (f * 4096, t, rw (nth, e) out, boot)
      ]

  boot_allocate_frame-eq :
      {fs : List ℕ} {s : BootStrapAllocator} (r : Option ℕ × BootStrapAllocator)
      → IsBoot map fs s
      → boot_allocate_frame crates s ≡ ret r
      → IsBoot map (with_frame r.0 fs) r.1
  boot_allocate_frame-eq {fs} {s} r h e = elim (boot_allocate_frame-IsBoot s h) [
    | inl out ↦ subst (λ p. IsBoot map (with_frame p.0 fs) p.1) (ret-injective (sym out ∙ e)) h
    | inr (f, t, out, boot) ↦
        subst (λ p. IsBoot map (with_frame p.0 fs) p.1) (ret-injective (sym out ∙ e)) boot
  ]

  -- Calls of the allocator keep the account, whoever makes them.
  pub Calls-IsBoot :
      {fs : List ℕ} {s : BootStrapAllocator} {gs : List ℕ} {t : BootStrapAllocator}
      → IsBoot map fs s
      → Calls (boot_allocate_frame crates) s gs t
      → IsBoot map (gs ++ fs) t
  Calls-IsBoot h no_call = h
  Calls-IsBoot h (call f c e) = boot_allocate_frame-eq _ (Calls-IsBoot h c) e
  Calls-IsBoot h (failed_call c e) = boot_allocate_frame-eq _ (Calls-IsBoot h c) e

  pub boot_allocate_frame-ne-panics :
      {fs : List ℕ} (s : BootStrapAllocator) (p : Panic)
      → IsBoot map fs s
      → boot_allocate_frame crates s ≢ panics p
  boot_allocate_frame-ne-panics s p h e = elim (boot_allocate_frame-IsBoot s h) [
    | inl out ↦ panics-ne-ret (sym e ∙ out)
    | inr (f, t, out, boot) ↦ panics-ne-ret (sym e ∙ out)
  ]
