-- ===== src/Memory/Frames/History.antt =====
-- Histories of calls of the allocator of src/memory/frame_allocator/mod.rs, with the frames that
-- are handed out and not given back.
use mathlib.Core.Bool.{false≢true}
use native.Mathlib.Nat.{le_refl, le_trans}
use capucho_os.Base.{
  ret-injective, ℕ, ◌*◌, ◌/◌, ◌≡◌, ◌≢◌, ◌⊎◌, inl, inr, ◌≤◌, ◌<◌, refl, true, false, List, [], ◌∷◌,
  some, ret, arith, ap, sym, ◌∙◌, ◌==◌, if◌then◌else◌, Bool-cases, subst, ==_ne,
}
use capucho_os.Memory.External.{Crates}
use capucho_os.Memory.Region.Laws.{IsUsableFrame, Member}
use capucho_os.Memory.Frames.Bitmap.{GlobalFrameAllocator, allocate_frame, deallocate_frame}
use capucho_os.Memory.Frames.Marks.{used}
use capucho_os.Memory.Frames.Allocate.{
  IsValid, Flips, Flips-IsValid, allocate_frame-Allocates, deallocate_frame_lem,
}

-- The list without the first occurrence of a frame.
abbrev pub remove : ℕ → List ℕ → List ℕ
remove i [] = []
remove i (j ∷ js) = if i == j then js else j ∷ remove i js

-- No frame is listed twice.
abbrev pub Distinct : List ℕ → Type 0
Distinct [] = Unit
Distinct (i ∷ is) = (¬ Member i is) × Distinct is

-- `Reach s live t`: from `s` calls of the two functions lead to `t`, and `live` are the frames whose
-- addresses were returned and not given back. Only such a frame is given back.
pub data Reach (crates : Crates) (s : GlobalFrameAllocator)
    : List ℕ → GlobalFrameAllocator → Type 0 where
  start : Reach crates s [] s
  allocate :
      {live : List ℕ} {t u : GlobalFrameAllocator} (a : ℕ)
      → Reach crates s live t
      → allocate_frame crates t ≡ ret (some a, u)
      → Reach crates s (a / 4096 ∷ live) u
  deallocate :
      {live : List ℕ} {t u : GlobalFrameAllocator} (i : ℕ)
      → Reach crates s live t
      → Member i live
      → deallocate_frame t (i * 4096) ≡ ret u
      → Reach crates s (remove i live) u

-- What holds after every history.
pub record IsFair (s : GlobalFrameAllocator) (live : List ℕ) (t : GlobalFrameAllocator)
    : Type 0 where
  pub valid : IsValid t
  pub same_map : t.memory_map ≡ s.memory_map
  pub grows : s.next_usable ≤ t.next_usable
  pub distinct : Distinct live
  pub marked : (i : ℕ) → Member i live → (used t i ≡ true) × IsUsableFrame s.memory_map i

Member-remove : (i j : ℕ) (is : List ℕ) → Member j (remove i is) → Member j is
Member-remove i j [] m = m
Member-remove i j (k ∷ is) m = elim (Bool-cases (i == k)) [
  | inl e ↦ inr (rw (e, remove) at m)
  | inr e ↦
      let m' : (j ≡ k) ⊎ Member j (remove i is) = rw (e, remove) at m in
      elim m' [ inl p ↦ inl p | inr p ↦ inr (Member-remove i j is p) ]
]

Distinct-remove : (i : ℕ) (is : List ℕ) → Distinct is → Distinct (remove i is)
Distinct-remove i [] d = d
Distinct-remove i (k ∷ is) d = elim (Bool-cases (i == k)) [
  | inl e ↦ rw (e, remove) d.1
  | inr e ↦ rw (e, remove) ((λ m. d.0 (Member-remove i k is m)), Distinct-remove i is d.1)
]

not-Member-remove : (i : ℕ) (is : List ℕ) → Distinct is → ¬ Member i (remove i is)
not-Member-remove i [] d m = m
not-Member-remove i (k ∷ is) d m = elim (Bool-cases (i == k)) [
  | inl e ↦
      let eq : k ≡ i = ground arith in d.0 (subst (λ t. Member t is) (sym eq) (rw (e, remove) at m))
  | inr e ↦
      let m' : (i ≡ k) ⊎ Member i (remove i is) = rw (e, remove) at m in
      elim m' [ inl p ↦ absurd (ground arith) | inr p ↦ not-Member-remove i is d.1 p ]
]

flip_true :
    {t u : GlobalFrameAllocator} {i : ℕ} (j : ℕ)
    → Flips t u i true
    → (i ≡ j) ⊎ (used t j ≡ true)
    → used u j ≡ true
flip_true {t} {u} {i} j f h = elim (Bool-cases (i == j)) [
  | inl e ↦ f.bits j ∙ rw e
  | inr e ↦ elim h [ inl p ↦ absurd (ground arith) | inr p ↦ f.bits j ∙ rw e p ]
]

module _ (crates : Crates) (s : GlobalFrameAllocator) where
  pub allocate-IsFair :
      {live : List ℕ} {t u : GlobalFrameAllocator} (a : ℕ)
      → IsFair s live t
      → allocate_frame crates t ≡ ret (some a, u)
      → IsFair s (a / 4096 ∷ live) u
  allocate-IsFair {live} {t} {u} a h e =
      let out = rw e at (allocate_frame-Allocates crates t h.valid) in
      let flip = out.5 in
      let here : a / 4096 ≡ u.next_usable = omega (arith, out.0) in
      rw here (record {
        valid = Flips-IsValid flip h.valid;
        same_map = flip.same_map ∙ h.same_map;
        grows = le_trans h.grows out.2;
        distinct = ((λ m. false≢true (sym out.3 ∙ (h.marked u.next_usable m).0)), h.distinct);
        marked = λ j m. elim m [
          | inl p ↦ (flip_true j flip (inl (sym p)), rw (p, ← h.same_map) out.1)
          | inr p ↦ (flip_true j flip (inr (h.marked j p).0), (h.marked j p).1)
        ];
      })

  deallocate-IsFair :
      {live : List ℕ} {t u : GlobalFrameAllocator} (i : ℕ)
      → IsFair s live t
      → Member i live
      → deallocate_frame t (i * 4096) ≡ ret u
      → IsFair s (remove i live) u
  deallocate-IsFair {live} {t} {u} i h m e =
      let covered = h.valid.covers i (rw h.same_map (h.marked i m).1) in
      let (w, done, kept, flip') = deallocate_frame_lem t i covered in
      let same : w ≡ u = ret-injective (sym done ∙ e) in
      let flip : Flips t u i false = subst (λ x. Flips t x i false) same flip' in
      let next : u.next_usable ≡ t.next_usable = ap (λ x. x.next_usable) (sym same) ∙ kept in
      record {
        valid = Flips-IsValid flip h.valid;
        same_map = flip.same_map ∙ h.same_map;
        grows = rw next h.grows;
        distinct = Distinct-remove i live h.distinct;
        marked = λ j p. (
          flip.bits j
              ∙ rw
                  (==_ne i j (λ q.
                    not-Member-remove i live h.distinct
                      (subst (λ x. Member x (remove i live)) (sym q) p)))
                  (h.marked j (Member-remove i j live p)).0,
          (h.marked j (Member-remove i j live p)).1,
        );
      }

  pub Reach-IsFair :
      {live : List ℕ} {t : GlobalFrameAllocator}
      → IsValid s
      → Reach crates s live t
      → IsFair s live t
  Reach-IsFair v start = record {
    valid = v;
    same_map = refl;
    grows = le_refl _;
    distinct = tt;
    marked = λ i m. absurd m;
  }
  Reach-IsFair v (allocate a r e) = allocate-IsFair a (Reach-IsFair v r) e
  Reach-IsFair v (deallocate i r m e) = deallocate-IsFair i (Reach-IsFair v r) m e

  -- After any history of allocations and of deallocations of frames that are handed out, no frame
  -- whose address was returned is handed out twice at the same time, and each is a frame of a usable region that the bitmap
  -- marks.
  pub Reach-Distinct :
      {live : List ℕ} {t : GlobalFrameAllocator}
      → IsValid s
      → Reach crates s live t
      → Distinct live × ((i : ℕ) → Member i live → (used t i ≡ true) × IsUsableFrame s.memory_map i)
  Reach-Distinct v r = let h = Reach-IsFair v r in (h.distinct, h.marked)

  -- A frame below `next_usable` is never handed out again, whatever is given back.
  pub Reach-never_below :
      {live : List ℕ} {t u : GlobalFrameAllocator} (a i : ℕ)
      → IsValid s
      → Reach crates s live t
      → i < s.next_usable
      → allocate_frame crates t ≡ ret (some a, u)
      → a ≢ i * 4096
  Reach-never_below {t} {u} a i v r below e eq =
      let h = Reach-IsFair v r in
      let out = rw e at (allocate_frame-Allocates crates t h.valid) in
      absurd (omega (arith, out.0, out.2, h.grows))
