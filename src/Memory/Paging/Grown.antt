-- ===== src/Memory/Paging/Grown.antt =====
-- What calls of the frame allocator by src/memory/mod.rs and by the mapper keep of a history.
use capucho_os.Base.{
  ℕ, suc, ◌/◌, ◌+◌, ◌≡◌, ◌≤◌, refl, List, ◌∷◌, none, some, Run, ret, panics, length, arith, inr,
}
use capucho_os.Memory.External.{Crates, Calls, no_call, call, failed_call, CallsOnly}
use capucho_os.Memory.Frames.Bitmap.{GlobalFrameAllocator, allocate_frame}
use capucho_os.Memory.Frames.Allocate.{allocate_frame-Allocates}
use capucho_os.Memory.Frames.History.{IsFair, allocate-IsFair}
use capucho_os.Memory.Region.Laws.{Member}

-- The allocator `t` is fair to `s`, and at least `n` frames were handed out beside those of `live`,
-- which are still handed out.
pub record Grown (s : GlobalFrameAllocator) (live : List ℕ) (n : ℕ) (t : GlobalFrameAllocator)
    : Type 0 where
  pub now : List ℕ
  pub fair : IsFair s now t
  pub kept : (i : ℕ) → Member i live → Member i now
  pub more : n + length live ≤ length now

module _ (crates : Crates) (s : GlobalFrameAllocator) where
  allocate-Grown :
      {live : List ℕ} {n : ℕ} {t u : GlobalFrameAllocator} (a : ℕ)
      → Grown s live n t
      → allocate_frame crates t ≡ ret (some a, u)
      → Grown s live (suc n) u
  allocate-Grown {live} {n} {t} {u} a g e = record {
    now = a / 4096 ∷ g.now;
    fair = allocate-IsFair crates s a g.fair e;
    kept = λ i m. inr (g.kept i m);
    more = omega (arith, g.more);
  }

  weaken :
      {live : List ℕ} {n : ℕ} {t : GlobalFrameAllocator} → Grown s live (suc n) t → Grown s live n t
  weaken g = record { now = g.now; fair = g.fair; kept = g.kept; more = omega (arith, g.more) }

  failed-Grown :
      {live : List ℕ} {n : ℕ} {t u : GlobalFrameAllocator}
      → Grown s live n t
      → allocate_frame crates t ≡ ret (none, u)
      → Grown s live n u
  failed-Grown {live} {n} {t} {u} g e =
      let out = rw e at (allocate_frame-Allocates crates t g.fair.valid) in rw out.0 g

  Calls-Grown :
      {live : List ℕ} {n : ℕ} {t : GlobalFrameAllocator} {fs : List ℕ} {u : GlobalFrameAllocator}
      → Grown s live n t
      → Calls (allocate_frame crates) t fs u
      → Grown s live n u
  Calls-Grown g no_call = g
  Calls-Grown g (call f c e) = weaken (allocate-Grown f (Calls-Grown g c) e)
  Calls-Grown g (failed_call c e) = failed-Grown (Calls-Grown g c) e

  -- A call that uses the allocator alone does not panic.
  pub CallsOnly-Grown :
      {T R : Type 0} {live : List ℕ} {n : ℕ} {t : GlobalFrameAllocator}
      (m : Run (R × GlobalFrameAllocator × T))
      → Grown s live n t
      → CallsOnly (allocate_frame crates) t m
      → (r : R × GlobalFrameAllocator × T) × (m ≡ ret r) × Grown s live n r.1
  CallsOnly-Grown (ret r) g (fs, c) = (r, refl, Calls-Grown g c)
  CallsOnly-Grown (panics p) g (fs, b, c, e) =
      absurd (rw e at (allocate_frame-Allocates crates b (Calls-Grown g c).fair.valid))
