-- ===== src/Base/Io/Inversion.antt =====
-- What a run that returns says of its parts.
use capucho_os.Base.{ap, refl, ◌≡◌, panics, ret-injective, List, Run, panics-ne-ret, ret}
use capucho_os.Base.Io.{Io, Event, lift, Machine, ◌>>=◌}

pub >>=-returned {ℓ κ} :
    {A : Type ℓ} {B : Type κ} (m : Io A) (f : A → Io B) (mach : Machine) (past : List Event)
    {r : B × List Event}
    → (m >>= f) mach past ≡ ret r
    → (a : A) × (mid : List Event) × (m mach past ≡ ret (a, mid)) × (f a mach mid ≡ ret r)
>>=-returned {A = A} m f mach past {r} h = by_first (m mach past) refl
  where
    by_first :
        (o : Run (A × List Event))
        → m mach past ≡ o
        → (a : A) × (mid : List Event) × (m mach past ≡ ret (a, mid)) × (f a mach mid ≡ ret r)
    by_first (ret (a, mid)) e = (a, mid, e, rw (◌>>=◌, e) at h)
    by_first (panics p) e = absurd (panics-ne-ret (rw (◌>>=◌, e) at h))

pub lift-returned {ℓ} :
    {A : Type ℓ} (m : Run A) (mach : Machine) (past : List Event) {r : A × List Event}
    → lift m mach past ≡ ret r
    → (m ≡ ret r.0) × (past ≡ r.1)
lift-returned (ret a) mach past h =
    let e = ret-injective h in (ap (λ p. ret p.0) e, ap (λ p. p.1) e)
lift-returned (panics p) mach past h = absurd (panics-ne-ret h)
