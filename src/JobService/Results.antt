-- ===== src/JobService/Results.antt =====
-- What an `ok` of services/job.py says of the steps that led to it.
use incident_platform.Prelude.{◌≡◌, refl, Option, none, some}
use incident_platform.Store.{Job}
use incident_platform.JobService.{Result, ok, err, ◌>>=◌, or_not_found}

pub bind_ok :
    {A B : Type 0} (m : Result A) (f : A → Result B) (b : B)
    → (m >>= f) ≡ ok b
    → (a : A) × (m ≡ ok a) × (f a ≡ ok b)
bind_ok (ok a) f b h = (a, refl, h)
bind_ok (err e) f b h = cc

pub ok_eq : {A : Type 0} (a b : A) → ◌≡◌ {A = Result A} (ok a) (ok b) → a ≡ b
ok_eq a b h = cc

pub ok_pair :
    {A B : Type 0} (a c : A) (b d : B)
    → ◌≡◌ {A = Result (A × B)} (ok (a, b)) (ok (c, d))
    → (a ≡ c) × (b ≡ d)
ok_pair a c b d h = (cc, cc)

pub found_ok : (o : Option Job) (job : Job) → or_not_found o ≡ ok job → o ≡ some job
unfolding or_not_found
found_ok none job h = cc
found_ok (some j) job h = cc
