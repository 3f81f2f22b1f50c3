-- ===== src/Replays/Members.antt =====
-- The member of a replay, written and read.

use Prim.Native.String.append
use Prim.Native.String.{◌++◌ as ◌+++◌, ◌∷◌ as ◌∷∷◌}
use incident_platform.Prelude.{
  ℕ, ◌≡◌, refl, ap, ◌∙◌, Bool, false, ◌||◌, Option, some, String, Bool-cases, inl, inr,
}
use incident_platform.Replays.{Replay, member, is_colon, cut, parse}

-- A text has a colon.
unfoldable pub has_colon : String → Bool
has_colon String.[] = false
has_colon (c ∷∷ s) = is_colon c || has_colon s

after_colon : (t : String) → cut (":" +++ t) ≡ some (String.[], t)
unfolding cut
after_colon t = ap cut (append.cons ":" String.[] t) ∙ ap (λ u. some (String.[], u)) (append.nil t)

-- What stands before the first colon is cut off.
cut-append : (s t : String) → has_colon s ≡ false → cut (s +++ (":" +++ t)) ≡ some (s, t)
unfolding has_colon cut
cut-append String.[] t h = ap cut (append.nil (":" +++ t)) ∙ after_colon t
cut-append (c ∷∷ s) t h = ap cut (append.cons c s (":" +++ t)) ∙ elim (Bool-cases (is_colon c)) [
  | inl e ↦ cc
  | inr e ↦ rw (e, cut-append s t (rw e at h)) refl
]

-- Where no id is written with a colon, and each is read back from its text, a member reads as the
-- replay that it was written for.
pub parse-member :
    (show : ℕ → String) (read : String → Option ℕ) (r : Replay)
    → ((id : ℕ) → has_colon (show id) ≡ false)
    → ((id : ℕ) → read (show id) ≡ some id)
    → parse read (member show r) ≡ some r
unfolding member parse
parse-member show read r plain back = rw (cut-append (show r.tenant_id) _ (plain r.tenant_id)) (
    rw (cut-append (show r.principal_id) _ (plain r.principal_id))
      (rw (back r.tenant_id, back r.principal_id, back r.job_id) refl))
