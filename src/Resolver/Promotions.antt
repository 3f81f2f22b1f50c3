-- ===== src/Resolver/Promotions.antt =====
-- Which jobs `handle_message` of workers/dependency_resolver.py promotes, and what a second delivery
-- of the event does.
use incident_platform.Resolver.Child.{
  promoted, child-get, child-edges, child-ready, and_true, and_false, map_row-id,
}
use incident_platform.Prelude.{
  ==_refl, ◌||◌, member, ℕ, ◌≡◌, refl, sym, ap, ◌∙◌, Bool, true, false, not, ◌&&◌, Option, none,
  some, List, [], ◌∷◌, inl, inr, arith, ◌==◌, if◌then◌else◌, ==_iff, Bool-cases,
}
use incident_platform.JobRepo.Rows.{map_row}
use incident_platform.Store.{Job, Db}
use incident_platform.DagPause.{children_of}
use incident_platform.JobRepo.{get_by_id}
use incident_platform.Resolver.{is_ready, resolve_child, resolve_children, handle_completed}

map_row-twice :
    (now : ℕ) (a b r : Bool) (o : Option Job)
    → map_row
        (λ j. if b && (r && not a) then promoted now j else j)
        (map_row (λ j. if a && r then promoted now j else j) o)
      ≡ map_row (λ j. if (a || b) && r then promoted now j else j) o
map_row-twice now a b r none = refl
map_row-twice now true true true (some j) = refl
map_row-twice now true true false (some j) = refl
map_row-twice now true false true (some j) = refl
map_row-twice now true false false (some j) = refl
map_row-twice now false true true (some j) = refl
map_row-twice now false true false (some j) = refl
map_row-twice now false false r (some j) = refl

ready_there :
    (paused : Option (ℕ → Bool)) (c k : ℕ) (db : Db)
    → (k == c && is_ready paused db c) ≡ (k == c && is_ready paused db k)
ready_there paused c k db = elim (Bool-cases (k == c)) [
  | inl e ↦ ap (λ i. k == c && is_ready paused db i) (sym ((==_iff k c).0 e))
  | inr n ↦ rw n refl
]

children-get :
    (now : ℕ) (paused : Option (ℕ → Bool)) (ids : List ℕ) (k : ℕ) (db : Db)
    → get_by_id k (resolve_children now paused ids db)
      ≡ map_row
          (λ j. if member k ids && is_ready paused db k then promoted now j else j)
          (get_by_id k db)
unfolding resolve_children
children-get now paused [] k db = sym (map_row-id (get_by_id k db))
children-get now paused (c ∷ ids) k db =
    rw (children-get now paused ids k (resolve_child now paused c db)) (
      rw child-ready (
        rw (child-get, ready_there)
          (map_row-twice now (k == c) (member k ids) (is_ready paused db k) (get_by_id k db))))

-- Of the rows of `jobs`, the handling of a parent's `job.completed` event makes PENDING, with its
-- error cleared, exactly those that have an edge to the parent, wait, have no parent unmet, and are
-- held by no pause, all as the database stood when the event arrived; every other row is as it was.
pub handle_completed_exact :
    (now : ℕ) (paused : Option (ℕ → Bool)) (parent k : ℕ) (db : Db)
    → get_by_id k (handle_completed now paused parent db)
      ≡ map_row
          (λ j.
            if member k (children_of db.edges parent) && is_ready paused db k
            then promoted now j
            else j)
          (get_by_id k db)
unfolding handle_completed
handle_completed_exact now paused parent k db =
    children-get now paused (children_of db.edges parent) k db

children-edges :
    (now : ℕ) (paused : Option (ℕ → Bool)) (ids : List ℕ) (db : Db)
    → (resolve_children now paused ids db).edges ≡ db.edges
unfolding resolve_children
children-edges now paused [] db = refl
children-edges now paused (c ∷ ids) db =
    children-edges now paused ids (resolve_child now paused c db) ∙ child-edges now paused c db

and_not_or : (r a b : Bool) → ((r && not a) && not b) ≡ (r && not (a || b))
and_not_or true true b = refl
and_not_or true false b = refl
and_not_or false a b = refl

children-ready :
    (now : ℕ) (paused : Option (ℕ → Bool)) (ids : List ℕ) (k : ℕ) (db : Db)
    → is_ready paused (resolve_children now paused ids db) k
      ≡ (is_ready paused db k && not (member k ids))
unfolding resolve_children
children-ready now paused [] k db = sym (and_true (is_ready paused db k))
children-ready now paused (c ∷ ids) k db =
    children-ready now paused ids k (resolve_child now paused c db)
    ∙ ap (λ b. b && not (member k ids)) (child-ready now paused c k db)
    ∙ and_not_or (is_ready paused db k) (k == c) (member k ids)

-- Children of which none is ready.
children-idle :
    (now : ℕ) (paused : Option (ℕ → Bool)) (ids : List ℕ) (db : Db)
    → ((k : ℕ) → member k ids ≡ true → is_ready paused db k ≡ false)
    → resolve_children now paused ids db ≡ db
unfolding resolve_children resolve_child
children-idle now paused [] db h = refl
children-idle now paused (c ∷ ids) db h =
    rw (h c (ground (arith, ==_refl c)))
      (children-idle now paused ids db (λ k m. h k (ground (arith, m))))

-- A second delivery of a parent's `job.completed` event finds no child to promote and writes nothing,
-- neither a row nor an event, whatever the time.
pub handle_completed_again :
    (now later : ℕ) (paused : Option (ℕ → Bool)) (parent : ℕ) (db : Db)
    → handle_completed later paused parent (handle_completed now paused parent db)
      ≡ handle_completed now paused parent db
unfolding handle_completed
handle_completed_again now later paused parent db =
    let ids = children_of db.edges parent in
    rw (children-edges now paused ids db) (
      children-idle later paused ids (resolve_children now paused ids db)
        (λ k m. children-ready now paused ids k db ∙ rw m (and_false (is_ready paused db k))))
