-- ===== src/Objects/Invariant.antt =====
-- internal/store: the well-formed tables, in which a row that waits for its collection has no
-- reference and has the time from which it waits, and no two rows have one key. `registerObject` can
-- write other rows: it takes over the state, the count and the time of deletion that it is given.
use k8s_ai.Base.{
  ℕ, ◌-◌, ◌≡◌, refl, ◌∙◌, arith, inl, inr, Bool, true, not, ◌&&◌, ◌||◌, Bool-cases, Option-cases,
  [], ◌∷◌, Option, none, some, Text, ◌==◌, nat_eq, text_eq, all, filter, ok,
}
use k8s_ai.Objects.Row.{
  State, ready, orphaned, missing, deleting, Row, Table, update, insert, same_state, older,
  has_no_owner,
}
use k8s_ai.Objects.Registry.{claimable}
use k8s_ai.Objects.Refs.{is_some, is_held, is_idle, revive, healed, moved, db}
use k8s_ai.Objects.Payload.{rewrite, without_payload, first_mark, lost}
use k8s_ai.Objects.Rows.{all-update, distinct, distinct-update, distinct-filter, Keeps}
use k8s_ai.Objects.Inserts.{distinct-insert, all-insert}

-- The row is on its way out.
unfoldable pub leaves : State → Bool
leaves s = same_state s orphaned || same_state s deleting

unfoldable pub is_leaving : Row → Bool
is_leaving r = leaves r.state

unfoldable pub is_fine : Row → Bool
is_fine r = not (is_leaving r) || (r.ref_count == 0 && is_some r.deleted_at)

pub record WellFormed (t : Table) : Type 0 where
  pub fine : all is_fine t ≡ true
  pub keys : distinct t ≡ true

-- A change of rows that keeps the key and what is fine keeps the table well formed.
pub update-WellFormed :
    (key : Text) (cond : Row → Bool) (change : Row → Row) (t : Table)
    → Keeps change
    → ((r : Row) → is_fine r ≡ true → cond r ≡ true → is_fine (change r) ≡ true)
    → WellFormed t
    → WellFormed (update key cond change t)
update-WellFormed key cond change t keep fine w = record {
  fine = all-update is_fine key cond change t fine w.fine;
  keys = distinct-update key cond change t keep ∙ w.keys;
}

pub revive_fine : (now : ℕ) (r : Row) → is_fine (revive now r) ≡ true
unfolding is_fine is_leaving leaves same_state revive
revive_fine now r = refl

older_marked : (cutoff : ℕ) (r : Row) → older cutoff r ≡ true → is_some r.deleted_at ≡ true
unfolding is_some
older_marked cutoff r h = elim (Option-cases r.deleted_at) [
  | inl e ↦ cc (rw e at h)
  | inr (t, e) ↦ rw e
]

pub claim_fine :
    (now count cutoff : ℕ) (r : Row)
    → is_fine r ≡ true
    → claimable count cutoff r ≡ true
    → is_fine (record r { state = deleting; updated_at = now }) ≡ true
unfolding is_fine is_leaving leaves same_state claimable has_no_owner is_some
claim_fine now count cutoff r f c =
    let marked = older_marked cutoff r (ground arith) in ground arith

pub decr_fine :
    (now : ℕ) (r : Row)
    → is_fine r ≡ true
    → is_held r ≡ true
    → is_fine (record r { ref_count = r.ref_count - 1; updated_at = now }) ≡ true
unfolding is_fine is_held is_leaving
decr_fine now r f h = ground arith

pub orphan_fine :
    (now : ℕ) (r : Row)
    → is_fine r ≡ true
    → is_idle r ≡ true
    → is_fine (record r { state = orphaned; deleted_at = some now; updated_at = now }) ≡ true
unfolding is_fine is_leaving leaves is_idle is_some
orphan_fine now r f h = ground arith

pub miss_fine :
    (now : ℕ) (r : Row) → is_fine (record r { state = missing; updated_at = now }) ≡ true
unfolding is_fine is_leaving leaves same_state
miss_fine now r = refl

-- A change of the state alone, which takes no row to its collection.
fine_state :
    (next : State → State) (r : Row)
    → ((s : State) → leaves (next s) ≡ true → leaves s ≡ true)
    → is_fine r ≡ true
    → not (leaves (next r.state)) || (r.ref_count == 0 && is_some r.deleted_at) ≡ true
unfolding is_fine is_leaving
fine_state next r stays f = ground (arith, stays r.state)

healed_stays : (s : State) → leaves (healed s) ≡ true → leaves s ≡ true
unfolding leaves same_state
healed_stays ready h = cc
healed_stays missing h = cc
healed_stays orphaned h = refl
healed_stays deleting h = refl

pub moved_fine :
    (now : ℕ) (to : Text) (payload : Option Text) (drop_source : Bool) (r : Row)
    → is_fine r ≡ true
    → is_fine (moved now to payload drop_source r) ≡ true
unfolding is_fine is_leaving moved
moved_fine now to payload drop_source r f = elim (Bool-cases (to == db)) [
  | inl e ↦ rw e (fine_state healed r healed_stays f)
  | inr e ↦ elim (Bool-cases drop_source) [ inl d ↦ rw (e, d) f | inr d ↦ rw (e, d) f ]
]

pub rewrite_fine :
    (now : ℕ) (payload : Text) (r : Row) → is_fine r ≡ true → is_fine (rewrite now payload r) ≡ true
unfolding is_fine is_leaving rewrite
rewrite_fine now payload r f = fine_state healed r healed_stays f

pub without_payload_fine :
    (now : ℕ) (r : Row) → is_fine r ≡ true → is_fine (without_payload now r) ≡ true
unfolding is_fine is_leaving without_payload is_some leaves same_state
without_payload_fine now r f =
    let a = fine_state lost r lose f in let m = marked r.deleted_at in ground arith
  where
    lose : (s : State) → leaves (lost s) ≡ true → leaves s ≡ true
    lose ready h = cc
    lose missing h = cc
    lose orphaned h = refl
    lose deleting h = refl

    marked : (d : Option ℕ) → is_some (first_mark d now) ≡ true
    marked none = refl
    marked (some t) = refl

pub all-filter : (p q : Row → Bool) (t : Table) → all p t ≡ true → all p (filter q t) ≡ true
all-filter p q [] h = refl
all-filter p q (r ∷ t) h = ground (arith, all-filter p q t)

pub insert-WellFormed :
    (r : Row) (t : Table) {next : Table}
    → is_fine r ≡ true
    → insert r t ≡ ok next
    → WellFormed t
    → WellFormed next
insert-WellFormed r t f h w = record {
  fine = all-insert is_fine r t h w.fine f;
  keys = distinct-insert r t h w.keys;
}

pub filter-WellFormed : (p : Row → Bool) (t : Table) → WellFormed t → WellFormed (filter p t)
filter-WellFormed p t w = record {
  fine = all-filter is_fine p t w.fine;
  keys = distinct-filter p t w.keys;
}
