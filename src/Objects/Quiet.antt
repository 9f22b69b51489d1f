-- ===== src/Objects/Quiet.antt =====
-- internal/store: the operations that take and give back no reference keep every count and what is well formed.
use k8s_ai.Base.{
  ℕ, ◌≡◌, refl, ap, subst, arith, inl, inr, Bool, true, not, ◌&&◌, Bool-cases, Option, Text, ◌==◌,
  nat_eq, text_eq, if◌then◌else◌, Result, ok, err, guard->>, >>-both, >>=-eq-ok,
}
use k8s_ai.Objects.Row.{
  missing, deleting, Row, Table, StoreError, no_backend, state_conflict, not_found, row_of, update,
  affects,
}
use k8s_ai.Objects.Registry.{
  check_key, get, claim_deleting, claimable, mark_one_missing, can_miss, forget_one, is_claimed,
  or_else,
}
use k8s_ai.Objects.Refs.{adopt, adopt_object, at_source, moved, valid_driver, db, is_some}
use k8s_ai.Objects.Payload.{rewrite, delete_content, without_payload}
use k8s_ai.Objects.Rows.{Keeps}
use k8s_ai.Objects.Invariant.{
  WellFormed, is_fine, update-WellFormed, filter-WellFormed, claim_fine, miss_fine, moved_fine,
  without_payload_fine,
}
use k8s_ai.Objects.Ledger.{refs, committed, committed_with}
use k8s_ai.Objects.LedgerLaws.{refs-update, refs-forget}

-- A property of a result holds of what is committed.
pub committed-holds :
    (P : Table → Type 0) (r : Result StoreError Table) (t : Table)
    → P t
    → ((next : Table) → r ≡ ok next → P next)
    → P (committed r t)
committed-holds P (err why) t p f = p
committed-holds P (ok next) t p f = f next refl

pub committed_with-holds :
    {A : Type 0} (P : Table → Type 0) (r : Result StoreError (A × Table)) (t : Table)
    → P t
    → ((a : A) (next : Table) → r ≡ ok (a, next) → P next)
    → P (committed_with r t)
committed_with-holds P (err why) t p f = p
committed_with-holds P (ok (a, next)) t p f = f a next refl

-- A table with the counts of another.
pub record Quiet (t next : Table) : Type 0 where
  pub formed : WellFormed next
  pub same : (key : Text) → refs key next ≡ refs key t

pub stays : (t : Table) → WellFormed t → Quiet t t
stays t w = record { formed = w; same = λ key. refl }

pub second_eq :
    {A : Type 0} {a b : A} {t next : Table}
    → ◌≡◌ {A = Result StoreError (A × Table)} (ok (a, t)) (ok (b, next))
    → t ≡ next
second_eq h = cc

pub update-Quiet :
    (key : Text) (cond : Row → Bool) (change : Row → Row) (t : Table)
    → Keeps change
    → ((r : Row) → (change r).ref_count ≡ r.ref_count)
    → ((r : Row) → is_fine r ≡ true → cond r ≡ true → is_fine (change r) ≡ true)
    → WellFormed t
    → Quiet t (update key cond change t)
update-Quiet key cond change t keep same fine w = record {
  formed = update-WellFormed key cond change t keep fine w;
  same = λ of. refs-update key of cond change t keep same;
}

pub claim-Quiet :
    (now : ℕ) (key : Text) (count cutoff : ℕ) (t : Table)
    → WellFormed t
    → Quiet t (committed_with (claim_deleting now key count cutoff t) t)
unfolding claim_deleting
claim-Quiet now key count cutoff t w =
    committed_with-holds (Quiet t) (claim_deleting now key count cutoff t) t (stays t w)
      (λ a next h. subst (Quiet t) (second_eq ((>>-both (check_key key) _ h).1)) (
        update-Quiet key (claimable count cutoff)
          (λ r. record r { state = deleting; updated_at = now }) t (λ r. refl) (λ r. refl)
          (λ r f c. claim_fine now count cutoff r f c) w))

pub forget-Quiet :
    (key : Text) (t : Table) → WellFormed t → Quiet t (committed_with (forget_one key t) t)
unfolding forget_one
forget-Quiet key t w = committed_with-holds (Quiet t) (forget_one key t) t (stays t w) (λ a next h.
    subst (Quiet t) (second_eq ((>>-both (check_key key) _ h).1)) (record {
      formed = filter-WellFormed (λ r. not (is_claimed key r)) t w;
      same = λ of. refs-forget key of t w;
    }))

pub first_eq : {A : Type 0} {a b : A} → ◌≡◌ {A = Result StoreError A} (ok a) (ok b) → a ≡ b
first_eq h = cc

pub mark-Quiet :
    (now : ℕ) (key : Text) (t : Table)
    → WellFormed t
    → Quiet t (committed (mark_one_missing now key t) t)
unfolding mark_one_missing
mark-Quiet now key t w = committed-holds (Quiet t) (mark_one_missing now key t) t (stays t w) after
  where
    marked_row : Row → Row
    marked_row r = record r { state = missing; updated_at = now }

    after : (next : Table) → mark_one_missing now key t ≡ ok next → Quiet t next
    after next h =
        let rest = (>>-both (check_key key) _ h).1 in
        elim (Bool-cases (affects key can_miss t)) [
          | inl e ↦ subst (Quiet t) (first_eq (rw e at rest)) (
              update-Quiet key can_miss marked_row t (λ r. refl) (λ r. refl)
                (λ r f c. miss_fine now r) w)
          | inr e ↦
              let (r, g, q) = >>=-eq-ok (get key t) (λ r. ok t) (rw e at rest) in
              subst (Quiet t) (first_eq q) (stays t w)
        ]

moved_key :
    (now : ℕ) (to : Text) (payload : Option Text) (drop_source : Bool)
    → Keeps (moved now to payload drop_source)
unfolding moved
moved_key now to payload drop_source r = ground arith

moved_count :
    (now : ℕ) (to : Text) (payload : Option Text) (drop_source : Bool) (r : Row)
    → (moved now to payload drop_source r).ref_count ≡ r.ref_count
unfolding moved
moved_count now to payload drop_source r = ground arith

-- An adoption that is not refused has run the one statement.
adopt-done :
    (now : ℕ) (key from to : Text) (payload : Option Text) (drop_source : Bool) (t : Table)
    {done : Bool × Table}
    → adopt now key from to payload drop_source t ≡ ok done
    → adopt_object now key from to payload drop_source t ≡ done
unfolding adopt
adopt-done now key from to payload drop_source t h =
    let h1 = (>>-both (check_key key) _ h).1 in
    let h2 = (guard->> (valid_driver from && valid_driver to) no_backend _ h1).1 in
    let h3 = (guard->> (not (from == to)) state_conflict _ h2).1 in
    let h4 = (guard->> (not (to == db && not (is_some payload))) state_conflict _ h3).1 in
    let h5 = (guard->> (not (not (to == db) && is_some payload)) state_conflict _ h4).1 in
    first_eq ((guard->> (not (drop_source && not (from == db))) state_conflict _ h5).1)

pub adopt-Quiet :
    (now : ℕ) (key from to : Text) (payload : Option Text) (drop_source : Bool) (t : Table)
    → WellFormed t
    → Quiet t (committed_with (adopt now key from to payload drop_source t) t)
unfolding adopt_object
adopt-Quiet now key from to payload drop_source t w =
    committed_with-holds (Quiet t) (adopt now key from to payload drop_source t) t (stays t w)
      (λ a next h.
        subst (Quiet t) (ap (λ p. p.1) (adopt-done now key from to payload drop_source t h)) (
          update-Quiet key (at_source from) (moved now to payload drop_source) t
            (moved_key now to payload drop_source) (moved_count now to payload drop_source)
            (λ r f c. moved_fine now to payload drop_source r f) w))

without_payload_key : (now : ℕ) → Keeps (without_payload now)
unfolding without_payload
without_payload_key now r = refl

without_payload_count : (now : ℕ) (r : Row) → (without_payload now r).ref_count ≡ r.ref_count
unfolding without_payload
without_payload_count now r = refl

pub rewrite_key : (now : ℕ) (payload : Text) → Keeps (rewrite now payload)
unfolding rewrite
rewrite_key now payload r = refl

pub rewrite_count :
    (now : ℕ) (payload : Text) (r : Row) → (rewrite now payload r).ref_count ≡ r.ref_count
unfolding rewrite
rewrite_count now payload r = refl

pub erase-Quiet :
    (now : ℕ) (key : Text) (t : Table)
    → WellFormed t
    → Quiet t (committed (delete_content now key t) t)
unfolding delete_content
erase-Quiet now key t w = committed-holds (Quiet t) (delete_content now key t) t (stays t w) after
  where
    rest : Row → Result StoreError Table
    rest row =
        if is_some row.payload then ok (update key (λ r. true) (without_payload now) t) else ok t

    after : (next : Table) → delete_content now key t ≡ ok next → Quiet t next
    after next h =
        let (row, e, q) =
          >>=-eq-ok (or_else (row_of key t) not_found) rest ((>>-both (check_key key) _ h).1) in
        elim (Bool-cases (is_some row.payload)) [
          | inl c ↦ subst (Quiet t) (first_eq (rw c at q)) (
              update-Quiet key (λ r. true) (without_payload now) t (without_payload_key now)
                (without_payload_count now) (λ r f c. without_payload_fine now r f) w)
          | inr c ↦ subst (Quiet t) (first_eq (rw c at q)) (stays t w)
        ]
