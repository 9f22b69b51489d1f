-- ===== src/Objects/Acquire.antt =====
-- internal/store/tx.go: what an `Acquire` that succeeds has done, whatever other transactions do between its statements.
use k8s_ai.Base.{
  ℕ, zero, suc, ◌+◌, ◌<◌, ◌≡◌, text_beq_iff, refl, sym, ap, subst, arith, ◌⊎◌, inl, inr, true,
  Bool-cases, none, some, Text, nat_eq, text_eq, Result, ok, err, guard->>, >>-both,
}
use k8s_ai.Objects.Key.{is_sha256}
use k8s_ai.Objects.Row.{
  ready, deleting, same_state, Row, Table, StoreError, not_an_sha, row_of, update, affects, insert,
}
use k8s_ai.Objects.Registry.{check_key, get, row_from}
use k8s_ai.Objects.Refs.{
  Ref, is_live, revive, first_row, insert_missing, unless_exists, is_not_found, is_exists, attempts,
  acquire,
}
use k8s_ai.Objects.Rows.{Keeps}
use k8s_ai.Objects.Inserts.{affected_row, hit_row, row_of-insert}
use k8s_ai.Objects.Invariant.{
  WellFormed, is_fine, is_leaving, leaves, revive_fine, update-WellFormed, insert-WellFormed,
}

unless_exists-cases :
    (inserted again : Result StoreError Table) {next : Table}
    → unless_exists inserted again ≡ ok next
    → (inserted ≡ ok next) ⊎ (again ≡ ok next)
unless_exists-cases (ok with_row) again h = inl h
unless_exists-cases (err why) again h = elim (Bool-cases (is_exists why)) [
  | inl e ↦ inr (rw e at h)
  | inr e ↦ cc (rw e at h)
]

-- An insertion for a missing row ends in a success of its own or of the next attempt.
insert_missing-cases :
    (why : StoreError) (inserted again : Result StoreError Table) {next : Table}
    → insert_missing why inserted again ≡ ok next
    → (inserted ≡ ok next) ⊎ (again ≡ ok next)
insert_missing-cases why inserted again h = elim (Bool-cases (is_not_found why)) [
  | inl e ↦ unless_exists-cases inserted again (rw e at h)
  | inr e ↦ cc (rw e at h)
]

pub Result-cases :
    {A : Type 0} (r : Result StoreError A)
    → ((why : StoreError) × (r ≡ err why)) ⊎ ((a : A) × (r ≡ ok a))
Result-cases (err why) = inl (why, refl)
Result-cases (ok a) = inr (a, refl)

ok_injective : {A : Type 0} {a b : A} → ◌≡◌ {A = Result StoreError A} (ok a) (ok b) → a ≡ b
ok_injective h = cc

module _ (P Q : Table → Type 0) (others : ℕ → Table → Table) (now : ℕ) (ref : Ref)
    (driver by : Text) (calm : (k : ℕ) (t : Table) → P t → P (others k t))
    (counts : (t : Table)
      → P t
      → affects ref.key is_live t ≡ true
      → Q (update ref.key is_live (revive now) t))
    (inserts : (t next : Table)
      → P t
      → insert (first_row now ref driver by) t ≡ ok next
      → Q next) where
  attempts-ok :
      (n k : ℕ) (t next : Table) → P t → attempts n k others now ref driver by t ≡ ok next → Q next
  unfolding attempts
  attempts-ok zero k t next p h = cc
  attempts-ok (suc n) k t next p h =
      let before = others k t in
      let read = others (suc k) before in
      let write = others (suc (suc k)) read in
      let pb = calm k t p in
      let pr = calm (suc k) before pb in
      let pw = calm (suc (suc k)) read pr in
      elim (Bool-cases (affects ref.key is_live before)) [
        | inl e ↦ subst Q (ok_injective (rw (attempts, e) at h)) (counts before pb e)
        | inr e ↦ elim (Result-cases (get ref.key read)) [
          | inl (why, g) ↦
              elim (insert_missing-cases why (insert (first_row now ref driver by) write)
                (attempts n (k + 3) others now ref driver by write) (rw (attempts, e, g) at h)) [
                  | inl i ↦ inserts write next pw i
                  | inr i ↦ attempts-ok n (k + 3) write next pw i
                ]
          | inr (row, g) ↦ elim (Bool-cases (same_state row.state deleting)) [
            | inl d ↦ cc (rw (attempts, e, g, d) at h)
            | inr d ↦ attempts-ok n (k + 3) read next pr (rw (attempts, e, g, d) at h)
          ]
        ]
      ]

-- The row that `Acquire` leaves.
pub record IsReferenced (r : Row) : Type 0 where
  pub is_ready : r.state ≡ ready
  pub is_counted : 0 < r.ref_count
  pub not_deleted : r.deleted_at ≡ none

record Done (key : Text) (t : Table) : Type 0 where
  formed : WellFormed t
  row : Row
  found : row_of key t ≡ some row
  referenced : IsReferenced row

first_row_fine :
    (now : ℕ) (ref : Ref) (driver by : Text) → is_fine (first_row now ref driver by) ≡ true
unfolding first_row row_from is_fine is_leaving leaves same_state
first_row_fine now ref driver by = refl

first_row_referenced :
    (now : ℕ) (ref : Ref) (driver by : Text) → IsReferenced (first_row now ref driver by)
unfolding first_row row_from
first_row_referenced now ref driver by = record {
  is_ready = refl;
  is_counted = omega arith;
  not_deleted = refl;
}

pub first_row-key :
    (now : ℕ) (ref : Ref) (driver by : Text) → (first_row now ref driver by).blob_key ≡ ref.key
unfolding first_row row_from
first_row-key now ref driver by = refl

revived_referenced : (now : ℕ) (r : Row) → IsReferenced (revive now r)
unfolding revive
revived_referenced now r = record { is_ready = refl; is_counted = omega arith; not_deleted = refl }

pub revive-Keeps : (now : ℕ) → Keeps (revive now)
unfolding revive
revive-Keeps now r = refl

counted :
    (now : ℕ) (ref : Ref) (t : Table)
    → WellFormed t
    → affects ref.key is_live t ≡ true
    → Done ref.key (update ref.key is_live (revive now) t)
counted now ref t w h =
    let (r, e, c) = affected_row ref.key is_live t w.keys h in
    record {
      formed =
          update-WellFormed ref.key is_live (revive now) t (revive-Keeps now)
            (λ r f c. revive_fine now r) w;
      row = revive now r;
      found = hit_row ref.key is_live (revive now) t (revive-Keeps now) e c;
      referenced = revived_referenced now r;
    }

inserted :
    (now : ℕ) (ref : Ref) (driver by : Text) (t next : Table)
    → WellFormed t
    → insert (first_row now ref driver by) t ≡ ok next
    → Done ref.key next
inserted now ref driver by t next w h = record {
  formed = insert-WellFormed (first_row now ref driver by) t (first_row_fine now ref driver by) h w;
  row = first_row now ref driver by;
  found = rw (
    row_of-insert ref.key (first_row now ref driver by) t h,
    (text_beq_iff _ _).1 (first_row-key now ref driver by),
  );
  referenced = first_row_referenced now ref driver by;
}

pub acquire-loop :
    (others : ℕ → Table → Table) (now : ℕ) (ref : Ref) (driver by : Text) (t : Table) {next : Table}
    → acquire others now ref driver by t ≡ ok next
    → attempts 2 0 others now ref driver by t ≡ ok next
unfolding acquire
acquire-loop others now ref driver by t h =
    (guard->> (is_sha256 ref.sha256) not_an_sha _ ((>>-both (check_key ref.key) _ h).1)).1

-- If an acquire succeeds on a well-formed table, and what others commit between its statements
-- keeps tables well formed, then the table is well formed after it and the object has a ready row
-- with a reference and without a time of deletion.
pub acquire-IsReferenced :
    (others : ℕ → Table → Table) (now : ℕ) (ref : Ref) (driver by : Text) (t next : Table)
    → ((k : ℕ) (x : Table) → WellFormed x → WellFormed (others k x))
    → WellFormed t
    → acquire others now ref driver by t ≡ ok next
    → WellFormed next × ((r : Row) × (row_of ref.key next ≡ some r) × IsReferenced r)
acquire-IsReferenced others now ref driver by t next calm w h =
    let done =
      attempts-ok WellFormed (Done ref.key) others now ref driver by calm (counted now ref)
        (inserted now ref driver by) 2 0 t next w (acquire-loop others now ref driver by t h) in
    (done.formed, (done.row, done.found, done.referenced))

abbrev pub idle : ℕ → Table → Table
idle k t = t

-- The two ways an `Acquire` succeeds where nothing is committed meanwhile.
pub acquire-idle :
    (now : ℕ) (ref : Ref) (driver by : Text) (t next : Table)
    → acquire idle now ref driver by t ≡ ok next
    → ((affects ref.key is_live t ≡ true) × (update ref.key is_live (revive now) t ≡ next))
      ⊎ (insert (first_row now ref driver by) t ≡ ok next)
acquire-idle now ref driver by t next h =
    attempts-ok (λ x. x ≡ t)
      (λ y.
        ((affects ref.key is_live t ≡ true) × (update ref.key is_live (revive now) t ≡ y))
        ⊎ (insert (first_row now ref driver by) t ≡ ok y))
      idle now ref driver by (λ k x e. e)
      (λ x e a. inl (
        subst (λ z. affects ref.key is_live z ≡ true) e a,
        ap (update ref.key is_live (revive now)) (sym e),
      ))
      (λ x y e i. inr (subst (λ z. insert (first_row now ref driver by) z ≡ ok y) e i)) 2 0 t next
      refl (acquire-loop idle now ref driver by t h)
