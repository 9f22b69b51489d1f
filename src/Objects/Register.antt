-- ===== src/Objects/Register.antt =====
-- internal/store/objects.go: what a registration does to the table and to the counts.
use k8s_ai.Base.{
  ℕ, ◌+◌, ◌≡◌, refl, sym, ap, ◌∙◌, subst, arith, inl, inr, true, false, not, ◌&&◌, ◌||◌, Bool-cases,
  Option, none, some, Text, codes, ◌==◌, nat_eq, text_eq, text_beq, text_beq_iff, if◌then◌else◌,
  any, ok, err, >>-both, >>=-eq-ok,
}
use k8s_ai.Objects.Row.{
  State, unknown_state, negative_count, Row, Meta, Table, StoreError, insert, parse_state,
}
use k8s_ai.Objects.Registry.{
  register, check_key, row_from, refresh, upsert, as_count, or_text, or_else,
}
use k8s_ai.Objects.Refs.{is_some}
use k8s_ai.Objects.Rows.{Keeps, has_key, flip}
use k8s_ai.Objects.Inserts.{insert-done}
use k8s_ai.Objects.Invariant.{WellFormed, is_fine, is_leaving, leaves, insert-WellFormed}
use k8s_ai.Objects.Acquire.{Result-cases}
use k8s_ai.Objects.Ledger.{refs, count_or_zero, counted, is_sound_state, is_sound_meta}
use k8s_ai.Objects.LedgerLaws.{refs-insert, fresh_refs}
use k8s_ai.Objects.Quiet.{update-Quiet, first_eq}

refresh_key : (new : Row) → Keeps (refresh new)
unfolding refresh
refresh_key new r = refl

refresh_count : (new r : Row) → (refresh new r).ref_count ≡ r.ref_count
unfolding refresh
refresh_count new r = refl

refresh_fine : (new r : Row) → is_fine r ≡ true → is_fine (refresh new r) ≡ true
unfolding refresh is_fine is_leaving
refresh_fine new r f = f

-- A row that was there keeps its count, and one that is new brings its own.
record Upserted (new : Row) (t next : Table) : Type 0 where
  pub formed : WellFormed next
  pub counts :
      (key : Text)
      → refs key next
        ≡ refs key t
          + (if key == new.blob_key && not (has_key new.blob_key t) then new.ref_count else 0)

insert-known :
    (new : Row) (t : Table) {why : StoreError}
    → insert new t ≡ err why
    → has_key new.blob_key t ≡ true
unfolding insert has_key
insert-known new t h = elim (Bool-cases (any (λ q. q.blob_key == new.blob_key) t)) [
  | inl e ↦ e
  | inr e ↦ cc (rw e at h)
]

insert-Upserted :
    (new : Row) (t : Table) {next : Table}
    → is_fine new ≡ true
    → WellFormed t
    → insert new t ≡ ok next
    → Upserted new t next
insert-Upserted new t f w e = record {
  formed = insert-WellFormed new t f e w;
  counts = λ key. refs-insert key new t e ∙ at key;
}
  where
    absent : has_key new.blob_key t ≡ false
    absent = (insert-done new t e).0

    at :
        (key : Text)
        → (if new.blob_key == key then new.ref_count else refs key t)
          ≡ refs key t
            + (if key == new.blob_key && not (has_key new.blob_key t) then new.ref_count else 0)
    at key = elim (Bool-cases (text_beq new.blob_key key)) [
      | inl q ↦
          let same = (text_beq_iff new.blob_key key).0 q in
          let back : text_beq key new.blob_key ≡ true =
            (text_beq_iff key new.blob_key).1 (sym same) in
          let zero : refs key t ≡ 0 = ap (λ k. refs k t) (sym same) ∙ fresh_refs new t e in
          rw (q, back, absent, zero) (omega arith)
      | inr q ↦ rw (q, flip new.blob_key key q) (omega arith)
    ]

upsert-Upserted :
    (new : Row) (t : Table) → is_fine new ≡ true → WellFormed t → Upserted new t (upsert new t)
unfolding upsert
upsert-Upserted new t f w = elim (Result-cases (insert new t)) [
  | inr (next, e) ↦ rw (upsert, e) (insert-Upserted new t f w e)
  | inl (why, e) ↦
      let quiet =
        update-Quiet new.blob_key (λ q. true) (refresh new) t (refresh_key new) (refresh_count new)
          (λ r g c. refresh_fine new r g) w in
      rw (upsert, e)
        (record {
          formed = quiet.formed;
          counts = λ key. rw (insert-known new t e) (quiet.same key ∙ (ground arith));
        })
]

or_else_ok :
    {A : Type 0} (o : Option A) (why : StoreError) (a : A) → or_else o why ≡ ok a → o ≡ some a
or_else_ok none why a h = cc h
or_else_ok (some x) why a h = ap some (first_eq h)

row_fine :
    (now : ℕ) (s : State) (n : ℕ) (m : Meta)
    → not (leaves s) || (n == 0 && is_some m.deleted_at) ≡ true
    → is_fine (row_from now s n none m) ≡ true
unfolding is_fine is_leaving row_from
row_fine now s n m f = f

-- A registration that is sound.
pub register-Upserted :
    (now : ℕ) (m : Meta) (t : Table) {next : Table}
    → WellFormed t
    → is_sound_meta m ≡ true
    → register now m t ≡ ok next
    → WellFormed next
      × ((key : Text)
          → refs key next
            ≡ refs key t
              + (if key == m.blob_key && not (has_key m.blob_key t) then counted m else 0))
unfolding register row_from
register-Upserted now m t {next} w sound h =
    let h1 = (>>-both (check_key m.blob_key) _ h).1 in
    let (s, p, h2) =
      >>=-eq-ok (or_else (parse_state (or_text m.state (codes "ready"))) unknown_state) _ h1 in
    let (n, c, h3) = >>=-eq-ok (or_else (as_count m.ref_count) negative_count) _ h2 in
    let state = or_else_ok (parse_state (or_text m.state (codes "ready"))) unknown_state s p in
    let count = or_else_ok (as_count m.ref_count) negative_count n c in
    let counts : counted m ≡ n = ap count_or_zero count in
    by_row s n (first_eq h3) counts (
      sym (
        ap (λ x. is_sound_state x (counted m) m.deleted_at) state
        ∙ ap (λ k. is_sound_state (some s) k m.deleted_at) counts)
      ∙ sound)
  where
    by_row :
        (s : State) (n : ℕ)
        → upsert (row_from now s n none m) t ≡ next
        → counted m ≡ n
        → not (leaves s) || (n == 0 && is_some m.deleted_at) ≡ true
        → WellFormed next
          × ((key : Text)
              → refs key next
                ≡ refs key t
                  + (if key == m.blob_key && not (has_key m.blob_key t) then counted m else 0))
    by_row s n e c f =
        let u = upsert-Upserted (row_from now s n none m) t (row_fine now s n m f) w in
        (
          subst WellFormed e u.formed,
          λ key.
              ap (refs key) (sym e)
              ∙ (u.counts key
                  ∙ ap
                      (λ k.
                        refs key t
                        + (if key == m.blob_key && not (has_key m.blob_key t) then k else 0))
                      (sym c)),
        )
