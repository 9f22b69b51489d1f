-- ===== src/Objects/QuietPut.antt =====
-- internal/store/objectcontent.go: a `Put` keeps every count and what is well formed.
use k8s_ai.Base.{
  Option, ℕ, ◌≡◌, refl, sym, ap, ◌∙◌, subst, inl, inr, true, not, ◌&&◌, Bool-cases, Option-cases,
  List, Text, ◌==◌, nat_eq, text_eq, text_beq, text_beq_iff, if◌then◌else◌, ok, guard->>, >>=-eq-ok,
}
use k8s_ai.Objects.Key.{Spec, normalize_ext, build_key}
use k8s_ai.Objects.Row.{missing, same_state, Row, Table, state_conflict, checksum, row_of, insert}
use k8s_ai.Objects.Registry.{row_from}
use k8s_ai.Objects.Refs.{Ref, db, is_some}
use k8s_ai.Objects.Payload.{put, read_all_hashed, key_result, put_row, put_again, new_row, rewrite}
use k8s_ai.Objects.Invariant.{
  WellFormed, is_fine, is_leaving, leaves, insert-WellFormed, rewrite_fine,
}
use k8s_ai.Objects.Acquire.{idle, Result-cases}
use k8s_ai.Objects.Ledger.{refs, committed_with}
use k8s_ai.Objects.LedgerLaws.{refs-insert, fresh_refs}
use k8s_ai.Objects.Quiet.{
  committed_with-holds, Quiet, stays, second_eq, update-Quiet, rewrite_key, rewrite_count,
}

put_again-Quiet :
    (now : ℕ) (payload sum : Text) (row : Row) (t next : Table) (ref : Ref)
    → WellFormed t
    → put_again now payload sum row t ≡ ok (ref, next)
    → Quiet t next
unfolding put_again
put_again-Quiet now payload sum row t next ref w h =
    let h1 = (guard->> (row.sha256 == sum) checksum _ h).1 in
    let h2 = (guard->> (row.driver == db) state_conflict _ h1).1 in
    elim (Bool-cases (is_some row.payload && not (same_state row.state missing))) [
      | inl c ↦ subst (Quiet t) (second_eq (rw c at h2)) (stays t w)
      | inr c ↦ subst (Quiet t) (second_eq (rw c at h2)) (
          update-Quiet row.blob_key (λ r. true) (rewrite now payload) t (rewrite_key now payload)
            (rewrite_count now payload) (λ r f c. rewrite_fine now payload r f) w)
    ]

insert-Quiet :
    (r : Row) (t next : Table)
    → is_fine r ≡ true
    → r.ref_count ≡ 0
    → WellFormed t
    → insert r t ≡ ok next
    → Quiet t next
insert-Quiet r t next f zero_count w h = record {
  formed = insert-WellFormed r t f h w;
  same = λ key. refs-insert key r t h ∙ same key;
}
  where
    same : (key : Text) → (if r.blob_key == key then r.ref_count else refs key t) ≡ refs key t
    same key = elim (Bool-cases (text_beq r.blob_key key)) [
      | inl e ↦
          rw (e, zero_count)
            (sym (fresh_refs r t h) ∙ ap (λ k. refs k t) ((text_beq_iff r.blob_key key).0 e))
      | inr e ↦ rw e
    ]

put_row-Quiet :
    (now : ℕ) (fresh : Row) (payload sum : Text) (t next : Table) (ref : Ref)
    → is_fine fresh ≡ true
    → fresh.ref_count ≡ 0
    → WellFormed t
    → put_row idle now fresh payload sum t ≡ ok (ref, next)
    → Quiet t next
unfolding put_row
put_row-Quiet now fresh payload sum t next ref f z w h =
    elim (Option-cases (row_of fresh.blob_key t)) [
      | inr (row, e) ↦ put_again-Quiet now payload sum row t next ref w (rw (put_row, e) at h)
      | inl e ↦ elim (Result-cases (insert fresh t)) [
        | inr (with_row, i) ↦
            subst (Quiet t) (second_eq (rw (put_row, e, i) at h))
              (insert-Quiet fresh t with_row f z w i)
        | inl (why, i) ↦ cc (rw (put_row, e, i) at h)
      ]
    ]

new_row_fine :
    (now : ℕ) (key : Text) (spec : Spec) (ext media by payload sum : Text)
    → is_fine (new_row now key spec ext media by payload sum) ≡ true
unfolding new_row row_from is_fine is_leaving leaves same_state
new_row_fine now key spec ext media by payload sum = refl

new_row_count :
    (now : ℕ) (key : Text) (spec : Spec) (ext media by payload sum : Text)
    → (new_row now key spec ext media by payload sum).ref_count ≡ 0
unfolding new_row row_from
new_row_count now key spec ext media by payload sum = refl

pub put-Quiet :
    (hash : Text → Text) (now max : ℕ) (prefix : Text) (spec : Spec) (media by : Text)
    (chunks : List (Option Text)) (t : Table)
    → WellFormed t
    → Quiet t (committed_with (put hash idle now max prefix spec media by chunks t) t)
unfolding put
put-Quiet hash now max prefix spec media by chunks t w =
    committed_with-holds (Quiet t) (put hash idle now max prefix spec media by chunks t) t
      (stays t w)
      (λ ref next h.
        let ((payload, sum), d, h1) = >>=-eq-ok (read_all_hashed hash max chunks) _ h in
        let (ext, n, h2) = >>=-eq-ok (key_result (normalize_ext spec.ext)) _ h1 in
        let (key, k, h3) =
          >>=-eq-ok (key_result (build_key prefix spec.category spec.scope sum ext)) _ h2 in
        let fresh = new_row now key spec ext media by payload sum in
        put_row-Quiet now fresh payload sum t next ref
          (new_row_fine now key spec ext media by payload sum)
          (new_row_count now key spec ext media by payload sum) w h3)
