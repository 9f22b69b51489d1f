-- ===== src/Objects/LedgerLaws.antt =====
-- internal/store: the count of an object's row is the references taken less those given back.
use k8s_ai.Base.{
  ℕ, ◌+◌, ◌-◌, ◌≡◌, refl, sym, ap, ◌∙◌, arith, inl, inr, Bool, true, false, not, Bool-cases,
  Option-cases, filter, Option, some, Text, ◌==◌, nat_eq, nat_beq, nat_beq_iff, text_eq, text_beq,
  text_beq_iff, if◌then◌else◌, Result, ok, >>-both, >>=-eq-ok,
}
use k8s_ai.Objects.Row.{Row, Table, StoreError, row_of, update, affects, insert}
use k8s_ai.Objects.Registry.{check_key, get, row_from, is_claimed}
use k8s_ai.Objects.Refs.{
  Ref, is_live, is_held, is_idle, revive, first_row, acquire, release, decr_ref_count, mark_orphan,
  refuse_release,
}
use k8s_ai.Objects.Rows.{Keeps, changed, row_of-update, row_of-filter, flip, all-row_of}
use k8s_ai.Objects.Inserts.{row_of-insert, insert-fresh, hit_row, other_row, affected_row}
use k8s_ai.Objects.Invariant.{WellFormed, is_fine, is_leaving, leaves}
use k8s_ai.Objects.Acquire.{acquire-idle, idle, first_row-key, revive-Keeps}
use k8s_ai.Objects.Ledger.{refs, count_row, one_if}

injective : {A : Type 0} {a b : A} → ◌≡◌ {A = Result StoreError A} (ok a) (ok b) → a ≡ b
injective h = cc

-- A change that keeps the count of a row keeps that of the table.
pub refs-update :
    (key of : Text) (cond : Row → Bool) (change : Row → Row) (t : Table)
    → Keeps change
    → ((r : Row) → (change r).ref_count ≡ r.ref_count)
    → refs of (update key cond change t) ≡ refs of t
unfolding refs
refs-update key of cond change t keep same = elim (Option-cases (row_of of t)) [
  | inl e ↦ rw (row_of-update key of cond change t keep, e)
  | inr (r, e) ↦ rw (row_of-update key of cond change t keep, e) (one r)
]
  where
    one : (r : Row) → (changed key cond change r).ref_count ≡ r.ref_count
    one r = ground (arith, same r)

claimed_free : (key : Text) (r : Row) → is_claimed key r ≡ true → is_fine r ≡ true → r.ref_count ≡ 0
unfolding is_claimed is_fine is_leaving leaves
claimed_free key r c f = (nat_beq_iff r.ref_count 0).0 (ground arith)

-- What `Forget` removes is counted at 0.
pub refs-forget :
    (key of : Text) (t : Table)
    → WellFormed t
    → refs of (filter (λ r. not (is_claimed key r)) t) ≡ refs of t
unfolding refs
refs-forget key of t w = elim (Option-cases (row_of of t)) [
  | inl e ↦ rw (row_of-filter of (λ r. not (is_claimed key r)) t w.keys, e)
  | inr (r, e) ↦ elim (Bool-cases (is_claimed key r)) [
    | inl c ↦
        rw (row_of-filter of (λ r. not (is_claimed key r)) t w.keys, e, c)
          (sym (claimed_free key r c (all-row_of is_fine of t w.fine e)))
    | inr c ↦ rw (row_of-filter of (λ r. not (is_claimed key r)) t w.keys, e, c)
  ]
]

count-if :
    (b : Bool) (r : Row) (o : Option Row)
    → count_row (if b then some r else o) ≡ (if b then r.ref_count else count_row o)
count-if true r o = refl
count-if false r o = refl

pub refs-insert :
    (of : Text) (r : Row) (t : Table) {next : Table}
    → insert r t ≡ ok next
    → refs of next ≡ (if r.blob_key == of then r.ref_count else refs of t)
unfolding refs
refs-insert of r t h =
    rw (row_of-insert of r t h) (count-if (text_beq r.blob_key of) r (row_of of t))

-- An affected row is counted by `change` in place of what it was.
refs-hit :
    (key : Text) (cond : Row → Bool) (change : Row → Row) (t : Table)
    → Keeps change
    → WellFormed t
    → affects key cond t ≡ true
    → (r : Row) × (refs key t ≡ r.ref_count)
      × (cond r ≡ true)
      × (refs key (update key cond change t) ≡ (change r).ref_count)
unfolding refs
refs-hit key cond change t keep w h =
    let (r, e, c) = affected_row key cond t w.keys h in
    (r, ap count_row e, c, ap count_row (hit_row key cond change t keep e c))

refs-other :
    (key of : Text) (cond : Row → Bool) (change : Row → Row) (t : Table)
    → Keeps change
    → text_beq of key ≡ false
    → refs of (update key cond change t) ≡ refs of t
unfolding refs
refs-other key of cond change t keep no_match =
    ap count_row (other_row key of cond change t keep no_match)

never_ok : (r : Row) {next : Table} → refuse_release r ≡ ok next → false ≡ true
never_ok r h = elim (Bool-cases (nat_beq r.ref_count 0)) [
  | inl e ↦ cc (rw e at h)
  | inr e ↦ cc (rw e at h)
]

-- A release that succeeds has counted down a row that was held.
pub release-done :
    (now : ℕ) (key : Text) (t : Table) {next : Table}
    → release now key t ≡ ok next
    → (affects key is_held t ≡ true) × (mark_orphan now key ((decr_ref_count now key t).1) ≡ next)
unfolding release decr_ref_count
release-done now key t h =
    let after = (>>-both (check_key key) _ h).1 in
    elim (Bool-cases (affects key is_held t)) [
      | inl e ↦ (e, injective (rw e at after))
      | inr e ↦
          let (r, g, f) = >>=-eq-ok (get key t) refuse_release (rw e at after) in cc (never_ok r f)
    ]

one_less : (r : Row) → is_held r ≡ true → (r.ref_count - 1) + 1 ≡ r.ref_count
unfolding is_held
one_less r h = ground arith

one_more : (now : ℕ) (r : Row) → (revive now r).ref_count ≡ r.ref_count + 1
unfolding revive
one_more now r = omega arith

-- The count after a release of `key`.
pub refs-release :
    (now : ℕ) (key of : Text) (t : Table) {next : Table}
    → WellFormed t
    → release now key t ≡ ok next
    → refs of next + one_if (of == key) ≡ refs of t
unfolding decr_ref_count mark_orphan
refs-release now key of t w h =
    let (held, e) = release-done now key t h in
    let down : Row → Row = λ r. record r { ref_count = r.ref_count - 1; updated_at = now } in
    let same =
      ap (refs of) (sym e)
      ∙ refs-update key of is_idle _ (update key is_held down t) (λ r. refl) (λ r. refl) in
    elim (Bool-cases (text_beq of key)) [
      | inl q ↦
          let (r, was, more, is) = refs-hit key is_held down t (λ r. refl) w held in
          rw (q, same, (text_beq_iff of key).0 q, was, is) (one_less r more)
      | inr q ↦ rw (q, same, refs-other key of is_held down t (λ r. refl) q) (omega arith)
    ]

first_row-count :
    (now : ℕ) (ref : Ref) (driver by : Text) → (first_row now ref driver by).ref_count ≡ 1
unfolding first_row row_from
first_row-count now ref driver by = refl

pub fresh_refs : (r : Row) (t : Table) {next : Table} → insert r t ≡ ok next → refs r.blob_key t ≡ 0
unfolding refs
fresh_refs r t h = ap count_row (insert-fresh r t h)

pub refs-acquire :
    (now : ℕ) (ref : Ref) (driver by of : Text) (t next : Table)
    → WellFormed t
    → acquire idle now ref driver by t ≡ ok next
    → refs of next ≡ refs of t + one_if (of == ref.key)
refs-acquire now ref driver by of t next w h = elim (acquire-idle now ref driver by t next h) [
  | inl (live, e) ↦ elim (Bool-cases (text_beq of ref.key)) [
    | inl q ↦
        let (r, was, more, is) =
          refs-hit ref.key is_live (revive now) t (revive-Keeps now) w live in
        rw (sym e, q, (text_beq_iff of ref.key).0 q, was, is) (one_more now r)
    | inr q ↦
        rw (sym e, q, refs-other ref.key of is_live (revive now) t (revive-Keeps now) q)
          (omega arith)
  ]
  | inr i ↦
      rw (refs-insert of (first_row now ref driver by) t i, first_row-key now ref driver by)
        (elim (Bool-cases (text_beq ref.key of)) [
          | inl q ↦ rw (q, back q, none_before i q, first_row-count now ref driver by)
          | inr q ↦ rw (q, flip ref.key of q) (omega arith)
        ])
]
  where
    back : text_beq ref.key of ≡ true → text_beq of ref.key ≡ true
    back q = (text_beq_iff of ref.key).1 (sym ((text_beq_iff ref.key of).0 q))

    none_before :
        insert (first_row now ref driver by) t ≡ ok next
        → text_beq ref.key of ≡ true
        → refs of t ≡ 0
    none_before i q =
        ap (λ k. refs k t)
          (sym ((text_beq_iff ref.key of).0 q) ∙ sym (first_row-key now ref driver by))
        ∙ fresh_refs (first_row now ref driver by) t i
