-- ===== src/Objects/Inserts.antt =====
-- internal/store/objects.go: what an insertion does to the row of a key.
use k8s_ai.Base.{
  ◌≡◌, refl, sym, ap, ◌∙◌, subst, arith, inl, inr, Bool, true, false, ◌||◌, Bool-cases,
  Option-cases, [], ◌∷◌, ◌++◌, none, some, Text, ◌==◌, nat_eq, text_eq, text_beq, text_beq_iff,
  if◌then◌else◌, any, all, ok,
}
use k8s_ai.Objects.Row.{Row, Table, row_of, update, affects, insert}
use k8s_ai.Objects.Rows.{
  Keeps, ok_injective, or_left, flip, row_of-update, has_key, distinct, row_of-absent, affects_iff,
  row_of-key,
}

-- An insertion that was done has put a row of a new key at the end.
pub insert-done :
    (r : Row) (t : Table) {next : Table}
    → insert r t ≡ ok next
    → (has_key r.blob_key t ≡ false) × (t ++ (r ∷ []) ≡ next)
unfolding insert has_key
insert-done r t h = elim (Bool-cases (any (λ q. q.blob_key == r.blob_key) t)) [
  | inl e ↦ cc (rw e at h)
  | inr e ↦ (e, ok_injective (rw e at h))
]

row_of_append :
    (key : Text) (r : Row) (t : Table)
    → has_key r.blob_key t ≡ false
    → row_of key (t ++ (r ∷ [])) ≡ (if r.blob_key == key then some r else row_of key t)
unfolding row_of has_key
row_of_append key r [] h = refl
row_of_append key r (q ∷ t) h = elim (Bool-cases (text_beq q.blob_key key)) [
  | inl e ↦ elim (Bool-cases (text_beq r.blob_key key)) [
    | inl f ↦ cc (clash e f)
    | inr f ↦ rw (e, f)
  ]
  | inr e ↦ rw e (row_of_append key r t (ground arith))
]
  where
    clash : text_beq q.blob_key key ≡ true → text_beq r.blob_key key ≡ true → false ≡ true
    clash e f =
        sym (or_left _ _ h)
        ∙ (text_beq_iff q.blob_key r.blob_key).1
            ((text_beq_iff q.blob_key key).0 e ∙ sym ((text_beq_iff r.blob_key key).0 f))

pub row_of-insert :
    (key : Text) (r : Row) (t : Table) {next : Table}
    → insert r t ≡ ok next
    → row_of key next ≡ (if r.blob_key == key then some r else row_of key t)
row_of-insert key r t h =
    let (fresh, e) = insert-done r t h in ap (row_of key) (sym e) ∙ row_of_append key r t fresh

has_key_append :
    (key : Text) (r : Row) (t : Table)
    → has_key key (t ++ (r ∷ [])) ≡ (has_key key t || text_beq r.blob_key key)
unfolding has_key
has_key_append key r [] = ground arith
has_key_append key r (q ∷ t) = ground (arith, has_key_append key r t)

distinct_append :
    (r : Row) (t : Table)
    → has_key r.blob_key t ≡ false
    → distinct t ≡ true
    → distinct (t ++ (r ∷ [])) ≡ true
unfolding distinct has_key
distinct_append r [] h d = refl
distinct_append r (q ∷ t) h d =
    let other = flip q.blob_key r.blob_key (or_left _ _ h) in
    ground (arith, has_key_append q.blob_key r t, distinct_append r t)

pub distinct-insert :
    (r : Row) (t : Table) {next : Table}
    → insert r t ≡ ok next
    → distinct t ≡ true
    → distinct next ≡ true
distinct-insert r t h d =
    let (fresh, e) = insert-done r t h in
    subst (λ x. distinct x ≡ true) e (distinct_append r t fresh d)

all_append :
    (p : Row → Bool) (r : Row) (t : Table)
    → all p t ≡ true
    → p r ≡ true
    → all p (t ++ (r ∷ [])) ≡ true
all_append p r [] a b = ground arith
all_append p r (q ∷ t) a b = ground (arith, all_append p r t)

pub all-insert :
    (p : Row → Bool) (r : Row) (t : Table) {next : Table}
    → insert r t ≡ ok next
    → all p t ≡ true
    → p r ≡ true
    → all p next ≡ true
all-insert p r t h a b = subst (λ x. all p x ≡ true) ((insert-done r t h).1) (all_append p r t a b)

-- The row of an affected key passes the condition.
pub affected_row :
    (key : Text) (cond : Row → Bool) (t : Table)
    → distinct t ≡ true
    → affects key cond t ≡ true
    → (r : Row) × (row_of key t ≡ some r) × (cond r ≡ true)
affected_row key cond t d h = elim (Option-cases (row_of key t)) [
  | inl e ↦ cc (rw (affects_iff key cond t d, e) at h)
  | inr (r, e) ↦ (r, e, rw (affects_iff key cond t d, e) at h)
]

pub hit_row :
    (key : Text) (cond : Row → Bool) (change : Row → Row) (t : Table) {r : Row}
    → Keeps change
    → row_of key t ≡ some r
    → cond r ≡ true
    → row_of key (update key cond change t) ≡ some (change r)
hit_row key cond change t {r} keep e c =
    let same = (text_beq_iff r.blob_key key).1 (row_of-key key t e) in
    rw (row_of-update key key cond change t keep, e, same, c)

pub missed_row :
    (key : Text) (cond : Row → Bool) (change : Row → Row) (t : Table) {r : Row}
    → Keeps change
    → row_of key t ≡ some r
    → cond r ≡ false
    → row_of key (update key cond change t) ≡ some r
missed_row key cond change t {r} keep e c =
    let same = (text_beq_iff r.blob_key key).1 (row_of-key key t e) in
    rw (row_of-update key key cond change t keep, e, same, c)

pub other_row :
    (key of : Text) (cond : Row → Bool) (change : Row → Row) (t : Table)
    → Keeps change
    → text_beq of key ≡ false
    → row_of of (update key cond change t) ≡ row_of of t
other_row key of cond change t keep no_match = elim (Option-cases (row_of of t)) [
  | inl e ↦ rw (row_of-update key of cond change t keep, e)
  | inr (r, e) ↦
      let differs : text_beq r.blob_key key ≡ false =
        subst (λ k. text_beq k key ≡ false) (sym (row_of-key of t e)) no_match in
      rw (row_of-update key of cond change t keep, e, differs)
]

pub insert-fresh :
    (r : Row) (t : Table) {next : Table} → insert r t ≡ ok next → row_of r.blob_key t ≡ none
insert-fresh r t h = row_of-absent r.blob_key t ((insert-done r t h).0)
