-- ===== src/Objects/Rows.antt =====
-- internal/store/objects.go: what a statement does to the row of a key.
use k8s_ai.Base.{
  ◌≡◌, refl, sym, ◌∙◌, subst, arith, inl, inr, Bool, true, false, not, ◌&&◌, ◌||◌, Bool-cases, [],
  ◌∷◌, Option, none, some, Text, ◌==◌, nat_eq, text_eq, text_beq, text_beq_iff, if◌then◌else◌, any,
  all, filter, Result, ok,
}
use k8s_ai.Objects.Row.{Row, Table, row_of, update, affects}

-- A row by row change, as `update` makes it.
abbrev pub changed : Text → (Row → Bool) → (Row → Row) → Row → Row
changed key cond change r = if r.blob_key == key && cond r then change r else r

-- The change keeps the key.
abbrev pub Keeps : (Row → Row) → Type 0
Keeps change = (r : Row) → (change r).blob_key ≡ r.blob_key

abbrev pub map_row : (Row → Row) → Option Row → Option Row
map_row f none = none
map_row f (some r) = some (f r)

abbrev pub test_row : (Row → Bool) → Option Row → Bool
test_row p none = false
test_row p (some r) = p r

pub all-update :
    (p : Row → Bool) (key : Text) (cond : Row → Bool) (change : Row → Row) (t : Table)
    → ((r : Row) → p r ≡ true → cond r ≡ true → p (change r) ≡ true)
    → all p t ≡ true
    → all p (update key cond change t) ≡ true
unfolding update
all-update p key cond change [] keep h = refl
all-update p key cond change (r ∷ t) keep h =
    ground (arith, keep r, all-update p key cond change t keep)

changed_key :
    (key : Text) (cond : Row → Bool) (change : Row → Row) (r : Row)
    → Keeps change
    → (changed key cond change r).blob_key ≡ r.blob_key
changed_key key cond change r keep = ground (arith, keep r)

some_injective : {A : Type 0} {a b : A} → some a ≡ some b → a ≡ b
some_injective h = cc

pub ok_injective : {E A : Type 0} {a b : A} → ◌≡◌ {A = Result E A} (ok a) (ok b) → a ≡ b
ok_injective h = cc

or_false : (b : Bool) → (b || false) ≡ b
or_false true = refl
or_false false = refl

pub or_left : (a b : Bool) → (a || b) ≡ false → a ≡ false
or_left a b h = ground arith

pub flip : (s u : Text) → text_beq s u ≡ false → text_beq u s ≡ false
flip s u h = elim (Bool-cases (text_beq u s)) [
  | inl e ↦ cc (sym h ∙ (text_beq_iff s u).1 (sym ((text_beq_iff u s).0 e)))
  | inr e ↦ e
]

map_row-if :
    (f : Row → Row) (b : Bool) (x y : Option Row)
    → map_row f (if b then x else y) ≡ (if b then map_row f x else map_row f y)
map_row-if f true x y = refl
map_row-if f false x y = refl

pub row_of-update :
    (key of : Text) (cond : Row → Bool) (change : Row → Row) (t : Table)
    → Keeps change
    → row_of of (update key cond change t) ≡ map_row (changed key cond change) (row_of of t)
unfolding update row_of
row_of-update key of cond change [] keep = refl
row_of-update key of cond change (r ∷ t) keep =
    rw (changed_key key cond change r keep, row_of-update key of cond change t keep)
      (sym (map_row-if (changed key cond change) (text_beq r.blob_key of) (some r) (row_of of t)))

-- The keys are distinct: `blob_key` is the primary key.
unfoldable pub has_key : Text → Table → Bool
has_key key t = any (λ r. r.blob_key == key) t

unfoldable pub distinct : Table → Bool
distinct [] = true
distinct (r ∷ t) = not (has_key r.blob_key t) && distinct t

pub has_key-update :
    (key of : Text) (cond : Row → Bool) (change : Row → Row) (t : Table)
    → Keeps change
    → has_key of (update key cond change t) ≡ has_key of t
unfolding has_key update
has_key-update key of cond change [] keep = refl
has_key-update key of cond change (r ∷ t) keep =
    rw (changed_key key cond change r keep, has_key-update key of cond change t keep)

pub distinct-update :
    (key : Text) (cond : Row → Bool) (change : Row → Row) (t : Table)
    → Keeps change
    → distinct (update key cond change t) ≡ distinct t
unfolding distinct update
distinct-update key cond change [] keep = refl
distinct-update key cond change (r ∷ t) keep = rw (
  changed_key key cond change r keep,
  has_key-update key r.blob_key cond change t keep,
  distinct-update key cond change t keep,
)

pub row_of-absent : (key : Text) (t : Table) → has_key key t ≡ false → row_of key t ≡ none
unfolding has_key row_of
row_of-absent key [] h = refl
row_of-absent key (r ∷ t) h = ground (arith, row_of-absent key t)

affects-absent :
    (key : Text) (cond : Row → Bool) (t : Table)
    → has_key key t ≡ false
    → affects key cond t ≡ false
unfolding has_key affects
affects-absent key cond [] h = refl
affects-absent key cond (r ∷ t) h = ground (arith, affects-absent key cond t)

-- The key of a row of the rest is another.
absent_tail :
    (key : Text) (r : Row) (t : Table)
    → distinct (r ∷ t) ≡ true
    → text_beq r.blob_key key ≡ true
    → has_key key t ≡ false
unfolding distinct
absent_tail key r t d e =
    subst (λ k. has_key k t ≡ false) ((text_beq_iff r.blob_key key).0 e) (ground arith)

-- Whether a statement affects a row is a test of the row of its key.
pub affects_iff :
    (key : Text) (cond : Row → Bool) (t : Table)
    → distinct t ≡ true
    → affects key cond t ≡ test_row cond (row_of key t)
unfolding affects row_of distinct has_key
affects_iff key cond [] d = refl
affects_iff key cond (r ∷ t) d = elim (Bool-cases (text_beq r.blob_key key)) [
  | inl e ↦ rw (e, affects-absent key cond t (absent_tail key r t d e), or_false)
  | inr e ↦ rw (e, affects_iff key cond t (ground arith))
]

pub all-row_of :
    (p : Row → Bool) (key : Text) (t : Table) {r : Row}
    → all p t ≡ true
    → row_of key t ≡ some r
    → p r ≡ true
unfolding row_of
all-row_of p key [] h e = cc
all-row_of p key (r ∷ t) h e = elim (Bool-cases (text_beq r.blob_key key)) [
  | inl q ↦ subst (λ x. p x ≡ true) (some_injective (rw q at e)) (ground arith)
  | inr q ↦ all-row_of p key t (ground arith) (rw q at e)
]

pub row_of-key : (key : Text) (t : Table) {r : Row} → row_of key t ≡ some r → r.blob_key ≡ key
unfolding row_of
row_of-key key [] e = cc
row_of-key key (r ∷ t) e = elim (Bool-cases (text_beq r.blob_key key)) [
  | inl q ↦
      subst (λ x. x.blob_key ≡ key) (some_injective (rw q at e)) ((text_beq_iff r.blob_key key).0 q)
  | inr q ↦ row_of-key key t (rw q at e)
]

pub row_of-filter :
    (key : Text) (p : Row → Bool) (t : Table)
    → distinct t ≡ true
    → row_of key (filter p t) ≡ (if test_row p (row_of key t) then row_of key t else none)
unfolding row_of distinct has_key
row_of-filter key p [] d = refl
row_of-filter key p (r ∷ t) d = elim (Bool-cases (text_beq r.blob_key key)) [
  | inl e ↦ elim (Bool-cases (p r)) [
    | inl q ↦ rw (e, q, row_of, e)
    | inr q ↦
        rw (
          e,
          q,
          row_of-filter key p t (ground arith),
          row_of-absent key t (absent_tail key r t d e),
        )
  ]
  | inr e ↦ elim (Bool-cases (p r)) [
    | inl q ↦ rw (e, q, row_of, e) (row_of-filter key p t (ground arith))
    | inr q ↦ rw (e, q) (row_of-filter key p t (ground arith))
  ]
]

has_key-filter :
    (key : Text) (p : Row → Bool) (t : Table)
    → has_key key t ≡ false
    → has_key key (filter p t) ≡ false
unfolding has_key
has_key-filter key p [] h = refl
has_key-filter key p (r ∷ t) h = ground (arith, has_key-filter key p t)

pub distinct-filter :
    (p : Row → Bool) (t : Table) → distinct t ≡ true → distinct (filter p t) ≡ true
unfolding distinct
distinct-filter p [] d = refl
distinct-filter p (r ∷ t) d = ground (arith, has_key-filter r.blob_key p t, distinct-filter p t)
