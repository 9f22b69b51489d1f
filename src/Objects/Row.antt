-- ===== src/Objects/Row.antt =====
-- internal/store/objects.go: the rows of the table `objects`, and the statements that read and
-- change them. A statement of SQL is a function on the list of rows; `blob_key` is the primary
-- key, so an insertion of a key that a row has is refused.
use k8s_ai.Base.{
  ℕ, Bool, true, false, not, ◌&&◌, ◌||◌, List, [], ◌∷◌, ◌++◌, Option, none, some, Text, codes, ◌==◌,
  nat_eq, text_eq, if◌then◌else◌, ltb, any, map, find?, Result, ok, err,
}
use k8s_ai.Base.Int.{ℤ}
use k8s_ai.Objects.Key.{KeyError}

-- `objects.state`.
pub data State : Type 0 where
  ready orphaned missing deleting : State

pub data StoreError : Type 0 where
  key_invalid : KeyError → StoreError
  not_an_sha not_found exists unknown_state negative_count underflow state_conflict no_backend
        checksum too_large vanished unreadable :
      StoreError

-- `ObjectMeta` as the table has it, with the content of the db backend. `none` is NULL.
pub record Row : Type 0 where
  pub blob_key : Text
  pub sha256 : Text
  pub size : ℕ
  pub media_type : Text
  pub category : Text
  pub driver : Text
  pub ref_count : ℕ
  pub state : State
  pub deleted_at : Option ℕ
  pub created_by : Text
  pub payload : Option Text
  pub created_at : ℕ
  pub updated_at : ℕ

-- `ObjectMeta` as an argument: the empty state is `none`, the zero time is `none`.
pub record Meta : Type 0 where
  pub blob_key : Text
  pub sha256 : Text
  pub size : ℕ
  pub media_type : Text
  pub category : Text
  pub driver : Text
  pub ref_count : ℤ
  pub state : Text
  pub deleted_at : Option ℕ
  pub created_by : Text
  pub created_at : Option ℕ

abbrev pub Table : Type 0
Table = List Row

-- `objectstore.SystemActor`.
abbrev pub system_actor : Text
system_actor = codes "system"

unfoldable pub same_state : State → State → Bool
same_state ready ready = true
same_state orphaned orphaned = true
same_state missing missing = true
same_state deleting deleting = true
same_state a b = false

-- `ValidObjectState`, with the state that the text names.
unfoldable pub parse_state : Text → Option State
parse_state s =
    if s == codes "ready"
    then some ready
    else if s == codes "orphaned"
    then some orphaned
    else if s == codes "missing"
    then some missing
    else if s == codes "deleting"
    then some deleting
    else none

-- The row of a key.
unfoldable pub row_of : Text → Table → Option Row
row_of key t = find? (λ r. r.blob_key == key) t

-- `UPDATE objects SET ... WHERE blob_key = ? AND ...`.
unfoldable pub update : Text → (Row → Bool) → (Row → Row) → Table → Table
update key cond change t = map (λ r. if r.blob_key == key && cond r then change r else r) t

-- `RowsAffected() > 0` of such a statement.
unfoldable pub affects : Text → (Row → Bool) → Table → Bool
affects key cond t = any (λ r. r.blob_key == key && cond r) t

-- `INSERT INTO objects`.
unfoldable pub insert : Row → Table → Result StoreError Table
insert r t = if any (λ q. q.blob_key == r.blob_key) t then err exists else ok (t ++ (r ∷ []))

-- `ref_count = 0 AND deleted_at IS NOT NULL AND deleted_at < ?` and the two states.
abbrev pub older : ℕ → Row → Bool
older cutoff r = elim r.deleted_at [ none ↦ false | some t ↦ ltb t cutoff ]

unfoldable pub has_no_owner : Row → Bool
has_no_owner r = same_state r.state orphaned || (same_state r.state missing && r.ref_count == 0)

-- The comparison by which `ORDER BY deleted_at` sorts.
abbrev pub deleted_before : Row → Row → Bool
deleted_before r q = elim r.deleted_at [
  | none ↦ true
  | some a ↦ elim q.deleted_at [ none ↦ false | some b ↦ not (ltb b a) ]
]

abbrev pub insert_row : Row → List Row → List Row
insert_row r [] = r ∷ []
insert_row r (q ∷ qs) =
    let rest = insert_row r qs in if deleted_before r q then r ∷ q ∷ qs else q ∷ rest

unfoldable pub order_by_deleted : List Row → List Row
order_by_deleted [] = []
order_by_deleted (r ∷ rs) = insert_row r (order_by_deleted rs)
