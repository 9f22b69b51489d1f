-- ===== src/Objects/Registry.antt =====
-- internal/store/objects.go and internal/store/tx.go: the life of a row. The time is an argument.
-- A failure of the database itself ends its transaction and is no case here.
use k8s_ai.Base.{
  ℕ, ◌+◌, Bool, true, not, ◌&&◌, ◌||◌, List, [], ◌∷◌, Option, none, some, Text, codes, ◌==◌, nat_eq,
  text_eq, if◌then◌else◌, filter, length, Result, ok, err, ◌>>=◌, ◌>>◌,
}
use k8s_ai.Base.Int.{ℤ, pos, negsuc}
use k8s_ai.Objects.Key.{validate_key, category_of}
use k8s_ai.Objects.Row.{
  State, ready, orphaned, missing, deleting, StoreError, key_invalid, not_found, unknown_state,
  negative_count, Row, Meta, Table, system_actor, same_state, parse_state, row_of, update, affects,
  insert, older, has_no_owner, order_by_deleted,
}

-- `ValidateKey` in a function of the store.
unfoldable pub check_key : Text → Result StoreError (Unit {0})
check_key key = elim (validate_key key) [ err why ↦ err (key_invalid why) | ok done ↦ ok tt ]

abbrev pub or_text : Text → Text → Text
or_text [] fallback = fallback
or_text (c ∷ s) fallback = c ∷ s

abbrev pub or_time : Option ℕ → ℕ → ℕ
or_time none now = now
or_time (some t) now = t

-- The row that a `Meta` becomes once its empty fields are filled.
unfoldable pub row_from : ℕ → State → ℕ → Option Text → Meta → Row
row_from now state count payload m = record {
  blob_key = m.blob_key;
  sha256 = m.sha256;
  size = m.size;
  media_type = m.media_type;
  category = or_text m.category (category_of m.blob_key);
  driver = m.driver;
  ref_count = count;
  state = state;
  deleted_at = m.deleted_at;
  created_by = or_text m.created_by system_actor;
  payload = payload;
  created_at = or_time m.created_at now;
  updated_at = now;
}

-- The columns that a second registration refreshes.
unfoldable pub refresh : Row → Row → Row
refresh new r = record r {
  sha256 = new.sha256;
  size = new.size;
  media_type = new.media_type;
  category = new.category;
  driver = new.driver;
  updated_at = new.updated_at;
}

-- `INSERT ... ON CONFLICT (blob_key) DO UPDATE`.
unfoldable pub upsert : Row → Table → Table
upsert r t = elim (insert r t) [
  | ok with_row ↦ with_row
  | err why ↦ update r.blob_key (λ q. true) (refresh r) t
]

abbrev pub as_count : ℤ → Option ℕ
as_count (pos n) = some n
as_count (negsuc n) = none

abbrev pub or_else {ℓ} : {A : Type ℓ} → Option A → StoreError → Result StoreError A
or_else none why = err why
or_else (some a) why = ok a

-- `registerObject`.
unfoldable pub register : ℕ → Meta → Table → Result StoreError Table
register now m t = do
  check_key m.blob_key
  state ← or_else (parse_state (or_text m.state (codes "ready"))) unknown_state
  count ← or_else (as_count m.ref_count) negative_count
  ok (upsert (row_from now state count none m) t)

-- `getObject`.
unfoldable pub get : Text → Table → Result StoreError Row
get key t = do check_key key; or_else (row_of key t) not_found

-- `ListCollectable`.
unfoldable pub list_collectable : ℕ → Table → List Row
list_collectable cutoff t =
    order_by_deleted (filter (λ r. r.ref_count == 0 && older cutoff r && has_no_owner r) t)

-- The condition of `ClaimDeleting`.
unfoldable pub claimable : ℕ → ℕ → Row → Bool
claimable count cutoff r = r.ref_count == count && older cutoff r && has_no_owner r

-- `ClaimDeleting`.
unfoldable pub claim_deleting : ℕ → Text → ℕ → ℕ → Table → Result StoreError (Bool × Table)
claim_deleting now key count cutoff t = do
  check_key key
  ok (
    affects key (claimable count cutoff) t,
    update key (claimable count cutoff) (λ r. record r { state = deleting; updated_at = now }) t,
  )

unfoldable pub can_miss : Row → Bool
can_miss r = same_state r.state ready || same_state r.state orphaned

-- One key of `MarkMissing`.
unfoldable pub mark_one_missing : ℕ → Text → Table → Result StoreError Table
mark_one_missing now key t = do
  check_key key
  if affects key can_miss t
      then ok (update key can_miss (λ r. record r { state = missing; updated_at = now }) t)
      else get key t >>= (λ r. ok t)

-- `Forget` of one key, with the number of rows removed.
unfoldable pub is_claimed : Text → Row → Bool
is_claimed key r = r.blob_key == key && same_state r.state deleting

unfoldable pub forget_one : Text → Table → Result StoreError (ℕ × Table)
forget_one key t = do
  check_key key
  ok (length (filter (is_claimed key) t), filter (λ r. not (is_claimed key r)) t)

-- `MarkMissing`: what was marked before a failure stays marked.
unfoldable pub mark_missing : ℕ → List Text → Table → Table × Option StoreError
mark_missing now [] t = (t, none)
mark_missing now (key ∷ keys) t = elim (mark_one_missing now key t) [
  | err why ↦ (t, some why)
  | ok next ↦ mark_missing now keys next
]

-- `Forget`.
unfoldable pub forget : List Text → Table → (ℕ × Table) × Option StoreError
forget [] t = ((0, t), none)
forget (key ∷ keys) t = elim (forget_one key t) [
  | err why ↦ ((0, t), some why)
  | ok (n, next) ↦ let (done, failure) = forget keys next in ((n + done.0, done.1), failure)
]
