-- ===== src/Objects/Refs.antt =====
-- internal/store/tx.go and internal/store/objects.go: the references to an object, which change in
-- the transaction of the row that holds them.
use k8s_ai.Base.{
  ℕ, zero, suc, ◌-◌, ◌+◌, Bool, true, false, not, ◌&&◌, [], ◌∷◌, Option, none, some, Text, codes,
  ◌==◌, nat_eq, text_eq, if◌then◌else◌, ltb, contains, Result, ok, err, guard, ◌>>=◌, ◌>>◌,
}
use k8s_ai.Base.Int.{pos}
use k8s_ai.Objects.Key.{is_sha256}
use k8s_ai.Objects.Row.{
  State, ready, orphaned, missing, deleting, StoreError, not_an_sha, not_found, exists, underflow,
  state_conflict, no_backend, Row, Table, same_state, update, affects, insert,
}
use k8s_ai.Objects.Registry.{check_key, get, row_from}

-- The fields of `objectstore.Ref` that a row is made of.
pub record Ref : Type 0 where
  pub key : Text
  pub sha256 : Text
  pub size : ℕ
  pub media_type : Text

unfoldable pub is_live : Row → Bool
is_live r = not (same_state r.state deleting)

unfoldable pub revive : ℕ → Row → Row
revive now r = record r {
  ref_count = suc r.ref_count;
  state = ready;
  deleted_at = none;
  updated_at = now;
}

-- `incrRefCount`.
unfoldable pub incr_ref_count : ℕ → Text → Table → Bool × Table
incr_ref_count now key t = (affects key is_live t, update key is_live (revive now) t)

unfoldable pub is_held : Row → Bool
is_held r = ltb 0 r.ref_count

-- `decrRefCount`.
unfoldable pub decr_ref_count : ℕ → Text → Table → Bool × Table
decr_ref_count now key t = (
  affects key is_held t,
  update key is_held (λ r. record r { ref_count = r.ref_count - 1; updated_at = now }) t,
)

unfoldable pub is_idle : Row → Bool
is_idle r = r.ref_count == 0 && same_state r.state ready

-- `markOrphan`.
unfoldable pub mark_orphan : ℕ → Text → Table → Table
mark_orphan now key t =
    update key is_idle (λ r. record r { state = orphaned; deleted_at = some now; updated_at = now })
      t

-- The row of an object that had none.
unfoldable pub first_row : ℕ → Ref → Text → Text → Row
first_row now ref driver created_by = row_from now ready 1 none (record {
  blob_key = ref.key;
  sha256 = ref.sha256;
  size = ref.size;
  media_type = ref.media_type;
  category = [];
  driver = driver;
  ref_count = pos 1;
  state = codes "ready";
  deleted_at = none;
  created_by = created_by;
  created_at = none;
})

abbrev pub is_not_found : StoreError → Bool
is_not_found not_found = true
is_not_found why = false

abbrev pub is_exists : StoreError → Bool
is_exists exists = true
is_exists why = false

-- A conflict of an insertion starts the next attempt.
abbrev pub unless_exists :
    Result StoreError Table → Result StoreError Table → Result StoreError Table
unless_exists (ok with_row) again = ok with_row
unless_exists (err why) again = if is_exists why then again else err why

-- What is done where a row was not read.
abbrev pub insert_missing :
    StoreError → Result StoreError Table → Result StoreError Table → Result StoreError Table
insert_missing why inserted again =
    if is_not_found why then unless_exists inserted again else err why

-- The loop of `Acquire`, with `n` attempts left. `others k` is what other transactions commit
-- before this one's statement number `k`.
unfoldable pub attempts :
    ℕ → ℕ → (ℕ → Table → Table) → ℕ → Ref → Text → Text → Table → Result StoreError Table
attempts zero k others now ref driver by t = err state_conflict
attempts (suc n) k others now ref driver by t =
    let before = others k t in
    let read = others (suc k) before in
    let write = others (suc (suc k)) read in
    let again = attempts n (k + 3) others now ref driver by in
    if affects ref.key is_live before
    then ok (update ref.key is_live (revive now) before)
    else elim (get ref.key read) [
      | err why ↦ insert_missing why (insert (first_row now ref driver by) write) (again write)
      | ok row ↦ if same_state row.state deleting then err state_conflict else again read
    ]

-- `Acquire`.
unfoldable pub acquire :
    (ℕ → Table → Table) → ℕ → Ref → Text → Text → Table → Result StoreError Table
acquire others now ref driver by t = do
  check_key ref.key
  guard (is_sha256 ref.sha256) not_an_sha
  attempts 2 0 others now ref driver by t

-- What `Release` reports of a row that it did not change.
abbrev pub refuse_release : Row → Result StoreError Table
refuse_release r = if r.ref_count == 0 then err underflow else err state_conflict

-- `Release`.
unfoldable pub release : ℕ → Text → Table → Result StoreError Table
release now key t = do
  check_key key
  let (changed, next) = decr_ref_count now key t
  if changed then ok (mark_orphan now key next) else get key t >>= refuse_release

-- `ValidDriver`.
unfoldable pub valid_driver : Text → Bool
valid_driver d = contains (codes "db" ∷ codes "dir" ∷ codes "s3" ∷ []) d

abbrev pub db : Text
db = codes "db"

unfoldable pub is_some {ℓ} : {A : Type ℓ} → Option A → Bool
is_some none = false
is_some (some a) = true

unfoldable pub at_source : Text → Row → Bool
at_source from r = r.driver == from && is_live r

-- `ObjectStateMissing` becomes ready, every other state stays.
abbrev pub healed : State → State
healed missing = ready
healed s = s

-- The columns that each of the three statements sets.
unfoldable pub moved : ℕ → Text → Option Text → Bool → Row → Row
moved now to payload drop_source r =
    if to == db
    then record r { driver = to; payload = payload; updated_at = now; state = healed r.state }
    else if drop_source
    then record r { driver = to; payload = none; updated_at = now }
    else record r { driver = to; updated_at = now }

-- `adoptObject`.
unfoldable pub adopt_object : ℕ → Text → Text → Text → Option Text → Bool → Table → Bool × Table
adopt_object now key from to payload drop_source t = (
  affects key (at_source from) t,
  update key (at_source from) (moved now to payload drop_source) t,
)

-- `AdoptObject`.
unfoldable pub adopt :
    ℕ → Text → Text → Text → Option Text → Bool → Table → Result StoreError (Bool × Table)
adopt now key from to payload drop_source t = do
  check_key key
  guard (valid_driver from && valid_driver to) no_backend
  guard (not (from == to)) state_conflict
  guard (not (to == db && not (is_some payload))) state_conflict
  guard (not (not (to == db) && is_some payload)) state_conflict
  guard (not (drop_source && not (from == db))) state_conflict
  ok (adopt_object now key from to payload drop_source t)
