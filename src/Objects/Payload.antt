-- ===== src/Objects/Payload.antt =====
-- internal/store/objectcontent.go: the content of the db backend, in a column of the row. The hash
-- of a content is a parameter, `others k` is what is committed before statement number `k`.
use k8s_ai.Base.{
  ℕ, true, not, ◌&&◌, List, [], ◌∷◌, ◌++◌, Option, none, some, Text, codes, ◌==◌, nat_eq, text_eq,
  if◌then◌else◌, ltb, length, Result, ok, err, guard, ◌>>=◌, ◌>>◌,
}
use k8s_ai.Base.Int.{pos}
use k8s_ai.Objects.Key.{KeyError, Spec, normalize_ext, build_key}
use k8s_ai.Objects.Row.{
  State, ready, missing, StoreError, key_invalid, not_found, checksum, too_large, vanished,
  unreadable, state_conflict, Row, Table, same_state, row_of, update, insert,
}
use k8s_ai.Objects.Registry.{check_key, or_else, row_from}
use k8s_ai.Objects.Refs.{Ref, db, is_some, healed}
use k8s_ai.Objects.Media.{resolve_media_type}

-- `ref`.
unfoldable pub ref_of : Row → Ref
ref_of r = record { key = r.blob_key; sha256 = r.sha256; size = r.size; media_type = r.media_type }

abbrev pub key_result {ℓ} : {A : Type ℓ} → Result KeyError A → Result StoreError A
key_result (err why) = err (key_invalid why)
key_result (ok a) = ok a

-- `payload = ?`, where the content has to be written again.
unfoldable pub rewrite : ℕ → Text → Row → Row
rewrite now payload r = record r {
  payload = some payload;
  state = healed r.state;
  updated_at = now;
}

-- The end of `Put`, on a row that exists.
unfoldable pub put_again : ℕ → Text → Text → Row → Table → Result StoreError (Ref × Table)
put_again now payload sum row t = do
  guard (row.sha256 == sum) checksum
  guard (row.driver == db) state_conflict
  if is_some row.payload && not (same_state row.state missing)
      then ok (ref_of row, t)
      else ok (
        record {
          key = row.blob_key;
          sha256 = sum;
          size = length payload;
          media_type = row.media_type;
        },
        update row.blob_key (λ r. true) (rewrite now payload) t,
      )

-- `ObjectContentLimit`: 0 stands for a limit that is not positive.
unfoldable pub object_content_limit : ℕ → ℕ
object_content_limit max =
    let chosen = if max == 0 then 33554432 else max in
    if ltb 16777215 chosen then 16777215 else chosen

-- `StreamHash.Read` until the end of the stream, which comes in chunks; `none` is a read that fails.
-- A content is a list of bytes, so its length is its size. A limit of 0 is none.
unfoldable pub drain : ℕ → Text → List (Option Text) → Result StoreError Text
drain max got [] = ok got
drain max got (none ∷ chunks) = err unreadable
drain max got (some chunk ∷ chunks) =
    let rest = drain max (got ++ chunk) chunks in
    if ltb 0 max && ltb max (length (got ++ chunk)) then err too_large else rest

-- The row of a content that is new.
unfoldable pub new_row : ℕ → Text → Spec → Text → Text → Text → Text → Text → Row
new_row now key spec ext media_type created_by payload sum =
    row_from now ready 0 (some payload) (record {
      blob_key = key;
      sha256 = sum;
      size = length payload;
      media_type = resolve_media_type media_type ext;
      category = spec.category;
      driver = db;
      ref_count = pos 0;
      state = codes "ready";
      deleted_at = none;
      created_by = created_by;
      created_at = none;
    })

-- `Put`, from the row that was looked up on.
unfoldable pub put_row :
    (ℕ → Table → Table) → ℕ → Row → Text → Text → Table → Result StoreError (Ref × Table)
put_row others now fresh payload sum t = elim (row_of fresh.blob_key (others 0 t)) [
  | some row ↦ put_again now payload sum row (others 1 (others 0 t))
  | none ↦ elim (insert fresh (others 1 (others 0 t))) [
    | ok with_row ↦ ok (ref_of fresh, with_row)
    | err why ↦ do
      let later = others 2 (others 1 (others 0 t))
      row ← or_else (row_of fresh.blob_key later) vanished
      put_again now payload sum row (others 3 later)
  ]
]

module _ (hash : Text → Text) where
  -- `ReadAllHashed`.
  unfoldable pub read_all_hashed : ℕ → List (Option Text) → Result StoreError (Text × Text)
  read_all_hashed max chunks = drain max [] chunks >>= (λ content. ok (content, hash content))

  -- `Put`.
  unfoldable pub put :
      (ℕ → Table → Table)
      → ℕ
      → ℕ
      → Text
      → Spec
      → Text
      → Text
      → List (Option Text)
      → Table
      → Result StoreError (Ref × Table)
  put others now max prefix spec media_type created_by chunks t = do
    (payload, sum) ← read_all_hashed max chunks
    ext ← key_result (normalize_ext spec.ext)
    key ← key_result (build_key prefix spec.category spec.scope sum ext)
    put_row others now (new_row now key spec ext media_type created_by payload sum) payload sum t

  -- `Get`.
  unfoldable pub get_content : Text → Table → Result StoreError (Text × Ref)
  get_content key t = do
    check_key key
    row ← or_else (row_of key t) not_found
    payload ← or_else row.payload not_found
    guard (hash payload == row.sha256) checksum
    ok (payload, ref_of row)

-- `Stat`.
unfoldable pub stat : Text → Table → Result StoreError Ref
stat key t = do
  check_key key
  row ← or_else (row_of key t) not_found
  guard (is_some row.payload) not_found
  ok (ref_of row)

abbrev pub first_mark : Option ℕ → ℕ → Option ℕ
first_mark none now = some now
first_mark (some t) now = some t

abbrev pub lost : State → State
lost ready = missing
lost s = s

-- What `Delete` leaves of a row.
unfoldable pub without_payload : ℕ → Row → Row
without_payload now r = record r {
  payload = none;
  deleted_at = first_mark r.deleted_at now;
  updated_at = now;
  state = lost r.state;
}

-- `Delete`.
unfoldable pub delete_content : ℕ → Text → Table → Result StoreError Table
delete_content now key t = do
  check_key key
  row ← or_else (row_of key t) not_found
  if is_some row.payload then ok (update key (λ r. true) (without_payload now) t) else ok t
