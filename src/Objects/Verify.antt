-- ===== src/Objects/Verify.antt =====
-- internal/service/blobverify.go: the comparison of the table of objects with what the backend holds.
-- The answers of the backend are arguments, numbered by the row that is asked for; what others
-- commit while the rows are looked at, and before the table is read again, are arguments too.
use k8s_ai.Base.{
  ℕ, suc, ◌+◌, Bool, true, false, not, List, [], ◌∷◌, ◌++◌, Option, none, some, Text, ◌==◌, nat_eq,
  text_eq, if◌then◌else◌, ltb, is_empty, length, Result, ok, err,
}
use k8s_ai.Objects.Key.{sha_of_key}
use k8s_ai.Objects.Row.{deleting, Row, same_state}

-- `ErrNotFound`, and every other error of a backend.
pub data BackendError : Type 0 where
  absent unreachable : BackendError

-- `VerifyResult`, without the name of the backend and `Deep`, which are arguments.
pub record VerifyResult : Type 0 where
  pub rows : ℕ
  pub consistent : ℕ
  pub size_mismatch : ℕ
  pub missing_rows : ℕ
  pub deep_checked : ℕ
  pub checksum_mismatch : ℕ
  pub address_mismatch : ℕ
  pub foreign_driver : ℕ
  pub deleting_rows : ℕ
  pub rows_marked_missing : ℕ
  pub bucket_keys : ℕ
  pub orphans : ℕ
  pub orphan_bytes : ℕ
  pub foreign : ℕ
  pub size_mismatch_keys : List Text
  pub missing_keys : List Text
  pub checksum_mismatch_keys : List Text
  pub address_mismatch_keys : List Text

abbrev pub empty_result : VerifyResult
empty_result = record {
  rows = 0;
  consistent = 0;
  size_mismatch = 0;
  missing_rows = 0;
  deep_checked = 0;
  checksum_mismatch = 0;
  address_mismatch = 0;
  foreign_driver = 0;
  deleting_rows = 0;
  rows_marked_missing = 0;
  bucket_keys = 0;
  orphans = 0;
  orphan_bytes = 0;
  foreign = 0;
  size_mismatch_keys = [];
  missing_keys = [];
  checksum_mismatch_keys = [];
  address_mismatch_keys = [];
}

-- `Inconsistent`.
unfoldable pub inconsistent : VerifyResult → ℕ
inconsistent r =
    r.size_mismatch + (r.missing_rows + (r.checksum_mismatch + (r.address_mismatch + r.orphans)))

-- `addSample`.
unfoldable pub add_sample : List Text → Text → List Text
add_sample keys key = if not (ltb (length keys) 5) then keys else keys ++ (key ∷ [])

-- What a row comes to: the cases of the loop, then those of `deepCheck`.
pub data RowVerdict : Type 0 where
  elsewhere in_deletion bad_address lost unanswered bad_size good : RowVerdict
  vanished_since bad_sum deep_bad_size deep_good : RowVerdict

-- The rows are looked at one after the other, up to an answer that is no answer.
pub record VerifyScan : Type 0 where
  pub result : VerifyResult
  pub to_mark : List Text
  pub stopped : Bool

-- The digest in the key is the one of the row, or the key has none.
unfoldable pub address_holds : Row → Bool
address_holds row =
    let want = sha_of_key row.blob_key in if is_empty want then true else row.sha256 == want

-- `deepCheck`: the bytes of the content, or `none` where reading them broke off.
unfoldable pub deep_verdict : (Text → Text) → Row → Result BackendError (Option Text) → RowVerdict
deep_verdict hash row (err absent) = vanished_since
deep_verdict hash row (err unreachable) = unanswered
deep_verdict hash row (ok none) = unanswered
deep_verdict hash row (ok (some content)) =
    if not (hash content == row.sha256)
    then bad_sum
    else if not (length content == row.size)
    then deep_bad_size
    else deep_good

-- The cases of `Stat`.
unfoldable pub stat_verdict : Row → Bool → RowVerdict → Result BackendError ℕ → RowVerdict
stat_verdict row deep deeper (err absent) = lost
stat_verdict row deep deeper (err unreachable) = unanswered
stat_verdict row deep deeper (ok size) =
    if not (size == row.size) then bad_size else if not deep then good else deeper

-- The account of a row.
unfoldable pub settle : Text → RowVerdict → VerifyResult → VerifyResult
settle key elsewhere r = record r { foreign_driver = suc r.foreign_driver }
settle key in_deletion r = record r { deleting_rows = suc r.deleting_rows }
settle key bad_address r = record r {
  address_mismatch = suc r.address_mismatch;
  address_mismatch_keys = add_sample r.address_mismatch_keys key;
}
settle key lost r = record r {
  missing_rows = suc r.missing_rows;
  missing_keys = add_sample r.missing_keys key;
}
settle key unanswered r = r
settle key bad_size r = record r {
  size_mismatch = suc r.size_mismatch;
  size_mismatch_keys = add_sample r.size_mismatch_keys key;
}
settle key good r = record r { consistent = suc r.consistent }
settle key vanished_since r = record r {
  missing_rows = suc r.missing_rows;
  missing_keys = add_sample r.missing_keys key;
}
settle key bad_sum r = record r {
  deep_checked = suc r.deep_checked;
  checksum_mismatch = suc r.checksum_mismatch;
  checksum_mismatch_keys = add_sample r.checksum_mismatch_keys key;
}
settle key deep_bad_size r = record r {
  deep_checked = suc r.deep_checked;
  size_mismatch = suc r.size_mismatch;
  size_mismatch_keys = add_sample r.size_mismatch_keys key;
}
settle key deep_good r = record r {
  deep_checked = suc r.deep_checked;
  consistent = suc r.consistent;
}

abbrev pub marks : RowVerdict → Bool
marks lost = true
marks v = false

abbrev pub stops : RowVerdict → Bool
stops unanswered = true
stops v = false

-- The backend: its name, `Stat` and `Get`, and the digest.
pub record ContentBackend : Type 0 where
  pub driver : Text
  pub stat : ℕ → Text → Result BackendError ℕ
  pub fetch : ℕ → Text → Result BackendError (Option Text)
  pub hash : Text → Text

unfoldable pub row_verdict : ContentBackend → Bool → ℕ → Row → RowVerdict
row_verdict b deep n row =
    if not (row.driver == b.driver)
    then elsewhere
    else if same_state row.state deleting
    then in_deletion
    else if not (address_holds row)
    then bad_address
    else stat_verdict row deep (deep_verdict b.hash row (b.fetch n row.blob_key))
        (b.stat n row.blob_key)

-- One row.
unfoldable pub look : ContentBackend → Bool → Row → VerifyScan → VerifyScan
look b deep row s =
    let v = row_verdict b deep s.result.rows row in
    record {
      result = settle row.blob_key v (record s.result { rows = suc s.result.rows });
      to_mark = if marks v then s.to_mark ++ (row.blob_key ∷ []) else s.to_mark;
      stopped = stops v;
    }

unfoldable pub scan : ContentBackend → Bool → List Row → VerifyScan → VerifyScan
scan b deep [] s = s
scan b deep (row ∷ rows) s =
    let rest = scan b deep rows (look b deep row s) in if s.stopped then s else rest
