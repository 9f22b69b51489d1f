-- ===== src/Objects/VerifyRun.antt =====
-- internal/service/blobverify.go: a whole run of the comparison, with `ListByCategory` of
-- internal/store/objects.go.
use k8s_ai.Base.{
  ℕ, ◌+◌, Bool, false, not, ◌||◌, List, [], ◌∷◌, Option, none, some, Text, ◌==◌, text_eq, text_leb,
  if◌then◌else◌, is_empty, filter, length, Result, ok, err, guard, ◌>>=◌, ◌>>◌,
}
use k8s_ai.Objects.Key.{KeyError, valid_category, normalize_prefix}
use k8s_ai.Objects.Row.{StoreError, Row, Table}
use k8s_ai.Objects.Registry.{mark_missing}
use k8s_ai.Objects.Refs.{Ref}
use k8s_ai.Objects.Collector.{is_own, orphans_of}
use k8s_ai.Objects.Verify.{
  BackendError, VerifyResult, empty_result, VerifyScan, ContentBackend, scan,
}

abbrev pub no_scan : VerifyScan
no_scan = record { result = empty_result; to_mark = []; stopped = false }

-- `ORDER BY blob_key`.
unfoldable pub insert_by_key : Row → List Row → List Row
insert_by_key r [] = r ∷ []
insert_by_key r (q ∷ qs) =
    let rest = insert_by_key r qs in if text_leb r.blob_key q.blob_key then r ∷ q ∷ qs else q ∷ rest

unfoldable pub order_by_key : List Row → List Row
order_by_key [] = []
order_by_key (r ∷ rs) = insert_by_key r (order_by_key rs)

-- `ListByCategory`, whose own test of the category `Run` has made before.
unfoldable pub list_by_category : Text → Table → List Row
list_by_category category t =
    order_by_key (filter (λ r. is_empty category || r.category == category) t)

-- `VerifyOptions`.
pub record VerifyOptions : Type 0 where
  pub category : Text
  pub prefix : Text
  pub deep : Bool

-- Why a run did not start, and why it did not end.
pub data VerifyRefusal : Type 0 where
  unknown_category : VerifyRefusal
  unknown_prefix : KeyError → VerifyRefusal

pub data VerifyFailure : Type 0 where
  no_answer no_listing : VerifyFailure
  not_marked : StoreError → VerifyFailure
  bad_root : KeyError → VerifyFailure

-- The account, the table after the rows were marked, and a failure.
pub record Report : Type 0 where
  pub result : VerifyResult
  pub table : Table
  pub failure : Option VerifyFailure

abbrev pub total_size : List Ref → ℕ
total_size [] = 0
total_size (r ∷ rs) = r.size + total_size rs

-- The difference of the backend and the table.
unfoldable pub inventory : Text → Table → List Ref → VerifyResult → VerifyResult
inventory root t listed r =
    let lost_refs = orphans_of root t listed in
    record r {
      bucket_keys = length listed;
      foreign = length (filter (λ ref. not (is_own root ref)) listed);
      orphans = length lost_refs;
      orphan_bytes = total_size lost_refs;
    }

abbrev pub or_unknown_prefix : Result KeyError Text → Result VerifyRefusal Text
or_unknown_prefix (err why) = err (unknown_prefix why)
or_unknown_prefix (ok prefix) = ok prefix

-- The rows are looked at.
unfoldable pub verify_scan : ContentBackend → VerifyOptions → Table → VerifyScan
verify_scan b opts t = scan b opts.deep (list_by_category opts.category t) no_scan

-- `Run`. `listing` is what `List` of the backend answers; `meanwhile` is committed by others while
-- the rows are looked at, `later` before the inventory reads the table again.
module _ (b : ContentBackend) (listing : Text → Result BackendError (List Ref))
    (meanwhile later : Table → Table) where
  unfoldable pub verify_inventory : Text → VerifyResult → Table → Report
  verify_inventory root res t = elim (listing root) [
    | err why ↦ record { result = res; table = t; failure = some no_listing }
    | ok listed ↦ record { result = inventory root (later t) listed res; table = t; failure = none }
  ]

  -- `BuildInventory` normalizes the prefix again.
  unfoldable pub verify_reverse : Text → VerifyResult → Table → Report
  verify_reverse prefix res t = elim (normalize_prefix prefix) [
    | err why ↦ record { result = res; table = t; failure = some (bad_root why) }
    | ok root ↦ verify_inventory root res t
  ]

  -- `MarkMissing`, once all rows have been looked at.
  unfoldable pub verify_marked : ℕ → Text → VerifyScan → Table → Report
  verify_marked now prefix s t =
      let (next, failure) = mark_missing now s.to_mark t in
      elim failure [
        | some why ↦ record { result = s.result; table = next; failure = some (not_marked why) }
        | none ↦
            verify_reverse prefix (record s.result { rows_marked_missing = length s.to_mark }) next
      ]

  unfoldable pub verify_scanned : ℕ → Text → VerifyScan → Table → Report
  verify_scanned now prefix s t =
      if s.stopped
      then record { result = s.result; table = t; failure = some no_answer }
      else verify_marked now prefix s t

  unfoldable pub verify_run : ℕ → VerifyOptions → Table → Result VerifyRefusal Report
  verify_run now opts t = do
    guard (is_empty opts.category || valid_category opts.category) unknown_category
    prefix ← or_unknown_prefix (normalize_prefix opts.prefix)
    ok (verify_scanned now prefix (verify_scan b opts t) (meanwhile t))
