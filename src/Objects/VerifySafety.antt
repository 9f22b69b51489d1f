-- ===== src/Objects/VerifySafety.antt =====
-- internal/service/blobverify.go: a run changes the rows of absent contents only.
use k8s_ai.Base.{
  ℕ, ◌≡◌, refl, sym, ap, ◌∙◌, arith, ◌⊎◌, inl, inr, true, false, ◌||◌, Bool-cases, Option-cases,
  List, [], ◌∷◌, some, Text, text_eq, text_beq, nat_eq, is_empty, contains, if◌then◌else◌, Result,
  ok, err, guard->>, >>-both, >>=-eq-ok,
}
use k8s_ai.Objects.Row.{Table, row_of, missing, affects}
use k8s_ai.Objects.Registry.{mark_missing, mark_one_missing, can_miss, check_key, get}
use k8s_ai.Objects.Rows.{ok_injective, flip}
use k8s_ai.Objects.Inserts.{other_row}
use k8s_ai.Objects.Acquire.{Result-cases}
use k8s_ai.Objects.Refs.{Ref}
use k8s_ai.Objects.Key.{normalize_prefix, valid_category}
use k8s_ai.Objects.CollectorSafety.{Result-split}
use k8s_ai.Objects.Verify.{BackendError, VerifyResult, VerifyScan, ContentBackend}
use k8s_ai.Objects.VerifyRun.{
  verify_scan, VerifyOptions, Report, verify_run, verify_marked, no_answer, verify_scanned,
  verify_inventory, verify_reverse, or_unknown_prefix, unknown_category, VerifyRefusal,
}
use k8s_ai.Objects.VerifyMarks.{WasAbsent, scanned-WasAbsent}

mark_one_missing-other :
    (now : ℕ) (key of : Text) (t : Table) {next : Table}
    → text_beq of key ≡ false
    → mark_one_missing now key t ≡ ok next
    → row_of of next ≡ row_of of t
unfolding mark_one_missing
mark_one_missing-other now key of t no_match h =
    let (valid, done) = >>-both (check_key key) _ h in
    elim (Bool-cases (affects key can_miss t)) [
      | inl e ↦
          ap (row_of of) (sym (ok_injective (rw e at done)))
          ∙ other_row key of can_miss (λ r. record r { state = missing; updated_at = now }) t
              (λ r. refl) no_match
      | inr e ↦
          let (r, found, same) = >>=-eq-ok (get key t) (λ r. ok t) (rw e at done) in
          ap (row_of of) (sym (ok_injective same))
    ]

-- Marking changes the rows of the listed keys only.
mark_missing-other :
    (now : ℕ) (keys : List Text) (of : Text) (t : Table)
    → contains keys of ≡ false
    → row_of of (mark_missing now keys t).0 ≡ row_of of t
unfolding mark_missing
mark_missing-other now [] of t h = refl
mark_missing-other now (key ∷ keys) of t h = elim (Result-cases (mark_one_missing now key t)) [
  | inl (why, e) ↦ rw (mark_missing, e) refl
  | inr (next, e) ↦
      rw (mark_missing, e)
        (mark_missing-other now keys of next (ground arith)
          ∙ mark_one_missing-other now key of t (flip key of (ground arith)) e)
]

abbrev report_of : Report → Result VerifyRefusal Report → Report
report_of other (err why) = other
report_of other (ok report) = report

module _ (b : ContentBackend) (listing : Text → Result BackendError (List Ref))
    (meanwhile later : Table → Table) where
  verify_reverse-table :
      (prefix : Text) (res : VerifyResult) (t : Table)
      → (verify_reverse b listing meanwhile later prefix res t).table ≡ t
  unfolding verify_reverse verify_inventory
  verify_reverse-table prefix res t = elim (Result-split (normalize_prefix prefix)) [
    | inl (why, e) ↦ rw (verify_reverse, e) refl
    | inr (root, e) ↦ elim (Result-split (listing root)) [
      | inl (why, f) ↦ rw (verify_reverse, e, verify_inventory, f) refl
      | inr (listed, f) ↦ rw (verify_reverse, e, verify_inventory, f) refl
    ]
  ]

  verify_marked-table :
      (now : ℕ) (prefix : Text) (s : VerifyScan) (t : Table)
      → (verify_marked b listing meanwhile later now prefix s t).table
        ≡ (mark_missing now s.to_mark t).0
  unfolding verify_marked
  verify_marked-table now prefix s t = elim (Option-cases ((mark_missing now s.to_mark t).1)) [
    | inl e ↦ rw (verify_marked, e) (verify_reverse-table prefix _ _)
    | inr (why, e) ↦ rw (verify_marked, e) refl
  ]

  verify_scanned_ended :
      (now : ℕ) (prefix : Text) (s : VerifyScan) (t : Table)
      → s.stopped ≡ true
      → (verify_scanned b listing meanwhile later now prefix s t).table ≡ t
  unfolding verify_scanned
  verify_scanned_ended now prefix s t e =
      ap
        (λ c.
          (if c
            then record { result = s.result; table = t; failure = some no_answer }
            else verify_marked b listing meanwhile later now prefix s t).table)
        e

  verify_scanned_marked :
      (now : ℕ) (prefix : Text) (s : VerifyScan) (t : Table)
      → s.stopped ≡ false
      → (verify_scanned b listing meanwhile later now prefix s t).table
        ≡ (mark_missing now s.to_mark t).0
  unfolding verify_scanned
  verify_scanned_marked now prefix s t e =
      ap
        (λ c.
          (if c
            then record { result = s.result; table = t; failure = some no_answer }
            else verify_marked b listing meanwhile later now prefix s t).table)
        e
      ∙ verify_marked-table now prefix s t

  -- A run of the comparison that starts leaves the row of a key as others have left it, or no
  -- answer of the backend was missing in the look at the rows, and the table had a row of the key,
  -- of this backend and not being deleted, whose content the backend said is absent.
  pub verify_run-WasAbsent :
      (now : ℕ) (opts : VerifyOptions) (t : Table) (key : Text) {report : Report}
      → verify_run b listing meanwhile later now opts t ≡ ok report
      → (row_of key report.table ≡ row_of key (meanwhile t))
        ⊎ (((verify_scan b opts t).stopped ≡ false) × WasAbsent b t key)
  unfolding verify_run
  verify_run-WasAbsent now opts t key {report} h =
      let h1 =
        (guard->> (is_empty opts.category || valid_category opts.category) unknown_category _
          h).1 in
      let (prefix, parsed, done) =
        >>=-eq-ok (or_unknown_prefix (normalize_prefix opts.prefix)) _ h1 in
      let same = ap (report_of report) done in
      let s = verify_scan b opts t in
      let ended = ap (λ r. r.table) (sym same) in
      elim (Bool-cases s.stopped) [
        | inl e ↦ inl (ap (row_of key) (ended ∙ verify_scanned_ended now prefix s (meanwhile t) e))
        | inr e ↦ elim (Bool-cases (contains s.to_mark key)) [
          | inl c ↦ inr (e, scanned-WasAbsent b opts t key c)
          | inr c ↦ inl (
              ap (row_of key) (ended ∙ verify_scanned_marked now prefix s (meanwhile t) e)
              ∙ mark_missing-other now s.to_mark key (meanwhile t) c)
        ]
      ]
