-- ===== src/Objects/VerifyLaws.antt =====
-- internal/service/blobverify.go: the account of a run, and which rows it marks.
use k8s_ai.Base.{
  ℕ, suc, ◌+◌, ◌≡◌, refl, sym, ap, ◌∙◌, subst, arith, inl, inr, Bool, true, false, Bool-cases, List,
  [], ◌∷◌, Text, text_eq, nat_eq, Memᴰ, if◌then◌else◌,
}
use k8s_ai.Objects.Row.{Row, Table}
use k8s_ai.Objects.Verify.{
  VerifyResult, RowVerdict, elsewhere, in_deletion, bad_address, lost, unanswered, bad_size, good,
  vanished_since, bad_sum, deep_bad_size, deep_good, VerifyScan, ContentBackend, scan, look, settle,
  row_verdict, stops,
}
use k8s_ai.Objects.VerifyRun.{no_scan, list_by_category, verify_scan, VerifyOptions}

-- The rows that some count of the account has taken up.
unfoldable pub settled : VerifyResult → ℕ
settled r =
    r.consistent + r.size_mismatch + r.missing_rows + r.checksum_mismatch + r.address_mismatch
    + r.foreign_driver + r.deleting_rows

-- Every row but the one that stopped the scan is in one count.
unfoldable pub IsAccount : VerifyScan → Type 0
IsAccount s = s.result.rows ≡ settled s.result + (if s.stopped then 1 else 0)

settled-settle :
    (key : Text) (v : RowVerdict) (r : VerifyResult)
    → settled (settle key v r) + (if stops v then 1 else 0) ≡ suc (settled r)
unfolding settled settle
settled-settle key elsewhere r = omega arith
settled-settle key in_deletion r = omega arith
settled-settle key bad_address r = omega arith
settled-settle key lost r = omega arith
settled-settle key unanswered r = omega arith
settled-settle key bad_size r = omega arith
settled-settle key good r = omega arith
settled-settle key vanished_since r = omega arith
settled-settle key bad_sum r = omega arith
settled-settle key deep_bad_size r = omega arith
settled-settle key deep_good r = omega arith

rows-settle : (key : Text) (v : RowVerdict) (r : VerifyResult) → (settle key v r).rows ≡ r.rows
unfolding settle
rows-settle key elsewhere r = refl
rows-settle key in_deletion r = refl
rows-settle key bad_address r = refl
rows-settle key lost r = refl
rows-settle key unanswered r = refl
rows-settle key bad_size r = refl
rows-settle key good r = refl
rows-settle key vanished_since r = refl
rows-settle key bad_sum r = refl
rows-settle key deep_bad_size r = refl
rows-settle key deep_good r = refl

look-IsAccount :
    (b : ContentBackend) (deep : Bool) (row : Row) (s : VerifyScan)
    → s.stopped ≡ false
    → IsAccount s
    → IsAccount (look b deep row s)
unfolding IsAccount look settled
look-IsAccount b deep row s going h =
    let v = row_verdict b deep s.result.rows row in
    let before : s.result.rows ≡ settled s.result + 0 = rw going at h in
    rows-settle row.blob_key v (record s.result { rows = suc s.result.rows })
    ∙ (ap suc before ∙ (omega arith))
    ∙ sym (settled-settle row.blob_key v (record s.result { rows = suc s.result.rows }))

pub scan_ended :
    (b : ContentBackend) (deep : Bool) (rows : List Row) (s : VerifyScan)
    → s.stopped ≡ true
    → scan b deep rows s ≡ s
unfolding scan
scan_ended b deep [] s e = refl
scan_ended b deep (row ∷ rows) s e =
    ap (λ c. if c then s else scan b deep rows (look b deep row s)) e

pub scan_going :
    (b : ContentBackend) (deep : Bool) (row : Row) (rows : List Row) (s : VerifyScan)
    → s.stopped ≡ false
    → scan b deep (row ∷ rows) s ≡ scan b deep rows (look b deep row s)
unfolding scan
scan_going b deep row rows s e = ap (λ c. if c then s else scan b deep rows (look b deep row s)) e

-- What a row keeps, while the scan goes on, the scan keeps.
pub scan-keeps :
    (b : ContentBackend) (deep : Bool) (Keeps : VerifyScan → Type 0) (rows : List Row)
    (s : VerifyScan)
    → ((row : Row) (u : VerifyScan)
        → Memᴰ row rows
        → u.stopped ≡ false
        → Keeps u
        → Keeps (look b deep row u))
    → Keeps s
    → Keeps (scan b deep rows s)
unfolding scan
scan-keeps b deep Keeps [] s step h = h
scan-keeps b deep Keeps (row ∷ rows) s step h = elim (Bool-cases s.stopped) [
  | inl e ↦ subst Keeps (sym (scan_ended b deep (row ∷ rows) s e)) h
  | inr e ↦ subst Keeps (sym (scan_going b deep row rows s e)) (
      scan-keeps b deep Keeps rows (look b deep row s) (λ r u m. step r u (Memᴰ.tail m))
        (step row s (Memᴰ.head refl) e h))
]

empty_scan-IsAccount : IsAccount no_scan
unfolding IsAccount settled
empty_scan-IsAccount = refl

-- However a scan ends, each row that it has looked at is in one of seven counts, but for the row that stopped it.
pub verify_scan-IsAccount :
    (b : ContentBackend) (opts : VerifyOptions) (t : Table) → IsAccount (verify_scan b opts t)
unfolding verify_scan
verify_scan-IsAccount b opts t =
    scan-keeps b opts.deep IsAccount (list_by_category opts.category t) no_scan
      (λ row u m. look-IsAccount b opts.deep row u) empty_scan-IsAccount
