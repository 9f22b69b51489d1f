-- ===== src/Objects/VerifySound.antt =====
-- internal/service/blobverify.go: what a comparison without findings says of the rows.
use k8s_ai.Base.{
  ℕ, suc, ◌+◌, ◌≤◌, ◌≡◌, refl, sym, ap, ◌∙◌, subst, arith, inl, inr, Bool, true, false, Bool-cases,
  List, [], ◌∷◌, Option, none, some, Text, ◌==◌, text_eq, text_beq, nat_eq, nat_beq_iff,
  text_beq_iff, Memᴰ, if◌then◌else◌, Result, ok, err, length,
}
use k8s_ai.Objects.Row.{deleting, same_state, Row, Table}
use k8s_ai.Objects.Verify.{
  BackendError, absent, unreachable, VerifyResult, RowVerdict, elsewhere, in_deletion, bad_address,
  lost, unanswered, bad_size, good, vanished_since, bad_sum, deep_bad_size, deep_good, VerifyScan,
  ContentBackend, scan, look, settle, row_verdict, stat_verdict, deep_verdict, address_holds, stops,
}
use k8s_ai.Objects.VerifyRun.{no_scan, list_by_category, verify_scan, VerifyOptions}
use k8s_ai.Objects.VerifyLaws.{scan_ended, scan_going}

-- The faults of `Inconsistent` that the rows have.
unfoldable pub faults : VerifyResult → ℕ
faults r = r.size_mismatch + r.missing_rows + r.checksum_mismatch + r.address_mismatch

-- A content of the digest and the size of the row.
pub record IsIntact (b : ContentBackend) (row : Row) : Type 0 where
  pub number : ℕ
  pub content : Text
  pub fetched : b.fetch number row.blob_key ≡ ok (some content)
  pub same_sum : b.hash content ≡ row.sha256
  pub same_size : length content ≡ row.size

abbrev is_fault : RowVerdict → Bool
is_fault bad_address = true
is_fault lost = true
is_fault bad_size = true
is_fault vanished_since = true
is_fault bad_sum = true
is_fault deep_bad_size = true
is_fault v = false

faults-settle :
    (key : Text) (v : RowVerdict) (r : VerifyResult)
    → faults (settle key v r) ≡ faults r + (if is_fault v then 1 else 0)
unfolding faults settle
faults-settle key elsewhere r = omega arith
faults-settle key in_deletion r = omega arith
faults-settle key bad_address r = omega arith
faults-settle key lost r = omega arith
faults-settle key unanswered r = omega arith
faults-settle key bad_size r = omega arith
faults-settle key good r = omega arith
faults-settle key vanished_since r = omega arith
faults-settle key bad_sum r = omega arith
faults-settle key deep_bad_size r = omega arith
faults-settle key deep_good r = omega arith

faults-look :
    (b : ContentBackend) (deep : Bool) (row : Row) (s : VerifyScan)
    → faults (look b deep row s).result
      ≡ faults s.result + (if is_fault (row_verdict b deep s.result.rows row) then 1 else 0)
unfolding look faults
faults-look b deep row s =
    faults-settle row.blob_key (row_verdict b deep s.result.rows row)
      (record s.result { rows = suc s.result.rows })

-- Faults are never taken back.
faults-scan :
    (b : ContentBackend) (deep : Bool) (rows : List Row) (s : VerifyScan)
    → faults s.result ≤ faults (scan b deep rows s).result
unfolding scan
faults-scan b deep [] s = omega arith
faults-scan b deep (row ∷ rows) s = elim (Bool-cases s.stopped) [
  | inl e ↦
      subst (λ u. faults s.result ≤ faults u.result) (sym (scan_ended b deep (row ∷ rows) s e))
        (omega arith)
  | inr e ↦
      subst (λ u. faults s.result ≤ faults u.result) (sym (scan_going b deep row rows s e))
        (omega (arith, faults-look b deep row s, faults-scan b deep rows (look b deep row s)))
]

deep_verdict-IsIntact :
    (b : ContentBackend) (row : Row) (n : ℕ) (answer : Result BackendError (Option Text))
    → b.fetch n row.blob_key ≡ answer
    → is_fault (deep_verdict b.hash row answer) ≡ false
    → stops (deep_verdict b.hash row answer) ≡ false
    → IsIntact b row
unfolding deep_verdict
deep_verdict-IsIntact b row n (err absent) e f s = cc f
deep_verdict-IsIntact b row n (err unreachable) e f s = cc s
deep_verdict-IsIntact b row n (ok none) e f s = cc s
deep_verdict-IsIntact b row n (ok (some content)) e f s =
    elim (Bool-cases (text_beq (b.hash content) row.sha256)) [
      | inr h ↦ cc (rw h at f)
      | inl h ↦ elim (Bool-cases (length content == row.size)) [
        | inr k ↦ cc (rw (h, k) at f)
        | inl k ↦ record {
          number = n;
          content = content;
          fetched = e;
          same_sum = (text_beq_iff (b.hash content) row.sha256).0 h;
          same_size = (nat_beq_iff (length content) row.size).0 k;
        }
      ]
    ]

stat_verdict-IsIntact :
    (b : ContentBackend) (row : Row) (n : ℕ) (answer : Result BackendError ℕ)
    → let v = stat_verdict row true (deep_verdict b.hash row (b.fetch n row.blob_key)) answer in
      is_fault v ≡ false → stops v ≡ false → IsIntact b row
unfolding stat_verdict
stat_verdict-IsIntact b row n (err absent) f s = cc f
stat_verdict-IsIntact b row n (err unreachable) f s = cc s
stat_verdict-IsIntact b row n (ok size) f s = elim (Bool-cases (size == row.size)) [
  | inl e ↦ deep_verdict-IsIntact b row n (b.fetch n row.blob_key) refl (rw e at f) (rw e at s)
  | inr e ↦ cc (rw e at f)
]

row_verdict-IsIntact :
    (b : ContentBackend) (row : Row) (n : ℕ)
    → (row.driver == b.driver) ≡ true
    → same_state row.state deleting ≡ false
    → is_fault (row_verdict b true n row) ≡ false
    → stops (row_verdict b true n row) ≡ false
    → IsIntact b row
unfolding row_verdict
row_verdict-IsIntact b row n here free f s = elim (Bool-cases (address_holds row)) [
  | inr e ↦ cc (rw (here, free, e) at f)
  | inl e ↦
      stat_verdict-IsIntact b row n (b.stat n row.blob_key) (rw (here, free, e) at f)
        (rw (here, free, e) at s)
]

fault_free : (v : RowVerdict) (n : ℕ) → n + (if is_fault v then 1 else 0) ≤ 0 → is_fault v ≡ false
fault_free v n h = elim (Bool-cases (is_fault v)) [
  | inl e ↦ let bad : n + 1 ≤ 0 = rw e at h in ground (arith, bad)
  | inr e ↦ e
]

stops-look :
    (b : ContentBackend) (row : Row) (s : VerifyScan)
    → stops (row_verdict b true s.result.rows row) ≡ (look b true row s).stopped
unfolding look
stops-look b row s = refl

look-IsIntact :
    (b : ContentBackend) (row : Row) (rows : List Row) (s : VerifyScan)
    → (row.driver == b.driver) ≡ true
    → same_state row.state deleting ≡ false
    → (scan b true rows (look b true row s)).stopped ≡ false
    → faults (scan b true rows (look b true row s)).result ≡ 0
    → IsIntact b row
look-IsIntact b row rows s here free going none_found =
    let after = look b true row s in
    let fine =
      fault_free (row_verdict b true s.result.rows row) (faults s.result)
        (omega (arith, faults-look b true row s, faults-scan b true rows after, none_found)) in
    elim (Bool-cases after.stopped) [
      | inl e ↦
          let stays = ap (λ u. u.stopped) (scan_ended b true rows after e) in
          cc (sym going ∙ (stays ∙ e))
      | inr e ↦ row_verdict-IsIntact b row s.result.rows here free fine (stops-look b row s ∙ e)
    ]

scan-IsIntact :
    (b : ContentBackend) (rows : List Row) (s : VerifyScan) {row : Row}
    → Memᴰ row rows
    → (row.driver == b.driver) ≡ true
    → same_state row.state deleting ≡ false
    → (scan b true rows s).stopped ≡ false
    → faults (scan b true rows s).result ≡ 0
    → IsIntact b row
scan-IsIntact b [] s m here free going none_found = elim m [ ]
scan-IsIntact b (first ∷ rows) s {row} m here free going none_found = elim (Bool-cases s.stopped) [
  | inl e ↦ cc (sym going ∙ (ap (λ u. u.stopped) (scan_ended b true (first ∷ rows) s e) ∙ e))
  | inr e ↦
      let step = scan_going b true first rows s e in
      let going' = ap (λ u. u.stopped) (sym step) ∙ going in
      let none' = ap (λ u. faults u.result) (sym step) ∙ none_found in
      elim m [
        | Memᴰ.head same ↦ subst (IsIntact b) (sym same) (
            look-IsIntact b first rows s (subst (λ r. (r.driver == b.driver) ≡ true) same here)
              (subst (λ r. same_state r.state deleting ≡ false) same free) going' none')
        | Memᴰ.tail rest ↦ scan-IsIntact b rows (look b true first s) rest here free going' none'
      ]
]

-- If a scan with a look at the contents went through all rows and found no fault, each listed row
-- of the backend that is not being deleted had, in an answer of the backend, a content of its
-- digest and size.
pub verify_scan-IsIntact :
    (b : ContentBackend) (opts : VerifyOptions) (t : Table) (row : Row)
    → opts.deep ≡ true
    → Memᴰ row (list_by_category opts.category t)
    → (row.driver == b.driver) ≡ true
    → same_state row.state deleting ≡ false
    → (verify_scan b opts t).stopped ≡ false
    → faults (verify_scan b opts t).result ≡ 0
    → IsIntact b row
unfolding verify_scan
verify_scan-IsIntact b opts t row deep m here free going none_found =
    scan-IsIntact b (list_by_category opts.category t) no_scan m here free
      (subst (λ d. (scan b d (list_by_category opts.category t) no_scan).stopped ≡ false) deep
        going)
      (subst (λ d. faults (scan b d (list_by_category opts.category t) no_scan).result ≡ 0) deep
        none_found)
