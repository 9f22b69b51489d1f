-- ===== src/Objects/VerifyMarks.antt =====
-- internal/service/blobverify.go and internal/store/objects.go: which rows a run marks as missing.
use k8s_ai.Base.{
  ℕ, ◌≡◌, refl, sym, ◌∙◌, subst, arith, ◌⊎◌, inl, inr, Bool, true, false, Bool-cases, List, [], ◌∷◌,
  ◌++◌, Option, none, some, Text, ◌==◌, text_eq, text_beq, text_beq_iff, nat_eq, text_leb,
  filter-Memᴰ, contains, Memᴰ, Result, ok, err, length,
}
use k8s_ai.Objects.Row.{deleting, same_state, Row, Table}
use k8s_ai.Objects.Verify.{
  BackendError, absent, unreachable, VerifyScan, ContentBackend, look, row_verdict, stat_verdict,
  deep_verdict, marks, address_holds,
}
use k8s_ai.Objects.VerifyRun.{
  list_by_category, order_by_key, insert_by_key, verify_scan, VerifyOptions, no_scan,
}
use k8s_ai.Objects.VerifyLaws.{scan-keeps}

-- A listed row of the key, of this backend and not claimed, whose content the backend said is absent.
pub record WasAbsent (b : ContentBackend) (rows : List Row) (key : Text) : Type 0 where
  pub row : Row
  pub listed : Memᴰ row rows
  pub named : row.blob_key ≡ key
  pub is_here : (row.driver == b.driver) ≡ true
  pub is_unclaimed : same_state row.state deleting ≡ false
  pub number : ℕ
  pub answer : b.stat number key ≡ err absent

deep_verdict-marks :
    (hash : Text → Text) (row : Row) (content : Result BackendError (Option Text))
    → marks (deep_verdict hash row content) ≡ false
unfolding deep_verdict
deep_verdict-marks hash row (err absent) = refl
deep_verdict-marks hash row (err unreachable) = refl
deep_verdict-marks hash row (ok none) = refl
deep_verdict-marks hash row (ok (some content)) =
    elim (Bool-cases (text_beq (hash content) row.sha256)) [
      | inl e ↦ elim (Bool-cases (length content == row.size)) [
        | inl f ↦ rw (e, f) refl
        | inr f ↦ rw (e, f) refl
      ]
      | inr e ↦ rw e refl
    ]

stat_verdict-marks :
    (b : ContentBackend) (row : Row) (deep : Bool) (n : ℕ) (answer : Result BackendError ℕ)
    → marks (stat_verdict row deep (deep_verdict b.hash row (b.fetch n row.blob_key)) answer) ≡ true
    → answer ≡ err absent
unfolding stat_verdict
stat_verdict-marks b row deep n (err absent) h = refl
stat_verdict-marks b row deep n (err unreachable) h = cc
stat_verdict-marks b row deep n (ok size) h = elim (Bool-cases (size == row.size)) [
  | inl e ↦ elim (Bool-cases deep) [
    | inl f ↦
        let never = deep_verdict-marks b.hash row (b.fetch n row.blob_key) in
        let always : marks (deep_verdict b.hash row (b.fetch n row.blob_key)) ≡ true =
          rw (e, f) at h in
        cc (sym always ∙ never)
    | inr f ↦ cc (rw (e, f) at h)
  ]
  | inr e ↦ cc (rw e at h)
]

row_verdict-marks :
    (b : ContentBackend) (deep : Bool) (n : ℕ) (row : Row)
    → marks (row_verdict b deep n row) ≡ true
    → ((row.driver == b.driver) ≡ true)
      × (same_state row.state deleting ≡ false)
      × (b.stat n row.blob_key ≡ err absent)
unfolding row_verdict
row_verdict-marks b deep n row h = elim (Bool-cases (text_beq row.driver b.driver)) [
  | inr e ↦ cc (rw e at h)
  | inl e ↦ elim (Bool-cases (same_state row.state deleting)) [
    | inl f ↦ cc (rw (e, f) at h)
    | inr f ↦ elim (Bool-cases (address_holds row)) [
      | inr g ↦ cc (rw (e, f, g) at h)
      | inl g ↦ (e, f, stat_verdict-marks b row deep n (b.stat n row.blob_key) (rw (e, f, g) at h))
    ]
  ]
]

contains_append :
    (keys : List Text) (last key : Text)
    → contains (keys ++ (last ∷ [])) key ≡ true
    → (contains keys key ≡ true) ⊎ (last ≡ key)
contains_append [] last key h = inr ((text_beq_iff last key).0 (ground arith))
contains_append (k ∷ keys) last key h = elim (Bool-cases (text_beq k key)) [
  | inl e ↦ inl (rw e refl)
  | inr e ↦ rw e (contains_append keys last key (rw e at h))
]

abbrev pub AllAbsent : ContentBackend → List Row → VerifyScan → Type 0
AllAbsent b rows s = (key : Text) → contains s.to_mark key ≡ true → WasAbsent b rows key

pub look-AllAbsent :
    (b : ContentBackend) (deep : Bool) (rows : List Row) (row : Row) (s : VerifyScan)
    → Memᴰ row rows
    → AllAbsent b rows s
    → AllAbsent b rows (look b deep row s)
unfolding look
look-AllAbsent b deep rows row s m h key c =
    elim (Bool-cases (marks (row_verdict b deep s.result.rows row))) [
      | inr e ↦ h key (rw e at c)
      | inl e ↦ elim (contains_append s.to_mark row.blob_key key (rw e at c)) [
        | inl old ↦ h key old
        | inr same ↦
            let (here, free, gone) = row_verdict-marks b deep s.result.rows row e in
            record {
              row = row;
              listed = m;
              named = same;
              is_here = here;
              is_unclaimed = free;
              number = s.result.rows;
              answer = subst (λ k. b.stat s.result.rows k ≡ err absent) same gone;
            }
      ]
    ]

second_or_later :
    {r x q : Row} {l rest : List Row}
    → (Memᴰ q rest → Memᴰ q (r ∷ l))
    → Memᴰ q (x ∷ rest)
    → Memᴰ q (r ∷ x ∷ l)
second_or_later step (Memᴰ.head same) = Memᴰ.tail (Memᴰ.head same)
second_or_later step (Memᴰ.tail m) = elim (step m) [
  | Memᴰ.head same ↦ Memᴰ.head same
  | Memᴰ.tail old ↦ Memᴰ.tail (Memᴰ.tail old)
]

insert_by_key-Memᴰ :
    (r : Row) (l : List Row) {q : Row} → Memᴰ q (insert_by_key r l) → Memᴰ q (r ∷ l)
unfolding insert_by_key
insert_by_key-Memᴰ r [] m = m
insert_by_key-Memᴰ r (x ∷ l) {q} m = elim (Bool-cases (text_leb r.blob_key x.blob_key)) [
  | inl e ↦ rw e at m
  | inr e ↦ second_or_later (λ n. insert_by_key-Memᴰ r l n) (rw e at m)
]

order_by_key-Memᴰ : (l : List Row) {q : Row} → Memᴰ q (order_by_key l) → Memᴰ q l
unfolding order_by_key
order_by_key-Memᴰ [] m = m
order_by_key-Memᴰ (r ∷ l) m = elim (insert_by_key-Memᴰ r (order_by_key l) m) [
  | Memᴰ.head same ↦ Memᴰ.head same
  | Memᴰ.tail rest ↦ Memᴰ.tail (order_by_key-Memᴰ l rest)
]

list_by_category-Memᴰ :
    (category : Text) (t : Table) {q : Row} → Memᴰ q (list_by_category category t) → Memᴰ q t
unfolding list_by_category
list_by_category-Memᴰ category t m = (filter-Memᴰ _ t (order_by_key-Memᴰ _ m)).0

pub scanned-WasAbsent :
    (b : ContentBackend) (opts : VerifyOptions) (t : Table) (key : Text)
    → contains (verify_scan b opts t).to_mark key ≡ true
    → WasAbsent b t key
unfolding verify_scan
scanned-WasAbsent b opts t key h =
    let rows = list_by_category opts.category t in
    let seen =
      scan-keeps b opts.deep (AllAbsent b rows) rows no_scan
        (λ row u m e. look-AllAbsent b opts.deep rows row u m) (λ k c. cc) key h in
    record {
      row = seen.row;
      listed = list_by_category-Memᴰ opts.category t seen.listed;
      named = seen.named;
      is_here = seen.is_here;
      is_unclaimed = seen.is_unclaimed;
      number = seen.number;
      answer = seen.answer;
    }
