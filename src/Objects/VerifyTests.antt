-- ===== src/Objects/VerifyTests.antt =====
-- The laws of the comparison with the backend at concrete rows.
use k8s_ai.Base.{
  ℕ, ◌≡◌, refl, true, false, ◌⊎◌, List, [], ◌∷◌, none, some, Text, codes, Memᴰ, Result, ok, err,
}
use k8s_ai.Objects.Row.{ready, missing, Table, row_of}
use k8s_ai.Objects.Refs.{Ref}
use k8s_ai.Objects.Verify.{empty_result, BackendError, absent, unreachable, ContentBackend}
use k8s_ai.Objects.VerifyRun.{VerifyOptions, Report, verify_run, verify_scan}
use k8s_ai.Objects.VerifyLaws.{IsAccount, verify_scan-IsAccount}
use k8s_ai.Objects.VerifyMarks.{WasAbsent}
use k8s_ai.Objects.VerifySafety.{verify_run-WasAbsent}
use k8s_ai.Objects.StoreTests.{a_row, table_of}
use k8s_ai.Objects.Unfold.{comparison}
use k8s_ai.Objects.VerifySound.{faults, IsIntact, verify_scan-IsIntact}
use k8s_ai.Objects.Tests.{key, sha}

-- A backend that answers each question alike.
abbrev answering : Result BackendError ℕ → ContentBackend
answering answer = record {
  driver = codes "dir";
  stat = λ n k. answer;
  fetch = λ n k. err absent;
  hash = λ content. content;
}

abbrev options : VerifyOptions
options = record { category = []; prefix = []; deep = true }

abbrev lists_nothing : Text → Result BackendError (List Ref)
lists_nothing prefix = ok []

abbrev same_table : Table → Table
same_table t = t

abbrev tables : Result BackendError ℕ → Table
tables answer =
    elim (verify_run (answering answer) lists_nothing same_table same_table 9 options
      (table_of 1 ready none)) [ err why ↦ [] | ok report ↦ report.table ]

-- A content that is absent is marked; where the backend does not answer, nothing is.
marked_once :
    (tables (err absent) ≡ record (a_row 1 missing none) { updated_at = 9 } ∷ [])
    × (tables (err unreachable) ≡ table_of 1 ready none)
    × (tables (ok 3) ≡ table_of 1 ready none)
unfolding comparison
marked_once = (refl, refl, refl)

unanswered_example_run :
    IsAccount (verify_scan (answering (err unreachable)) options (table_of 1 ready none))
unanswered_example_run =
    verify_scan-IsAccount (answering (err unreachable)) options (table_of 1 ready none)

abbrev marked_report : Report
marked_report = record {
  result = record empty_result {
    rows = 1;
    missing_rows = 1;
    rows_marked_missing = 1;
    missing_keys = key ∷ [];
  };
  table = record (a_row 1 missing none) { updated_at = 9 } ∷ [];
  failure = none;
}

-- The row that was marked had an absent content.
verify_run-WasAbsent_example :
    (row_of key marked_report.table ≡ row_of key (table_of 1 ready none))
    ⊎ (((verify_scan (answering (err absent)) options (table_of 1 ready none)).stopped ≡ false)
        × WasAbsent (answering (err absent)) (table_of 1 ready none) key)
unfolding comparison
verify_run-WasAbsent_example =
    verify_run-WasAbsent (answering (err absent)) lists_nothing same_table same_table 9 options
      (table_of 1 ready none) key refl

-- A backend that holds the content of the row.
abbrev holding : ContentBackend
holding = record {
  driver = codes "dir";
  stat = λ n k. ok 3;
  fetch = λ n k. ok (some (codes "abc"));
  hash = λ content. sha;
}

verify_scan-IsIntact_example : IsIntact holding (a_row 1 ready none)
unfolding comparison faults
verify_scan-IsIntact_example =
    verify_scan-IsIntact holding options (table_of 1 ready none) (a_row 1 ready none) refl
      (Memᴰ.head refl) refl refl refl refl
