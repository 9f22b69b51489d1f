-- ===== src/Objects/Ledger.antt =====
-- internal/store: the operations on the table in the order in which they are committed, and the
-- references that were taken and given back.
use k8s_ai.Base.{
  ℕ, ◌+◌, Bool, true, false, not, ◌&&◌, ◌||◌, codes, nat_eq, if◌then◌else◌, List, [], ◌∷◌, Option,
  none, some, Text, ◌==◌, text_eq, Result, ok, err,
}
use k8s_ai.Objects.Key.{Spec}
use k8s_ai.Objects.Row.{State, StoreError, Row, Meta, Table, row_of, parse_state}
use k8s_ai.Objects.Registry.{
  register, as_count, or_text, claim_deleting, mark_one_missing, forget_one,
}
use k8s_ai.Objects.Refs.{is_some, Ref, acquire, release, adopt}
use k8s_ai.Objects.Payload.{put, delete_content}
use k8s_ai.Objects.Acquire.{idle}
use k8s_ai.Objects.Rows.{has_key}
use k8s_ai.Objects.Invariant.{leaves}

-- One operation, with the time at which it runs first.
pub data Op : Type 0 where
  registered : ℕ → Meta → Op
  acquired : ℕ → Ref → Text → Text → Op
  released : ℕ → Text → Op
  claimed : ℕ → Text → ℕ → ℕ → Op
  forgotten : Text → Op
  marked : ℕ → Text → Op
  adopted : ℕ → Text → Text → Text → Option Text → Bool → Op
  stored : ℕ → ℕ → Text → Spec → Text → Text → List (Option Text) → Op
  erased : ℕ → Text → Op

-- A refused operation is rolled back.
abbrev pub committed : Result StoreError Table → Table → Table
committed (err why) t = t
committed (ok next) t = next

abbrev pub committed_with {ℓ} : {A : Type ℓ} → Result StoreError (A × Table) → Table → Table
committed_with (err why) t = t
committed_with (ok (a, next)) t = next

abbrev pub succeeds {ℓ} : {A : Type ℓ} → Result StoreError A → Bool
succeeds (err why) = false
succeeds (ok a) = true

module _ (hash : Text → Text) where
  abbrev pub step : Op → Table → Table
  step (registered now m) t = committed (register now m t) t
  step (acquired now ref driver by) t = committed (acquire idle now ref driver by t) t
  step (released now key) t = committed (release now key t) t
  step (claimed now key count cutoff) t = committed_with (claim_deleting now key count cutoff t) t
  step (forgotten key) t = committed_with (forget_one key t) t
  step (marked now key) t = committed (mark_one_missing now key t) t
  step (adopted now key from to payload drop_source) t =
      committed_with (adopt now key from to payload drop_source t) t
  step (stored now max prefix spec media by chunks) t =
      committed_with (put hash idle now max prefix spec media by chunks t) t
  step (erased now key) t = committed (delete_content now key t) t

  abbrev pub run : List Op → Table → Table
  run [] t = t
  run (op ∷ ops) t = run ops (step op t)

abbrev pub one_if : Bool → ℕ
one_if true = 1
one_if false = 0

abbrev pub count_or_zero : Option ℕ → ℕ
count_or_zero none = 0
count_or_zero (some n) = n

-- The references that a registration writes into a row that is new.
abbrev pub counted : Meta → ℕ
counted m = count_or_zero (as_count m.ref_count)

-- A row is registered as orphaned or deleting only without references and with a time of deletion.
-- `registerObject` does not test this.
abbrev pub is_sound_state : Option State → ℕ → Option ℕ → Bool
is_sound_state none count deleted_at = true
is_sound_state (some s) count deleted_at = not (leaves s) || (count == 0 && is_some deleted_at)

abbrev pub is_sound_meta : Meta → Bool
is_sound_meta m =
    is_sound_state (parse_state (or_text m.state (codes "ready"))) (counted m) m.deleted_at

abbrev pub is_sound : Op → Bool
is_sound (registered now m) = is_sound_meta m
is_sound op = true

-- The references to `key` that an operation takes, and those it gives back.
unfoldable pub taken : Text → Op → Table → ℕ
taken key (registered now m) t =
    if key == m.blob_key && succeeds (register now m t) && not (has_key m.blob_key t)
    then counted m
    else 0
taken key (acquired now ref driver by) t =
    one_if (key == ref.key && succeeds (acquire idle now ref driver by t))
taken key op t = 0

unfoldable pub given_back : Text → Op → Table → ℕ
given_back key (released now of) t = one_if (key == of && succeeds (release now of t))
given_back key op t = 0

module _ (hash : Text → Text) where
  abbrev pub all_taken : Text → List Op → Table → ℕ
  all_taken key [] t = 0
  all_taken key (op ∷ ops) t = taken key op t + all_taken key ops (step hash op t)

  abbrev pub all_given_back : Text → List Op → Table → ℕ
  all_given_back key [] t = 0
  all_given_back key (op ∷ ops) t = given_back key op t + all_given_back key ops (step hash op t)

abbrev pub count_row : Option Row → ℕ
count_row none = 0
count_row (some r) = r.ref_count

-- The references that the table counts.
unfoldable pub refs : Text → Table → ℕ
refs key t = count_row (row_of key t)
