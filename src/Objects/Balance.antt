-- ===== src/Objects/Balance.antt =====
-- internal/store: what every run of operations leaves true of the table, and its counts.
use k8s_ai.Base.{
  ℕ, ◌+◌, ◌-◌, ◌≡◌, refl, subst, arith, inl, inr, Bool, true, false, all, nat_eq, ◌&&◌, List, [],
  ◌∷◌, Text, ◌==◌, text_eq, ok,
}
use k8s_ai.Objects.Row.{Row, Meta, Table, update}
use k8s_ai.Objects.Refs.{Ref, is_held, is_idle, acquire, release, decr_ref_count, mark_orphan}
use k8s_ai.Objects.Invariant.{WellFormed, update-WellFormed, decr_fine, orphan_fine}
use k8s_ai.Objects.Acquire.{acquire-IsReferenced, idle, Result-cases}
use k8s_ai.Objects.Ledger.{
  Op, registered, acquired, released, claimed, forgotten, marked, adopted, stored, erased, step,
  run, taken, is_sound, is_sound_meta, given_back, all_taken, all_given_back, refs, one_if,
  committed,
}
use k8s_ai.Objects.LedgerLaws.{refs-acquire, refs-release, release-done}
use k8s_ai.Objects.Quiet.{Quiet, claim-Quiet, forget-Quiet, mark-Quiet, adopt-Quiet, erase-Quiet}
use k8s_ai.Objects.QuietPut.{put-Quiet}
use k8s_ai.Objects.Register.{register-Upserted}
use k8s_ai.Objects.Registry.{register}

pub release-WellFormed :
    (now : ℕ) (key : Text) (t : Table) {next : Table}
    → WellFormed t
    → release now key t ≡ ok next
    → WellFormed next
unfolding decr_ref_count mark_orphan
release-WellFormed now key t w h =
    let down : Row → Row = λ r. record r { ref_count = r.ref_count - 1; updated_at = now } in
    subst WellFormed ((release-done now key t h).1) (
      update-WellFormed key is_idle _ (update key is_held down t) (λ r. refl)
        (λ r f c. orphan_fine now r f c)
        (update-WellFormed key is_held down t (λ r. refl) (λ r f c. decr_fine now r f c) w))

-- What one operation does to the table and to the count of a key.
record Moves (key : Text) (op : Op) (t next : Table) : Type 0 where
  formed : WellFormed next
  counts : refs key next + given_back key op t ≡ refs key t + taken key op t

nothing : (b : Bool) → one_if (b && false) ≡ 0
nothing true = refl
nothing false = refl

and_true : (b : Bool) → (b && true) ≡ b
and_true true = refl
and_true false = refl

acquire-Moves :
    (key : Text) (now : ℕ) (ref : Ref) (driver by : Text) (t : Table)
    → WellFormed t
    → Moves key (acquired now ref driver by) t (committed (acquire idle now ref driver by t) t)
unfolding taken given_back
acquire-Moves key now ref driver by t w = elim (Result-cases (acquire idle now ref driver by t)) [
  | inl (why, e) ↦ record { formed = rw e w; counts = rw (e, nothing (key == ref.key)) refl }
  | inr (next, e) ↦ record {
    formed = rw e ((acquire-IsReferenced idle now ref driver by t next (λ k x v. v) w e).0);
    counts =
        rw (e, and_true (key == ref.key), refs-acquire now ref driver by key t next w e)
          (omega arith);
  }
]

release-Moves :
    (key : Text) (now : ℕ) (of : Text) (t : Table)
    → WellFormed t
    → Moves key (released now of) t (committed (release now of t) t)
unfolding taken given_back
release-Moves key now of t w = elim (Result-cases (release now of t)) [
  | inl (why, e) ↦ record { formed = rw e w; counts = rw (e, nothing (key == of)) refl }
  | inr (next, e) ↦ record {
    formed = rw e (release-WellFormed now of t w e);
    counts = rw (e, and_true (key == of), refs-release now of key t w e) (omega arith);
  }
]

register-Moves :
    (key : Text) (now : ℕ) (m : Meta) (t : Table)
    → WellFormed t
    → is_sound_meta m ≡ true
    → Moves key (registered now m) t (committed (register now m t) t)
unfolding taken given_back
register-Moves key now m t w sound = elim (Result-cases (register now m t)) [
  | inl (why, e) ↦ record { formed = rw e w; counts = rw e (ground arith) }
  | inr (next, e) ↦
      let (formed, counts) = register-Upserted now m t w sound e in
      record { formed = rw e formed; counts = rw e (ground (arith, counts key)) }
]

-- An operation that neither takes nor gives back.
quiet :
    {key : Text} {op : Op} {t next : Table}
    → taken key op t ≡ 0
    → given_back key op t ≡ 0
    → Quiet t next
    → Moves key op t next
quiet a b q = record { formed = q.formed; counts = rw (a, b, q.same _) refl }

module _ (hash : Text → Text) where
  step-Moves :
      (key : Text) (op : Op) (t : Table)
      → WellFormed t
      → is_sound op ≡ true
      → Moves key op t (step hash op t)
  unfolding taken given_back
  step-Moves key (registered now m) t w sound = register-Moves key now m t w sound
  step-Moves key (acquired now ref driver by) t w sound = acquire-Moves key now ref driver by t w
  step-Moves key (released now of) t w sound = release-Moves key now of t w
  step-Moves key (claimed now of count cutoff) t w sound =
      quiet refl refl (claim-Quiet now of count cutoff t w)
  step-Moves key (forgotten of) t w sound = quiet refl refl (forget-Quiet of t w)
  step-Moves key (marked now of) t w sound = quiet refl refl (mark-Quiet now of t w)
  step-Moves key (adopted now of from to payload drop_source) t w sound =
      quiet refl refl (adopt-Quiet now of from to payload drop_source t w)
  step-Moves key (stored now max prefix spec media by chunks) t w sound =
      quiet refl refl (put-Quiet hash now max prefix spec media by chunks t w)
  step-Moves key (erased now of) t w sound = quiet refl refl (erase-Quiet now of t w)

  -- In every run of operations from a well-formed table, in which no registration gives a row that
  -- is orphaned or deleting a reference or no time of deletion, the table stays well formed
  -- (distinct keys, and a row that is orphaned or deleting has no reference and has a time of
  -- deletion), and the count of a key and the references given back add up to what it was and the
  -- references taken; each acquire and release that succeeds counts as one, a registration of a
  -- new key as the count that it gives, and no other operation changes a count.
  pub run-balance :
      (key : Text) (ops : List Op) (t : Table)
      → WellFormed t
      → all is_sound ops ≡ true
      → WellFormed (run hash ops t)
        × (refs key (run hash ops t) + all_given_back hash key ops t
            ≡ refs key t + all_taken hash key ops t)
  run-balance key [] t w sound = (w, refl)
  run-balance key (op ∷ ops) t w sound =
      let one = step-Moves key op t w (ground arith) in
      let (formed, rest) = run-balance key ops (step hash op t) one.formed (ground arith) in
      (formed, omega (arith, one.counts, rest))
