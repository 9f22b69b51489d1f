-- ===== src/Session/TurnLaws.antt =====
-- The transition diagram of a turn, and what holds of every turn that a run can reach.
use k8s_ai.Base.{
  ℕ, Bool, true, false, none, List, [], ◌∷◌, Text, Result, ok, err, ◌≡◌, refl, ◌≢◌, ◌⊎◌, ◌↔◌, arith,
}
use k8s_ai.Session.Turn.{
  TurnStatus, Turn, StateError, touch_turn, start, wait, resume, complete, fail, cancel,
}

pub data Event : Type 0 where
  start_turn wait_turn resume_turn cancel_turn : Event
  complete_turn fail_turn : Text → Event

-- The method that an event calls.
abbrev pub deliver : ℕ → Event → Turn → Result StateError Turn
deliver now start_turn t = start now t
deliver now wait_turn t = wait now t
deliver now resume_turn t = resume now t
deliver now cancel_turn t = cancel now t
deliver now (complete_turn output) t = complete now output t
deliver now (fail_turn msg) t = fail now msg t

infix 40 ◌⟶◌
pub data ◌⟶◌ : TurnStatus → TurnStatus → Type 0 where
  begins : TurnStatus.pending ⟶ TurnStatus.running
  pauses : TurnStatus.running ⟶ TurnStatus.waiting
  goes_on : TurnStatus.waiting ⟶ TurnStatus.running
  completes : TurnStatus.running ⟶ TurnStatus.done
  completes_waiting : TurnStatus.waiting ⟶ TurnStatus.done
  fails : TurnStatus.running ⟶ TurnStatus.failed
  fails_waiting : TurnStatus.waiting ⟶ TurnStatus.failed
  cancels_pending : TurnStatus.pending ⟶ TurnStatus.canceled
  cancels_running : TurnStatus.running ⟶ TurnStatus.canceled
  cancels_waiting : TurnStatus.waiting ⟶ TurnStatus.canceled

ruleset edges = (
  begins, pauses, goes_on, completes, completes_waiting, fails, fails_waiting, cancels_pending,
  cancels_running, cancels_waiting,
)

abbrev pub is_final : TurnStatus → Bool
is_final TurnStatus.done = true
is_final TurnStatus.failed = true
is_final TurnStatus.canceled = true
is_final _ = false

-- A method of a turn that succeeds follows an edge of the transition diagram.
pub deliver-⟶ : (now : ℕ) (e : Event) (t u : Turn) → deliver now e t ≡ ok u → t.status ⟶ u.status
unfolding start wait resume complete fail cancel touch_turn
deliver-⟶ now e t u h = grind (arith, edges)

-- What holds of a turn between two calls.
pub record IsValid (t : Turn) : Type 0 where
  pub finished : (is_final t.status ≡ true) ↔ (t.finished_at ≢ none)
  pub started :
      (t.status ≡ TurnStatus.running)
        ⊎ (t.status ≡ TurnStatus.waiting)
        ⊎ (t.status ≡ TurnStatus.done)
        ⊎ (t.status ≡ TurnStatus.failed)
      → t.started_at ≢ none
  pub answered : t.output ≢ [] → t.status ≡ TurnStatus.done
  pub broken : t.error ≢ [] → t.status ≡ TurnStatus.failed

-- Every method that succeeds keeps the invariant.
pub deliver-IsValid :
    (now : ℕ) (e : Event) (t u : Turn) → IsValid t → deliver now e t ≡ ok u → IsValid u
unfolding start wait resume complete fail cancel touch_turn
deliver-IsValid now e t u v h = ground arith

-- A call whose error is dropped leaves the turn as it was.
abbrev pub attempt : ℕ → Event → Turn → Turn
attempt now e t = elim (deliver now e t) [ ok u ↦ u | err x ↦ t ]

-- The calls of a run, each with the time at which it is made.
pub run : List (ℕ × Event) → Turn → Turn
run [] t = t
run ((now, e) ∷ es) t = run es (attempt now e t)

attempt-IsValid : (now : ℕ) (e : Event) (t : Turn) → IsValid t → IsValid (attempt now e t)
attempt-IsValid now e t v =
    elim (deliver now e t)
        as (λ r. deliver now e t ≡ r → IsValid (elim r [ ok u ↦ u | err x ↦ t ])) [
          | ok u ↦ λ h. deliver-IsValid now e t u v h
          | err x ↦ λ h. v
        ]
      refl

-- Any sequence of calls, failing ones included, leaves a valid turn valid: it has a finishing time
-- exactly if it is final, a turn that runs, waits, is done or failed was started, and only a done
-- turn has an output and only a failed one an error.
pub run-IsValid : (es : List (ℕ × Event)) (t : Turn) → IsValid t → IsValid (run es t)
unfolding run
run-IsValid [] t v = v
run-IsValid ((now, e) ∷ es) t v = run-IsValid es (attempt now e t) (attempt-IsValid now e t v)

attempt_final : (now : ℕ) (e : Event) (t : Turn) → is_final t.status ≡ true → attempt now e t ≡ t
unfolding start wait resume complete fail cancel
attempt_final now e t h = ground arith

-- No sequence of calls changes a turn that is done, failed or canceled.
pub run_final : (es : List (ℕ × Event)) (t : Turn) → is_final t.status ≡ true → run es t ≡ t
unfolding run
run_final [] t h = refl
run_final ((now, e) ∷ es) t h = rw (attempt_final now e t h) (run_final es t h)
