-- ===== src/Session/Turn.antt =====
-- internal/session/turn.go: the life of one agent run and of its steps. A method reads the clock
-- several times; the model takes one reading for a call. A method that fails leaves its receiver
-- as it was, so the result is the new state or the error.
use k8s_ai.Base.{
  ℕ, ◌+◌, Bool, true, false, ◌&&◌, ◌||◌, Option, none, some, Text, Result, ok, guard, ◌>>◌, ◌==◌,
  nat_eq,
}

pub data TurnStatus : Type 0 where
  pending running waiting done failed canceled : TurnStatus

-- `unset` is the zero value "" that a new step has.
pub data StepStatus : Type 0 where
  unset running waiting done failed : StepStatus

pub record TokenUsage : Type 0 where
  pub prompt_tokens : ℕ
  pub completion_tokens : ℕ
  pub total_tokens : ℕ

-- `TokenUsage.Add`, with no bound: the counts are far below 2 ^ 63.
unfoldable pub add_usage : TokenUsage → TokenUsage → TokenUsage
add_usage u o = record {
  prompt_tokens = u.prompt_tokens + o.prompt_tokens;
  completion_tokens = u.completion_tokens + o.completion_tokens;
  total_tokens = u.total_tokens + o.total_tokens;
}

-- `TokenUsage.IsZero`.
unfoldable pub is_zero : TokenUsage → Bool
is_zero u = u.prompt_tokens == 0 && u.completion_tokens == 0 && u.total_tokens == 0

pub record Turn : Type 0 where
  pub status : TurnStatus
  pub output : Text
  pub error : Text
  pub token : TokenUsage
  pub started_at : Option ℕ
  pub finished_at : Option ℕ
  pub created_at : Option ℕ
  pub updated_at : Option ℕ

pub record Step : Type 0 where
  pub status : StepStatus
  pub result : Text
  pub error : Text
  pub started_at : Option ℕ
  pub finished_at : Option ℕ
  pub created_at : Option ℕ
  pub updated_at : Option ℕ

-- `ErrInvalidTurnState`.
pub data StateError : Type 0 where
  invalid_state : StateError

-- `if t.IsZero() { t = time.Now() }`.
abbrev pub or_now : Option ℕ → ℕ → Option ℕ
or_now none now = some now
or_now (some t) now = some t

abbrev pub is_pending : TurnStatus → Bool
is_pending TurnStatus.pending = true
is_pending _ = false

abbrev pub is_running : TurnStatus → Bool
is_running TurnStatus.running = true
is_running _ = false

abbrev pub is_waiting : TurnStatus → Bool
is_waiting TurnStatus.waiting = true
is_waiting _ = false

-- `Turn.touch`.
unfoldable pub touch_turn : ℕ → Turn → Turn
touch_turn now t = record t { created_at = or_now t.created_at now; updated_at = some now }

unfoldable pub start : ℕ → Turn → Result StateError Turn
start now t = do
  guard (is_pending t.status) invalid_state
  ok (
      touch_turn now
        (record t { status = TurnStatus.running; started_at = or_now t.started_at now }))

unfoldable pub wait : ℕ → Turn → Result StateError Turn
wait now t = do
  guard (is_running t.status) invalid_state
  ok (touch_turn now (record t { status = TurnStatus.waiting }))

unfoldable pub resume : ℕ → Turn → Result StateError Turn
resume now t = do
  guard (is_waiting t.status) invalid_state
  ok (touch_turn now (record t { status = TurnStatus.running }))

unfoldable pub complete : ℕ → Text → Turn → Result StateError Turn
complete now output t = do
  guard (is_running t.status || is_waiting t.status) invalid_state
  ok (
      touch_turn now
        (record t { output = output; status = TurnStatus.done; finished_at = some now }))

unfoldable pub fail : ℕ → Text → Turn → Result StateError Turn
fail now msg t = do
  guard (is_running t.status || is_waiting t.status) invalid_state
  ok (touch_turn now (record t { error = msg; status = TurnStatus.failed; finished_at = some now }))

unfoldable pub cancel : ℕ → Turn → Result StateError Turn
cancel now t = do
  guard (is_pending t.status || is_running t.status || is_waiting t.status) invalid_state
  ok (touch_turn now (record t { status = TurnStatus.canceled; finished_at = some now }))

abbrev pub step_running : StepStatus → Bool
step_running StepStatus.running = true
step_running _ = false

abbrev pub step_waiting : StepStatus → Bool
step_waiting StepStatus.waiting = true
step_waiting _ = false

abbrev pub step_unset : StepStatus → Bool
step_unset StepStatus.unset = true
step_unset _ = false

-- `Step.touch`.
unfoldable pub touch_step : ℕ → Step → Step
touch_step now s = record s { created_at = or_now s.created_at now; updated_at = some now }

unfoldable pub begin_step : ℕ → Step → Result StateError Step
begin_step now s = do
  guard (step_unset s.status || step_waiting s.status) invalid_state
  ok (
      touch_step now
        (record s { status = StepStatus.running; started_at = or_now s.started_at now }))

unfoldable pub wait_step : ℕ → Step → Result StateError Step
wait_step now s = do
  guard (step_running s.status) invalid_state
  ok (touch_step now (record s { status = StepStatus.waiting }))

unfoldable pub succeed_step : ℕ → Text → Step → Result StateError Step
succeed_step now result s = do
  guard (step_running s.status || step_waiting s.status) invalid_state
  ok (
      touch_step now
        (record s { result = result; status = StepStatus.done; finished_at = some now }))

unfoldable pub fail_step : ℕ → Text → Step → Result StateError Step
fail_step now msg s = do
  guard (step_running s.status || step_waiting s.status) invalid_state
  ok (touch_step now (record s { error = msg; status = StepStatus.failed; finished_at = some now }))
