-- ===== src/Agent/Chat.antt =====
-- internal/agent/loop.go: the rounds of a run of the agent. What the language model replies, what
-- the tools return and what the user answers are arguments, numbered by the round or the call, so
-- they may depend on all that went before. Steps, events and the audit are written out only.
use k8s_ai.Base.{
  ℕ, suc, ◌+◌, Bool, true, false, not, ◌&&◌, ◌||◌, Option, none, some, List, [], ◌∷◌, ◌++◌, Text,
  codes, nat_eq, text_eq, if◌then◌else◌, ltb, contains, trim_space, byte_length, Result, ok, err,
}
use k8s_ai.Approval.Decision.{Policy}
use k8s_ai.Session.State.{Session, Message, add_message}
use k8s_ai.Session.Turn.{Turn, StateError, complete, fail}
use k8s_ai.Agent.Gate.{ToolCall, Choice, Env, Outcome, executed, rbac_denied, Run, execute_tool}
use k8s_ai.Agent.Batch.{Batch}

-- The fields of `Agent` that the rounds read. `auto_mode` is `ToolCalling == "auto"`.
pub record Agent : Type 0 where
  pub max_iterations : ℕ
  pub max_tool_calls : ℕ
  pub turn_max_bytes : ℕ
  pub starts_shim : Bool
  pub auto_mode : Bool
  pub policy : Option Policy

-- What the model replies: an error, whether it says that tools are not supported, a reply that
-- does not parse, or an answer, which may be empty, with the calls it wants.
pub data Reply : Type 0 where
  llm_error : Bool → Text → Reply
  unparsable : Text → Reply
  parsed : Text → List ToolCall → Reply

-- `tools.Present` and `tools.MarshalForLLM` of the result of a call.
pub record ToolOutput : Type 0 where
  pub is_ok : Bool
  pub is_rbac_denied : Bool
  pub text : Text

-- A request with a stream: the thoughts that came, and the reply, `none` where the stream failed
-- before any text came.
pub record Streamed : Type 0 where
  pub think : Text
  pub kept : Option Reply

-- The world outside, by the number of the round or of the call. `reply` is what `LLM.Chat` replies;
-- `stream` is `none` where the client has no streams.
pub record Outside : Type 0 where
  pub reply : ℕ → Bool → Reply
  pub stream : ℕ → Option Streamed
  pub env : ℕ → Env
  pub batch_answer : ℕ → Option Choice
  pub output : ℕ → ToolOutput

-- A call that was executed, with the state in which it was.
pub record Executed : Type 0 where
  pub env : Env
  pub session : Session
  pub call : ToolCall
  pub in_batch : Bool

-- The local variables of `Chat`, with the number of requests to the model and the log of the executed calls, the latest first.
pub record Chat : Type 0 where
  pub session : Session
  pub turn : Turn
  pub is_shim : Bool
  pub iterations : ℕ
  pub requests : ℕ
  pub tool_calls_total : ℕ
  pub turn_bytes : ℕ
  pub failed_tool_calls : List Text
  pub log : List Executed

-- `toolCallFailureKey`.
unfoldable pub failure_key : ToolCall → Text
failure_key c = c.name ++ (0 ∷ trim_space c.arguments)

abbrev pub or_same : Result StateError Turn → Turn → Turn
or_same (err why) t = t
or_same (ok t) u = t

-- `_ = a.turn.Fail(...)` and a return.
unfoldable pub fail_turn : ℕ → Text → Chat → Chat
fail_turn now msg chat = record chat { turn = or_same (fail now msg chat.turn) chat.turn }

unfoldable pub complete_turn : ℕ → Text → Chat → Chat
complete_turn now answer chat = record chat {
  turn = or_same (complete now answer chat.turn) chat.turn;
}

-- How a call of a round was dealt with.
pub data Handling : Type 0 where
  repeated batch_refused : Handling
  ran : Run → Handling

unfoldable pub handle : Agent → Outside → Batch → ToolCall → Chat → Handling
handle agent outside batch c chat =
    let env = outside.env (suc chat.tool_calls_total) in
    if contains chat.failed_tool_calls (failure_key c)
    then repeated
    else if contains batch.declined c.id
    then batch_refused
    else ran (execute_tool env agent.policy chat.session c (contains batch.approved c.id))

abbrev pub is_executed : Outcome → Bool
is_executed executed = true
is_executed outcome = false

abbrev pub is_rbac : Outcome → Bool
is_rbac rbac_denied = true
is_rbac outcome = false

-- What the loop sees of the result: all but the result of an executed tool is an error.
unfoldable pub seen : Handling → ToolOutput → ToolOutput
seen repeated out = record out { is_ok = false; is_rbac_denied = false }
seen batch_refused out = record out { is_ok = false; is_rbac_denied = false }
seen (ran r) out =
    if is_executed r.outcome
    then out
    else record out { is_ok = false; is_rbac_denied = is_rbac r.outcome }

-- `toolExecuted`: the call was run and its tool only reads.
unfoldable pub tool_executed : Env → ToolCall → Handling → Bool
tool_executed env c repeated = false
tool_executed env c batch_refused = false
tool_executed env c (ran r) = elim (env.lookup c.name) [
  | none ↦ false
  | some t ↦ t.is_read_only c.arguments
]

abbrev pub session_after : Handling → Session → Session
session_after repeated s = s
session_after batch_refused s = s
session_after (ran r) s = r.session

abbrev pub log_after : Executed → Handling → List Executed → List Executed
log_after entry repeated log = log
log_after entry batch_refused log = log
log_after entry (ran r) log = if is_executed r.outcome then entry ∷ log else log

-- The message of a result.
unfoldable pub result_message : Bool → ToolCall → Text → Message
result_message is_shim c content =
    if is_shim
    then record {
      role = codes "user";
      type = codes "tool-call-response";
      content = codes "工具 " ++ c.name ++ codes " 返回：\n" ++ content;
      timestamp = none;
    }
    else record {
      role = codes "tool";
      type = codes "tool-call-response";
      content = content;
      timestamp = none;
    }

pub data CallVerdict : Type 0 where
  next_call end_of_batch end_of_run : CallVerdict

-- After the result of a call.
unfoldable pub after_call :
    Agent → Env → ToolCall → Bool → Handling → ToolOutput → Chat → Chat × CallVerdict
after_call agent env c in_batch how out chat =
    let reads = tool_executed env c how in
    let bytes = chat.turn_bytes + byte_length out.text in
    let exceeded = ltb agent.turn_max_bytes bytes in
    let content =
      if exceeded
      then codes "turn context budget exceeded; answer with the evidence you have."
      else out.text in
    let entry : Executed = record {
      env = env;
      session = chat.session;
      call = c;
      in_batch = in_batch;
    } in
    (
      record chat {
        session =
            add_message env.now (result_message chat.is_shim c content)
              (session_after how chat.session);
        tool_calls_total = suc chat.tool_calls_total;
        turn_bytes = bytes;
        failed_tool_calls =
            if not out.is_ok && (reads || out.is_rbac_denied)
            then failure_key c ∷ chat.failed_tool_calls
            else chat.failed_tool_calls;
        log = log_after entry how chat.log;
      },
      if (not reads && not out.is_ok) || exceeded then end_of_batch else next_call,
    )

-- One call of a round.
unfoldable pub one_call : Agent → Outside → Batch → ToolCall → Chat → Chat × CallVerdict
one_call agent outside batch c chat =
    let number = suc chat.tool_calls_total in
    let env = outside.env number in
    if ltb agent.max_tool_calls number
    then (
      fail_turn env.now (codes "agent exceeded max tool calls")
          (record chat { tool_calls_total = number }),
      end_of_run,
    )
    else after_call agent env c (contains batch.approved c.id) (handle agent outside batch c chat)
        (seen (handle agent outside batch c chat) (outside.output number)) chat

-- The two `break`s and the return of the loop over the calls.
abbrev pub on_verdict : CallVerdict → Chat → Chat × Bool → Chat × Bool
on_verdict next_call after rest = rest
on_verdict end_of_batch after rest = (after, false)
on_verdict end_of_run after rest = (after, true)

-- The calls of a round, and whether they ended the run.
unfoldable pub run_calls : Agent → Outside → Batch → List ToolCall → Chat → Chat × Bool
run_calls agent outside batch [] chat = (chat, false)
run_calls agent outside batch (c ∷ cs) chat =
    let (after, verdict) = one_call agent outside batch c chat in
    on_verdict verdict after (run_calls agent outside batch cs after)
