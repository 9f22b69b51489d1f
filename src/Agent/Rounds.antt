-- ===== src/Agent/Rounds.antt =====
-- internal/agent/loop.go: the rounds of a run of the agent and its end.
use k8s_ai.Base.{
  ℕ, zero, suc, Bool, true, not, ◌&&◌, ◌||◌, Option, none, some, List, [], Text, codes, nat_eq,
  text_eq, if◌then◌else◌, is_empty, trim_space,
}
use k8s_ai.Session.State.{Session, Message, add_message}
use k8s_ai.Session.Turn.{Turn, TurnStatus, TokenUsage, start, is_running, is_waiting}
use k8s_ai.Agent.Gate.{ToolCall}
use k8s_ai.Agent.Batch.{batch_approve}
use k8s_ai.Agent.Chat.{
  Agent, Reply, Streamed, llm_error, unparsable, parsed, Outside, Chat, or_same, fail_turn,
  complete_turn, run_calls,
}

-- The calls of a round after their approval in a batch.
unfoldable pub act : Agent → Outside → ℕ → List ToolCall → Chat → Chat × Bool
act agent outside round calls chat =
    let batch =
      batch_approve (outside.env chat.tool_calls_total) agent.policy chat.session calls
        (outside.batch_answer round) in
    run_calls agent outside batch calls (record chat { session = batch.session })

abbrev pub assistant_message : Text → Message
assistant_message answer = record {
  role = codes "assistant";
  type = codes "text";
  content = answer;
  timestamp = none;
}

unfoldable pub finish : ℕ → Text → Chat → Chat
finish now answer chat =
    complete_turn now answer
      (record chat { session = add_message now (assistant_message answer) chat.session })

-- `persistRoundReasoning`.
unfoldable pub persist_reasoning : ℕ → Text → Session → Session
persist_reasoning now think s =
    let text = trim_space think in
    if is_empty text
    then s
    else add_message now
        (record {
          role = codes "assistant";
          type = codes "reasoning";
          content = text;
          timestamp = none;
        })
        s

abbrev pub one_request : Chat → Chat
one_request chat = record chat { requests = suc chat.requests }

-- The reply to a request without a stream.
unfoldable pub ask_plain : Outside → ℕ → Chat → Chat × Reply
ask_plain outside n chat = (one_request chat, outside.reply n chat.is_shim)

-- What follows a request with a stream: one that fails before any text came is made again without.
unfoldable pub after_stream : Outside → ℕ → ℕ → Chat → Option Streamed → Chat × Reply
after_stream outside now n chat none = ask_plain outside n chat
after_stream outside now n chat (some streamed) =
    let told : Chat = record (one_request chat) {
      session = persist_reasoning now streamed.think chat.session;
    } in
    elim streamed.kept [ some reply ↦ (told, reply) | none ↦ ask_plain outside n told ]

-- `chatOnce`, which streams in native mode only.
unfoldable pub chat_once : Outside → ℕ → ℕ → Chat → Chat × Reply
chat_once outside now n chat =
    if chat.is_shim
    then ask_plain outside n chat
    else after_stream outside now n chat (outside.stream n)

-- The rounds that are left.
unfoldable pub rounds : Agent → Outside → ℕ → Chat → Chat
rounds agent outside zero chat =
    fail_turn (outside.env chat.tool_calls_total).now (codes "agent exceeded max iterations") chat
rounds agent outside (suc n) before =
    let now = (outside.env before.tool_calls_total).now in
    let (chat, reply) =
      chat_once outside now before.iterations
        (record before { iterations = suc before.iterations }) in
    elim reply [
      | llm_error unsupported msg ↦
          let shimmed = rounds agent outside n (record chat { is_shim = true }) in
          if not before.is_shim && agent.auto_mode && unsupported
          then shimmed
          else fail_turn now msg chat
      | unparsable msg ↦ fail_turn now msg chat
      | parsed answer calls ↦
          let (after, over) = act agent outside before.iterations calls chat in
          let rest = rounds agent outside n after in
          if not (is_empty answer) then finish now answer chat else if over then after else rest
    ]

abbrev pub no_usage : TokenUsage
no_usage = record { prompt_tokens = 0; completion_tokens = 0; total_tokens = 0 }

abbrev pub pending_turn : ℕ → Turn
pending_turn now = record {
  status = TurnStatus.pending;
  output = [];
  error = [];
  token = no_usage;
  started_at = none;
  finished_at = none;
  created_at = some now;
  updated_at = some now;
}

-- The deferred end of `Chat`.
unfoldable pub close : ℕ → Chat → Chat
close now chat =
    if is_running chat.turn.status || is_waiting chat.turn.status
    then fail_turn now (codes "agent run ended without terminal turn state") chat
    else chat

-- `Chat`.
unfoldable pub run_chat : Agent → Outside → Text → Session → Chat
run_chat agent outside query s =
    let now = (outside.env 0).now in
    let user : Message = record {
      role = codes "user";
      type = codes "text";
      content = query;
      timestamp = none;
    } in
    close now (
      rounds agent outside agent.max_iterations (record {
        session = add_message now user s;
        turn = or_same (start now (pending_turn now)) (pending_turn now);
        is_shim = agent.starts_shim;
        iterations = 0;
        requests = 0;
        tool_calls_total = 0;
        turn_bytes = 0;
        failed_tool_calls = [];
        log = [];
      }))
