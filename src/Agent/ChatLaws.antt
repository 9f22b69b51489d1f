-- ===== src/Agent/ChatLaws.antt =====
-- internal/agent/loop.go: every run of the agent ends, within its bounds, and executes nothing that was not authorized.
use k8s_ai.Base.{
  ℕ, suc, ◌+◌, ◌*◌, ◌≤◌, ◌≡◌, ◌≢◌, refl, arith, ◌⊎◌, inl, inr, Bool, true, false, Bool-cases,
  Option, some, List, [], ◌∷◌, Text, text_eq, if◌then◌else◌, contains, length,
}
use k8s_ai.Approval.Decision.{Policy}
use k8s_ai.Session.Turn.{TurnStatus, complete, fail, touch_turn}
use k8s_ai.Agent.Gate.{
  Tool, ToolCall, yes_once, yes_no_ask_again, Env, Outcome, executed, unknown_tool, scope_denied,
  rbac_denied, guard_denied, blocked, approval_error, declined_by_user, secret_missing, Run,
  execute_tool, access_denied,
}
use k8s_ai.Agent.GateLaws.{IsAuthorized, execute_tool-IsAuthorized}
use k8s_ai.Agent.Batch.{Batch}
use k8s_ai.Agent.BatchLaws.{Waits}
use k8s_ai.Session.State.{Session}
use k8s_ai.Agent.Chat.{
  Agent, Outside, ToolOutput, Executed, Chat, failure_key, fail_turn, complete_turn, Handling, ran,
  repeated, batch_refused, handle, is_executed, log_after, after_call, next_call, end_of_batch,
  end_of_run,
}

-- The user said yes to a batch in which a call of this identifier waited for the answer.
pub record WasBatched (outside : Outside) (policy : Option Policy) (id : Text) : Type 0 where
  pub round : ℕ
  pub said_yes :
      (outside.batch_answer round ≡ some yes_once)
      ⊎ (outside.batch_answer round ≡ some yes_no_ask_again)
  pub env : Env
  pub session : Session
  pub call : ToolCall
  pub named : call.id ≡ id
  pub waits : Waits env policy session call

-- The call of an entry of the log was authorized in the state in which it was executed.
pub record WasAuthorized (outside : Outside) (policy : Option Policy) (e : Executed) : Type 0 where
  pub tool : Tool
  pub known : e.env.lookup e.call.name ≡ some tool
  pub in_scope : e.env.scope_allows e.call ≡ true
  pub with_access : access_denied tool e.call ≡ false
  pub authorized : IsAuthorized e.env policy e.session tool e.call e.in_batch
  pub batched : (e.in_batch ≡ false) ⊎ WasBatched outside policy e.call.id

abbrev pub AllAuthorized : Outside → Option Policy → List Executed → Type 0
AllAuthorized outside policy [] = Unit
AllAuthorized outside policy (e ∷ log) =
    WasAuthorized outside policy e × AllAuthorized outside policy log

-- A run that goes on, with `n` rounds left.
pub record Live (agent : Agent) (outside : Outside) (n : ℕ) (chat : Chat) : Type 0 where
  pub runs : chat.turn.status ≡ TurnStatus.running
  pub few_requests : 2 * n + chat.requests ≤ 2 * agent.max_iterations
  pub few_executed : length chat.log ≤ chat.tool_calls_total
  pub few_calls : chat.tool_calls_total ≤ agent.max_tool_calls
  pub authorized : AllAuthorized outside agent.policy chat.log

-- A run that is over.
pub record IsOver (agent : Agent) (outside : Outside) (chat : Chat) : Type 0 where
  pub final : (chat.turn.status ≡ TurnStatus.done) ⊎ (chat.turn.status ≡ TurnStatus.failed)
  pub few_requests : chat.requests ≤ 2 * agent.max_iterations
  pub few_executed : length chat.log ≤ agent.max_tool_calls
  pub authorized : AllAuthorized outside agent.policy chat.log

pub fail_status :
    (now : ℕ) (msg : Text) (chat : Chat)
    → chat.turn.status ≡ TurnStatus.running
    → (fail_turn now msg chat).turn.status ≡ TurnStatus.failed
unfolding fail_turn fail touch_turn
fail_status now msg chat e = rw e refl

pub complete_status :
    (now : ℕ) (msg : Text) (chat : Chat)
    → chat.turn.status ≡ TurnStatus.running
    → (complete_turn now msg chat).turn.status ≡ TurnStatus.done
unfolding complete_turn complete touch_turn
complete_status now msg chat e = rw e refl

pub fail-IsOver :
    {agent : Agent} {outside : Outside} {n : ℕ} (now : ℕ) (msg : Text) (chat : Chat)
    → Live agent outside n chat
    → IsOver agent outside (fail_turn now msg chat)
unfolding fail_turn
fail-IsOver now msg chat l = record {
  final = inr (fail_status now msg chat l.runs);
  few_requests = omega (arith, l.few_requests);
  few_executed = omega (arith, l.few_executed, l.few_calls);
  authorized = l.authorized;
}

pub log_grows :
    (e : Executed) (how : Handling) (log : List Executed)
    → length (log_after e how log) ≤ suc (length log)
log_grows e repeated log = omega arith
log_grows e batch_refused log = omega arith
log_grows e (ran r) log = ground arith

executed_eq : (o : Outcome) → is_executed o ≡ true → o ≡ executed
executed_eq executed h = refl
executed_eq unknown_tool h = cc
executed_eq scope_denied h = cc
executed_eq rbac_denied h = cc
executed_eq guard_denied h = cc
executed_eq blocked h = cc
executed_eq approval_error h = cc
executed_eq (declined_by_user n) h = cc
executed_eq secret_missing h = cc

was_authorized :
    (outside : Outside) (policy : Option Policy) (e : Executed)
    → (execute_tool e.env policy e.session e.call e.in_batch).outcome ≡ executed
    → (e.in_batch ≡ false) ⊎ WasBatched outside policy e.call.id
    → WasAuthorized outside policy e
was_authorized outside policy e h b =
    let (t, known, scope, access, a) =
      execute_tool-IsAuthorized e.env policy e.session e.call e.in_batch h in
    record {
      tool = t;
      known = known;
      in_scope = scope;
      with_access = access;
      authorized = a;
      batched = b;
    }

-- What joins the log was authorized.
pub log_authorized :
    (agent : Agent) (outside : Outside) (batch : Batch) (c : ToolCall) (chat : Chat)
    → ((id : Text) → contains batch.approved id ≡ true → WasBatched outside agent.policy id)
    → AllAuthorized outside agent.policy chat.log
    → AllAuthorized outside agent.policy (
        log_after
          (record {
            env = outside.env (suc chat.tool_calls_total);
            session = chat.session;
            call = c;
            in_batch = contains batch.approved c.id;
          })
          (handle agent outside batch c chat)
          chat.log)
unfolding handle
log_authorized agent outside batch c chat granted a =
    elim (Bool-cases (contains chat.failed_tool_calls (failure_key c))) [
      | inl e ↦ rw (handle, e) a
      | inr e ↦ elim (Bool-cases (contains batch.declined c.id)) [
        | inl f ↦ rw (handle, e, f) a
        | inr f ↦ rw (handle, e, f) joined
      ]
    ]
  where
    run : Run
    run =
        execute_tool (outside.env (suc chat.tool_calls_total)) agent.policy chat.session c
          (contains batch.approved c.id)

    entry : Executed
    entry = record {
      env = outside.env (suc chat.tool_calls_total);
      session = chat.session;
      call = c;
      in_batch = contains batch.approved c.id;
    }

    batched : (contains batch.approved c.id ≡ false) ⊎ WasBatched outside agent.policy c.id
    batched = elim (Bool-cases (contains batch.approved c.id)) [
      | inl g ↦ inr (granted c.id g)
      | inr g ↦ inl g
    ]

    joined :
        AllAuthorized outside agent.policy
          (if is_executed run.outcome then entry ∷ chat.log else chat.log)
    joined = elim (Bool-cases (is_executed run.outcome)) [
      | inr g ↦ rw g a
      | inl g ↦
          rw g (was_authorized outside agent.policy entry (executed_eq run.outcome g) batched, a)
    ]

pub after_call-Live :
    (agent : Agent) (outside : Outside) (env : Env) (c : ToolCall) (in_batch : Bool)
    (how : Handling) (out : ToolOutput) (n : ℕ) (chat : Chat)
    → Live agent outside n chat
    → suc chat.tool_calls_total ≤ agent.max_tool_calls
    → AllAuthorized outside agent.policy (
        log_after
          (record { env = env; session = chat.session; call = c; in_batch = in_batch })
          how
          chat.log)
    → let r = after_call agent env c in_batch how out chat in
      Live agent outside n r.0 × (r.1 ≢ end_of_run)
unfolding after_call
after_call-Live agent outside env c in_batch how out n chat l room a = (
  record {
    runs = l.runs;
    few_requests = l.few_requests;
    few_executed = omega (
      arith,
      log_grows (record { env = env; session = chat.session; call = c; in_batch = in_batch }) how
          chat.log,
      l.few_executed,
    );
    few_calls = room;
    authorized = a;
  },
  not_over _,
)
  where
    not_over : (b : Bool) → (if b then end_of_batch else next_call) ≢ end_of_run
    not_over true = λ e. cc e
    not_over false = λ e. cc e
