-- ===== src/Agent/Gate.antt =====
-- internal/agent/loop.go: the approval decision of a tool call and its execution. The tools are an
-- interface of the program (internal/tools), here a record; the approver, the clock, the random
-- identifiers and the scope and secret checks are the environment of a call.
use k8s_ai.Base.{
  ℕ, Bool, true, false, not, ◌&&◌, ◌||◌, Option, none, some, [], Text, codes, ◌==◌, text_eq,
  if◌then◌else◌, leb, is_empty,
}
use k8s_ai.Model.{RiskLevel}
use k8s_ai.Approval.Decision
use k8s_ai.Approval.Decision.{Policy, Decision, auto, deny, evaluate}
use k8s_ai.Approval.Grant.{Grant, GrantRequest, new_grant, parse_command_target}
use k8s_ai.Approval.CodeGuard
use k8s_ai.Approval.CodeGuard.{GuardResult, code_guard}
use k8s_ai.Session.State.{
  Session, approved, add_approved, add_grant, find_grant, remove_grant_matching, declined,
  add_declined,
}
use k8s_ai.Agent.Key.{decline_key}

-- `tools.Tool` with its optional interfaces. `guard_request` is `none` where the tool plans no
-- guard; `cluster_access` and `grant_target` are `none` where the tool does not implement them.
pub record Tool : Type 0 where
  pub name : Text
  pub is_read_only : Text → Bool
  pub risk : Text → RiskLevel
  pub has_shell : Text → Bool
  pub guard_request : Text → Option CodeGuard.GuardRequest
  pub cluster_access : Option (Text → Bool)
  pub grant_target : Option (Text → Option (Text × Text × Text))

-- `llm.ToolCall` with what encoding/json reads in its arguments: the strings under "command",
-- "kind", "name" and "namespace", "" where there is none.
pub record ToolCall : Type 0 where
  pub id : Text
  pub name : Text
  pub arguments : Text
  pub command : Text
  pub kind_arg : Text
  pub name_arg : Text
  pub namespace_arg : Text

pub data Choice : Type 0 where
  yes_once yes_no_ask_again refused : Choice

-- `approver` is `none` where the agent has none; an answer is `none` where it fails. `grant_id n` is
-- the identifier that `newGrantID` draws for the grant number `n`.
pub record Env : Type 0 where
  pub now : ℕ
  pub grant_id : ℕ → Text
  pub lookup : Text → Option Tool
  pub scope_allows : ToolCall → Bool
  pub approver : Option (ToolCall → Option Choice)
  pub secrets_given : ToolCall → Bool

abbrev pub max_declines_before_block : ℕ
max_declines_before_block = 2

abbrev pub or_else : Text → Text → Text
or_else a b = if is_empty a then b else a

-- `grantRequestFor`, which reads the cluster and the namespace of the session.
unfoldable pub grant_request_at : Text → Text → Tool → ToolCall → GrantRequest
grant_request_at session_cluster session_namespace t c =
    let base : GrantRequest = record {
      task_id = [];
      operation = t.name;
      kind = [];
      name = [];
      namespace = [];
      cluster = session_cluster;
      risk = t.risk c.arguments;
      shell = t.has_shell c.arguments;
      no_grant = false;
    } in
    let target = parse_command_target c.command in
    if not (t.name == codes "kubectl")
    then elim t.grant_target [
      | none ↦ record base {
        kind = c.kind_arg;
        name = c.name_arg;
        namespace = or_else c.namespace_arg session_namespace;
      }
      | some target_of ↦ elim (target_of c.arguments) [
        | none ↦ record base {
          kind = c.kind_arg;
          name = c.name_arg;
          namespace = or_else c.namespace_arg session_namespace;
          no_grant = true;
        }
        | some (kind, name, ns) ↦ record base {
          kind = kind;
          name = name;
          namespace = or_else ns session_namespace;
        }
      ]
    ]
    else if is_empty c.command || is_empty target.operation
    then record base { shell = true }
    else record base {
      operation = target.operation;
      kind = target.kind;
      name = target.name;
      namespace = or_else target.namespace session_namespace;
    }

unfoldable pub grant_request_for : Session → Tool → ToolCall → GrantRequest
grant_request_for s t c = grant_request_at s.cluster s.namespace t c

-- `guardFor`.
unfoldable pub guard_for : Tool → ToolCall → Option GuardResult
guard_for t c = elim (t.guard_request c.arguments) [
  | none ↦ none
  | some req ↦ some (code_guard req)
]

abbrev pub guard_denies : Option GuardResult → Bool
guard_denies none = false
guard_denies (some r) = CodeGuard.is_denied r

-- The policy that an agent without one takes.
abbrev pub default_policy : Policy
default_policy = record {
  require_approval = true;
  skip_permissions = false;
  deny_ops = [];
  mode = Decision.strict;
}

abbrev pub policy_or_default : Option Policy → Policy
policy_or_default none = default_policy
policy_or_default (some p) = p

-- What the policy decides before grants are looked at.
unfoldable pub policy_decision : Option Policy → Tool → ToolCall → Decision
policy_decision policy t c = evaluate (policy_or_default policy) (record {
  read_only = t.is_read_only c.arguments;
  risk = t.risk c.arguments;
  shell = t.has_shell c.arguments;
  denied = guard_denies (guard_for t c);
})

-- `approvalDecisionDetail`: the decision and the grant that it rests on.
unfoldable pub approval_decision :
    ℕ → Option Policy → Session → Tool → ToolCall → Decision × Option Grant
approval_decision now policy s t c = elim (policy_decision policy t c) [
  | deny ↦ (deny, none)
  | auto ↦ (auto, none)
  | Decision.require_approval ↦ elim (find_grant now s (grant_request_for s t c)) [
    | none ↦ (Decision.require_approval, none)
    | some g ↦ (auto, some g)
  ]
]

pub data Outcome : Type 0 where
  executed unknown_tool scope_denied rbac_denied guard_denied blocked approval_error : Outcome
  declined_by_user : ℕ → Outcome
  secret_missing : Outcome

-- The new state, whether the user was asked, and the outcome.
pub record Run : Type 0 where
  pub session : Session
  pub asked : Bool
  pub outcome : Outcome

-- The last part of `executeTool`: secret values are collected only after approval.
unfoldable pub perform : Env → Session → Bool → ToolCall → Run
perform env s asked c = record {
  session = s;
  asked = asked;
  outcome = if env.secrets_given c then executed else secret_missing;
}

-- `NewGrant` and `AddGrant`, with the number of the grant.
unfoldable pub remember_grant : Env → ℕ → GrantRequest → Session → Session
remember_grant env n req s = elim (new_grant (env.grant_id n) req) [
  | none ↦ s
  | some g ↦ add_grant env.now g s
]

-- What follows the user's answer.
unfoldable pub on_choice : Env → Session → Tool → ToolCall → Text → Option Choice → Run
on_choice env s t c key none = record { session = s; asked = true; outcome = approval_error }
on_choice env s t c key (some yes_no_ask_again) =
    perform env
      (remember_grant env 0 (grant_request_for (add_approved env.now key s) t c)
        (add_approved env.now key s))
      true c
on_choice env s t c key (some yes_once) = perform env s true c
on_choice env s t c key (some refused) =
    let (s', total) = add_declined env.now key s in
    record {
      session = remove_grant_matching env.now (grant_request_for s' t c) s';
      asked = true;
      outcome = declined_by_user total;
    }

-- The branch of `executeTool` for a call that needs approval.
unfoldable pub with_approval : Env → Session → Tool → ToolCall → Bool → Run
with_approval env s t c batch_approved =
    let key = decline_key c.name c.arguments c.command in
    if leb max_declines_before_block (declined s key)
    then record { session = s; asked = false; outcome = blocked }
    else if batch_approved
    then perform env s false c
    else elim env.approver [
      | none ↦ perform env s false c
      | some confirm ↦
          if approved s key then perform env s false c else on_choice env s t c key (confirm c)
    ]

abbrev pub access_denied : Tool → ToolCall → Bool
access_denied t c = elim t.cluster_access [
  | none ↦ false
  | some check ↦ not (t.is_read_only c.arguments) && not (check c.arguments)
]

-- `executeTool` once the decision is made.
unfoldable pub run_decided : Env → Session → Tool → ToolCall → Bool → Decision → Run
run_decided env s t c batch_approved deny = record {
  session = s;
  asked = false;
  outcome = guard_denied;
}
run_decided env s t c batch_approved auto = perform env s false c
run_decided env s t c batch_approved Decision.require_approval =
    with_approval env s t c batch_approved

-- `executeTool` for a tool that the registry has.
unfoldable pub run_known : Env → Option Policy → Session → Tool → ToolCall → Bool → Run
run_known env policy s t c batch_approved =
    if not (env.scope_allows c)
    then record { session = s; asked = false; outcome = scope_denied }
    else if access_denied t c
    then record { session = s; asked = false; outcome = rbac_denied }
    else run_decided env s t c batch_approved (approval_decision env.now policy s t c).0

-- `executeTool`.
unfoldable pub execute_tool : Env → Option Policy → Session → ToolCall → Bool → Run
execute_tool env policy s c batch_approved = elim (env.lookup c.name) [
  | none ↦ record { session = s; asked = false; outcome = unknown_tool }
  | some t ↦ run_known env policy s t c batch_approved
]
