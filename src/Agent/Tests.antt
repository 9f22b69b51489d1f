-- ===== src/Agent/Tests.antt =====
-- The gate of the agent loop at a concrete tool, session and user.
use k8s_ai.Base.{
  ◌≡◌, ◌≢◌, ◌<◌, refl, true, false, none, some, [], ◌∷◌, Text, codes, strings, join, has_prefix,
  text_eq, arith,
}
use k8s_ai.Model.{medium}
use k8s_ai.Approval.Decision.{Policy, strict, evaluate}
use k8s_ai.Approval.CreateRisk.{CreateSubject}
use k8s_ai.Approval.CodeGuard
use k8s_ai.Approval.CodeGuard.{
  GuardRequest, code_guard, scan_subjects, guard_step, deny_if, review_if, check_dry_run, add,
}
use k8s_ai.Session.State.{Session, approved, declined, find_grant}
use k8s_ai.Approval.Grant.{match_grant}
use k8s_ai.Agent.Key.{normalize_tokens, decline_key, is_namespace_flag, is_namespace_value}
use k8s_ai.Agent.KeyLaws.{IsWord, normalize_tokens_three}
use k8s_ai.Agent.Gate.{
  Tool, ToolCall, Choice, yes_once, refused, Env, guard_for, guard_denies, policy_decision,
  executed, blocked, declined_by_user, execute_tool, access_denied, run_known, run_decided,
  with_approval, on_choice, perform, approval_decision,
}
use k8s_ai.Agent.GateLaws.{IsConfirmed, IsAuthorized, execute_tool-IsAuthorized}
use k8s_ai.Agent.Refusals.{execute_tool_blocks_third}
use k8s_ai.Agent.ShellGate.{shell_executed-IsConfirmed, guard_denies_execution}
use k8s_ai.Agent.Batch.{
  Pending, pending_for, pending_of, collect_pending, batch_approve, on_batch_choice,
}
use k8s_ai.Agent.BatchLaws.{Waits, batch_approve-Waits, batch_approve_remembered}
use k8s_ai.Base.{Memᴰ, List, ◌⊎◌}
use k8s_ai.Agent.Gate.{yes_no_ask_again}

abbrev pub kubectl : Tool
kubectl = record {
  name = codes "kubectl";
  is_read_only = λ args. false;
  risk = λ args. medium;
  has_shell = λ args. false;
  guard_request = λ args. none;
  cluster_access = none;
  grant_target = none;
}

abbrev pub kubectl_shell : Tool
kubectl_shell = record kubectl { has_shell = λ args. true }

abbrev blocked_subject : CreateSubject
blocked_subject = record {
  group = [];
  kind = codes "Secret";
  scope = codes "Namespaced";
  dangerous = [];
  escalations = [];
  unknown = false;
  secret = true;
  dry_run = true;
  namespace = codes "prod";
  namespace_missing = false;
  denied = true;
  not_allowed = false;
  cluster_kind_denied = false;
}

abbrev guarded : Tool
guarded = record kubectl {
  guard_request =
      λ args. some (record { subjects = blocked_subject ∷ []; dry_run_verified = true });
}

abbrev pub delete_call : ToolCall
delete_call = record {
  id = codes "t1";
  name = codes "kubectl";
  arguments = codes "{\"command\":\"kubectl delete pod x\"}";
  command = codes "kubectl delete pod x";
  kind_arg = [];
  name_arg = [];
  namespace_arg = [];
}

abbrev delete_key : Text
delete_key = decline_key delete_call.name delete_call.arguments delete_call.command

abbrev pub answering : Tool → Choice → Env
answering t choice = record {
  now = 4;
  grant_id = λ n. n ∷ codes "g";
  lookup = λ name. some t;
  scope_allows = λ c. true;
  approver = some (λ c. some choice);
  secrets_given = λ c. true;
}

abbrev pub cautious : Policy
cautious = record {
  require_approval = true;
  skip_permissions = false;
  deny_ops = [];
  mode = strict;
}

abbrev pub fresh : Session
fresh = record {
  id = codes "s1";
  name = [];
  title = [];
  cluster = codes "c1";
  namespace = codes "prod";
  messages = [];
  message_count = 0;
  approved_writes = [];
  approval_grants = [];
  declined_writes = [];
  last_modified = 0;
}

execute_tool-IsAuthorized_example :
    (t : Tool) × (some kubectl ≡ some t)
    × (true ≡ true)
    × (access_denied t delete_call ≡ false)
    × IsAuthorized (answering kubectl yes_once) (some cautious) fresh t delete_call false
unfolding execute_tool run_known approval_decision policy_decision evaluate guard_for find_grant
    match_grant run_decided with_approval on_choice perform declined approved
execute_tool-IsAuthorized_example =
    execute_tool-IsAuthorized (answering kubectl yes_once) (some cautious) fresh delete_call false
      refl

execute_tool_blocks_third_example :
    let env = answering kubectl refused in
    let r1 = execute_tool env (some cautious) fresh delete_call false in
    let r2 = execute_tool env (some cautious) r1.session delete_call false in
    (r1.outcome ≡ declined_by_user 1)
    × (r2.outcome ≡ declined_by_user 2)
    × (execute_tool env (some cautious) r2.session delete_call true
        ≡ record { session = r2.session; asked = false; outcome = blocked })
unfolding policy_decision evaluate guard_for find_grant match_grant declined approved
execute_tool_blocks_third_example =
    execute_tool_blocks_third (answering kubectl refused) (some cautious) fresh kubectl delete_call
      true (λ c. some refused) refl refl refl refl refl refl
      (record {
        valid = record { distinct = tt; counted = refl };
        unapproved = refl;
        ungranted = refl;
      })
      refl

shell_executed-IsConfirmed_example :
    (declined fresh delete_key < 2)
    × IsConfirmed (answering kubectl_shell yes_once) fresh delete_call false
unfolding execute_tool run_known approval_decision policy_decision evaluate guard_for find_grant
    match_grant run_decided with_approval on_choice perform declined approved
shell_executed-IsConfirmed_example =
    shell_executed-IsConfirmed (answering kubectl_shell yes_once) (some cautious) fresh
      kubectl_shell delete_call false refl refl refl

guarded_denies : guard_denies (guard_for guarded delete_call) ≡ true
unfolding guard_for code_guard scan_subjects guard_step deny_if review_if check_dry_run add
    CodeGuard.is_denied
guarded_denies = refl

guard_denies_execution_example :
    (execute_tool (answering guarded yes_once) none fresh delete_call true).outcome ≢ executed
guard_denies_execution_example =
    guard_denies_execution (answering guarded yes_once) none fresh guarded delete_call true refl
      guarded_denies

delete-IsWord : IsWord (codes "delete")
unfolding has_prefix
delete-IsWord = record { filled = refl; plain = refl }

pod-IsWord : IsWord (codes "pod")
unfolding has_prefix
pod-IsWord = record { filled = refl; plain = refl }

web-IsWord : IsWord (codes "web")
unfolding has_prefix
web-IsWord = record { filled = refl; plain = refl }

-- The words after the third are another command here.
normalize_tokens_three_example :
    normalize_tokens (
      codes "kubectl"
      ∷ codes "delete"
      ∷ codes "pod"
      ∷ codes "web"
      ∷ codes ";"
      ∷ codes "kubectl"
      ∷ codes "delete"
      ∷ codes "ns"
      ∷ codes "prod"
      ∷ [])
    ≡ join (codes " ") (codes "delete" ∷ codes "pod" ∷ codes "web" ∷ [])
unfolding is_namespace_flag is_namespace_value strings
normalize_tokens_three_example =
    normalize_tokens_three (codes "kubectl") (codes "delete") (codes "pod") (codes "web")
      (codes ";" ∷ codes "kubectl" ∷ codes "delete" ∷ codes "ns" ∷ codes "prod" ∷ []) delete-IsWord
      pod-IsWord web-IsWord refl

abbrev drain_call : ToolCall
drain_call = record delete_call {
  id = codes "t2";
  arguments = codes "{\"command\":\"kubectl drain n1\"}";
  command = codes "kubectl drain n1";
}

abbrev round : List ToolCall
round = delete_call ∷ drain_call ∷ []

abbrev pending_delete : Pending
pending_delete = record { call = delete_call; tool = kubectl; key = delete_key }

batch_approve-Waits_example :
    ((some yes_once ≡ some yes_once) ⊎ (some yes_once ≡ some yes_no_ask_again))
    × ((c : ToolCall) × Memᴰ c round
        × (c.id ≡ codes "t2")
        × Waits (answering kubectl yes_once) (some cautious) fresh c)
unfolding batch_approve on_batch_choice collect_pending pending_of pending_for approval_decision
    policy_decision evaluate guard_for find_grant match_grant declined approved strings
batch_approve-Waits_example =
    batch_approve-Waits (answering kubectl yes_once) (some cautious) fresh round (some yes_once)
      (codes "t2") refl

batch_approve_remembered_example :
    approved
      (batch_approve
        (answering kubectl refused)
        (some cautious)
        fresh
        round
        (some yes_no_ask_again)).session
      delete_key
    ≡ true
unfolding collect_pending pending_of pending_for approval_decision policy_decision evaluate
    guard_for find_grant match_grant declined approved
batch_approve_remembered_example =
    batch_approve_remembered (answering kubectl refused) (some cautious) fresh round pending_delete
      refl (omega arith) (Memᴰ.head refl)
