-- ===== src/Agent/RememberedTests.antt =====
-- An answer for the session, and a longer command with the same key.
use k8s_ai.Base.{◌≤◌, List, none, false, some, [], ◌∷◌, codes, strings, join, ◌≡◌, refl}
use k8s_ai.Session.State.{approved, add_approved, add_grant, declined, find_grant}
use k8s_ai.Approval.Decision.{evaluate}
use k8s_ai.Approval.Grant.{
  Grant, GrantRequest, match_grant, new_grant, grant_eligible_risk, matches, is_expired, differs,
}
use k8s_ai.Agent.Gate.{
  Tool, grant_request_for, grant_request_at, remember_grant, ToolCall, yes_no_ask_again, refused,
  executed, execute_tool, run_known, run_decided, approval_decision, policy_decision, guard_for,
  with_approval, on_choice, perform,
}
use k8s_ai.Agent.Key.{
  decline_key, normalize_kubectl_command, normalize_tokens, scan_tokens, take_token, skips_next,
  key_of_parts, is_namespace_flag, is_namespace_value, is_modifier, modifier_flags,
}
use k8s_ai.Agent.Remembered.{key_of, remembered_unasked}
use k8s_ai.Agent.Grants.{Event, called, events-find_grant}
use k8s_ai.Model.{medium}
use k8s_ai.Approval.Risk.{risk_order}
use k8s_ai.Agent.Tests.{kubectl, kubectl_shell, answering, cautious, fresh, delete_call}

-- Two commands behind one key.
abbrev two_deletes : ToolCall
two_deletes = record delete_call {
  id = codes "t2";
  arguments = codes "{\"command\":\"kubectl delete pod x ; kubectl delete ns prod\"}";
  command = codes "kubectl delete pod x ; kubectl delete ns prod";
}

same_keys : key_of two_deletes ≡ key_of delete_call
unfolding decline_key normalize_kubectl_command normalize_tokens scan_tokens take_token skips_next
    key_of_parts is_namespace_flag is_namespace_value is_modifier modifier_flags strings join
same_keys = refl

remembered_unasked_example :
    let first =
      execute_tool (answering kubectl yes_no_ask_again) (some cautious) fresh delete_call false in
    let r =
      execute_tool
        (answering kubectl_shell refused)
        (some cautious)
        first.session
        two_deletes
        false in
    (r.asked ≡ false) × (r.outcome ≡ executed)
unfolding execute_tool run_known run_decided approval_decision policy_decision evaluate guard_for
    find_grant match_grant with_approval declined approved on_choice perform
remembered_unasked_example =
    remembered_unasked (answering kubectl yes_no_ask_again) (answering kubectl_shell refused)
      (some cautious) fresh kubectl kubectl_shell delete_call two_deletes
      (λ c. some yes_no_ask_again) refl refl refl refl same_keys refl refl refl refl refl

abbrev scaler : Tool
scaler = record kubectl { name = codes "scale" }

abbrev scale_call : ToolCall
scale_call = record delete_call {
  name = codes "scale";
  arguments = codes "{}";
  command = [];
  kind_arg = codes "deployment";
  name_arg = codes "web";
}

-- A write of MEDIUM risk, and the grant that the answer leaves.
abbrev one_answer : List Event
one_answer = called (answering scaler yes_no_ask_again) (some cautious) scale_call false ∷ []

abbrev left_grant : Grant
left_grant = record {
  id = 0 ∷ codes "g";
  task_id = [];
  operation = codes "scale";
  kind = codes "deployment";
  name = codes "web";
  namespace = codes "prod";
  cluster = codes "c1";
  risk_ceiling = medium;
  expires_at = none;
}

abbrev same_request : GrantRequest
same_request = record {
  task_id = [];
  operation = codes "scale";
  kind = codes "deployment";
  name = codes "web";
  namespace = codes "prod";
  cluster = codes "c1";
  risk = medium;
  shell = false;
  no_grant = false;
}

events-find_grant_example : (risk_order same_request.risk ≤ 2) × (same_request.shell ≡ false)
unfolding execute_tool run_known run_decided approval_decision policy_decision evaluate guard_for
    find_grant match_grant with_approval declined approved on_choice perform remember_grant
    grant_request_for grant_request_at add_approved add_grant new_grant grant_eligible_risk matches
    is_expired differs decline_key strings
events-find_grant_example = events-find_grant fresh one_answer 5 same_request left_grant refl refl
