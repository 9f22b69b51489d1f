-- ===== src/Approval/Tests.antt =====
-- The laws of internal/approval at concrete commands, grants and creations.
use k8s_ai.Base.{ℕ, ◌≡◌, ◌≤◌, ◌↔◌, refl, true, false, none, [], ◌∷◌, List, Text, codes, Memᴰ}
use k8s_ai.Model.{low, medium}
use k8s_ai.Approval.Risk.{risk_order, classify_command, is_read_only_command, classification}
use k8s_ai.Approval.Classify.{shell_needs_approval}
use k8s_ai.Approval.Decision.{Policy, Input, strict}
use k8s_ai.Approval.Grant.{Grant, GrantRequest, matches, new_grant, grant_eligible_risk}
use k8s_ai.Approval.GrantLaws.{IsCovered, new_grant-matches}
use k8s_ai.Approval.CreateRisk.{CreateSubject}
use k8s_ai.Approval.CodeGuard.{GuardRequest, code_guard}
use k8s_ai.Approval.CodeGuard
use k8s_ai.Approval.GuardLaws.{code_guard_verdict}
use k8s_ai.Approval.Gaps.{delete_dry_run_none, flag_value_hides_verb}

abbrev piped : Text
piped = codes "kubectl get ns | kubectl delete pod x"

abbrev deleted : List Text
deleted = codes "delete" ∷ codes "pod" ∷ codes "x" ∷ []

shell_needs_approval_example :
    (is_read_only_command piped ≡ false) × (2 ≤ risk_order (classify_command piped))
unfolding classification
shell_needs_approval_example = shell_needs_approval piped refl

delete_dry_run_none_example :
    is_read_only_command (codes "kubectl delete ns prod --dry-run=none") ≡ true
unfolding classification
delete_dry_run_none_example =
    delete_dry_run_none (codes "kubectl delete ns prod --dry-run=none") refl refl
      (Memᴰ.tail (Memᴰ.tail (Memᴰ.tail (Memᴰ.tail (Memᴰ.head refl)))))

flag_value_hides_verb_example : is_read_only_command (codes "kubectl -n get delete pod x") ≡ true
unfolding classification
flag_value_hides_verb_example =
    flag_value_hides_verb (codes "kubectl -n get delete pod x") (codes "kubectl") (codes "-n")
      (codes "get") deleted refl refl refl refl

abbrev scale_web : GrantRequest
scale_web = record {
  task_id = [];
  operation = codes "scale";
  kind = codes "deployment";
  name = codes "web";
  namespace = codes "prod";
  cluster = codes "c1";
  risk = medium;
  shell = false;
  no_grant = false;
}

abbrev web_grant : Grant
web_grant = record {
  id = codes "g1";
  task_id = [];
  operation = codes "scale";
  kind = codes "deployment";
  name = codes "web";
  namespace = codes "prod";
  cluster = codes "c1";
  risk_ceiling = medium;
  expires_at = none;
}

new_grant-matches_example :
    ((now : ℕ) → matches now web_grant scale_web ≡ true)
    × ((now : ℕ) (other : GrantRequest)
        → (matches now web_grant other ≡ true) ↔ IsCovered scale_web other)
unfolding classification new_grant grant_eligible_risk
new_grant-matches_example = new_grant-matches (codes "g1") scale_web web_grant refl

abbrev cautious : Policy
cautious = record {
  require_approval = true;
  skip_permissions = false;
  deny_ops = [];
  mode = strict;
}

abbrev shell_read : Input
shell_read = record { read_only = true; risk = low; shell = true; denied = false }

abbrev pod_subject : CreateSubject
pod_subject = record {
  group = [];
  kind = codes "Pod";
  scope = codes "Namespaced";
  dangerous = codes "hostNetwork" ∷ [];
  escalations = [];
  unknown = false;
  secret = false;
  dry_run = false;
  namespace = codes "prod";
  namespace_missing = false;
  denied = false;
  not_allowed = false;
  cluster_kind_denied = false;
}

abbrev unverified : GuardRequest
unverified = record { subjects = pod_subject ∷ []; dry_run_verified = false }

code_guard_verdict_example : (code_guard unverified).verdict ≡ CodeGuard.deny
code_guard_verdict_example = code_guard_verdict unverified
