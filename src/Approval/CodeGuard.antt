-- ===== src/Approval/CodeGuard.antt =====
-- internal/approval/codeguard.go: the code guard of a creation call.
use mathlib.Core.List.{foldl}
use k8s_ai.Base.{
  Bool, true, false, not, List, [], ◌++◌, Text, codes, if◌then◌else◌, contains, is_empty,
  sort_texts, text_eq,
}
use k8s_ai.Model.{RiskLevel}
use k8s_ai.Approval.CreateRisk.{CreateSubject, append_unique, create_subject_risk}

pub data Verdict : Type 0 where
  allow review deny : Verdict

unfoldable pub denied_kind : Text
denied_kind = codes "denied_kind"

unfoldable pub kind_not_allowed : Text
kind_not_allowed = codes "kind_not_allowed"

unfoldable pub cluster_kind_denied : Text
cluster_kind_denied = codes "cluster_kind_denied"

unfoldable pub dry_run_required : Text
dry_run_required = codes "dry_run_required"

unfoldable pub namespace_missing : Text
namespace_missing = codes "namespace_missing"

unfoldable pub dangerous_field : Text
dangerous_field = codes "dangerous_field"

unfoldable pub unknown_kind : Text
unknown_kind = codes "unknown_kind"

pub record GuardRequest : Type 0 where
  pub subjects : List CreateSubject
  pub dry_run_verified : Bool

pub record GuardResult : Type 0 where
  pub verdict : Verdict
  pub codes : List Text
  pub reasons : List Text
  pub level : RiskLevel

-- `Denied`.
unfoldable pub is_denied : GuardResult → Bool
is_denied r = elim r.verdict [ deny ↦ true | allow ↦ false | review ↦ false ]

-- `Has`.
unfoldable pub has_code : GuardResult → Text → Bool
has_code r code = contains r.codes code

-- The variables of `CodeGuard`.
pub record Scan : Type 0 where
  pub codes : List Text
  pub reasons : List Text
  pub deny : Bool
  pub review : Bool
  pub dry_run_gap : Bool

-- The closure `add`, where a test that has set `deny` or `review` calls it.
unfoldable pub add : Text → Text → Scan → Scan
add code reason c = record c {
  codes = append_unique c.codes code;
  reasons = append_unique c.reasons reason;
}

-- `deny = true; add(code, reason)` under a test.
unfoldable pub deny_if : Bool → Text → Text → Scan → Scan
deny_if test code reason c = if test then add code reason (record c { deny = true }) else c

unfoldable pub review_if : Bool → Text → Text → Scan → Scan
review_if test code reason c = if test then add code reason (record c { review = true }) else c

abbrev subject_name : CreateSubject → Text
subject_name s =
    (if is_empty s.kind then codes "该对象" else s.kind)
    ++ (if is_empty s.namespace then [] else codes "（命名空间 " ++ (s.namespace ++ codes "）"))

-- `if !s.DryRun { review = true; if !req.DryRunVerified { dryRunGap = true } }`.
unfoldable pub check_dry_run : Bool → CreateSubject → Scan → Scan
check_dry_run verified s c =
    if s.dry_run
    then c
    else if verified
    then record c { review = true }
    else record c { review = true; dry_run_gap = true }

-- The body of the loop of `CodeGuard`.
unfoldable pub guard_step : Bool → Scan → CreateSubject → Scan
guard_step verified c s =
    let name = subject_name s in
    review_if (not (is_empty s.dangerous)) dangerous_field
      (name ++ codes " 含特权/宿主机类字段，风险提升为 HIGH，必须人工确认")
      (review_if s.unknown unknown_kind (name ++ codes " 在集群中找不到对应类型，风险按 HIGH 处理，必须人工确认") (
        check_dry_run verified s (
          deny_if s.namespace_missing namespace_missing
            (codes "命名空间 " ++ (s.namespace ++ codes " 不存在：本次调用不自动创建命名空间，请先显式创建或改用已有命名空间"))
            (deny_if s.cluster_kind_denied cluster_kind_denied
              (name ++ codes " 是 cluster-scoped 资源，未列入 agent.create.cluster_kinds")
              (deny_if s.not_allowed kind_not_allowed
                (name ++ codes " 不在 agent.create.allow_kinds 白名单中")
                (deny_if s.denied denied_kind (name ++ codes " 命中 agent.create.deny_kinds 黑名单，禁止创建")
                  c))))))

abbrev pub no_scan : Scan
no_scan = record { codes = []; reasons = []; deny = false; review = false; dry_run_gap = false }

unfoldable pub scan_subjects : GuardRequest → Scan
scan_subjects req =
    let c = foldl (guard_step req.dry_run_verified) no_scan req.subjects in
    deny_if c.dry_run_gap dry_run_required
      (codes "apply 前必须通过同一份清单的 server-side dry run：请先 mode=dry_run 产出提案并交用户确认") c

-- `CodeGuard`. The level is never empty, so its last assignment does nothing.
unfoldable pub code_guard : GuardRequest → GuardResult
code_guard req =
    let c = scan_subjects req in
    record {
      verdict = if c.deny then deny else if c.review then review else allow;
      codes = sort_texts c.codes;
      reasons = c.reasons;
      level = (create_subject_risk req.subjects).level;
    }
