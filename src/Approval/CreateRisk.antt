-- ===== src/Approval/CreateRisk.antt =====
-- internal/approval/create_risk.go: the risk class of a resource creation.
use mathlib.Core.List.{foldl}
use k8s_ai.Base.{
  Bool, ◌||◌, List, [], ◌∷◌, ◌++◌, Text, codes, ◌==◌, text_eq, if◌then◌else◌, ltb, contains,
  is_empty, sort_texts, join,
}
use k8s_ai.Model.{RiskLevel, safe, medium, high}
use k8s_ai.Approval.Risk.{risk_order}

pub record CreateSubject : Type 0 where
  pub group : Text
  pub kind : Text
  pub scope : Text
  pub dangerous : List Text
  pub escalations : List Text
  pub unknown : Bool
  pub secret : Bool
  pub dry_run : Bool
  pub namespace : Text
  pub namespace_missing : Bool
  pub denied : Bool
  pub not_allowed : Bool
  pub cluster_kind_denied : Bool

-- `CreateRisk`.
pub record Risk : Type 0 where
  pub level : RiskLevel
  pub reasons : List Text

unfoldable pub benign_create_kinds : List Text
benign_create_kinds =
    codes "ConfigMap"
    ∷ codes "Secret"
    ∷ codes "Service"
    ∷ codes "ServiceAccount"
    ∷ codes "Deployment"
    ∷ codes "StatefulSet"
    ∷ codes "DaemonSet"
    ∷ codes "Job"
    ∷ codes "CronJob"
    ∷ codes "Pod"
    ∷ codes "Ingress"
    ∷ codes "PersistentVolumeClaim"
    ∷ codes "NetworkPolicy"
    ∷ codes "Role"
    ∷ codes "RoleBinding"
    ∷ []

-- The loop of `sortedUnique`, over `out`.
unfoldable pub unique_step : List Text → Text → List Text
unique_step out s = if is_empty s || contains out s then out else out ++ (s ∷ [])

unfoldable pub sorted_unique : List Text → List Text
sorted_unique texts = sort_texts (foldl unique_step [] texts)

-- The closure `raise`.
unfoldable pub raise : RiskLevel → Text → Risk → Risk
raise l reason r = record {
  level = if ltb (risk_order r.level) (risk_order l) then l else r.level;
  reasons = r.reasons ++ (reason ∷ []);
}

abbrev note_secret : CreateSubject → Risk → Risk
note_secret s r =
    if s.secret
    then record r { reasons = r.reasons ++ (codes "含值 Secret 创建：值由用户或执行器生成，不进入模型上下文" ∷ []) }
    else r

abbrev raise_unknown : CreateSubject → Risk → Risk
raise_unknown s r = if s.unknown then raise high (codes "集群中找不到该类型（CRD 未安装或 kind 拼写有误）") r else r

abbrev pub is_wide : Text → Bool
is_wide scope = scope == codes "cluster" || scope == codes "unknown"

abbrev raise_scope : CreateSubject → Risk → Risk
raise_scope s r =
    if is_wide s.scope then raise high (codes "cluster-scoped 或未确定作用域，影响范围超出单个命名空间") r else r

abbrev raise_dangerous : CreateSubject → Risk → Risk
raise_dangerous s r =
    if is_empty s.dangerous
    then r
    else raise high
        (codes "manifest 含特权/宿主机类字段（"
          ++ (join (codes ", ") (sorted_unique s.dangerous) ++ codes "）"))
        r

abbrev raise_escalations : CreateSubject → Risk → Risk
raise_escalations s r =
    if is_empty s.escalations
    then r
    else raise high (codes "命中创建 Skill 风险规则：" ++ join (codes "；") (sorted_unique s.escalations)) r

abbrev raise_kind : CreateSubject → Risk → Risk
raise_kind s r =
    if contains benign_create_kinds s.kind
    then r
    else raise high (s.kind ++ codes " 不在已知良性 Kind 表中") r

-- `CreateRiskFor`.
unfoldable pub create_risk_for : CreateSubject → Risk
create_risk_for s =
    if s.dry_run
    then record { level = safe; reasons = codes "dry run 只做服务端校验，不改变集群" ∷ [] }
    else raise_kind s (
        raise_escalations s (
          raise_dangerous s (
            raise_scope s
              (raise_unknown s (note_secret s (record { level = medium; reasons = [] }))))))

-- `appendUnique`, which is also the inner loop of `CreateSubjectRisk`.
unfoldable pub append_unique : List Text → Text → List Text
append_unique l s = if contains l s then l else l ++ (s ∷ [])

-- The body of the loop of `CreateSubjectRisk`.
unfoldable pub subject_step : Risk → CreateSubject → Risk
subject_step acc s =
    let r = create_risk_for s in
    record {
      level = if ltb (risk_order acc.level) (risk_order r.level) then r.level else acc.level;
      reasons = foldl append_unique acc.reasons r.reasons;
    }

-- `CreateSubjectRisk`; without subjects the loop makes no round.
unfoldable pub create_subject_risk : List CreateSubject → Risk
create_subject_risk subjects = foldl subject_step (record { level = safe; reasons = [] }) subjects
