-- ===== src/Tools/Scope.antt =====
-- internal/tools/scope.go: the scope of an agent run and the check that each tool call passes before
-- it is run. The parser of manifests (internal/manifestx) is a parameter, as is encoding/json: the
-- arguments of a call are a function from keys to strings, "" where a key has none.
use k8s_ai.Base.{
  Bool, true, false, not, ◌&&◌, ◌||◌, Option, none, some, List, [], ◌∷◌, Text, codes, ◌==◌, text_eq,
  if◌then◌else◌, contains, is_empty, find?, has_prefix, trim_prefix, trim_space, to_lower,
  sort_texts, Result, ok, err, guard, ◌>>=◌, ◌>>◌,
}
use k8s_ai.Approval.Shell.{has_shell_syntax}
use k8s_ai.Approval.Risk.{before_slash, is_read_only_command}
use k8s_ai.Approval.Grant.{parse_command_target}
use k8s_ai.Executor.Parse.{parse_command_detail}
use k8s_ai.Authz.Scope.{add_namespaces}

pub record AccessScope : Type 0 where
  pub namespaces : List Text
  pub cluster_scoped : Bool
  pub is_admin : Bool
  pub can_write : Bool
  pub can_destroy : Bool

-- What a refusal says is needed.
pub data Denial : Type 0 where
  needs_cluster_read needs_cluster_events needs_cluster_scan needs_namespace_query : Denial
  needs_namespace : Text → Denial
  needs_tool_scope needs_write needs_manifest needs_cluster_write needs_command : Denial
  needs_plain_command needs_parsable needs_verb needs_all_namespaces : Denial
  needs_operation needs_namespace_write needs_destroy : Denial

-- An object of a manifest: whether its kind is cluster-scoped, and its namespace.
pub record ManifestObject : Type 0 where
  pub cluster_wide : Bool
  pub namespace : Text

unfoldable pub local_tools : List Text
local_tools = codes "list_skills" ∷ codes "get_skill" ∷ []

unfoldable pub cluster_only_tools : List Text
cluster_only_tools =
    codes "get_node"
    ∷ codes "get_nodes"
    ∷ codes "get_node_usage"
    ∷ codes "get_pv"
    ∷ codes "get_storageclass"
    ∷ codes "get_namespace"
    ∷ codes "diagnose_node"
    ∷ []

unfoldable pub namespace_tools : List Text
namespace_tools =
    codes "get_pod"
    ∷ codes "get_pods"
    ∷ codes "get_deployment"
    ∷ codes "get_statefulset"
    ∷ codes "get_daemonset"
    ∷ codes "get_replicaset"
    ∷ codes "get_service"
    ∷ codes "get_endpoints"
    ∷ codes "get_endpointslices"
    ∷ codes "get_pvc"
    ∷ codes "get_configmap"
    ∷ codes "get_configmaps"
    ∷ codes "get_logs"
    ∷ codes "get_previous_logs"
    ∷ codes "scan_pod"
    ∷ codes "diagnose_pod"
    ∷ codes "diagnose_workload"
    ∷ []

unfoldable pub cluster_kinds : List Text
cluster_kinds =
    codes "node"
    ∷ codes "nodes"
    ∷ codes "namespace"
    ∷ codes "namespaces"
    ∷ codes "ns"
    ∷ codes "persistentvolume"
    ∷ codes "persistentvolumes"
    ∷ codes "pv"
    ∷ codes "pvs"
    ∷ codes "storageclass"
    ∷ codes "storageclasses"
    ∷ codes "sc"
    ∷ codes "clusterrole"
    ∷ codes "clusterroles"
    ∷ codes "clusterrolebinding"
    ∷ codes "clusterrolebindings"
    ∷ codes "customresourcedefinition"
    ∷ codes "customresourcedefinitions"
    ∷ codes "crd"
    ∷ codes "crds"
    ∷ []

unfoldable pub destroy_kinds : List Text
destroy_kinds =
    codes "namespace"
    ∷ codes "namespaces"
    ∷ codes "ns"
    ∷ codes "persistentvolumeclaim"
    ∷ codes "persistentvolumeclaims"
    ∷ codes "pvc"
    ∷ codes "pvcs"
    ∷ codes "persistentvolume"
    ∷ codes "persistentvolumes"
    ∷ codes "pv"
    ∷ codes "pvs"
    ∷ []

-- `NormalizeScope`; its loop is that of `EffectiveScope` over the namespaces of a grant.
unfoldable pub normalize_scope : AccessScope → AccessScope
normalize_scope s = record s { namespaces = sort_texts (add_namespaces [] s.namespaces) }

unfoldable pub check_namespace : AccessScope → Text → Result Denial (Unit {0})
check_namespace s ns = guard (contains s.namespaces ns) (needs_namespace ns)

abbrev pub namespace_of : ManifestObject → Text
namespace_of o = let ns = trim_space o.namespace in if is_empty ns then codes "default" else ns

-- The loop of `checkManifest`.
unfoldable pub check_objects : AccessScope → List ManifestObject → Result Denial (Unit {0})
check_objects s [] = ok tt
check_objects s (o ∷ os) =
    guard (not o.cluster_wide) needs_cluster_write
    >> (check_namespace s (namespace_of o) >> check_objects s os)

unfoldable pub check_manifest :
    (Text → Option (List ManifestObject)) → AccessScope → Text → Result Denial (Unit {0})
check_manifest parse s manifest =
    if not s.can_write
    then err needs_write
    else if is_empty (trim_space manifest)
    then ok tt
    else elim (parse (trim_space manifest)) [
      | none ↦ err needs_manifest
      | some objects ↦ check_objects s objects
    ]

-- `isDestroyKind`.
unfoldable pub is_destroy_kind : Text → Bool
is_destroy_kind kind = contains destroy_kinds (to_lower (trim_space kind))

unfoldable pub check_kubectl_write : AccessScope → Text → Result Denial (Unit {0})
check_kubectl_write s command = do
  let target = parse_command_target command
  guard (not (is_empty target.operation)) needs_operation
  guard (not (is_empty target.namespace)) needs_namespace_write
  check_namespace s target.namespace
  guard s.can_write needs_write
  guard (not (target.operation == codes "delete" && is_destroy_kind target.kind) || s.can_destroy)
      needs_destroy

abbrev pub is_read_verb : Text → Bool
is_read_verb t =
    t == codes "get" || t == codes "describe" || t == codes "logs" || t == codes "events"

-- The tokens after the first of these verbs.
unfoldable pub after_read_verb : List Text → Option (List Text)
after_read_verb [] = none
after_read_verb (t ∷ rest) =
    let later = after_read_verb rest in if is_read_verb t then some rest else later

-- The loop that looks for the namespace; the first argument says that a flag awaits its value.
unfoldable pub scan_namespace : Bool → Text → List Text → Result Denial Text
scan_namespace awaits ns [] = ok ns
scan_namespace true ns (t ∷ rest) = scan_namespace false t rest
scan_namespace false ns (t ∷ rest) =
    let flag = t == codes "-n" || t == codes "--namespace" in
    let given = not flag && has_prefix t (codes "--namespace=") in
    let later =
      scan_namespace flag (if given then trim_prefix t (codes "--namespace=") else ns) rest in
    if t == codes "-A" || t == codes "--all-namespaces" then err needs_all_namespaces else later

abbrev pub or_empty : Option Text → Text
or_empty none = []
or_empty (some t) = t

-- The kind that a read asks for.
unfoldable pub resource_of : List Text → Text
resource_of tokens =
    to_lower (before_slash (or_empty (find? (λ t. not (has_prefix t (codes "-"))) tokens)))

-- The part of `checkKubectl` for a command that reads.
unfoldable pub check_kubectl_read : AccessScope → List Text → Result Denial (Unit {0})
check_kubectl_read s argv = elim (after_read_verb argv) [
  | none ↦ err needs_verb
  | some rest ↦ do
    ns ← scan_namespace false [] argv
    guard (not (contains cluster_kinds (resource_of rest) && is_empty ns)) needs_cluster_read
    guard (not (is_empty ns)) needs_namespace_query
    check_namespace s ns
]

unfoldable pub check_kubectl : AccessScope → Text → Result Denial (Unit {0})
check_kubectl s text = do
  let command = trim_space text
  guard (not (is_empty command)) needs_command
  guard (not (has_shell_syntax command)) needs_plain_command
  elim (parse_command_detail command) [
    | err e ↦ err needs_parsable
    | ok pc ↦
        if not (is_read_only_command command)
        then check_kubectl_write s command
        else check_kubectl_read s pc.argv
  ]

-- `stringArg`.
unfoldable pub string_arg : (Text → Text) → Text → Text
string_arg args key = trim_space (args key)

-- The part of `Check` for tools that name a namespace.
unfoldable pub check_namespaced : AccessScope → Text → Text → Text → Result Denial (Unit {0})
check_namespaced s tool kind ns = do
  guard (not (tool == codes "get_resources" && contains cluster_kinds (to_lower kind)))
      needs_cluster_read
  guard (not (tool == codes "get_events" && contains cluster_kinds (to_lower kind) && is_empty ns))
      needs_cluster_events
  guard (not (tool == codes "scan_cluster" && is_empty ns)) needs_cluster_scan
  guard
      (tool == codes "scan_cluster"
        || contains namespace_tools tool
        || tool == codes "get_resources"
        || tool == codes "get_events")
      needs_tool_scope
  guard (not (is_empty ns)) needs_namespace_query
  check_namespace s ns

-- `Check`.
unfoldable pub check :
    (Text → Option (List ManifestObject))
    → AccessScope
    → Text
    → (Text → Text)
    → Result Denial (Unit {0})
check parse scope tool args =
    let s = normalize_scope scope in
    if s.is_admin || s.cluster_scoped
    then ok tt
    else if contains local_tools tool
    then ok tt
    else if contains cluster_only_tools tool
    then err needs_cluster_read
    else if tool == codes "kubectl"
    then check_kubectl s (string_arg args (codes "command"))
    else if tool == codes "create_resource"
    then check_manifest parse s (string_arg args (codes "manifest"))
    else check_namespaced s tool (string_arg args (codes "kind"))
        (string_arg args (codes "namespace"))
