-- ===== src/Tools/Tests.antt =====
-- The check of the scope at concrete commands, and a read of a namespace outside the scope.
use k8s_ai.Base.{
  ◌≡◌, ◌⊎◌, ◌==◌, if◌then◌else◌, refl, true, false, none, Option, [], ◌∷◌, List, Text, text_eq,
  codes, ok, contains, trim_space, strings, insert_text, sort_texts,
}
use k8s_ai.Approval.Grant.{parse_command_target, target_step, split_non_flag, namespace_from_fields}
use k8s_ai.Executor.Parse.{parsing}
use k8s_ai.Authz.Scope.{add_namespaces}
use k8s_ai.Tools.Scope.{
  AccessScope, ManifestObject, local_tools, normalize_scope, check_namespace, is_destroy_kind,
  check_kubectl_write, after_read_verb, scan_namespace, resource_of, cluster_kinds,
  cluster_only_tools, namespace_tools, check_kubectl_read, check_kubectl, string_arg,
  check_namespaced, check,
}
use k8s_ai.Tools.ScopeLaws.{IsCovered, IsCreatable, check_kubectl-IsCovered, check-cases}

abbrev prod_only : AccessScope
prod_only = record {
  namespaces = codes "prod" ∷ [];
  cluster_scoped = false;
  is_admin = false;
  can_write = true;
  can_destroy = false;
}

abbrev scale : Text
scale = codes "kubectl scale deployment web -n prod"

check_kubectl-IsCovered_example : IsCovered prod_only (trim_space scale)
unfolding parsing check_kubectl check_kubectl_write check_namespace is_destroy_kind
    parse_command_target target_step split_non_flag namespace_from_fields
check_kubectl-IsCovered_example = check_kubectl-IsCovered prod_only scale refl

abbrev no_manifests : Text → Option (List ManifestObject)
no_manifests m = none

abbrev in_prod : Text → Text
in_prod key = if key == codes "namespace" then codes "prod" else codes ""

check-cases_example :
    let s = normalize_scope prod_only in
    (contains local_tools (codes "get_pods") ≡ true)
    ⊎ ((codes "get_pods" ≡ codes "kubectl")
        × IsCovered s (trim_space (string_arg in_prod (codes "command"))))
    ⊎ ((codes "get_pods" ≡ codes "create_resource")
        × IsCreatable no_manifests s (trim_space (string_arg in_prod (codes "manifest"))))
    ⊎ (contains s.namespaces (string_arg in_prod (codes "namespace")) ≡ true)
unfolding check check_namespaced check_namespace normalize_scope add_namespaces sort_texts
    insert_text string_arg local_tools cluster_only_tools namespace_tools cluster_kinds strings
check-cases_example = check-cases no_manifests prod_only (codes "get_pods") in_prod refl refl refl

-- kubectl takes the last namespace flag; the scan of a read does not know the form `-n=`.
later_namespace : check_kubectl prod_only (codes "kubectl get pods -n prod -n=kube-system") ≡ ok tt
unfolding parsing check_kubectl check_kubectl_read check_namespace after_read_verb scan_namespace
    resource_of cluster_kinds
later_namespace = refl

-- The target of a write has the first namespace flag.
later_write_namespace :
    check_kubectl prod_only (codes "kubectl scale deployment web -n prod -n kube-system") ≡ ok tt
unfolding parsing check_kubectl check_kubectl_write check_namespace is_destroy_kind
    parse_command_target target_step split_non_flag namespace_from_fields
later_write_namespace = refl
