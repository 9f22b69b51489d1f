-- ===== src/Permission/Tests.antt =====
-- The laws of route permissions at concrete routes.
use k8s_ai.Base.{◌≡◌, ◌↔◌, ◌⊎◌, true, false, [], ◌∷◌, Text, codes}
use k8s_ai.Permission.{Rule, by_permission, segments_match, authorize}
use k8s_ai.Permission.Laws.{FitsAll, HasFront, segments_match_iff}
use k8s_ai.Permission.Enforcement.{some_rule, Decides, Holds, authorize-cases}

abbrev cluster_rule : Rule
cluster_rule = record {
  method = codes "GET";
  path = codes "/api/clusters/{id}";
  access = by_permission;
  permission = codes "cluster.read";
}

abbrev wide_rule : Rule
wide_rule = record {
  method = codes "ANY";
  path = codes "/api/*";
  access = by_permission;
  permission = codes "api.all";
}

segments_match_iff_example :
    (segments_match (codes "api" ∷ codes "{id}" ∷ []) (codes "api" ∷ codes "c1" ∷ []) ≡ true) ↔ (
      FitsAll (codes "api" ∷ codes "{id}" ∷ []) (codes "api" ∷ codes "c1" ∷ [])
      ⊎ HasFront (codes "api" ∷ codes "{id}" ∷ []) (codes "api" ∷ codes "c1" ∷ []))
segments_match_iff_example =
    segments_match_iff (codes "api" ∷ codes "{id}" ∷ []) (codes "api" ∷ codes "c1" ∷ [])

abbrev get_cluster : Text
get_cluster = codes "/api/clusters/c1"

authorize-cases_example :
    let a = authorize (wide_rule ∷ []) (codes "cluster.*" ∷ []) (codes "get") get_cluster in
    ((a.registered ≡ false) ↔ (some_rule (codes "get") get_cluster (wide_rule ∷ []) ≡ false))
    × ((a.allowed ≡ false) ↔ (
        (some_rule (codes "get") get_cluster (wide_rule ∷ []) ≡ false)
        ⊎ ((r : Rule) × Decides (wide_rule ∷ []) (codes "get") get_cluster r
            × (r.access ≡ by_permission)
            × (¬ Holds (codes "cluster.*" ∷ []) r.permission))))
authorize-cases_example =
    authorize-cases (wide_rule ∷ []) (codes "cluster.*" ∷ []) (codes "get") get_cluster
