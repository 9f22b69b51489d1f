-- ===== src/Report/Tests.antt =====
-- The laws of the health score at concrete findings.
use k8s_ai.Base.{◌≡◌, ◌-◌, false, [], ◌∷◌, codes}
use k8s_ai.Model.{severity_high, severity_low}
use k8s_ai.Report.Health.{Finding, base_score, compute_health_score}
use k8s_ai.Report.HealthLaws.{total_cost, sum_points, score-total_cost}

abbrev crash : Finding
crash = record { id = codes "f1"; severity = severity_high; correlated = false }

abbrev untidy : Finding
untidy = record { id = codes "f2"; severity = severity_low; correlated = false }

score-total_cost_example :
    ((compute_health_score (crash ∷ untidy ∷ [])).score
      ≡ base_score (crash ∷ untidy ∷ []) - total_cost (crash ∷ untidy ∷ []))
    × (sum_points (compute_health_score (crash ∷ untidy ∷ [])).penalties
        ≡ total_cost (crash ∷ untidy ∷ []))
score-total_cost_example = score-total_cost (crash ∷ untidy ∷ [])
