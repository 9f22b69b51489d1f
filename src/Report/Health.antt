-- ===== src/Report/Health.antt =====
-- internal/report/health.go: the health score. Of a finding the model keeps what the score reads
-- and its identifier; the resource and the reason of a penalty are copied or printed from it.
use mathlib.Core.List.{foldl}
use k8s_ai.Base.{
  ℕ, ◌+◌, Bool, not, ◌&&◌, List, [], ◌∷◌, ◌++◌, Text, ◌==◌, nat_eq, if◌then◌else◌, leb, any,
}
use k8s_ai.Base.Int.{ℤ, pos, ◌-ℤ◌, clamp}
use k8s_ai.Model.{
  Severity, severity_critical, severity_high, severity_medium, severity_low, severity_rank,
}

pub record Finding : Type 0 where
  pub id : Text
  pub severity : Severity
  pub correlated : Bool

pub record Penalty : Type 0 where
  pub finding_id : Text
  pub severity : Severity
  pub points : ℕ

-- `penaltyWeights`; a severity that the map does not hold weighs 0.
unfoldable pub penalty_weight : Severity → ℕ
penalty_weight severity_critical = 30
penalty_weight severity_high = 15
penalty_weight severity_medium = 5
penalty_weight severity_low = 1
penalty_weight _ = 0

-- The test of the first loop: a root cause of severity HIGH or higher.
unfoldable pub is_severe_root : Finding → Bool
is_severe_root f = not f.correlated && leb (severity_rank severity_high) (severity_rank f.severity)

unfoldable pub base_score : List Finding → ℕ
base_score findings = if any is_severe_root findings then 70 else 100

-- The health score while it is computed.
pub record Tally : Type 0 where
  pub score : ℤ
  pub penalties : List Penalty
  pub correlated_excluded : ℕ

-- The body of the second loop.
unfoldable pub tally_step : Tally → Finding → Tally
tally_step h f =
    if f.correlated
    then record h { correlated_excluded = h.correlated_excluded + 1 }
    else if penalty_weight f.severity == 0
    then h
    else record h {
      score = h.score -ℤ penalty_weight f.severity;
      penalties =
          h.penalties
          ++ (record {
            finding_id = f.id;
            severity = f.severity;
            points = penalty_weight f.severity;
          }
              ∷ []);
    }

pub record HealthScore : Type 0 where
  pub score : ℕ
  pub max : ℕ
  pub penalties : List Penalty
  pub correlated_excluded : ℕ

-- `ComputeHealthScore`.
unfoldable pub compute_health_score : List Finding → HealthScore
compute_health_score findings =
    let h =
      foldl tally_step
        (record { score = pos (base_score findings); penalties = []; correlated_excluded = 0 })
        findings in
    record {
      score = clamp h.score;
      max = 100;
      penalties = h.penalties;
      correlated_excluded = h.correlated_excluded;
    }
