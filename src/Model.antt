-- ===== src/Model.antt =====
-- internal/model/options.go: risk levels and severities.
use k8s_ai.Base.{ℕ}

-- `RiskLevel` is a Go string; `unset` stands for the zero value "" (and for any string that is not
-- one of the five constants: the program orders all of those alike).
pub data RiskLevel : Type 0 where
  unset safe low medium high critical : RiskLevel

pub data Severity : Type 0 where
  severity_critical severity_high severity_medium severity_low severity_info : Severity
  severity_other : Severity

-- `SeverityRank`.
unfoldable pub severity_rank : Severity → ℕ
severity_rank severity_critical = 5
severity_rank severity_high = 4
severity_rank severity_medium = 3
severity_rank severity_low = 2
severity_rank severity_info = 1
severity_rank severity_other = 0
