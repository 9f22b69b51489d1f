-- ===== src/Approval/Decision.antt =====
-- internal/approval/decision.go and policy.go: the approval policy.
use k8s_ai.Base.{
  Bool, false, not, ◌&&◌, List, Text, any, if◌then◌else◌, to_lower, trim_space, has_infix, is_empty,
}
use k8s_ai.Model.{RiskLevel}

-- `unset_mode` is the zero value "".
pub data Mode : Type 0 where
  unset_mode strict smart : Mode

pub data Decision : Type 0 where
  auto require_approval deny : Decision

pub record Policy : Type 0 where
  pub require_approval : Bool
  pub skip_permissions : Bool
  pub deny_ops : List Text
  pub mode : Mode

pub record Input : Type 0 where
  pub read_only : Bool
  pub risk : RiskLevel
  pub shell : Bool
  pub denied : Bool

unfoldable pub requires_approval : Policy → Bool
requires_approval p = if p.skip_permissions then false else p.require_approval

-- `Evaluate`. The method sets an empty mode to strict in its own copy and reads it no more.
unfoldable pub evaluate : Policy → Input → Decision
evaluate p i =
    if i.denied
    then deny
    else if i.shell
    then Decision.require_approval
    else if i.read_only
    then auto
    else if p.skip_permissions
    then auto
    else if not p.require_approval
    then auto
    else Decision.require_approval

-- `IsDenied`.
unfoldable pub is_denied : List Text → Text → Bool
is_denied deny_ops command =
    let low = to_lower (trim_space command) in
    any (λ op. not (is_empty op) && has_infix low (to_lower op)) deny_ops
