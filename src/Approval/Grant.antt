-- ===== src/Approval/Grant.antt =====
-- internal/approval/grant.go: task-scoped grants and the target of a command.
use mathlib.Core.List.{foldl}
use k8s_ai.Base.{
  ℕ, Bool, true, false, not, ◌&&◌, ◌||◌, Option, none, some, List, [], ◌∷◌, ◌++◌, Text, codes, ◌==◌,
  text_eq, if◌then◌else◌, ltb, find?, is_empty, contains, has_prefix, has_infix, trim_prefix,
  fields, cut,
}
use k8s_ai.Model.{RiskLevel, low, medium}
use k8s_ai.Approval.Shell.{has_shell_syntax}
use k8s_ai.Approval.Risk.{risk_order, extract_verb, value_flags}

pub record GrantRequest : Type 0 where
  pub task_id : Text
  pub operation : Text
  pub kind : Text
  pub name : Text
  pub namespace : Text
  pub cluster : Text
  pub risk : RiskLevel
  pub shell : Bool
  pub no_grant : Bool

-- `CreatedAt` is left out, which nothing reads. `none` is the zero time.
pub record Grant : Type 0 where
  pub id : Text
  pub task_id : Text
  pub operation : Text
  pub kind : Text
  pub name : Text
  pub namespace : Text
  pub cluster : Text
  pub risk_ceiling : RiskLevel
  pub expires_at : Option ℕ

abbrev pub grant_risk_ceiling : RiskLevel
grant_risk_ceiling = medium

unfoldable pub grant_eligible_risk : RiskLevel → Bool
grant_eligible_risk low = true
grant_eligible_risk medium = true
grant_eligible_risk _ = false

-- `NewGrant`; the identifier, which is random, is an argument.
unfoldable pub new_grant : Text → GrantRequest → Option Grant
new_grant id req =
    if req.shell || req.no_grant || not (grant_eligible_risk req.risk)
    then none
    else some (record {
      id = id;
      task_id = req.task_id;
      operation = req.operation;
      kind = req.kind;
      name = req.name;
      namespace = req.namespace;
      cluster = req.cluster;
      risk_ceiling = grant_risk_ceiling;
      expires_at = none;
    })

unfoldable pub is_expired : ℕ → Option ℕ → Bool
is_expired now none = false
is_expired now (some t) = ltb t now

-- `g.F != "" && g.F != req.F`.
unfoldable pub differs : Text → Text → Bool
differs field wanted = not (is_empty field) && not (field == wanted)

-- `Matches`, at the time `now`.
unfoldable pub matches : ℕ → Grant → GrantRequest → Bool
matches now g req =
    if is_expired now g.expires_at
    then false
    else if req.shell
    then false
    else if req.no_grant
    then false
    else if ltb (risk_order g.risk_ceiling) (risk_order req.risk)
    then false
    else if differs g.task_id req.task_id
    then false
    else if differs g.cluster req.cluster
    then false
    else if differs g.operation req.operation
    then false
    else if differs g.kind req.kind
    then false
    else if differs g.name req.name
    then false
    else if differs g.namespace req.namespace
    then false
    else true

unfoldable pub match_grant : ℕ → List Grant → GrantRequest → Option Grant
match_grant now grants req = find? (λ g. matches now g req) grants

pub record CommandTarget : Type 0 where
  pub operation : Text
  pub kind : Text
  pub name : Text
  pub namespace : Text

abbrev pub no_target : CommandTarget
no_target = record { operation = []; kind = []; name = []; namespace = [] }

-- `firstNonFlagIndex`, with the element at the index and those behind it.
unfoldable pub split_non_flag : Bool → List Text → Option (Text × List Text)
split_non_flag skip [] = none
split_non_flag true (f ∷ rest) = split_non_flag false rest
split_non_flag false (f ∷ rest) =
    let more =
      split_non_flag
        (not (has_infix f (codes "=")) && contains value_flags f && not (is_empty rest)) rest in
    if has_prefix f (codes "-") then more else some (f, rest)

abbrev pub head_or_empty : List Text → Text
head_or_empty [] = []
head_or_empty (x ∷ xs) = x

-- `namespaceFromFields`.
unfoldable pub namespace_from_fields : List Text → Text
namespace_from_fields [] = []
namespace_from_fields (f ∷ rest) =
    let later = namespace_from_fields rest in
    if f == codes "-n" || f == codes "--namespace"
    then head_or_empty rest
    else if has_prefix f (codes "--namespace=")
    then trim_prefix f (codes "--namespace=")
    else if has_prefix f (codes "-n=")
    then trim_prefix f (codes "-n=")
    else later

-- The variables of the last loop of `ParseCommandTarget`.
pub record TargetScan : Type 0 where
  pub kind : Text
  pub name : Text
  pub seen_kind : Bool
  pub seen_name : Bool
  pub skip_next : Bool

-- `kind/name`, or the token and no name.
abbrev pub split_slash : Text → Text × Text
split_slash tok = elim (cut b'/' tok) [ none ↦ (tok, []) | some (l, r) ↦ (l, r) ]

-- The body of that loop.
unfoldable pub target_step : TargetScan → Text → TargetScan
target_step s tok =
    if s.skip_next
    then record s { skip_next = false }
    else if has_prefix tok (codes "-")
    then (if has_infix tok (codes "=")
        then s
        else if contains value_flags tok
        then record s { skip_next = true }
        else s)
    else let (kind, name) = split_slash tok in
      if not s.seen_kind
      then record s { kind = kind; name = name; seen_kind = true; seen_name = not (is_empty name) }
      else if not s.seen_name
      then record s { name = if is_empty name then tok else name; seen_name = true }
      else s

abbrev pub rollout_split : Text → List Text → Text × List Text
rollout_split verb rest =
    if verb == codes "rollout"
    then elim (split_non_flag false rest) [
      | none ↦ (verb, rest)
      | some (sub, more) ↦ (codes "rollout " ++ sub, more)
    ]
    else (verb, rest)

-- `ParseCommandTarget`.
unfoldable pub parse_command_target : Text → CommandTarget
parse_command_target command =
    if has_shell_syntax command
    then no_target
    else let call = extract_verb command in
      if call.0 == []
      then no_target
      else let (operation, rest) = rollout_split call.0 call.1 in
        let s =
          foldl target_step
            (record {
              kind = [];
              name = [];
              seen_kind = false;
              seen_name = false;
              skip_next = false;
            })
            rest in
        record {
          operation = operation;
          kind = s.kind;
          name = s.name;
          namespace = namespace_from_fields (fields command);
        }
