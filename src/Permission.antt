-- ===== src/Permission.antt =====
-- internal/permission/permission.go: from a role's permissions and a route to an access decision.
mod Parameters
pub mod Laws
pub mod Enforcement
mod Tests
use mathlib.Core.List.{reverse}
use k8s_ai.Base.{
  ℕ, Bool, true, false, not, ◌&&◌, ◌||◌, Option, none, some, List, [], ◌∷◌, Text, codes, ◌==◌,
  nat_eq, text_eq, if◌then◌else◌, ltb, byte_length, any, find?, is_empty, has_prefix, has_suffix,
  trim_suffix, lower_rune, fields_by, map,
}

pub data Access : Type 0 where
  public authenticated by_permission : Access

pub record Rule : Type 0 where
  pub method : Text
  pub path : Text
  pub access : Access
  pub permission : Text

-- `Policy` is its list of rules, in the order of registration.
abbrev pub Policy : Type 0
Policy = List Rule

-- `strings.EqualFold`: ASCII letters fold with each other and with the Kelvin sign and the long s,
-- the only other code points that fold with them. Other code points are compared as they are.
unfoldable pub fold_rune : ℕ → ℕ
fold_rune c = if c == 0x17f then b's' else if c == 0x130 then c else lower_rune c

unfoldable pub equal_fold : Text → Text → Bool
equal_fold s t = map fold_rune s == map fold_rune t

unfoldable pub method_matches : Text → Text → Bool
method_matches pattern method = pattern == codes "ANY" || equal_fold pattern method

-- `splitPath`: the segments between slashes that are not empty.
unfoldable pub split_path : Text → List Text
split_path p = fields_by (λ c. c == b'/') p

-- `{id}`: a segment in braces with something in between.
unfoldable pub is_parameter : Text → Bool
is_parameter seg =
    ltb 2 (byte_length seg) && has_prefix seg (codes "{") && has_suffix seg (codes "}")

-- The loop of `routeMatches` over the segments of the pattern and of the path.
unfoldable pub segments_match : List Text → List Text → Bool
segments_match [] [] = true
segments_match [] (t ∷ ts) = false
segments_match (seg ∷ pp) [] = seg == codes "*"
segments_match (seg ∷ pp) (t ∷ ts) =
    let rest = segments_match pp ts in
    if seg == codes "*"
    then true
    else if seg == t
    then rest
    else if is_parameter seg
    then rest
    else false

unfoldable pub route_matches : Text → Text → Bool
route_matches pattern target = segments_match (split_path pattern) (split_path target)

-- The test of the loop in `Require`.
abbrev pub rule_matches : Text → Text → Rule → Bool
rule_matches method path r = method_matches r.method method && route_matches r.path path

-- `Require`: the last rule that matches.
unfoldable pub require : Policy → Text → Text → Option Rule
require p method path = find? (rule_matches method path) (reverse p)

-- `RequireAccess`: the access, the permission, and whether a rule was found.
unfoldable pub require_access : Policy → Text → Text → Access × Text × Bool
require_access p method path = elim (require p method path) [
  | none ↦ (by_permission, [], false)
  | some r ↦ (r.access, r.permission, true)
]

-- The test that `HasPermission` makes of one permission of the role.
unfoldable pub grants : Text → Text → Bool
grants required p =
    p == codes "*"
    || p == required
    || (has_suffix p (codes ".*") && has_prefix required (trim_suffix p (codes "*")))

unfoldable pub has_permission : List Text → Text → Bool
has_permission perms required = if is_empty required then true else any (grants required) perms

pub record Authorization : Type 0 where
  pub required : Text
  pub allowed : Bool
  pub registered : Bool

-- `Enforcer.Authorize`.
unfoldable pub authorize : Policy → List Text → Text → Text → Authorization
authorize policy perms method path =
    let (access, perm, found) = require_access policy method path in
    if not found
    then record { required = []; allowed = false; registered = false }
    else elim access [
      | by_permission ↦ record {
        required = perm;
        allowed = has_permission perms perm;
        registered = true;
      }
      | _ ↦ record { required = []; allowed = true; registered = true }
    ]
