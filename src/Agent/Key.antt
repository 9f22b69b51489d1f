-- ===== src/Agent/Key.antt =====
-- internal/agent/loop.go: the key under which a write is counted as approved or declined.
use k8s_ai.Base.{
  Bool, true, false, not, ◌&&◌, ◌||◌, List, [], ◌∷◌, ◌++◌, Text, codes, ◌==◌, text_eq,
  if◌then◌else◌, contains, is_empty, has_prefix, has_infix, trim_prefix, fields, join,
}
use k8s_ai.Approval.Risk.{tail_of}

unfoldable pub modifier_flags : List Text
modifier_flags =
    codes "--force"
    ∷ codes "--grace-period"
    ∷ codes "--timeout"
    ∷ codes "--now"
    ∷ codes "--wait"
    ∷ codes "--cascade"
    ∷ codes "--dry-run"
    ∷ codes "--server-side"
    ∷ codes "--field-manager"
    ∷ []

-- The variables of the loop in `normalizeKubectlCommand` that reach the key.
pub record Parts : Type 0 where
  pub verb : Text
  pub resource : Text
  pub name : Text
  pub ns : Text

unfoldable pub is_namespace_flag : Text → Bool
is_namespace_flag tok = tok == codes "-n" || tok == codes "--namespace"

unfoldable pub is_namespace_value : Text → Bool
is_namespace_value tok = has_prefix tok (codes "--namespace=") || has_prefix tok (codes "-n=")

unfoldable pub is_modifier : Text → Bool
is_modifier tok =
    contains modifier_flags tok
    || has_prefix tok (codes "--force")
    || has_prefix tok (codes "--grace-period")
    || has_prefix tok (codes "--timeout")

-- What one token does to the parts; `rest` follows it.
unfoldable pub take_token : Parts → Text → List Text → Parts
take_token p tok rest =
    if is_namespace_flag tok
    then elim rest [ [] ↦ p | value ∷ more ↦ record p { ns = value } ]
    else if has_prefix tok (codes "--namespace=")
    then record p { ns = trim_prefix tok (codes "--namespace=") }
    else if has_prefix tok (codes "-n=")
    then record p { ns = trim_prefix tok (codes "-n=") }
    else if is_modifier tok
    then p
    else if is_empty p.verb && not (has_prefix tok (codes "-"))
    then record p { verb = tok }
    else if is_empty p.resource && not (has_prefix tok (codes "-"))
    then record p { resource = tok }
    else if is_empty p.name && not (has_prefix tok (codes "-"))
    then record p { name = tok }
    else p

-- `skipNext` after the token.
unfoldable pub skips_next : Text → Bool
skips_next tok =
    is_namespace_flag tok
    || (not (is_namespace_value tok) && is_modifier tok && not (has_infix tok (codes "=")))

unfoldable pub scan_tokens : Bool → Parts → List Text → Parts
scan_tokens skip p [] = p
scan_tokens true p (tok ∷ rest) = scan_tokens false p rest
scan_tokens false p (tok ∷ rest) = scan_tokens (skips_next tok) (take_token p tok rest) rest

abbrev pub no_parts : Parts
no_parts = record { verb = []; resource = []; name = []; ns = [] }

unfoldable pub key_of_parts : Parts → Text
key_of_parts p = join (codes " ") (
    (p.verb ∷ p.resource ∷ [])
    ++ ((if is_empty p.name then [] else p.name ∷ [])
        ++ (if is_empty p.ns then [] else codes "-n" ∷ p.ns ∷ [])))

-- `normalizeKubectlCommand`, from the tokens of a command with two tokens or more.
unfoldable pub normalize_tokens : List Text → Text
normalize_tokens tokens = key_of_parts (scan_tokens false no_parts (tail_of tokens))

unfoldable pub normalize_kubectl_command : Text → Text
normalize_kubectl_command cmd =
    let tokens = fields cmd in if is_empty (tail_of tokens) then cmd else normalize_tokens tokens

-- `declineKey`. `command` is what encoding/json reads as the field "command" of the arguments, ""
-- where it reads none.
unfoldable pub decline_key : Text → Text → Text → Text
decline_key tool_name arguments command =
    if tool_name == codes "kubectl" && not (is_empty command)
    then tool_name ++ (codes ":" ++ normalize_kubectl_command command)
    else tool_name ++ (codes ":" ++ arguments)
