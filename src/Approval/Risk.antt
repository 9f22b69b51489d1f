-- ===== src/Approval/Risk.antt =====
-- internal/approval/risk.go: the risk class of a kubectl command.
use k8s_ai.Base.{
  ℕ, Bool, true, false, not, ◌&&◌, ◌||◌, Option, none, some, List, [], ◌∷◌, Text, codes, ◌==◌,
  text_eq, if◌then◌else◌, leb, any, contains, has_infix, has_prefix, fields, cut, strings,
}
use k8s_ai.Model.{RiskLevel, unset, safe, low, medium, high, critical}
use k8s_ai.Approval.Shell.{
  is_shell_meta, has_unquoted_meta, has_shell_syntax, shell_tokens_step, shell_tokens,
  forbidden_token, is_forbidden_command,
}

unfoldable pub read_only_verbs : List Text
read_only_verbs =
    codes "get"
    ∷ codes "describe"
    ∷ codes "logs"
    ∷ codes "events"
    ∷ codes "top"
    ∷ codes "explain"
    ∷ codes "api-resources"
    ∷ codes "version"
    ∷ []

unfoldable pub read_only_rollout_subs : List Text
read_only_rollout_subs = codes "history" ∷ codes "status" ∷ []

-- `writeRisks`, by risk class.
unfoldable pub medium_verbs : List Text
medium_verbs =
    codes "scale"
    ∷ codes "annotate"
    ∷ codes "label"
    ∷ codes "set"
    ∷ codes "rollout"
    ∷ codes "autoscale"
    ∷ codes "expose"
    ∷ codes "taint"
    ∷ []

unfoldable pub high_verbs : List Text
high_verbs =
    codes "patch"
    ∷ codes "apply"
    ∷ codes "create"
    ∷ codes "exec"
    ∷ codes "drain"
    ∷ codes "cordon"
    ∷ codes "uncordon"
    ∷ codes "reconcile"
    ∷ codes "certificate"
    ∷ []

unfoldable pub critical_verbs : List Text
critical_verbs = codes "edit" ∷ codes "attach" ∷ codes "port-forward" ∷ []

-- `risk, ok := writeRisks[verb]`.
unfoldable pub write_risk : Text → Option RiskLevel
write_risk verb =
    if contains medium_verbs verb
    then some medium
    else if contains high_verbs verb
    then some high
    else if contains critical_verbs verb
    then some critical
    else none

abbrev pub is_some {ℓ} : {A : Type ℓ} → Option A → Bool
is_some none = false
is_some (some a) = true

unfoldable pub critical_delete_resources : List Text
critical_delete_resources =
    codes "deployment"
    ∷ codes "deployments"
    ∷ codes "statefulset"
    ∷ codes "statefulsets"
    ∷ codes "service"
    ∷ codes "services"
    ∷ codes "pvc"
    ∷ codes "pvcs"
    ∷ codes "pv"
    ∷ codes "pvs"
    ∷ codes "storageclass"
    ∷ codes "storageclasses"
    ∷ codes "namespace"
    ∷ codes "namespaces"
    ∷ codes "ns"
    ∷ codes "clusterrole"
    ∷ codes "clusterroles"
    ∷ codes "clusterrolebinding"
    ∷ codes "clusterrolebindings"
    ∷ codes "secret"
    ∷ codes "secrets"
    ∷ codes "cluster"
    ∷ []

unfoldable pub value_flags : List Text
value_flags =
    codes "-n"
    ∷ codes "--namespace"
    ∷ codes "--context"
    ∷ codes "--kubeconfig"
    ∷ codes "--server"
    ∷ codes "--user"
    ∷ codes "--cluster"
    ∷ codes "--token"
    ∷ codes "--as"
    ∷ codes "--as-group"
    ∷ codes "--certificate-authority"
    ∷ codes "--client-certificate"
    ∷ codes "--client-key"
    ∷ codes "--request-timeout"
    ∷ codes "--tls-server-name"
    ∷ codes "--as-uid"
    ∷ codes "--username"
    ∷ codes "--password"
    ∷ codes "--cache-dir"
    ∷ codes "-o"
    ∷ codes "--output"
    ∷ codes "-l"
    ∷ codes "--selector"
    ∷ codes "--field-selector"
    ∷ codes "--template"
    ∷ codes "--sort-by"
    ∷ codes "--label-columns"
    ∷ codes "--since"
    ∷ codes "--since-time"
    ∷ codes "--tail"
    ∷ codes "--grace-period"
    ∷ codes "--timeout"
    ∷ codes "--cascade"
    ∷ codes "--requests"
    ∷ codes "--limits"
    ∷ codes "--replicas"
    ∷ codes "--min"
    ∷ codes "--max"
    ∷ codes "--cpu-percent"
    ∷ codes "--memory-percent"
    ∷ codes "--from"
    ∷ codes "--to"
    ∷ codes "--patch"
    ∷ codes "-p"
    ∷ codes "--patch-file"
    ∷ codes "--type"
    ∷ codes "--for"
    ∷ codes "--kustomize"
    ∷ codes "-k"
    ∷ codes "-f"
    ∷ codes "--filename"
    ∷ []

-- `riskOrder`; a level that the map does not hold counts 0.
abbrev pub risk_order : RiskLevel → ℕ
risk_order unset = 0
risk_order safe = 0
risk_order low = 1
risk_order medium = 2
risk_order high = 3
risk_order critical = 4

unfoldable pub higher_risk : RiskLevel → RiskLevel → RiskLevel
higher_risk a b = if leb (risk_order b) (risk_order a) then a else b

unfoldable pub is_known_verb : Text → Bool
is_known_verb s = contains read_only_verbs s || is_some (write_risk s) || s == codes "delete"

-- The first known verb and what follows it, the loop of `extractVerb` and `extractVerbFromTokens`.
unfoldable pub extract_verb_from_tokens : List Text → Text × List Text
extract_verb_from_tokens [] = ([], [])
extract_verb_from_tokens (f ∷ rest) =
    let later = extract_verb_from_tokens rest in if is_known_verb f then (f, rest) else later

abbrev pub tail_of {ℓ} : {A : Type ℓ} → List A → List A
tail_of [] = []
tail_of (x ∷ xs) = xs

unfoldable pub extract_verb : Text → Text × List Text
extract_verb command = extract_verb_from_tokens (tail_of (fields command))

unfoldable pub is_dry_run_flag : Text → Bool
is_dry_run_flag f = f == codes "--dry-run" || has_prefix f (codes "--dry-run=")

unfoldable pub has_dry_run : Text → Bool
has_dry_run command = any is_dry_run_flag (fields command)

-- `firstNonFlag`. `skip` says that the loop has stepped over the value of a flag.
unfoldable pub first_non_flag_from : Bool → List Text → Text
first_non_flag_from skip [] = []
first_non_flag_from true (f ∷ rest) = first_non_flag_from false rest
first_non_flag_from false (f ∷ rest) =
    let more =
      first_non_flag_from
        (not (has_infix f (codes "=")) && contains value_flags f && any (λ _. true) rest) rest in
    if has_prefix f (codes "-") then more else f

unfoldable pub first_non_flag : List Text → Text
first_non_flag fs = first_non_flag_from false fs

-- `res[:i]` where the resource is written `kind/name`.
abbrev pub before_slash : Text → Text
before_slash res = elim (cut b'/' res) [ none ↦ res | some (kind, name) ↦ kind ]

-- `classifyVerb`; what it reads of the command is whether it has the flag `--dry-run`.
unfoldable pub classify_verb : Text → List Text → Bool → Bool × RiskLevel
classify_verb verb rest dry_run =
    if contains read_only_verbs verb
    then (true, safe)
    else if verb == codes "rollout"
    then (if contains read_only_rollout_subs (first_non_flag rest)
        then (true, safe)
        else if dry_run
        then (true, safe)
        else if first_non_flag rest == codes "undo"
        then (false, high)
        else (false, medium))
    else if dry_run && (is_some (write_risk verb) || verb == codes "delete")
    then (true, safe)
    else if verb == codes "delete"
    then (if contains critical_delete_resources (before_slash (first_non_flag rest))
        then (false, critical)
        else (false, high))
    else elim (write_risk verb) [ some risk ↦ (false, risk) | none ↦ (false, critical) ]

-- The risk of the kubectl call that these tokens follow, in a shell command.
unfoldable pub shell_call_risk : Bool → List Text → RiskLevel
shell_call_risk dry_run tokens =
    let call = extract_verb_from_tokens tokens in
    if call.0 == [] then critical else (classify_verb call.0 call.1 dry_run).1

-- `maxRisk` after the token `t`, which the tokens `rest` follow.
unfoldable pub next_risk : Bool → RiskLevel → Text → List Text → RiskLevel
next_risk dry_run max_risk t rest =
    if t == codes "kubectl" then higher_risk max_risk (shell_call_risk dry_run rest) else max_risk

-- The loop of `classifyShellCommand`, over `maxRisk` and `sawKubectl`.
unfoldable pub scan_calls : Bool → RiskLevel → Bool → List Text → RiskLevel × Bool
scan_calls dry_run max_risk saw [] = (max_risk, saw)
scan_calls dry_run max_risk saw (t ∷ rest) =
    scan_calls dry_run (next_risk dry_run max_risk t rest) (t == codes "kubectl" || saw) rest

abbrev pub is_safe : RiskLevel → Bool
is_safe safe = true
is_safe _ = false

unfoldable pub classify_shell_command : Text → RiskLevel
classify_shell_command command =
    let (max_risk, saw_kubectl) =
      scan_calls (has_dry_run command) safe false (shell_tokens command) in
    if is_safe max_risk then (if saw_kubectl then medium else critical) else max_risk

-- `classifyCommand`, which `ClassifyCommand` and `IsReadOnlyCommand` share.
unfoldable pub classify : Text → Bool × RiskLevel
classify command =
    if has_shell_syntax command
    then (false, classify_shell_command command)
    else let call = extract_verb command in
      if call.0 == [] then (false, critical) else classify_verb call.0 call.1 (has_dry_run command)

-- `ClassifyCommand`.
unfoldable pub classify_command : Text → RiskLevel
classify_command command =
    let (read_only, risk) = classify command in if read_only then safe else risk

-- `IsReadOnlyCommand`.
unfoldable pub is_read_only_command : Text → Bool
is_read_only_command command = if has_shell_syntax command then false else (classify command).0

-- Everything that the classification of a concrete command computes with.
unfoldable pub classification : Unit {0}
unfolding strings is_shell_meta has_unquoted_meta has_shell_syntax shell_tokens_step shell_tokens
    forbidden_token is_forbidden_command read_only_verbs read_only_rollout_subs medium_verbs
    high_verbs critical_verbs write_risk critical_delete_resources value_flags higher_risk
    is_known_verb extract_verb_from_tokens extract_verb is_dry_run_flag has_dry_run
    first_non_flag_from first_non_flag classify_verb shell_call_risk next_risk scan_calls
    classify_shell_command classify classify_command is_read_only_command
classification = tt
