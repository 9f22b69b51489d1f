-- ===== src/Approval/Classify.antt =====
-- What the classes of internal/approval/risk.go mean: read-only and SAFE are one verdict, a shell
-- command is never SAFE, and no kubectl call in a shell command exceeds the class of the whole.
use k8s_ai.Base.{
  Bool, true, false, none, some, List, [], ◌∷◌, ◌++◌, Text, codes, text_eq, ◌≡◌, refl, ◌↔◌, ◌⊎◌,
  inl, ◌≤◌, arith, contains, text_beq_iff, strings, subst, sym,
}
use native.Mathlib.Nat.{le_trans}
use k8s_ai.Model.{RiskLevel, safe, medium, high, critical}
use k8s_ai.Approval.Shell.{has_shell_syntax, shell_tokens}
use k8s_ai.Approval.Risk.{
  read_only_verbs, read_only_rollout_subs, medium_verbs, write_risk, is_some, risk_order,
  higher_risk, first_non_flag, extract_verb_from_tokens, classify_verb, shell_call_risk, next_risk,
  scan_calls, classify_shell_command, has_dry_run, extract_verb, classify, classify_command,
  is_read_only_command,
}

write_risk-cases :
    (verb : Text)
    → (write_risk verb ≡ none)
      ⊎ (write_risk verb ≡ some medium)
      ⊎ (write_risk verb ≡ some high)
      ⊎ (write_risk verb ≡ some critical)
unfolding write_risk
write_risk-cases verb = ground arith

write_risk_rollout : write_risk (codes "rollout") ≡ some medium
unfolding write_risk medium_verbs strings
write_risk_rollout = refl

-- The conditions under which a call runs without approval: a reading verb, a reading subcommand of
-- `rollout`, or a known write that is rehearsed.
abbrev pub IsReadOnly : Text → List Text → Bool → Type 0
IsReadOnly verb rest dry_run =
    (contains read_only_verbs verb ≡ true)
    ⊎ ((verb ≡ codes "rollout") × (contains read_only_rollout_subs (first_non_flag rest) ≡ true))
    ⊎ ((dry_run ≡ true) × ((is_some (write_risk verb) ≡ true) ⊎ (verb ≡ codes "delete")))

module _ (verb : Text) (rest : List Text) (dry_run : Bool) where
  -- A call runs without approval exactly if its verb reads, or it reads the status or the history
  -- of a rollout, or it carries a dry-run flag and its verb is a known write or delete.
  classify_verb-IsReadOnly :
      ((classify_verb verb rest dry_run).0 ≡ true) ↔ IsReadOnly verb rest dry_run
  unfolding classify_verb
  classify_verb-IsReadOnly = ground (
    arith,
    text_beq_iff verb (codes "rollout"),
    text_beq_iff verb (codes "delete"),
    write_risk_rollout,
  )

  classify_verb-safe_iff :
      ((classify_verb verb rest dry_run).0 ≡ true) ↔ ((classify_verb verb rest dry_run).1 ≡ safe)
  unfolding classify_verb
  classify_verb-safe_iff = ground (arith, write_risk-cases verb)

  -- The risk is SAFE or at least MEDIUM.
  classify_verb-order :
      ((classify_verb verb rest dry_run).1 ≡ safe)
      ⊎ (2 ≤ risk_order (classify_verb verb rest dry_run).1)
  unfolding classify_verb
  classify_verb-order = ground (arith, write_risk-cases verb)

shell_call_risk-order :
    (dry_run : Bool) (rest : List Text)
    → (shell_call_risk dry_run rest ≡ safe) ⊎ (2 ≤ risk_order (shell_call_risk dry_run rest))
unfolding shell_call_risk
shell_call_risk-order dry_run rest =
    let call = extract_verb_from_tokens rest in
    ground (arith, classify_verb-order call.0 call.1 dry_run)

-- The state of the scan: the highest risk is SAFE or at least MEDIUM.
abbrev IsClear : RiskLevel → Type 0
IsClear r = (r ≡ safe) ⊎ (2 ≤ risk_order r)

higher_risk-IsClear : (a b : RiskLevel) → IsClear a → IsClear b → IsClear (higher_risk a b)
unfolding higher_risk
higher_risk-IsClear a b h k = ground arith

higher_risk_left : (a b : RiskLevel) → risk_order a ≤ risk_order (higher_risk a b)
unfolding higher_risk
higher_risk_left a b = ground arith

higher_risk_right : (a b : RiskLevel) → risk_order b ≤ risk_order (higher_risk a b)
unfolding higher_risk
higher_risk_right a b = ground arith

module _ (dry_run : Bool) where
  next_risk-IsClear :
      (r : RiskLevel) (t : Text) (ts : List Text) → IsClear r → IsClear (next_risk dry_run r t ts)
  unfolding next_risk
  next_risk-IsClear r t ts h =
      ground (
        arith,
        higher_risk-IsClear r (shell_call_risk dry_run ts),
        shell_call_risk-order dry_run ts,
      )

  next_risk_grows :
      (r : RiskLevel) (t : Text) (ts : List Text)
      → risk_order r ≤ risk_order (next_risk dry_run r t ts)
  unfolding next_risk
  next_risk_grows r t ts = ground (arith, higher_risk_left r (shell_call_risk dry_run ts))

  next_risk_call :
      (r : RiskLevel) (ts : List Text)
      → risk_order (shell_call_risk dry_run ts)
        ≤ risk_order (next_risk dry_run r (codes "kubectl") ts)
  unfolding next_risk
  next_risk_call r ts = ground (
    arith,
    higher_risk_right r (shell_call_risk dry_run ts),
    text_beq_iff (codes "kubectl") (codes "kubectl"),
  )

  scan_calls-IsClear :
      (ts : List Text) (r : RiskLevel) (saw : Bool)
      → IsClear r
      → IsClear (scan_calls dry_run r saw ts).0
  unfolding scan_calls
  scan_calls-IsClear [] r saw h = h
  scan_calls-IsClear (t ∷ ts) r saw h = scan_calls-IsClear ts _ _ (next_risk-IsClear r t ts h)

  scan_calls_grows :
      (ts : List Text) (r : RiskLevel) (saw : Bool)
      → risk_order r ≤ risk_order (scan_calls dry_run r saw ts).0
  unfolding scan_calls
  scan_calls_grows [] r saw = omega arith
  scan_calls_grows (t ∷ ts) r saw =
      le_trans (next_risk_grows r t ts) (scan_calls_grows ts (next_risk dry_run r t ts) _)

  scan_calls_bounds :
      (pre ts : List Text) (r : RiskLevel) (saw : Bool)
      → risk_order (shell_call_risk dry_run ts)
        ≤ risk_order (scan_calls dry_run r saw (pre ++ (codes "kubectl" ∷ ts))).0
  unfolding scan_calls
  scan_calls_bounds [] ts r saw =
      le_trans (next_risk_call r ts)
        (scan_calls_grows ts (next_risk dry_run r (codes "kubectl") ts) _)
  scan_calls_bounds (t ∷ pre) ts r saw = scan_calls_bounds pre ts _ _

-- If kubectl stands among the tokens of a shell command, the risk of the call after it is at most
-- the risk of the whole command.
classify_shell_command_bounds :
    (command : Text) (pre rest : List Text)
    → shell_tokens command ≡ pre ++ (codes "kubectl" ∷ rest)
    → risk_order (shell_call_risk (has_dry_run command) rest)
      ≤ risk_order (classify_shell_command command)
unfolding classify_shell_command
classify_shell_command_bounds command pre rest h =
    let bound = scan_calls_bounds (has_dry_run command) pre rest safe false in
    ground (
      arith,
      subst
          (λ ts.
            risk_order (shell_call_risk (has_dry_run command) rest)
            ≤ risk_order (scan_calls (has_dry_run command) safe false ts).0)
          (sym h) bound,
    )

pub classify_shell_command_medium :
    (command : Text) → 2 ≤ risk_order (classify_shell_command command)
unfolding classify_shell_command
classify_shell_command_medium command =
    ground
      (arith, scan_calls-IsClear (has_dry_run command) (shell_tokens command) safe false (inl refl))

-- A command is read-only exactly if its risk is SAFE.
is_read_only_command_iff :
    (command : Text) → (is_read_only_command command ≡ true) ↔ (classify_command command ≡ safe)
unfolding is_read_only_command classify_command classify
is_read_only_command_iff command =
    let call = extract_verb command in
    ground (
      arith,
      classify_shell_command_medium command,
      classify_verb-safe_iff call.0 call.1 (has_dry_run command),
    )

-- A command with shell syntax is not read-only, and its risk is at least MEDIUM.
pub shell_needs_approval :
    (command : Text)
    → has_shell_syntax command ≡ true
    → (is_read_only_command command ≡ false) × (2 ≤ risk_order (classify_command command))
unfolding is_read_only_command classify_command classify
shell_needs_approval command h = ground (arith, classify_shell_command_medium command)
