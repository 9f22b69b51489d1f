-- ===== src/Agent/ShellGate.antt =====
-- The gates that no automation passes: Code Guard and the shell gate.
use k8s_ai.Base.{
  ℕ, ◌<◌, Bool, true, false, Option, none, some, List, [], ◌∷◌, Text, text_eq, find?, ◌≡◌, refl,
  sym, ◌≢◌, arith, subst,
}
use k8s_ai.Approval.Decision.{Policy, auto, deny, evaluate}
use k8s_ai.Approval.Grant.{Grant, GrantRequest, matches, match_grant}
use k8s_ai.Session.State.{Session, find_grant, declined}
use k8s_ai.Agent.Key.{decline_key}
use k8s_ai.Agent.Gate.{
  Tool, ToolCall, Env, grant_request_at, grant_request_for, guard_for, guard_denies,
  policy_decision, approval_decision, executed, run_decided, run_known, execute_tool,
}
use k8s_ai.Agent.GateLaws.{
  IsConfirmed, IsAuthorized, by_policy, by_grant, by_user, execute_tool-IsAuthorized,
}
use k8s_ai.Agent.Refusals.{execute_tool_known}

grant_request_shell :
    (cluster ns : Text) (t : Tool) (c : ToolCall)
    → t.has_shell c.arguments ≡ true
    → (grant_request_at cluster ns t c).shell ≡ true
unfolding grant_request_at
grant_request_shell cluster ns t c h = ground arith

shell_matches :
    (now : ℕ) (g : Grant) (req : GrantRequest) → req.shell ≡ true → matches now g req ≡ false
unfolding matches
shell_matches now g req h = ground arith

find_none {ℓ} :
    {A : Type ℓ} (p : A → Bool) (xs : List A) → ((x : A) → p x ≡ false) → find? p xs ≡ none
find_none p [] h = refl
find_none p (x ∷ xs) h = rw (h x) (find_none p xs h)

-- No grant of a session covers a shell command.
shell_find_grant :
    (now : ℕ) (s : Session) (t : Tool) (c : ToolCall)
    → t.has_shell c.arguments ≡ true
    → find_grant now s (grant_request_for s t c) ≡ none
unfolding find_grant match_grant grant_request_for
shell_find_grant now s t c h =
    find_none _ s.approval_grants
      (λ g. shell_matches now g _ (grant_request_shell s.cluster s.namespace t c h))

shell_policy :
    (policy : Option Policy) (t : Tool) (c : ToolCall)
    → t.has_shell c.arguments ≡ true
    → policy_decision policy t c ≢ auto
unfolding policy_decision evaluate
shell_policy policy t c h = ground arith

-- A call of a known tool with shell syntax that is executed had been declined fewer than two times
-- and had been confirmed: by a batch, by an answer, by an approval of its key in the session, or
-- because there is no approver.
pub shell_executed-IsConfirmed :
    (env : Env) (policy : Option Policy) (s : Session) (t : Tool) (c : ToolCall) (batch : Bool)
    → env.lookup c.name ≡ some t
    → t.has_shell c.arguments ≡ true
    → (execute_tool env policy s c batch).outcome ≡ executed
    → (declined s (decline_key c.name c.arguments c.command) < 2) × IsConfirmed env s c batch
shell_executed-IsConfirmed env policy s t c batch known shell h =
    let (u, same, scope, access, a) = execute_tool-IsAuthorized env policy s c batch h in
    let e : u ≡ t = cc (same, known) in
    split u (subst (λ v. v.has_shell c.arguments ≡ true) (sym e) shell) a
  where
    split :
        (u : Tool)
        → u.has_shell c.arguments ≡ true
        → IsAuthorized env policy s u c batch
        → (declined s (decline_key c.name c.arguments c.command) < 2) × IsConfirmed env s c batch
    split u sh (by_policy p) = absurd (shell_policy policy u c sh p)
    split u sh (by_grant g p q) = cc (shell_find_grant env.now s u c sh)
    split u sh (by_user p few yes_said) = (few, yes_said)

guard_policy :
    (policy : Option Policy) (t : Tool) (c : ToolCall)
    → guard_denies (guard_for t c) ≡ true
    → policy_decision policy t c ≡ deny
unfolding policy_decision evaluate
guard_policy policy t c h = ground arith

-- A call of a known tool that Code Guard denies is not executed, whatever the policy, the session,
-- a batch approval and the user's answer are.
pub guard_denies_execution :
    (env : Env) (policy : Option Policy) (s : Session) (t : Tool) (c : ToolCall) (batch : Bool)
    → env.lookup c.name ≡ some t
    → guard_denies (guard_for t c) ≡ true
    → (execute_tool env policy s c batch).outcome ≢ executed
unfolding run_known run_decided approval_decision
guard_denies_execution env policy s t c batch known h =
    rw (execute_tool_known env policy s t c batch known) (ground (arith, guard_policy policy t c h))
