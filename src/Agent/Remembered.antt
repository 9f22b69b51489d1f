-- ===== src/Agent/Remembered.antt =====
-- internal/agent/loop.go: what the answer "yes, do not ask again in this session" does to later calls.
use k8s_ai.Base.{
  ℕ, ◌<◌, true, false, Option, some, Text, text_eq, text_beq_iff, leb, ◌≡◌, sym, ap, ◌∙◌, arith,
  subst, inl, inr, ◌⊎◌, Bool-cases,
}
use k8s_ai.Approval.Decision.{Policy, Decision, auto, evaluate}
use k8s_ai.Approval.Grant.{GrantRequest}
use k8s_ai.Session.State.{Session, approved, add_approved, add_grant, declined}
use k8s_ai.Agent.Key.{decline_key}
use k8s_ai.Agent.Gate.{
  Tool, ToolCall, Choice, yes_no_ask_again, Env, grant_request_for, guard_for, guard_denies,
  policy_decision, executed, perform, on_choice, remember_grant, with_approval, run_decided,
  run_known, execute_tool, access_denied,
}
use k8s_ai.Agent.GateLaws.{approval_decision-cases}
use k8s_ai.Agent.Batch.{Pending, remember_step}
use k8s_ai.Agent.BatchLaws.{remember_step_approved}
use k8s_ai.Agent.Refusals.{execute_tool_known}

abbrev pub key_of : ToolCall → Text
key_of c = decline_key c.name c.arguments c.command

-- The session in which a later call finds the approval.
record IsRemembered (key : Text) (s : Session) : Type 0 where
  approval : approved s key ≡ true
  open_gate : declined s key < 2

remember_grant_declined :
    (env : Env) (n : ℕ) (req : GrantRequest) (s : Session)
    → (remember_grant env n req s).declined_writes ≡ s.declined_writes
unfolding remember_grant add_grant
remember_grant_declined env n req s = ground arith

add_approved_declined :
    (now : ℕ) (key : Text) (s : Session)
    → (add_approved now key s).declined_writes ≡ s.declined_writes
unfolding add_approved
add_approved_declined now key s = ground arith

abbrev pending : Tool → ToolCall → Pending
pending t c = record { call = c; tool = t; key = key_of c }

remember_step-IsRemembered :
    (env : Env) (s : Session) (t : Tool) (c : ToolCall)
    → declined s (key_of c) < 2
    → IsRemembered (key_of c) (remember_step env 0 s (pending t c))
unfolding remember_step declined
remember_step-IsRemembered env s t c few =
    let same =
      remember_grant_declined env 0 (grant_request_for (add_approved env.now (key_of c) s) t c)
        (add_approved env.now (key_of c) s)
      ∙ add_approved_declined env.now (key_of c) s in
    record {
      approval =
          remember_step_approved env 0 s (pending t c) (key_of c)
          ∙ ground (arith, text_beq_iff (key_of c) (key_of c));
      open_gate = rw same few;
    }

-- A call that was put to the user, who said yes for the session.
with_approval-IsRemembered :
    (env : Env) (s : Session) (t : Tool) (c : ToolCall) (confirm : ToolCall → Option Choice)
    → env.approver ≡ some confirm
    → confirm c ≡ some yes_no_ask_again
    → (with_approval env s t c false).asked ≡ true
    → IsRemembered (key_of c) (with_approval env s t c false).session
unfolding with_approval on_choice perform remember_step
with_approval-IsRemembered env s t c confirm e answer h =
    elim (Bool-cases (leb 2 (declined s (key_of c)))) [
      | inl full ↦ cc (rw (with_approval, full) at h)
      | inr few ↦ elim (Bool-cases (approved s (key_of c))) [
        | inl known ↦ cc (rw (with_approval, few, e, known) at h)
        | inr fresh ↦
            rw (with_approval, few, e, fresh, answer)
              (remember_step-IsRemembered env s t c (ground arith))
      ]
    ]

guard_passes :
    (policy : Option Policy) (t : Tool) (c : ToolCall)
    → guard_denies (guard_for t c) ≡ false
    → (policy_decision policy t c ≡ auto) ⊎ (policy_decision policy t c ≡ Decision.require_approval)
unfolding policy_decision evaluate
guard_passes policy t c h = ground arith

-- A later call.
again_executed :
    (env : Env) (policy : Option Policy) (s : Session) (t : Tool) (c : ToolCall)
    → env.lookup c.name ≡ some t
    → env.scope_allows c ≡ true
    → access_denied t c ≡ false
    → guard_denies (guard_for t c) ≡ false
    → env.secrets_given c ≡ true
    → IsRemembered (key_of c) s
    → let r = execute_tool env policy s c false in (r.asked ≡ false) × (r.outcome ≡ executed)
unfolding run_known run_decided with_approval perform
again_executed env policy s t c known scope access guard secrets m =
    let approval = m.approval in
    let few = m.open_gate in
    let passes = guard_passes policy t c guard in
    rw (execute_tool_known env policy s t c false known)
      (ground (arith, approval_decision-cases env.now policy s t c))

-- Only a call that needs approval is put to the user.
run_known-IsRemembered :
    (env : Env) (policy : Option Policy) (s : Session) (t : Tool) (c : ToolCall)
    (confirm : ToolCall → Option Choice)
    → env.approver ≡ some confirm
    → confirm c ≡ some yes_no_ask_again
    → (run_known env policy s t c false).asked ≡ true
    → IsRemembered (key_of c) (run_known env policy s t c false).session
unfolding run_known run_decided perform
run_known-IsRemembered env policy s t c confirm e answer h =
    elim (Bool-cases (env.scope_allows c)) [
      | inr out ↦ cc (rw (run_known, out) at h)
      | inl scope ↦ elim (Bool-cases (access_denied t c)) [
        | inl denied ↦ cc (rw (run_known, scope, denied) at h)
        | inr access ↦ elim (approval_decision-cases env.now policy s t c) [
          | inl (d, p) ↦ cc (rw (run_known, scope, access, d) at h)
          | inr (inl (d, p)) ↦ cc (rw (run_known, scope, access, d) at h)
          | inr (inr (inl (d, p, g))) ↦ cc (rw (run_known, scope, access, d) at h)
          | inr (inr (inr (d, p, g))) ↦
              rw (run_known, scope, access, d)
                (with_approval-IsRemembered env s t c confirm e answer
                  (rw (run_known, scope, access, d) at h))
        ]
      ]
    ]

-- If a call of a known tool is put to the user, who says yes for the session, then a later call of
-- any known tool with the same key, in scope, with access, not denied by Code Guard and with its
-- secrets given, is executed in the session that this leaves without asking, whatever its risk is
-- and whether it has shell syntax.
pub remembered_unasked :
    (env later : Env) (policy : Option Policy) (s : Session) (t u : Tool) (c again : ToolCall)
    (confirm : ToolCall → Option Choice)
    → env.lookup c.name ≡ some t
    → env.approver ≡ some confirm
    → confirm c ≡ some yes_no_ask_again
    → (execute_tool env policy s c false).asked ≡ true
    → key_of again ≡ key_of c
    → later.lookup again.name ≡ some u
    → later.scope_allows again ≡ true
    → access_denied u again ≡ false
    → guard_denies (guard_for u again) ≡ false
    → later.secrets_given again ≡ true
    → let r = execute_tool later policy (execute_tool env policy s c false).session again false in
      (r.asked ≡ false) × (r.outcome ≡ executed)
remembered_unasked env later policy s t u c again confirm known e answer h same there scope access
      guard secrets =
    let first = execute_tool_known env policy s t c false known in
    let put : (run_known env policy s t c false).asked ≡ true = ap (λ r. r.asked) (sym first) ∙ h in
    let m =
      subst (λ r. IsRemembered (key_of c) r.session) (sym first)
        (run_known-IsRemembered env policy s t c confirm e answer put) in
    again_executed later policy (execute_tool env policy s c false).session u again there scope
      access guard secrets
      (subst (λ k. IsRemembered k (execute_tool env policy s c false).session) (sym same) m)
