-- ===== src/Agent/GateLaws.antt =====
-- What must have happened before a tool call is executed.
use k8s_ai.Base.{
  ℕ, ◌<◌, Bool, true, false, not, Option, none, some, Text, text_eq, if◌then◌else◌, leb, ◌≡◌, refl,
  ◌≢◌, ◌⊎◌, inl, inr, arith, Bool-cases, Option-cases,
}
use k8s_ai.Approval.Decision.{Policy, Decision, auto, deny}
use k8s_ai.Approval.Grant.{Grant}
use k8s_ai.Session.State.{Session, approved, find_grant, declined}
use k8s_ai.Agent.Key.{decline_key}
use k8s_ai.Agent.Gate.{
  Tool, ToolCall, Choice, yes_once, yes_no_ask_again, refused, Env, grant_request_for,
  policy_decision, approval_decision, executed, Run, perform, on_choice, with_approval, run_decided,
  run_known, execute_tool, access_denied,
}

-- What the user, or an earlier answer of the user, has allowed for a call that needs approval.
pub data IsConfirmed (env : Env) (s : Session) (c : ToolCall) (batch : Bool) : Type 0 where
  in_batch : batch ≡ true → IsConfirmed env s c batch
  unattended : env.approver ≡ none → IsConfirmed env s c batch
  remembered :
      approved s (decline_key c.name c.arguments c.command) ≡ true → IsConfirmed env s c batch
  answered :
      (confirm : ToolCall → Option Choice)
      → env.approver ≡ some confirm
      → (confirm c ≡ some yes_once) ⊎ (confirm c ≡ some yes_no_ask_again)
      → IsConfirmed env s c batch

-- The ways in which a call may come to be executed.
pub data IsAuthorized (env : Env) (policy : Option Policy) (s : Session) (t : Tool) (c : ToolCall)
    (batch : Bool) : Type 0 where
  by_policy : policy_decision policy t c ≡ auto → IsAuthorized env policy s t c batch
  by_grant :
      (g : Grant)
      → policy_decision policy t c ≡ Decision.require_approval
      → find_grant env.now s (grant_request_for s t c) ≡ some g
      → IsAuthorized env policy s t c batch
  by_user :
      policy_decision policy t c ≡ Decision.require_approval
      → declined s (decline_key c.name c.arguments c.command) < 2
      → IsConfirmed env s c batch
      → IsAuthorized env policy s t c batch

module _ (env : Env) (s : Session) (t : Tool) (c : ToolCall) (batch : Bool) where
  abbrev key : Text
  key = decline_key c.name c.arguments c.command

  on_choice_executed :
      (answer : Option Choice)
      → (on_choice env s t c key answer).outcome ≡ executed
      → (answer ≡ some yes_once) ⊎ (answer ≡ some yes_no_ask_again)
  unfolding on_choice
  on_choice_executed none h = cc
  on_choice_executed (some yes_once) h = inl refl
  on_choice_executed (some yes_no_ask_again) h = inr refl
  on_choice_executed (some refused) h = cc

  confirmed :
      (a : Option (ToolCall → Option Choice))
      → env.approver ≡ a
      → (elim a as (λ _. Run) [
        | none ↦ perform env s false c
        | some confirm ↦
            if approved s key then perform env s false c else on_choice env s t c key (confirm c)
      ]).outcome
        ≡ executed
      → IsConfirmed env s c batch
  confirmed none e h = unattended e
  confirmed (some confirm) e h = elim (Bool-cases (approved s key)) [
    | inl known ↦ remembered known
    | inr fresh ↦
        answered confirm e (on_choice_executed (confirm c) (rw (fresh, if◌then◌else◌) at h))
  ]

  with_approval-IsConfirmed :
      (with_approval env s t c batch).outcome ≡ executed
      → (declined s key < 2) × IsConfirmed env s c batch
  unfolding with_approval
  with_approval-IsConfirmed h = elim (Bool-cases (leb 2 (declined s key))) [
    | inl full ↦ absurd (ground arith)
    | inr open_gate ↦ (
      ground arith,
      elim (Bool-cases batch) [
        | inl b ↦ in_batch b
        | inr b ↦ confirmed env.approver refl (rw (open_gate, b, if◌then◌else◌) at h)
      ],
    )
  ]

pub approval_decision-cases :
    (now : ℕ) (policy : Option Policy) (s : Session) (t : Tool) (c : ToolCall)
    → let d = (approval_decision now policy s t c).0 in
      let p = policy_decision policy t c in
      let g = find_grant now s (grant_request_for s t c) in
      ((d ≡ deny) × (p ≡ deny))
      ⊎ ((d ≡ auto) × (p ≡ auto))
      ⊎ ((d ≡ auto) × (p ≡ Decision.require_approval) × (g ≢ none))
      ⊎ ((d ≡ Decision.require_approval) × (p ≡ Decision.require_approval) × (g ≡ none))
unfolding approval_decision
approval_decision-cases now policy s t c = ground arith

some_of_ne_none {ℓ} : {A : Type ℓ} (o : Option A) → o ≢ none → (a : A) × (o ≡ some a)
some_of_ne_none none h = absurd (h refl)
some_of_ne_none (some a) h = (a, refl)

module _ (env : Env) (policy : Option Policy) (s : Session) (t : Tool) (c : ToolCall)
    (batch : Bool) where
  run_decided-IsAuthorized :
      (run_decided env s t c batch (approval_decision env.now policy s t c).0).outcome ≡ executed
      → IsAuthorized env policy s t c batch
  unfolding run_decided
  run_decided-IsAuthorized h = elim (approval_decision-cases env.now policy s t c) [
    | inl (d, p) ↦ absurd (ground arith)
    | inr (inl (d, p)) ↦ by_policy p
    | inr (inr (inl (d, p, g))) ↦ let (grant, e) = some_of_ne_none _ g in by_grant grant p e
    | inr (inr (inr (d, p, g))) ↦
        let (few, yes_said) =
          with_approval-IsConfirmed env s t c batch (rw (d, run_decided) at h) in
        by_user p few yes_said
  ]

  run_known-IsAuthorized :
      (run_known env policy s t c batch).outcome ≡ executed
      → (env.scope_allows c ≡ true)
        × (access_denied t c ≡ false)
        × IsAuthorized env policy s t c batch
  unfolding run_known
  run_known-IsAuthorized h = elim (Bool-cases (env.scope_allows c)) [
    | inr e ↦ absurd (ground arith)
    | inl e ↦ elim (Bool-cases (access_denied t c)) [
      | inl f ↦ absurd (ground arith)
      | inr f ↦ (e, f, run_decided-IsAuthorized (rw (e, f, not, if◌then◌else◌) at h))
    ]
  ]

-- If a call of the agent's tools is executed, then its tool is known, the call is in scope, the
-- cluster access check passed, and it was authorized: the policy decided auto, or a grant of the
-- session covers it, or the policy left it to the user, it had been declined fewer than two times,
-- and one of these holds: the batch argument says so, its key is approved in the session, the user
-- answered yes, or the agent has no approver.
pub execute_tool-IsAuthorized :
    (env : Env) (policy : Option Policy) (s : Session) (c : ToolCall) (batch : Bool)
    → (execute_tool env policy s c batch).outcome ≡ executed
    → (t : Tool) × (env.lookup c.name ≡ some t)
      × (env.scope_allows c ≡ true)
      × (access_denied t c ≡ false)
      × IsAuthorized env policy s t c batch
unfolding execute_tool
execute_tool-IsAuthorized env policy s c batch h = elim (Option-cases (env.lookup c.name)) [
  | inl e ↦ absurd (ground arith)
  | inr (t, e) ↦
      let (scope, access, a) =
        run_known-IsAuthorized env policy s t c batch (rw (e, execute_tool) at h) in
      (t, e, scope, access, a)
]
