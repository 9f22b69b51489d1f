-- ===== src/Agent/Refusals.antt =====
-- The refusal gate: a write that the user has declined twice is blocked without asking again.
use k8s_ai.Base.{
  ℕ, ◌+◌, ◌≤◌, ◌<◌, Bool, true, false, not, Option, none, some, Text, text_eq, ◌≡◌, refl, ◌∙◌,
  arith, ap,
}
use k8s_ai.Approval.Decision
use k8s_ai.Approval.Decision.{Policy, auto, deny}
use k8s_ai.Approval.Grant.{GrantRequest}
use k8s_ai.Session.State.{
  Session, approved, find_grant, remove_grant_matching, declined, add_declined,
}
use k8s_ai.Session.Writes.{
  IsValid, apply, decline, forget, apply-IsValid, remove_grant_matching-find_grant,
  add_declined_same_key,
}
use k8s_ai.Agent.Key.{decline_key}
use k8s_ai.Agent.Gate.{
  Tool, ToolCall, Choice, refused, Env, grant_request_for, policy_decision, approval_decision,
  blocked, declined_by_user, on_choice, with_approval, run_decided, run_known, execute_tool,
  access_denied,
}

pub remove_grant_matching_same :
    (now : ℕ) (s : Session) (req : GrantRequest) (key : Text)
    → let s' = remove_grant_matching now req s in
      (s'.cluster ≡ s.cluster)
      × (s'.namespace ≡ s.namespace)
      × (approved s' key ≡ approved s key)
      × (declined s' key ≡ declined s key)
unfolding remove_grant_matching approved declined
remove_grant_matching_same now s req key = ground arith

add_declined_same :
    (now : ℕ) (s : Session) (key : Text)
    → let s' = (add_declined now key s).0 in (s'.cluster ≡ s.cluster) × (s'.namespace ≡ s.namespace)
unfolding add_declined
add_declined_same now s key = (refl, refl)

-- The grant request reads only the cluster and the namespace of the session.
grant_request_for_same :
    (s s' : Session) (t : Tool) (c : ToolCall)
    → s'.cluster ≡ s.cluster
    → s'.namespace ≡ s.namespace
    → grant_request_for s' t c ≡ grant_request_for s t c
unfolding grant_request_for
grant_request_for_same s s' t c e f = rw (e, f)

module _ (env : Env) (policy : Option Policy) (t : Tool) (c : ToolCall) where
  abbrev key : Text
  key = decline_key c.name c.arguments c.command

  -- A session in which the call would have to be put to the user.
  pub record IsPending (s : Session) : Type 0 where
    pub valid : IsValid s
    pub unapproved : approved s key ≡ false
    pub ungranted : find_grant env.now s (grant_request_for s t c) ≡ none

  -- The session after a refusal.
  abbrev after : Session → Session
  after s =
      let s' = (add_declined env.now key s).0 in
      remove_grant_matching env.now (grant_request_for s' t c) s'

  after-IsPending : (s : Session) → IsPending s → IsPending (after s)
  unfolding apply
  after-IsPending s p =
      let s' = (add_declined env.now key s).0 in
      let req = grant_request_for s' t c in
      let same = remove_grant_matching_same env.now s' req key in
      record {
        valid =
            apply-IsValid env.now (forget req) s' (apply-IsValid env.now (decline key) s p.valid);
        unapproved = same.2 ∙ (add_declined_same_key env.now key s p.valid).0;
        ungranted =
            ap (find_grant env.now (after s))
              (grant_request_for_same s' (after s) t c same.0 same.1)
            ∙ remove_grant_matching-find_grant env.now env.now req s' (omega arith);
      }

  after-declined : (s : Session) → IsPending s → declined (after s) key ≡ declined s key + 1
  after-declined s p =
      let s' = (add_declined env.now key s).0 in
      (remove_grant_matching_same env.now s' (grant_request_for s' t c) key).3
      ∙ (add_declined_same_key env.now key s p.valid).1

  pending_decision :
      (s : Session)
      → IsPending s
      → policy_decision policy t c ≡ Decision.require_approval
      → (approval_decision env.now policy s t c).0 ≡ Decision.require_approval
  unfolding approval_decision
  pending_decision s p e = ground (arith, p.ungranted)

  module _ (scope : env.scope_allows c ≡ true) (access : access_denied t c ≡ false)
      (asks : policy_decision policy t c ≡ Decision.require_approval) where
    run_known_pending :
        (s : Session) (batch : Bool)
        → IsPending s
        → run_known env policy s t c batch ≡ with_approval env s t c batch
    unfolding run_known run_decided
    run_known_pending s batch p = rw (scope, access, not, pending_decision s p asks)

    -- The refusal of one call.
    run_known_refused :
        (s : Session) (confirm : ToolCall → Option Choice)
        → IsPending s
        → env.approver ≡ some confirm
        → confirm c ≡ some refused
        → declined s key < 2
        → ((run_known env policy s t c false).outcome ≡ declined_by_user (declined s key + 1))
          × ((run_known env policy s t c false).session ≡ after s)
    unfolding with_approval on_choice
    run_known_refused s confirm p approver answer few =
        let counted = (add_declined_same_key env.now key s p.valid).2 in
        rw (run_known_pending s false p) (ground (arith, counted, p.unapproved))

    -- The gate, from the second refusal on.
    run_known_blocked :
        (s : Session) (batch : Bool)
        → IsPending s
        → 2 ≤ declined s key
        → run_known env policy s t c batch
          ≡ record { session = s; asked = false; outcome = blocked }
    unfolding with_approval
    run_known_blocked s batch p many = rw (run_known_pending s batch p) (ground arith)

pub execute_tool_known :
    (env : Env) (policy : Option Policy) (s : Session) (t : Tool) (c : ToolCall) (batch : Bool)
    → env.lookup c.name ≡ some t
    → execute_tool env policy s c batch ≡ run_known env policy s t c batch
unfolding execute_tool
execute_tool_known env policy s t c batch known = rw (known, execute_tool)

-- A pending call (valid session, key not approved, no grant) that the policy puts to the user,
-- that is in scope and has access, and that the user refuses twice is counted 1 and 2 and is then
-- blocked without a question and without a change of the session, in a batch or not.
pub execute_tool_blocks_third :
    (env : Env) (policy : Option Policy) (s : Session) (t : Tool) (c : ToolCall) (batch : Bool)
    (confirm : ToolCall → Option Choice)
    → env.lookup c.name ≡ some t
    → env.scope_allows c ≡ true
    → access_denied t c ≡ false
    → policy_decision policy t c ≡ Decision.require_approval
    → env.approver ≡ some confirm
    → confirm c ≡ some refused
    → IsPending env policy t c s
    → declined s (decline_key c.name c.arguments c.command) ≡ 0
    → let r1 = execute_tool env policy s c false in
      let r2 = execute_tool env policy r1.session c false in
      (r1.outcome ≡ declined_by_user 1)
      × (r2.outcome ≡ declined_by_user 2)
      × (execute_tool env policy r2.session c batch
          ≡ record { session = r2.session; asked = false; outcome = blocked })
execute_tool_blocks_third env policy s t c batch confirm known scope access asks approver answer p
      none_yet =
    let s1 = after env policy t c s in
    let s2 = after env policy t c s1 in
    let p1 = after-IsPending env policy t c s p in
    let p2 = after-IsPending env policy t c s1 p1 in
    let d1 = after-declined env policy t c s p in
    let d2 = after-declined env policy t c s1 p1 in
    let r1 =
      run_known_refused env policy t c scope access asks s confirm p approver answer
        (omega arith) in
    let r2 =
      run_known_refused env policy t c scope access asks s1 confirm p1 approver answer
        (omega arith) in
    let r3 = run_known_blocked env policy t c scope access asks s2 batch p2 (omega arith) in
    let step = λ (u : Session) (b : Bool). execute_tool_known env policy u t c b known in
    rw (step s false, r1.1, step s1 false, r2.1, step s2 batch)
      (
        r1.0 ∙ ap declined_by_user (omega (arith, none_yet)),
        r2.0 ∙ ap declined_by_user (omega (arith, d1, none_yet)),
        r3,
      )
