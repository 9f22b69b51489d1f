-- ===== src/Agent/Grants.antt =====
-- internal/agent/loop.go, internal/session/session.go, internal/approval/grant.go: what the grants of a
-- session can cover after any calls.
use mathlib.Core.List.{foldl}
use k8s_ai.Base.{
  ℕ, suc, length, ltb, ◌≤◌, Bool, true, false, not, Option, none, some, List, [], ◌∷◌, ◌++◌, Text,
  text_eq, if◌then◌else◌, leb, all, find?, filter, ◌≡◌, refl, ap, ◌∙◌, arith, Bool-cases,
  Option-cases, inl, inr,
}
use k8s_ai.Approval.Risk.{risk_order}
use k8s_ai.Approval.Decision.{Policy, Decision, auto, deny}
use k8s_ai.Approval.Grant.{Grant, GrantRequest, new_grant, matches, match_grant}
use k8s_ai.Session.State.{
  Session, approved, add_approved, add_grant, replace_grant, find_grant, remove_grant_matching,
  declined, add_declined,
}
use k8s_ai.Session.Writes.{remove_grant_matching-grants}
use k8s_ai.Agent.Gate.{
  Run, Tool, ToolCall, Choice, yes_once, yes_no_ask_again, refused, Env, approval_decision, perform,
  on_choice, remember_grant, with_approval, run_decided, run_known, execute_tool, access_denied,
}
use k8s_ai.Agent.Key.{decline_key}
use k8s_ai.Agent.Batch.{
  Batch, Pending, has_approver, collect_pending, remember_step, remember_all, refuse_step,
  on_batch_choice, batch_approve,
}

-- The ceiling of a grant is at most MEDIUM.
abbrev pub is_low : Grant → Bool
is_low g = leb (risk_order g.risk_ceiling) 2

abbrev pub AllLow : Session → Type 0
AllLow s = all is_low s.approval_grants ≡ true

new_grant_low :
    (id : Text) (req : GrantRequest) (g : Grant) → new_grant id req ≡ some g → is_low g ≡ true
unfolding new_grant
new_grant_low id req g h = ground arith

all_append_one :
    (gs : List Grant) (g : Grant)
    → all is_low gs ≡ true
    → is_low g ≡ true
    → all is_low (gs ++ (g ∷ [])) ≡ true
all_append_one [] g h l = ground arith
all_append_one (x ∷ gs) g h l = ground (arith, all_append_one gs g)

replaced_low :
    (g : Grant) (gs : List Grant)
    → is_low g ≡ true
    → all is_low gs ≡ true
    → all is_low (replace_grant g gs) ≡ true
unfolding replace_grant
replaced_low g [] l h = refl
replaced_low g (x ∷ gs) l h = ground (arith, replaced_low g gs l)

filtered_low :
    (p : Grant → Bool) (gs : List Grant) → all is_low gs ≡ true → all is_low (filter p gs) ≡ true
filtered_low p [] h = refl
filtered_low p (x ∷ gs) h = ground (arith, filtered_low p gs)

add_grant-AllLow :
    (now : ℕ) (g : Grant) (s : Session) → is_low g ≡ true → AllLow s → AllLow (add_grant now g s)
unfolding add_grant
add_grant-AllLow now g s l h =
    ground (arith, replaced_low g s.approval_grants l h, all_append_one s.approval_grants g h l)

remember_grant-AllLow :
    (env : Env) (n : ℕ) (req : GrantRequest) (s : Session)
    → AllLow s
    → AllLow (remember_grant env n req s)
unfolding remember_grant
remember_grant-AllLow env n req s h = elim (Option-cases (new_grant (env.grant_id n) req)) [
  | inl e ↦ rw (remember_grant, e) h
  | inr (g, e) ↦
      rw (remember_grant, e)
        (add_grant-AllLow env.now g s (new_grant_low (env.grant_id n) req g e) h)
]

add_approved-AllLow :
    (now : ℕ) (key : Text) (s : Session) → AllLow s → AllLow (add_approved now key s)
unfolding add_approved
add_approved-AllLow now key s h = ground arith

add_declined-AllLow :
    (now : ℕ) (key : Text) (s : Session) → AllLow s → AllLow (add_declined now key s).0
unfolding add_declined
add_declined-AllLow now key s h = h

remove_grant_matching-AllLow :
    (now : ℕ) (req : GrantRequest) (s : Session)
    → AllLow s
    → AllLow (remove_grant_matching now req s)
remove_grant_matching-AllLow now req s h =
    ap (all is_low) (remove_grant_matching-grants now req s)
    ∙ filtered_low (λ g. not (matches now g req)) s.approval_grants h

-- What both branches keep.
either : {A : Type 0} (P : A → Type 0) (b : Bool) {x y : A} → P x → P y → P (if b then x else y)
either P true p q = p
either P false p q = q

-- What a run leaves.
abbrev Low : Run → Type 0
Low r = AllLow r.session

abbrev LowBatch : Batch → Type 0
LowBatch b = AllLow b.session

matched_low :
    (now : ℕ) (g : Grant) (req : GrantRequest)
    → is_low g ≡ true
    → matches now g req ≡ true
    → (risk_order req.risk ≤ 2) × (req.shell ≡ false)
unfolding matches
matched_low now g req l m = ground arith

abbrev key_of : ToolCall → Text
key_of c = decline_key c.name c.arguments c.command

module _ (env : Env) where
  remember_step-AllLow :
      (n : ℕ) (s : Session) (p : Pending) → AllLow s → AllLow (remember_step env n s p)
  unfolding remember_step
  remember_step-AllLow n s p h =
      remember_grant-AllLow env n _ _ (add_approved-AllLow env.now p.key s h)

  refuse_step-AllLow : (s : Session) (p : Pending) → AllLow s → AllLow (refuse_step env s p)
  unfolding refuse_step
  refuse_step-AllLow s p h =
      remove_grant_matching-AllLow env.now _ _ (add_declined-AllLow env.now p.key s h)

  on_choice-AllLow :
      (s : Session) (t : Tool) (c : ToolCall) (key : Text) (answer : Option Choice)
      → AllLow s
      → AllLow (on_choice env s t c key answer).session
  unfolding on_choice perform remember_step refuse_step
  on_choice-AllLow s t c key none h = h
  on_choice-AllLow s t c key (some yes_once) h = h
  on_choice-AllLow s t c key (some yes_no_ask_again) h =
      remember_step-AllLow 0 s (record { call = c; tool = t; key = key }) h
  on_choice-AllLow s t c key (some refused) h =
      refuse_step-AllLow s (record { call = c; tool = t; key = key }) h

  approver-AllLow :
      (s : Session) (t : Tool) (c : ToolCall) (key : Text) (a : Option (ToolCall → Option Choice))
      → AllLow s
      → Low (elim a as (λ _. Run) [
        | none ↦ perform env s false c
        | some confirm ↦
            if approved s key then perform env s false c else on_choice env s t c key (confirm c)
      ])
  unfolding perform
  approver-AllLow s t c key none h = h
  approver-AllLow s t c key (some confirm) h =
      either Low (approved s key) h (on_choice-AllLow s t c key (confirm c) h)

  with_approval-AllLow :
      (s : Session) (t : Tool) (c : ToolCall) (batch : Bool)
      → AllLow s
      → Low (with_approval env s t c batch)
  unfolding with_approval perform
  with_approval-AllLow s t c batch h =
      either Low (leb 2 (declined s (key_of c))) h
        (either Low batch h (approver-AllLow s t c (key_of c) env.approver h))

  run_decided-AllLow :
      (s : Session) (t : Tool) (c : ToolCall) (batch : Bool) (d : Decision)
      → AllLow s
      → Low (run_decided env s t c batch d)
  unfolding run_decided perform
  run_decided-AllLow s t c batch deny h = h
  run_decided-AllLow s t c batch auto h = h
  run_decided-AllLow s t c batch Decision.require_approval h = with_approval-AllLow s t c batch h

  execute_tool-AllLow :
      (policy : Option Policy) (s : Session) (c : ToolCall) (batch : Bool)
      → AllLow s
      → Low (execute_tool env policy s c batch)
  unfolding execute_tool run_known
  execute_tool-AllLow policy s c batch h = elim (Option-cases (env.lookup c.name)) [
    | inl e ↦ rw (execute_tool, e) h
    | inr (t, e) ↦
        rw (execute_tool, e)
          (either Low (not (env.scope_allows c)) h (
            either Low (access_denied t c) h
              (run_decided-AllLow s t c batch ((approval_decision env.now policy s t c).0) h)))
  ]

  remember_all-AllLow :
      (n : ℕ) (s : Session) (ps : List Pending) → AllLow s → AllLow (remember_all env n s ps)
  unfolding remember_all
  remember_all-AllLow n s [] h = h
  remember_all-AllLow n s (p ∷ ps) h =
      remember_all-AllLow (suc n) (remember_step env n s p) ps (remember_step-AllLow n s p h)

  refuse_all-AllLow :
      (s : Session) (ps : List Pending) → AllLow s → AllLow (foldl (refuse_step env) s ps)
  refuse_all-AllLow s [] h = h
  refuse_all-AllLow s (p ∷ ps) h =
      refuse_all-AllLow (refuse_step env s p) ps (refuse_step-AllLow s p h)

  on_batch_choice-AllLow :
      (s : Session) (ps : List Pending) (answer : Option Choice)
      → AllLow s
      → LowBatch (on_batch_choice env s ps answer)
  unfolding on_batch_choice
  on_batch_choice-AllLow s ps none h = h
  on_batch_choice-AllLow s ps (some yes_once) h = h
  on_batch_choice-AllLow s ps (some yes_no_ask_again) h = remember_all-AllLow 0 s ps h
  on_batch_choice-AllLow s ps (some refused) h = refuse_all-AllLow s ps h

  batch_approve-AllLow :
      (policy : Option Policy) (s : Session) (calls : List ToolCall) (answer : Option Choice)
      → AllLow s
      → LowBatch (batch_approve env policy s calls answer)
  unfolding batch_approve
  batch_approve-AllLow policy s calls answer h = either LowBatch (not (has_approver env)) h (
      either LowBatch (ltb (length calls) 2) h (
        either LowBatch (ltb (length (collect_pending env policy s calls)) 2) h
          (on_batch_choice-AllLow s (collect_pending env policy s calls) answer h)))

-- What happens to the session of an agent: a call is executed, or several are put to the user.
pub data Event : Type 0 where
  called : Env → Option Policy → ToolCall → Bool → Event
  batched : Env → Option Policy → List ToolCall → Option Choice → Event

abbrev pub after_event : Session → Event → Session
after_event s (called env policy c batch) = (execute_tool env policy s c batch).session
after_event s (batched env policy calls answer) = (batch_approve env policy s calls answer).session

after_event-AllLow : (s : Session) (e : Event) → AllLow s → AllLow (after_event s e)
after_event-AllLow s (called env policy c batch) h = execute_tool-AllLow env policy s c batch h
after_event-AllLow s (batched env policy calls answer) h =
    batch_approve-AllLow env policy s calls answer h

events-AllLow : (s : Session) (es : List Event) → AllLow s → AllLow (foldl after_event s es)
events-AllLow s [] h = h
events-AllLow s (e ∷ es) h = events-AllLow (after_event s e) es (after_event-AllLow s e h)

find_low :
    (now : ℕ) (gs : List Grant) (req : GrantRequest) (g : Grant)
    → all is_low gs ≡ true
    → find? (λ x. matches now x req) gs ≡ some g
    → (risk_order req.risk ≤ 2) × (req.shell ≡ false)
find_low now [] req g h f = cc f
find_low now (x ∷ gs) req g h f = elim (Bool-cases (matches now x req)) [
  | inl m ↦ matched_low now x req (ground arith) m
  | inr m ↦ find_low now gs req g (ground arith) (rw m at f)
]

-- From a session without grants, after any calls and batches of calls with any answers, a grant is
-- found at any time only for a request that is no shell command and whose risk is at most MEDIUM.
pub events-find_grant :
    (s : Session) (es : List Event) (now : ℕ) (req : GrantRequest) (g : Grant)
    → s.approval_grants ≡ []
    → find_grant now (foldl after_event s es) req ≡ some g
    → (risk_order req.risk ≤ 2) × (req.shell ≡ false)
unfolding find_grant match_grant
events-find_grant s es now req g none_yet h =
    let low : AllLow s = ap (all is_low) none_yet in
    find_low now (foldl after_event s es).approval_grants req g (events-AllLow s es low) h
