-- ===== src/Agent/BatchLaws.antt =====
-- What one answer to a batch of calls approves, remembers and refuses.
use mathlib.Core.List.{foldl}
use k8s_ai.Base.{
  ℕ, suc, ◌≤◌, ◌<◌, true, false, ◌||◌, Option, some, List, [], ◌∷◌, Text, ◌==◌, text_eq,
  text_beq_iff, length, contains, ◌≡◌, refl, ◌≢◌, ◌⊎◌, inl, inr, arith, Bool-cases, Option-cases,
  Memᴰ,
}
use k8s_ai.Approval.Decision.{Policy, Decision}
use k8s_ai.Approval.Grant.{GrantRequest}
use k8s_ai.Session.State.{Session, approved, add_approved, add_grant, declined, add_declined}
use k8s_ai.Session.Writes.{
  IsValid, apply, decline, forget, apply-IsValid, contains-append, add_declined_lem,
  add_declined_same_key,
}
use k8s_ai.Agent.Key.{decline_key}
use k8s_ai.Agent.Gate.{
  Tool, ToolCall, Choice, yes_once, yes_no_ask_again, refused, Env, grant_request_for,
  approval_decision, access_denied, remember_grant,
}
use k8s_ai.Agent.Refusals.{remove_grant_matching_same}
use k8s_ai.Agent.Batch.{
  Pending, pending_for, pending_of, collect_pending, remember_step, remember_all, refuse_step,
  ids_of, on_batch_choice, batch_approve, has_approver,
}

-- Why a call was put into the batch.
pub record Waits (env : Env) (policy : Option Policy) (s : Session) (c : ToolCall) : Type 0 where
  pub tool : Tool
  pub known : env.lookup c.name ≡ some tool
  pub asks : (approval_decision env.now policy s tool c).0 ≡ Decision.require_approval
  pub access : access_denied tool c ≡ false
  pub in_scope : env.scope_allows c ≡ true
  pub fresh : approved s (decline_key c.name c.arguments c.command) ≡ false
  pub open_gate : declined s (decline_key c.name c.arguments c.command) < 2

module _ (env : Env) (policy : Option Policy) (s : Session) where
  pending_for_lem :
      (t : Tool) (c : ToolCall) (p : Pending)
      → pending_for env policy s t c ≡ some p
      → ((approval_decision env.now policy s t c).0 ≡ Decision.require_approval)
        × (access_denied t c ≡ false)
        × (env.scope_allows c ≡ true)
        × (approved s (decline_key c.name c.arguments c.command) ≡ false)
        × (declined s (decline_key c.name c.arguments c.command) < 2)
        × (p.call ≡ c)
  unfolding pending_for
  pending_for_lem t c p h = ground arith

  pending_of-Waits :
      (c : ToolCall) (p : Pending)
      → pending_of env policy s c ≡ some p
      → (p.call ≡ c) × Waits env policy s c
  unfolding pending_of
  pending_of-Waits c p h = elim (Option-cases (env.lookup c.name)) [
    | inl e ↦ absurd (ground arith)
    | inr (t, e) ↦
        let (a, b, d, f, g, same) = pending_for_lem t c p (rw (e, pending_of) at h) in
        (
          same,
          record {
            tool = t;
            known = e;
            asks = a;
            access = b;
            in_scope = d;
            fresh = f;
            open_gate = g;
          },
        )
  ]

  collect_pending-Waits :
      (calls : List ToolCall) (id : Text)
      → contains (ids_of (collect_pending env policy s calls)) id ≡ true
      → (c : ToolCall) × Memᴰ c calls × (c.id ≡ id) × Waits env policy s c
  unfolding collect_pending
  collect_pending-Waits [] id h = cc
  collect_pending-Waits (c ∷ calls) id h = elim (Option-cases (pending_of env policy s c)) [
    | inl e ↦
        let (d, m, i, w) = collect_pending-Waits calls id (rw (e, collect_pending) at h) in
        (d, Memᴰ.tail m, i, w)
    | inr (p, e) ↦
        let (same, w) = pending_of-Waits c p e in
        elim (Bool-cases (p.call.id == id)) [
          | inl here ↦ (c, Memᴰ.head refl, ground (arith, text_beq_iff p.call.id id), w)
          | inr there ↦
              let (d, m, i, v) = collect_pending-Waits calls id (ground arith) in
              (d, Memᴰ.tail m, i, v)
        ]
  ]

-- If a batch approves an identifier, then the user has said yes to the batch, and some call of the
-- round with that identifier is of a known tool, in scope and with access, needs approval, is not
-- yet approved and has been declined fewer than two times.
pub batch_approve-Waits :
    (env : Env) (policy : Option Policy) (s : Session) (calls : List ToolCall)
    (answer : Option Choice) (id : Text)
    → contains (batch_approve env policy s calls answer).approved id ≡ true
    → ((answer ≡ some yes_once) ⊎ (answer ≡ some yes_no_ask_again))
      × ((c : ToolCall) × Memᴰ c calls × (c.id ≡ id) × Waits env policy s c)
unfolding batch_approve on_batch_choice
batch_approve-Waits env policy s calls answer id h =
    ground (arith, collect_pending-Waits env policy s calls id)

module _ (env : Env) where
  remember_grant_same :
      (n : ℕ) (req : GrantRequest) (s : Session)
      → (remember_grant env n req s).approved_writes ≡ s.approved_writes
  unfolding remember_grant add_grant
  remember_grant_same n req s = ground arith

  pub remember_step_approved :
      (n : ℕ) (s : Session) (p : Pending) (key : Text)
      → approved (remember_step env n s p) key ≡ (approved s key || p.key == key)
  unfolding remember_step approved add_approved
  remember_step_approved n s p key = ground (
    arith,
    remember_grant_same n (grant_request_for (add_approved env.now p.key s) p.tool p.call)
        (add_approved env.now p.key s),
    contains-append s.approved_writes p.key key,
    text_beq_iff p.key key,
  )

  remembered_stays :
      (ps : List Pending) (n : ℕ) (s : Session) (key : Text)
      → approved s key ≡ true
      → approved (remember_all env n s ps) key ≡ true
  unfolding remember_all
  remembered_stays [] n s key h = h
  remembered_stays (p ∷ ps) n s key h =
      remembered_stays ps (suc n) (remember_step env n s p) key
        (ground (arith, remember_step_approved n s p key))

  remembered_all :
      (ps : List Pending) (n : ℕ) (s : Session) (p : Pending)
      → Memᴰ p ps
      → approved (remember_all env n s ps) p.key ≡ true
  unfolding remember_all
  remembered_all [] n s p m = elim m [ ]
  remembered_all (q ∷ ps) n s p (Memᴰ.head e) =
      remembered_stays ps (suc n) (remember_step env n s q) p.key
        (ground (arith, remember_step_approved n s q p.key, text_beq_iff q.key p.key))
  remembered_all (q ∷ ps) n s p (Memᴰ.tail m) =
      remembered_all ps (suc n) (remember_step env n s q) p m

  refuse_step-IsValid : (s : Session) (p : Pending) → IsValid s → IsValid (refuse_step env s p)
  unfolding refuse_step apply
  refuse_step-IsValid s p v =
      let s' = (add_declined env.now p.key s).0 in
      apply-IsValid env.now (forget (grant_request_for s' p.tool p.call)) s'
        (apply-IsValid env.now (decline p.key) s v)

  -- What one refusal does to a key: the count of its own key grows and the key is not approved.
  refuse_step_lem :
      (s : Session) (p : Pending) (key : Text)
      → IsValid s
      → (declined s key ≤ declined (refuse_step env s p) key)
        × ((p.key == key) ≡ true
            → (approved (refuse_step env s p) key ≡ false)
              × (declined s key < declined (refuse_step env s p) key))
        × (approved s key ≡ false → approved (refuse_step env s p) key ≡ false)
  unfolding refuse_step
  refuse_step_lem s p key v =
      let s' = (add_declined env.now p.key s).0 in
      let same = remove_grant_matching_same env.now s' (grant_request_for s' p.tool p.call) key in
      elim (Bool-cases (p.key == key)) [
        | inl e ↦
            let k : p.key ≡ key = (text_beq_iff p.key key).0 e in
            let own = add_declined_same_key env.now p.key s v in ground (arith, same, own, k)
        | inr e ↦
            let ne : p.key ≢ key = λ q. cc ((text_beq_iff p.key key).1 q, e) in
            let other = add_declined_lem env.now p.key key s v ne in ground (arith, same, other)
      ]

  refused_stays :
      (ps : List Pending) (s : Session) (key : Text)
      → IsValid s
      → let s' = foldl (refuse_step env) s ps in
        (declined s key ≤ declined s' key) × (approved s key ≡ false → approved s' key ≡ false)
  refused_stays [] s key v = (omega arith, λ h. h)
  refused_stays (p ∷ ps) s key v =
      let one = refuse_step_lem s p key v in
      let more = refused_stays ps (refuse_step env s p) key (refuse_step-IsValid s p v) in
      (omega (arith, one.0, more.0), λ h. more.1 (one.2 h))

  refused_all :
      (ps : List Pending) (s : Session) (p : Pending)
      → IsValid s
      → Memᴰ p ps
      → let s' = foldl (refuse_step env) s ps in
        (approved s' p.key ≡ false) × (declined s p.key < declined s' p.key)
  refused_all [] s p v m = elim m [ ]
  refused_all (q ∷ ps) s p v (Memᴰ.head e) =
      let one = (refuse_step_lem s q p.key v).1 ((text_beq_iff q.key p.key).1 (ground arith)) in
      let more = refused_stays ps (refuse_step env s q) p.key (refuse_step-IsValid s q v) in
      (more.1 one.0, omega (arith, one.1, more.0))
  refused_all (q ∷ ps) s p v (Memᴰ.tail m) =
      let one = refuse_step_lem s q p.key v in
      let more = refused_all ps (refuse_step env s q) p (refuse_step-IsValid s q v) m in
      (more.0, omega (arith, one.0, more.1))

length-collect_pending :
    (env : Env) (policy : Option Policy) (s : Session) (calls : List ToolCall)
    → length (collect_pending env policy s calls) ≤ length calls
unfolding collect_pending
length-collect_pending env policy s [] = omega arith
length-collect_pending env policy s (c ∷ calls) =
    ground (arith, length-collect_pending env policy s calls)

-- With an approver and two pending calls or more, a batch that the user refuses in a valid session
-- leaves none of the pending calls approved and counts a refusal, or more, for each of them.
batch_approve_refused :
    (env : Env) (policy : Option Policy) (s : Session) (calls : List ToolCall) (p : Pending)
    → IsValid s
    → has_approver env ≡ true
    → 2 ≤ length (collect_pending env policy s calls)
    → Memᴰ p (collect_pending env policy s calls)
    → let s' = (batch_approve env policy s calls (some refused)).session in
      (approved s' p.key ≡ false) × (declined s p.key < declined s' p.key)
unfolding batch_approve on_batch_choice
batch_approve_refused env policy s calls p v asked many m = ground (
  arith,
  refused_all env (collect_pending env policy s calls) s p v m,
  length-collect_pending env policy s calls,
)

-- With an approver and two pending calls or more, a batch that the user allows for the session
-- leaves each of the pending calls approved by its key, whatever the risk of the call is.
pub batch_approve_remembered :
    (env : Env) (policy : Option Policy) (s : Session) (calls : List ToolCall) (p : Pending)
    → has_approver env ≡ true
    → 2 ≤ length (collect_pending env policy s calls)
    → Memᴰ p (collect_pending env policy s calls)
    → approved (batch_approve env policy s calls (some yes_no_ask_again)).session p.key ≡ true
unfolding batch_approve on_batch_choice
batch_approve_remembered env policy s calls p asked many m = ground (
  arith,
  remembered_all env (collect_pending env policy s calls) 0 s p m,
  length-collect_pending env policy s calls,
)
