-- ===== src/Agent/Batch.antt =====
-- internal/agent/loop.go: the approval of several tool calls of one round with one question. The
-- user's answer to that question is an argument, `none` where asking fails.
use mathlib.Core.List.{foldl}
use k8s_ai.Base.{
  ℕ, suc, Bool, true, false, not, Option, none, some, List, [], ◌∷◌, Text, if◌then◌else◌, leb, ltb,
  length,
}
use k8s_ai.Approval.Decision.{Policy, Decision}
use k8s_ai.Session.State.{
  Session, approved, add_approved, remove_grant_matching, declined, add_declined,
}
use k8s_ai.Agent.Key.{decline_key}
use k8s_ai.Agent.Gate.{
  Tool, ToolCall, Choice, yes_once, yes_no_ask_again, refused, Env, grant_request_for,
  approval_decision, access_denied, max_declines_before_block, remember_grant,
}

-- A call that waits for the answer, with its tool and its key.
pub record Pending : Type 0 where
  pub call : ToolCall
  pub tool : Tool
  pub key : Text

abbrev pub asks : Decision → Bool
asks Decision.require_approval = true
asks _ = false

-- The body of the first loop of `batchApprove` for a known tool, in its order.
unfoldable pub pending_for : Env → Option Policy → Session → Tool → ToolCall → Option Pending
pending_for env policy s t c =
    let key = decline_key c.name c.arguments c.command in
    if not (asks (approval_decision env.now policy s t c).0)
    then none
    else if access_denied t c
    then none
    else if not (env.scope_allows c)
    then none
    else if approved s key
    then none
    else if leb max_declines_before_block (declined s key)
    then none
    else some (record { call = c; tool = t; key = key })

unfoldable pub pending_of : Env → Option Policy → Session → ToolCall → Option Pending
pending_of env policy s c = elim (env.lookup c.name) [
  | none ↦ none
  | some t ↦ pending_for env policy s t c
]

abbrev pub keep : Option Pending → List Pending → List Pending
keep none ps = ps
keep (some p) ps = p ∷ ps

unfoldable pub collect_pending : Env → Option Policy → Session → List ToolCall → List Pending
collect_pending env policy s [] = []
collect_pending env policy s (c ∷ cs) =
    keep (pending_of env policy s c) (collect_pending env policy s cs)

-- The session, and the identifiers of the calls that the batch has approved or declined.
pub record Batch : Type 0 where
  pub session : Session
  pub approved : List Text
  pub declined : List Text

-- The loop of the answer that is remembered, with the number of the grant: each has an identifier
-- of its own.
unfoldable pub remember_step : Env → ℕ → Session → Pending → Session
remember_step env n s p =
    let s' = add_approved env.now p.key s in
    remember_grant env n (grant_request_for s' p.tool p.call) s'

unfoldable pub remember_all : Env → ℕ → Session → List Pending → Session
remember_all env n s [] = s
remember_all env n s (p ∷ ps) = remember_all env (suc n) (remember_step env n s p) ps

-- The loop of the refusal.
unfoldable pub refuse_step : Env → Session → Pending → Session
refuse_step env s p =
    let s' = (add_declined env.now p.key s).0 in
    remove_grant_matching env.now (grant_request_for s' p.tool p.call) s'

abbrev pub ids_of : List Pending → List Text
ids_of [] = []
ids_of (p ∷ ps) = p.call.id ∷ ids_of ps

unfoldable pub on_batch_choice : Env → Session → List Pending → Option Choice → Batch
on_batch_choice env s ps none = record { session = s; approved = []; declined = [] }
on_batch_choice env s ps (some yes_no_ask_again) = record {
  session = remember_all env 0 s ps;
  approved = ids_of ps;
  declined = [];
}
on_batch_choice env s ps (some yes_once) = record {
  session = s;
  approved = ids_of ps;
  declined = [];
}
on_batch_choice env s ps (some refused) = record {
  session = foldl (refuse_step env) s ps;
  approved = [];
  declined = ids_of ps;
}

abbrev pub has_approver : Env → Bool
has_approver env = elim env.approver [ none ↦ false | some confirm ↦ true ]

-- `batchApprove`.
unfoldable pub batch_approve : Env → Option Policy → Session → List ToolCall → Option Choice → Batch
batch_approve env policy s calls answer =
    let ps = collect_pending env policy s calls in
    if not (has_approver env)
    then record { session = s; approved = []; declined = [] }
    else if ltb (length calls) 2
    then record { session = s; approved = []; declined = [] }
    else if ltb (length ps) 2
    then record { session = s; approved = []; declined = [] }
    else on_batch_choice env s ps answer
