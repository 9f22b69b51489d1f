-- ===== src/Agent/ChatCalls.antt =====
-- internal/agent/loop.go: the calls of a round, and how they leave the run.
use k8s_ai.Base.{
  ℕ, suc, ◌≡◌, ◌≢◌, refl, arith, inl, inr, Bool, true, false, Bool-cases, List, [], ◌∷◌, Text,
  text_eq, ltb, contains, codes,
}
use k8s_ai.Agent.Gate.{ToolCall}
use k8s_ai.Agent.Batch.{Batch, batch_approve}
use k8s_ai.Agent.BatchLaws.{batch_approve-Waits}
use k8s_ai.Agent.Chat.{
  Agent, Outside, Chat, fail_turn, handle, seen, CallVerdict, next_call, end_of_batch, end_of_run,
  one_call, run_calls, on_verdict,
}
use k8s_ai.Agent.Rounds.{act}
use k8s_ai.Agent.ChatLaws.{WasBatched, Live, IsOver, fail_status, log_authorized, after_call-Live}

-- How a call leaves the run.
data Called (agent : Agent) (outside : Outside) (n : ℕ) (chat : Chat) (v : CallVerdict)
    : Type 0 where
  goes_on : Live agent outside n chat → v ≢ end_of_run → Called agent outside n chat v
  is_over : IsOver agent outside chat → v ≡ end_of_run → Called agent outside n chat v

one_call-Called :
    (agent : Agent) (outside : Outside) (batch : Batch) (c : ToolCall) (n : ℕ) (chat : Chat)
    → ((id : Text) → contains batch.approved id ≡ true → WasBatched outside agent.policy id)
    → Live agent outside n chat
    → let r = one_call agent outside batch c chat in Called agent outside n r.0 r.1
unfolding one_call fail_turn
one_call-Called agent outside batch c n chat granted l =
    elim (Bool-cases (ltb agent.max_tool_calls (suc chat.tool_calls_total))) [
      | inl e ↦ rw (one_call, e) (is_over (over _) refl)
      | inr e ↦
          let (live, going) =
            after_call-Live agent outside (outside.env (suc chat.tool_calls_total)) c
              (contains batch.approved c.id) (handle agent outside batch c chat)
              (seen (handle agent outside batch c chat)
                (outside.output (suc chat.tool_calls_total)))
              n chat l (ground arith)
              (log_authorized agent outside batch c chat granted l.authorized) in
          rw (one_call, e) (goes_on live going)
    ]
  where
    over :
        (now : ℕ)
        → IsOver agent outside (
            fail_turn now
              (codes "agent exceeded max tool calls")
              (record chat { tool_calls_total = suc chat.tool_calls_total }))
    over now = record {
      final =
          inr (
            fail_status now _ (record chat { tool_calls_total = suc chat.tool_calls_total })
              l.runs);
      few_requests = omega (arith, l.few_requests);
      few_executed = omega (arith, l.few_executed, l.few_calls);
      authorized = l.authorized;
    }

-- How the calls of a round leave the run.
pub data Acted (agent : Agent) (outside : Outside) (n : ℕ) (chat : Chat) (over : Bool)
    : Type 0 where
  next_round : Live agent outside n chat → over ≡ false → Acted agent outside n chat over
  last_round : IsOver agent outside chat → over ≡ true → Acted agent outside n chat over

run_calls-Acted :
    (agent : Agent) (outside : Outside) (batch : Batch) (cs : List ToolCall) (n : ℕ) (chat : Chat)
    → ((id : Text) → contains batch.approved id ≡ true → WasBatched outside agent.policy id)
    → Live agent outside n chat
    → let r = run_calls agent outside batch cs chat in Acted agent outside n r.0 r.1
unfolding run_calls
run_calls-Acted agent outside batch [] n chat granted l = next_round l refl
run_calls-Acted agent outside batch (c ∷ cs) n chat granted l =
    by_verdict ((one_call agent outside batch c chat).0) ((one_call agent outside batch c chat).1)
      (one_call-Called agent outside batch c n chat granted l)
      (λ x. run_calls-Acted agent outside batch cs n x granted)
  where
    by_verdict :
        (after : Chat) (v : CallVerdict)
        → Called agent outside n after v
        → ((x : Chat)
            → Live agent outside n x
            → let q = run_calls agent outside batch cs x in Acted agent outside n q.0 q.1)
        → let r = on_verdict v after (run_calls agent outside batch cs after) in
          Acted agent outside n r.0 r.1
    by_verdict after next_call (goes_on live going) ih = ih after live
    by_verdict after end_of_batch (goes_on live going) ih = next_round live refl
    by_verdict after end_of_run (goes_on live going) ih = elim (going refl) [ ]
    by_verdict after end_of_run (is_over over e) ih = last_round over refl
    by_verdict after next_call (is_over over e) ih = cc e
    by_verdict after end_of_batch (is_over over e) ih = cc e

pub act-Acted :
    (agent : Agent) (outside : Outside) (round : ℕ) (calls : List ToolCall) (n : ℕ) (chat : Chat)
    → Live agent outside n chat
    → let r = act agent outside round calls chat in Acted agent outside n r.0 r.1
unfolding act
act-Acted agent outside round calls n chat l =
    let batch =
      batch_approve (outside.env chat.tool_calls_total) agent.policy chat.session calls
        (outside.batch_answer round) in
    run_calls-Acted agent outside batch calls n (record chat { session = batch.session }) batch_yes
      (record {
        runs = l.runs;
        few_requests = l.few_requests;
        few_executed = l.few_executed;
        few_calls = l.few_calls;
        authorized = l.authorized;
      })
  where
    batch_yes :
        (id : Text)
        → contains
            (batch_approve
              (outside.env chat.tool_calls_total)
              agent.policy
              chat.session
              calls
              (outside.batch_answer round)).approved
            id
          ≡ true
        → WasBatched outside agent.policy id
    batch_yes id h =
        let (said, (c, m, same, w)) =
          batch_approve-Waits (outside.env chat.tool_calls_total) agent.policy chat.session calls
            (outside.batch_answer round) id h in
        record {
          round = round;
          said_yes = said;
          env = outside.env chat.tool_calls_total;
          session = chat.session;
          call = c;
          named = same;
          waits = w;
        }
