-- ===== src/Session/Tests.antt =====
-- The laws of sessions and turns at concrete states.
use k8s_ai.Base.{
  ◌≡◌, ◌≢◌, ◌+◌, refl, false, not, none, some, [], ◌∷◌, Text, text_beq, codes, filter, arith,
}
use k8s_ai.Model.{medium}
use k8s_ai.Approval.Grant.{Grant, GrantRequest, matches}
use k8s_ai.Session.State.{
  Session, approved, declined, add_declined, find_grant, remove_grant_matching,
}
use k8s_ai.Session.Writes.{
  approve, apply, apply-IsValid, add_declined_lem, add_declined_same_key,
  remove_grant_matching-grants, remove_grant_matching-find_grant,
}
use k8s_ai.Session.Writes
use k8s_ai.Session.Turn.{TurnStatus, Turn, start, touch_turn}
use k8s_ai.Session.TurnLaws
use k8s_ai.Session.TurnLaws.{
  start_turn, complete_turn, wait_turn, deliver, ◌⟶◌, run, deliver-⟶, run-IsValid, run_final,
}

abbrev fresh : Session
fresh = record {
  id = codes "s1";
  name = [];
  title = [];
  cluster = codes "c1";
  namespace = codes "prod";
  messages = [];
  message_count = 0;
  approved_writes = codes "kubectl:delete pod x" ∷ codes "kubectl:scale web" ∷ [];
  approval_grants = [];
  declined_writes = [];
  last_modified = 0;
}

fresh-IsValid : Writes.IsValid fresh
unfolding text_beq
fresh-IsValid = record { distinct = (refl, (refl, tt)); counted = refl }

apply-IsValid_example : Writes.IsValid (apply 3 (approve (codes "kubectl:drain n1")) fresh)
apply-IsValid_example = apply-IsValid 3 (approve (codes "kubectl:drain n1")) fresh fresh-IsValid

abbrev delete_x : Text
delete_x = codes "kubectl:delete pod x"

abbrev scale_web : Text
scale_web = codes "kubectl:scale web"

scale_ne_delete : delete_x ≢ scale_web
scale_ne_delete = cc

add_declined_lem_example :
    let s' = (add_declined 3 delete_x fresh).0 in
    (approved s' delete_x ≡ false)
    × (declined s' delete_x ≡ declined fresh delete_x + 1)
    × ((add_declined 3 delete_x fresh).1 ≡ declined fresh delete_x + 1)
    × (approved s' scale_web ≡ approved fresh scale_web)
    × (declined s' scale_web ≡ declined fresh scale_web)
add_declined_lem_example = add_declined_lem 3 delete_x scale_web fresh fresh-IsValid scale_ne_delete

abbrev scale_request : GrantRequest
scale_request = record {
  task_id = [];
  operation = codes "scale";
  kind = codes "deployment";
  name = codes "web";
  namespace = codes "prod";
  cluster = codes "c1";
  risk = medium;
  shell = false;
  no_grant = false;
}

abbrev scale_grant : Grant
scale_grant = record {
  id = codes "g1";
  task_id = [];
  operation = codes "scale";
  kind = codes "deployment";
  name = codes "web";
  namespace = codes "prod";
  cluster = codes "c1";
  risk_ceiling = medium;
  expires_at = none;
}

abbrev granted : Session
granted = record fresh { approval_grants = scale_grant ∷ [] }

remove_grant_matching-grants_example :
    (remove_grant_matching 3 scale_request granted).approval_grants
    ≡ filter (λ g. not (matches 3 g scale_request)) (scale_grant ∷ [])
remove_grant_matching-grants_example = remove_grant_matching-grants 3 scale_request granted

remove_grant_matching-find_grant_example :
    find_grant 9 (remove_grant_matching 3 scale_request granted) scale_request ≡ none
remove_grant_matching-find_grant_example =
    remove_grant_matching-find_grant 3 9 scale_request granted (omega arith)

abbrev new_turn : Turn
new_turn = record {
  status = TurnStatus.pending;
  output = [];
  error = [];
  token = record { prompt_tokens = 0; completion_tokens = 0; total_tokens = 0 };
  started_at = none;
  finished_at = none;
  created_at = some 1;
  updated_at = some 1;
}

abbrev running_turn : Turn
running_turn = record new_turn {
  status = TurnStatus.running;
  started_at = some 2;
  updated_at = some 2;
}

deliver-⟶_example : TurnStatus.pending ⟶ TurnStatus.running
unfolding start touch_turn
deliver-⟶_example = deliver-⟶ 2 start_turn new_turn running_turn refl

new_turn-IsValid : TurnLaws.IsValid new_turn
new_turn-IsValid = record {
  finished = (λ h. cc, λ h. absurd (h refl));
  started = λ h. ground arith;
  answered = λ h. absurd (h refl);
  broken = λ h. absurd (h refl);
}

run-IsValid_example :
    TurnLaws.IsValid (run ((2, start_turn) ∷ (3, complete_turn (codes "done")) ∷ []) new_turn)
run-IsValid_example =
    run-IsValid ((2, start_turn) ∷ (3, complete_turn (codes "done")) ∷ []) new_turn new_turn-IsValid

abbrev done_turn : Turn
done_turn = record running_turn { status = TurnStatus.done; finished_at = some 5 }

run_final_example : run ((7, wait_turn) ∷ (8, start_turn) ∷ []) done_turn ≡ done_turn
run_final_example = run_final ((7, wait_turn) ∷ (8, start_turn) ∷ []) done_turn refl
