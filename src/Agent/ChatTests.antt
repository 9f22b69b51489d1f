-- ===== src/Agent/ChatTests.antt =====
-- A run of the agent against a model that wants the same write in every round.
use k8s_ai.Base.{true, false, none, some, [], ◌∷◌, codes}
use k8s_ai.Agent.Gate.{yes_once}
use k8s_ai.Agent.Chat.{Agent, Outside, parsed}
use k8s_ai.Agent.Tests.{kubectl, answering, cautious, delete_call}

abbrev small : Agent
small = record {
  max_iterations = 3;
  max_tool_calls = 2;
  turn_max_bytes = 1000;
  starts_shim = false;
  auto_mode = true;
  policy = some cautious;
}

abbrev stubborn : Outside
stubborn = record {
  reply = λ round shim. parsed [] (delete_call ∷ []);
  stream = λ round. none;
  env = λ n. answering kubectl yes_once;
  batch_answer = λ round. none;
  output = λ n. record { is_ok = true; is_rbac_denied = false; text = codes "pod deleted" };
}
