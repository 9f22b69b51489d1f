-- ===== src/Agent/ChatEnds.antt =====
-- internal/agent/loop.go: the requests and the rounds of the agent, from the first to the end.
use k8s_ai.Base.{text_eq}
use k8s_ai.Session.State.{Session}
use k8s_ai.Agent.Chat.{Agent, Chat}
