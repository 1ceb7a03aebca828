-- ===== src/Server/Agreement.antt =====
-- The two backends side by side, for a function with a manifest whose instance the Bun backend has
-- and whose public flag the workerd backend knows.
use tube.Common.{ℕ, Option, text_eq}
use tube.Common.Text.{Text}
use tube.Gateway.Auth.{AuthContext}
use tube.Server.Reply.{Reply}
use tube.Server.Dispatch.{Begun, answered}
use tube.Server.Workerd.{BegunProxy, answered_early, proxying}

-- The proxy answers a request early only with the answer of the Bun dispatch.
pub data Agrees : BegunProxy → Begun → Type 0 where
  same_answer : {r : Reply} → Agrees (answered_early r) (answered r)
  forwarded :
      {auth : Option AuthContext} {timeout : ℕ} {b : Begun} → Agrees (proxying auth timeout) b
