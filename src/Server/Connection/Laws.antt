-- ===== src/Server/Connection/Laws.antt =====
-- Request and response on one connection: a response goes to the caller that registered its
-- request, once.
use sand_d.Prelude.{ℕ, String, ◌≡◌, ◌≢◌, none, some, arith}
use sand_d.Prelude.Dict.{lookup-insert_self, lookup-remove_self, lookup-remove_ne}
use sand_d.Server.Connection.{DaemonConnection, register_request, complete_request}

-- A registered request gets its response on the channel that was registered for it, and a second
-- response to the same request goes nowhere and changes nothing.
pub complete_request-register_request :
    (request_id : String) (tx : ℕ) (c : DaemonConnection)
    → let (c', sent) = complete_request request_id (register_request request_id tx c) in
      (sent ≡ some tx) × (complete_request request_id c' ≡ (c', none))
unfolding complete_request register_request
complete_request-register_request request_id tx c = ground (
  arith,
  lookup-insert_self request_id tx c.pending_requests,
  lookup-remove_self request_id (register_request request_id tx c).pending_requests,
)

-- Completing one request leaves every other request waiting on its own channel.
pub complete_request_ne :
    (a b : String) (c : DaemonConnection)
    → a ≢ b
    → (complete_request b (complete_request a c).0).1 ≡ (complete_request b c).1
unfolding complete_request
complete_request_ne a b c h = ground (arith, lookup-remove_ne a b c.pending_requests h)
