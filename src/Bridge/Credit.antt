-- ===== src/Bridge/Credit.antt =====
-- The credit of WebSocket frames, `webSocketCredit` of
-- packages/effect-tls-client/src/internal/Bridge.ts.
use effect_tls_client.Prelude.{ℕ, ◌*◌, ◌≤◌, arith}
use effect_tls_client.Bridge.Sockets.{web_socket_credit, ws_queue_capacity}

-- Each acknowledgement gives back one byte at least, the frame's bytes at least, and so much that a
-- queue of `WS_QUEUE_CAPACITY` acknowledged frames gives back the whole window.
pub web_socket_credit_bounds :
    (window body_bytes : ℕ)
    → (1 ≤ web_socket_credit window body_bytes)
      × (body_bytes ≤ web_socket_credit window body_bytes)
      × (window ≤ ws_queue_capacity * web_socket_credit window body_bytes)
unfolding web_socket_credit
web_socket_credit_bounds window body_bytes = omega arith
