-- ===== src/Anomaly/Sockets.antt =====
-- app/api/routes/websocket.py of the anomaly platform: ConnectionManager. A web socket is known by
-- a number; `send` tells whether sending to it succeeds. No other coroutine runs between the sends.
pub mod Delivered
use python_backend_projects.Base.{
  ℕ, Bool, true, false, not, ◌&&◌, Option, none, some, List, [], ◌∷◌, ◌++◌, keep, any, nat_eq,
  if◌then◌else◌,
}

pub record Connection : Type 0 where
  pub socket : ℕ
  pub source_filter : Option ℕ

abbrev pub Connections : Type 0
Connections = List Connection

unfoldable pub connect : (websocket : ℕ) → (source_filter : Option ℕ) → Connections → Connections
connect websocket source_filter conns =
    conns ++ (record { socket = websocket; source_filter = source_filter } ∷ [])

unfoldable pub disconnect : (websocket : ℕ) → Connections → Connections
disconnect websocket conns = keep (λ (c : Connection). not (nat_eq c.socket websocket)) conns

-- the filter and the `source_id` of the payload differ, if both are there
abbrev pub is_skipped : (source_filter sid : Option ℕ) → Bool
is_skipped none sid = false
is_skipped (some f) none = false
is_skipped (some f) (some s) = not (nat_eq f s)

-- the sockets that the payload was sent to, and `dead`
unfoldable pub send_all : (ℕ → Bool) → (sid : Option ℕ) → Connections → List ℕ × List ℕ
send_all send sid [] = ([], [])
send_all send sid (c ∷ rest) =
    let (sent, dead) = send_all send sid rest in
    if is_skipped c.source_filter sid
    then (sent, dead)
    else if send c.socket
    then (c.socket ∷ sent, dead)
    else (sent, c.socket ∷ dead)

abbrev pub disconnect_all : List ℕ → Connections → Connections
disconnect_all [] conns = conns
disconnect_all (ws ∷ dead) conns = disconnect_all dead (disconnect ws conns)

-- the sockets that get the payload, and the connections after it
unfoldable pub broadcast : (ℕ → Bool) → (sid : Option ℕ) → Connections → List ℕ × Connections
broadcast send sid conns =
    let (sent, dead) = send_all send sid conns in (sent, disconnect_all dead conns)
