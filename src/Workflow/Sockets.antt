-- ===== src/Workflow/Sockets.antt =====
-- app/api/routes/websocket.py of the workflow engine: ConnectionManager, whose connections are a
-- set, and what redis_listener_loop hands to it. A web socket is known by a number; `send` tells
-- whether sending to it succeeds, and `during` is what other coroutines make of the set while a
-- broadcast waits for its sends.
pub mod Delivered
use python_backend_projects.Base.{
  ℕ, String, Bool, true, false, not, Option, none, some, List, [], ◌∷◌, ◌++◌, keep, any, nat_eq,
  ◌==◌, if◌then◌else◌,
}
use python_backend_projects.Base.Value.{Fields}

abbrev pub is_connected : List ℕ → ℕ → Bool
is_connected conns ws = any (λ c. nat_eq ws c) conns

-- `self._connections.add(websocket)`
unfoldable pub connect : (websocket : ℕ) → List ℕ → List ℕ
connect websocket conns = if is_connected conns websocket then conns else conns ++ (websocket ∷ [])

-- `self._connections.discard(websocket)`
unfoldable pub disconnect : (websocket : ℕ) → List ℕ → List ℕ
disconnect websocket conns = keep (λ c. not (nat_eq c websocket)) conns

-- the sockets that the text was sent to, and `dead`
unfoldable pub send_all : (ℕ → Bool) → List ℕ → List ℕ × List ℕ
send_all send [] = ([], [])
send_all send (ws ∷ rest) =
    let (sent, dead) = send_all send rest in
    if send ws then (ws ∷ sent, dead) else (sent, ws ∷ dead)

unfoldable pub disconnect_all : List ℕ → List ℕ → List ℕ
disconnect_all [] conns = conns
disconnect_all (ws ∷ dead) conns = disconnect_all dead (disconnect ws conns)

-- the sockets that get the text, and the connections after it
unfoldable pub broadcast_execution :
    (ℕ → Bool) → (during : List ℕ → List ℕ) → List ℕ → List ℕ × List ℕ
broadcast_execution send during conns =
    let (sent, dead) = send_all send conns in (sent, disconnect_all dead (during conns))

-- a message of Redis' publish and subscribe; its content may be no text
pub record Message : Type 0 where
  pub type_ : String
  pub content : Option String

-- `json.loads`, if the text is JSON
abbrev pub parsed_content : (String → Option Fields) → Option String → Option Fields
parsed_content loads none = none
parsed_content loads (some text) = loads text

-- the payload that a message makes the loop broadcast
unfoldable pub payload_of : (String → Option Fields) → Message → Option Fields
payload_of loads message =
    if message.type_ == "message" then parsed_content loads message.content else none
