-- ===== src/Anomaly/Sockets/Delivered.antt =====
-- Who gets a message of the anomaly platform's web socket, and who stays connected
-- (app/api/routes/websocket.py).
use python_backend_projects.Base.{
  ℕ, Bool, true, false, not, ◌&&◌, ◌||◌, Option, none, some, List, [], ◌∷◌, keep, any, map, nat_eq,
  if◌then◌else◌, ◌≡◌, refl, ap, ◌∙◌, sym, arith,
}
use python_backend_projects.Anomaly.Sockets.{
  Connection, Connections, disconnect, is_skipped, send_all, disconnect_all, broadcast,
}

abbrev pub socket_of : Connection → ℕ
socket_of c = c.socket

-- The message is about no source, or the connection has no filter, or the filter is the source.
abbrev pub is_for : (source_filter sid : Option ℕ) → Bool
is_for f none = true
is_for none (some id) = true
is_for (some k) (some id) = nat_eq k id

not-is_skipped : (f sid : Option ℕ) → not (is_skipped f sid) ≡ is_for f sid
not-is_skipped none none = refl
not-is_skipped none (some id) = refl
not-is_skipped (some k) none = refl
not-is_skipped (some k) (some id) = ground arith

-- The sockets of a list of connections that a message about `sid` is for, with this outcome.
abbrev pub reached : (ℕ → Bool) → (outcome : Bool) → (sid : Option ℕ) → Connections → List ℕ
reached send outcome sid conns = map socket_of (
    keep
      (λ (c : Connection).
        is_for c.source_filter sid && (if outcome then send c.socket else not (send c.socket)))
      conns)

send_all_lem :
    (send : ℕ → Bool) (sid : Option ℕ) (conns : Connections)
    → ((send_all send sid conns).0 ≡ reached send true sid conns)
      × ((send_all send sid conns).1 ≡ reached send false sid conns)
unfolding send_all
send_all_lem send sid [] = (refl, refl)
send_all_lem send sid (c ∷ rest) =
    let ih = send_all_lem send sid rest in
    let test = not-is_skipped c.source_filter sid in
    (ground (arith, ih.0, ih.1, test), ground (arith, ih.0, ih.1, test))

keep-keep :
    (p q : Connection → Bool) (conns : Connections)
    → keep q (keep p conns) ≡ keep (λ c. p c && q c) conns
keep-keep p q [] = refl
keep-keep p q (c ∷ rest) = ground (arith, keep-keep p q rest)

keep_same :
    (p q : Connection → Bool) (conns : Connections)
    → ((c : Connection) → p c ≡ q c)
    → keep p conns ≡ keep q conns
keep_same p q [] same = refl
keep_same p q (c ∷ rest) same = ground (arith, keep_same p q rest same, same c)

keep-true : (conns : Connections) → keep (λ c. true) conns ≡ conns
keep-true [] = refl
keep-true (c ∷ rest) = ap (λ l. c ∷ l) (keep-true rest)

not_or : (a b : Bool) → (not a && not b) ≡ not (a || b)
not_or true b = refl
not_or false b = refl

disconnect_all_lem :
    (dead : List ℕ) (conns : Connections)
    → disconnect_all dead conns
      ≡ keep (λ (c : Connection). not (any (λ ws. nat_eq c.socket ws) dead)) conns
unfolding disconnect
disconnect_all_lem [] conns = sym (keep-true conns)
disconnect_all_lem (ws ∷ dead) conns =
    disconnect_all_lem dead (disconnect ws conns)
    ∙ keep-keep _ _ conns
    ∙ keep_same _ _ conns (λ c. not_or (nat_eq c.socket ws) (any (λ w. nat_eq c.socket w) dead))

-- A broadcast about a source sends to the connections whose filter is that source or that have no
-- filter, in the order of their arrival, and to all connections if it is about no source, where
-- sending to them succeeds, while no other coroutine runs between the sends. It drops every
-- connection of the sockets among them where sending failed, and keeps the others as they were.
pub broadcast_lem :
    (send : ℕ → Bool) (sid : Option ℕ) (conns : Connections)
    → let (sent, left) = broadcast send sid conns in
      (sent ≡ reached send true sid conns)
      × (left
          ≡ keep
              (λ (c : Connection).
                not (any (λ ws. nat_eq c.socket ws) (reached send false sid conns)))
              conns)
unfolding broadcast
broadcast_lem send sid conns =
    let h = send_all_lem send sid conns in
    (
      h.0,
      ap (λ dead. disconnect_all dead conns) h.1
          ∙ disconnect_all_lem (reached send false sid conns) conns,
    )
