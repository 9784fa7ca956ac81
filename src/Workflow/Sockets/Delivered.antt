-- ===== src/Workflow/Sockets/Delivered.antt =====
-- Who gets a text of the workflow engine's web socket, and who stays connected
-- (app/api/routes/websocket.py).
use python_backend_projects.Base.{
  ℕ, Bool, true, false, not, ◌&&◌, List, [], ◌∷◌, keep, nat_eq, ◌≡◌, refl, ap, ◌∙◌, inl, inr,
  Bool-cases, arith,
}
use python_backend_projects.Workflow.Sockets.{
  is_connected, disconnect, send_all, disconnect_all, broadcast_execution,
}

-- no socket stands twice in the set
abbrev pub AreSet : List ℕ → Type 0
AreSet [] = Unit
AreSet (ws ∷ rest) = (is_connected rest ws ≡ false) × AreSet rest

send_all_lem :
    (send : ℕ → Bool) (conns : List ℕ)
    → ((send_all send conns).0 ≡ keep send conns)
      × ((ws : ℕ)
          → is_connected (send_all send conns).1 ws ≡ (is_connected conns ws && not (send ws)))
unfolding send_all
send_all_lem send [] = (refl, λ ws. refl)
send_all_lem send (c ∷ rest) =
    let ih = send_all_lem send rest in
    (
      ground (arith, ih.0),
      λ ws. elim (Bool-cases (nat_eq ws c)) [
        | inl e ↦
            let same : ws ≡ c = ground (arith, e) in ground (arith, ih.1 ws, same, ap send same)
        | inr other ↦ ground (arith, ih.1 ws, other)
      ],
    )

disconnect_lem :
    (x : ℕ) (conns : List ℕ) (ws : ℕ)
    → is_connected (disconnect x conns) ws ≡ (is_connected conns ws && not (nat_eq ws x))
unfolding disconnect
disconnect_lem x [] ws = refl
disconnect_lem x (c ∷ rest) ws = ground (arith, disconnect_lem x rest ws)

disconnect_all_lem :
    (dead conns : List ℕ) (ws : ℕ)
    → is_connected (disconnect_all dead conns) ws
      ≡ (is_connected conns ws && not (is_connected dead ws))
unfolding disconnect_all
disconnect_all_lem [] conns ws = ground arith
disconnect_all_lem (x ∷ dead) conns ws =
    ground (arith, disconnect_all_lem dead (disconnect x conns) ws, disconnect_lem x conns ws)

disconnect-AreSet : (x : ℕ) (conns : List ℕ) → AreSet conns → AreSet (disconnect x conns)
unfolding disconnect
disconnect-AreSet x [] h = tt
disconnect-AreSet x (c ∷ rest) h =
    one (not (nat_eq c x)) (ground (arith, disconnect_lem x rest c, h.0))
      (disconnect-AreSet x rest h.1)
  where
    one :
        (b : Bool)
        → is_connected (disconnect x rest) c ≡ false
        → AreSet (disconnect x rest)
        → AreSet (elim b [ true ↦ c ∷ disconnect x rest | false ↦ disconnect x rest ])
    one true new more = (new, more)
    one false new more = more

disconnect_all-AreSet : (dead conns : List ℕ) → AreSet conns → AreSet (disconnect_all dead conns)
unfolding disconnect_all
disconnect_all-AreSet [] conns h = h
disconnect_all-AreSet (x ∷ dead) conns h =
    disconnect_all-AreSet dead (disconnect x conns) (disconnect-AreSet x conns h)

-- A broadcast sends to every socket that was connected at its start, in their order. Afterwards
-- exactly those are connected that the other coroutines left in the set, less the ones connected at
-- the start where sending failed: a socket that connects while the broadcast waits stays. No socket
-- stands twice, if none did when the sends were over.
pub broadcast_execution_lem :
    (send : ℕ → Bool) (during : List ℕ → List ℕ) (conns : List ℕ)
    → AreSet (during conns)
    → let (sent, left) = broadcast_execution send during conns in
      (sent ≡ keep send conns)
      × AreSet left
      × ((ws : ℕ)
          → is_connected left ws
            ≡ (is_connected (during conns) ws && not (is_connected conns ws && not (send ws))))
unfolding broadcast_execution
broadcast_execution_lem send during conns set =
    let h = send_all_lem send conns in
    (
      h.0,
      disconnect_all-AreSet (send_all send conns).1 (during conns) set,
      λ ws.
          disconnect_all_lem (send_all send conns).1 (during conns) ws
          ∙ ap (λ b. is_connected (during conns) ws && not b) (h.1 ws),
    )
