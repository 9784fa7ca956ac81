-- ===== src/Workflow/Examples/Listeners.antt =====
-- The theorem about the web sockets of the workflow engine at a concrete input.
use python_backend_projects.Base.{ℕ, ◌≡◌, refl, Bool, not, ◌&&◌, [], ◌∷◌, keep, nat_eq}
use python_backend_projects.Workflow.Sockets.{is_connected, connect, broadcast_execution}
use python_backend_projects.Workflow.Sockets.Delivered.{AreSet, broadcast_execution_lem}

-- the second socket is gone, and a fourth connects meanwhile
abbrev sends : ℕ → Bool
sends ws = not (nat_eq ws 2)

broadcast_execution_lem_example :
    let (sent, left) = broadcast_execution sends (connect 4) (1 ∷ 2 ∷ 3 ∷ []) in
    (sent ≡ keep sends (1 ∷ 2 ∷ 3 ∷ []))
    × AreSet left
    × ((ws : ℕ)
        → is_connected left ws ≡ (
            is_connected (connect 4 (1 ∷ 2 ∷ 3 ∷ [])) ws
            && not (is_connected (1 ∷ 2 ∷ 3 ∷ []) ws && not (sends ws))))
unfolding connect
broadcast_execution_lem_example =
    broadcast_execution_lem sends (connect 4) (1 ∷ 2 ∷ 3 ∷ []) (refl, (refl, (refl, (refl, tt))))
