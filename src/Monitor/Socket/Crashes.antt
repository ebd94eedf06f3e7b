-- ===== src/Monitor/Socket/Crashes.antt =====
-- When the websocket loop of internal/monitor/watcher.go crashes.
use cometduty.Prelude.{
  ℕ, zero, suc, ◌≤◌, Bool, true, false, List, [], ◌∷◌, ◌≡◌, refl, arith, length,
}
use cometduty.Monitor.Socket.{
  WsEvent, Ended, waiting, crashed, returned, ws_loop, reads, handle_event,
}
use cometduty.Monitor.State.{Chain}
use cometduty.Rpc.Sockets.{Frame, broken, unreadable, acknowledged, event, read_event}

abbrev pub is_crash : Ended → Bool
is_crash waiting = false
is_crash crashed = true
is_crash (returned e) = false

-- A message that is no JSON stands before the first error of the socket.
abbrev pub has_unreadable : List (Frame WsEvent) → Bool
has_unreadable [] = false
has_unreadable (broken e ∷ fs) = false
has_unreadable (unreadable ∷ fs) = true
has_unreadable (acknowledged ∷ fs) = has_unreadable fs
has_unreadable (event e ∷ fs) = has_unreadable fs

-- On the messages of a socket the loop crashes exactly if one that is no JSON comes before the socket
-- fails, whatever the events before it.
pub ws_loop-crashes :
    (c : Chain) (fuel : ℕ) (fs : List (Frame WsEvent))
    → length fs ≤ fuel
    → is_crash (ws_loop c (reads fuel fs)).1 ≡ has_unreadable fs
unfolding ws_loop reads read_event
ws_loop-crashes c zero [] h = refl
ws_loop-crashes c zero (f ∷ fs) h = absurd (omega arith)
ws_loop-crashes c (suc fuel) [] h = refl
ws_loop-crashes c (suc fuel) (broken e ∷ fs) h = refl
ws_loop-crashes c (suc fuel) (unreadable ∷ fs) h = refl
ws_loop-crashes c (suc fuel) (acknowledged ∷ fs) h = ws_loop-crashes c (suc fuel) fs (omega arith)
ws_loop-crashes c (suc fuel) (event e ∷ fs) h =
    ws_loop-crashes (handle_event c e) fuel fs (omega arith)
