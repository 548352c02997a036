-- ===== src/Interface/WebSocket/Examples.antt =====
-- A client that connects, loses the connection and gives up, and one that is disconnected too early.
use aio_ss_usb_test_agent.Prelude.{◌≡◌, refl, true, [], ◌∷◌}
use aio_ss_usb_test_agent.Interface.WebSocket.{
  WebSocketClient, AgentState, RunPoint, taken, closed, new_client, begin_run, loop_head, opened,
  registration, tasks_ended, disconnect, is_connected, send, url_with_token, connect_failed,
}
use aio_ss_usb_test_agent.Interface.WebSocket.Steps.{
  Reach, here, next, begins, loops, opens, registers, loses, IsSound, Reach-IsSound,
}
use aio_ss_usb_test_agent.Interface.WebSocket.Reconnecting.{
  HasGivenUp, unanswered, delays, unanswered-HasGivenUp,
}

abbrev begun : WebSocketClient
begun = begin_run (new_client 4 true)

abbrev lost : WebSocketClient
lost = tasks_ended (registration taken (opened (loop_head begun)))

lost_is_reached : Reach (new_client 4 true) lost
unfolding new_client loop_head registration send
lost_is_reached =
    next
      (next
        (next (next (next here (begins (new_client 4 true) refl)) (loops begun refl))
          (opens (loop_head begun) refl))
        (registers (opened (loop_head begun)) taken refl))
      (loses (registration taken (opened (loop_head begun))) refl)

Reach-IsSound_example : IsSound lost
Reach-IsSound_example = Reach-IsSound 4 true lost_is_reached

unanswered-HasGivenUp_example :
    HasGivenUp (unanswered 11 begun).0 × ((unanswered 11 begun).1 ≡ delays begun.reconnect_count 10)
unfolding new_client
unanswered-HasGivenUp_example = unanswered-HasGivenUp 10 begun (refl, (refl, refl)) refl

slept : (unanswered 11 begun).1 ≡ 5 ∷ 10 ∷ 15 ∷ 20 ∷ 25 ∷ 25 ∷ 25 ∷ 25 ∷ 25 ∷ 25 ∷ []
unfolding new_client loop_head connect_failed
slept = refl

-- The first message is lost with its connection: `run` still goes on to wait for its tasks.
unregistered : registration closed (opened (loop_head begun)) ≡ record (opened (loop_head begun)) {
  state = AgentState.disconnected;
  run_point = RunPoint.in_wait;
}
unfolding registration send new_client loop_head
unregistered = refl

-- Disconnected while it waits for the socket: `run` returns, and the socket stays open.
abbrev left_open : WebSocketClient
left_open = loop_head (tasks_ended (registration taken (opened (disconnect (loop_head begun)))))

left_open_is_connected :
    (left_open.run_point ≡ RunPoint.returned)
    × ((left_open.has_ws ≡ true) × (is_connected left_open ≡ true))
unfolding new_client loop_head registration send tasks_ended disconnect
left_open_is_connected = (refl, (refl, refl))

token : url_with_token "ws://h/a?b=1" "key" ≡ "ws://h/a?b=1&token=key"
unfolding url_with_token
token = refl
