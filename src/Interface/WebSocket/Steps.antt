-- ===== src/Interface/WebSocket/Steps.antt =====
-- `run`, `_receive_loop` and `_heartbeat_loop`, cut at their awaits: the steps that the socket, the
-- backend and the rest of the agent can take in any order, and what holds after all of them.
use mathlib.Core.Path.{subst}
use aio_ss_usb_test_agent.Prelude.{
  ℕ, ◌+◌, ◌≤◌, ◌≡◌, refl, ◌⊎◌, inl, inr, ltb, Bool, true, false, ◌&&◌, under_if, Option, none, some,
  String, str_eq, List, arith,
}
use aio_ss_usb_test_agent.Interface.WebSocket.{
  WebSocketClient, AgentState, AgentMessage, BackendMessageType, RunPoint, Sent, send, send_on,
  new_client, register_handler, is_connected, begin_run, opened, registration, connect_failed,
  handle_reconnect, reconnect_delay, loop_head, tasks_ended, handle_message, react, beat,
  disconnect, send_drive_list, backend_text,
}

-- A step of the client. A message is only received while `run` waits for its tasks, from a socket.
pub data Step : WebSocketClient → WebSocketClient → Type 0 where
  handles : (c : WebSocketClient) (t : BackendMessageType) (h : ℕ) → Step c (register_handler t h c)
  begins : (c : WebSocketClient) → c.run_point ≡ RunPoint.not_begun → Step c (begin_run c)
  loops : (c : WebSocketClient) → c.run_point ≡ RunPoint.at_head → Step c (loop_head c)
  opens : (c : WebSocketClient) → c.run_point ≡ RunPoint.in_connect → Step c (opened c)
  fails : (c : WebSocketClient) → c.run_point ≡ RunPoint.in_connect → Step c (connect_failed c)
  registers :
      (c : WebSocketClient) (o : Sent)
      → c.run_point ≡ RunPoint.in_register
      → Step c (registration o c)
  receives :
      (c : WebSocketClient) (t : Option String) (drives : List ℕ) (o : Sent)
      → c.run_point ≡ RunPoint.in_wait
      → c.has_ws ≡ true
      → Step c (handle_message t drives o c).0
  beats : (c : WebSocketClient) (o : Sent) → c.run_point ≡ RunPoint.in_wait → Step c (beat o c)
  loses : (c : WebSocketClient) → c.run_point ≡ RunPoint.in_wait → Step c (tasks_ended c)
  wakes :
      (c : WebSocketClient) (delay : ℕ)
      → c.run_point ≡ RunPoint.in_sleep delay
      → Step c (record c { run_point = RunPoint.at_head })
  sends : (c : WebSocketClient) (m : AgentMessage) (o : Sent) → Step c (send m o c).0
  disconnects : (c : WebSocketClient) → Step c (disconnect c)

pub data Reach (start : WebSocketClient) : WebSocketClient → Type 0 where
  here : Reach start start
  next : {c d : WebSocketClient} → Reach start c → Step c d → Reach start d

-- The number of failures in a row is at most the bound while `run` goes on: with one more, it has been
-- told to stop, and is at the head of its loop or has returned.
abbrev pub Bounded : Bool → ℕ → RunPoint → Type 0
Bounded should_run count RunPoint.not_begun = count ≡ 0
Bounded should_run count RunPoint.at_head = (count ≤ 10) ⊎ ((count ≡ 11) × (should_run ≡ false))
Bounded should_run count RunPoint.in_connect = count ≤ 10
Bounded should_run count RunPoint.in_register = count ≡ 0
Bounded should_run count RunPoint.in_wait = count ≤ 10
Bounded should_run count RunPoint.returned = count ≤ 11
Bounded should_run count (RunPoint.in_sleep delay) =
    (1 ≤ count) × ((count ≤ 10) × (delay ≡ reconnect_delay count))

-- A client that takes itself for connected has a socket; the failures in a row are bounded as above,
-- and a sleep is as long as their number asks for.
abbrev pub IsSound : WebSocketClient → Type 0
IsSound c =
    (is_connected c ≡ true → c.has_ws ≡ true) × Bounded c.should_run c.reconnect_count c.run_point

new_client-IsSound : (n : ℕ) (b : Bool) → IsSound (new_client n b)
unfolding new_client
new_client-IsSound n b = ((λ e. absurd (ground (arith, e))), refl)

send-IsSound :
    (m : AgentMessage) (o : Sent) (c : WebSocketClient) → IsSound c → IsSound (send m o c).0
unfolding send
send-IsSound m o c h =
    under_if (λ (r : WebSocketClient × Bool). IsSound r.0) (c.has_ws && is_connected c) (λ _. on o)
      (λ _. h)
  where
    on : (o : Sent) → IsSound (send_on o m c).0
    on Sent.taken = h
    on Sent.closed = ((λ e. absurd (ground (arith, e))), h.1)
    on Sent.failed = h

handle_reconnect-IsSound :
    (c : WebSocketClient) → c.reconnect_count ≤ 10 → IsSound (handle_reconnect c)
handle_reconnect-IsSound c h =
    under_if IsSound (ltb 10 (c.reconnect_count + 1))
      (λ e. ((λ k. absurd (ground (arith, k))), inr (ground (arith, e, h), refl)))
      (λ e. ((λ k. absurd (ground (arith, k))), (omega arith, (ground (arith, e), refl))))

-- What is known at a point of `run`.
at_point :
    (c : WebSocketClient) (p : RunPoint)
    → c.run_point ≡ p
    → IsSound c
    → Bounded c.should_run c.reconnect_count p
at_point c p e h = subst (λ q. Bounded c.should_run c.reconnect_count q) e h.1

unconnected : {P : Type 0} → false ≡ true → P
unconnected e = absurd (ground (arith, e))

loop_head-IsSound :
    (c : WebSocketClient) → c.run_point ≡ RunPoint.at_head → IsSound c → IsSound (loop_head c)
unfolding loop_head
loop_head-IsSound c e h =
    under_if IsSound c.should_run
      (λ runs.
        under_if IsSound (is_connected c) (λ _. (h.0, few runs (at_point c RunPoint.at_head e h)))
          (λ _. ((λ k. unconnected k), few runs (at_point c RunPoint.at_head e h))))
      (λ _. (h.0, at_most (at_point c RunPoint.at_head e h)))
  where
    few :
        c.should_run ≡ true
        → Bounded c.should_run c.reconnect_count RunPoint.at_head
        → c.reconnect_count ≤ 10
    few runs (inl l) = l
    few runs (inr (n, stopped)) = absurd (ground (arith, runs, stopped))

    at_most : Bounded c.should_run c.reconnect_count RunPoint.at_head → c.reconnect_count ≤ 11
    at_most (inl l) = omega arith
    at_most (inr (n, stopped)) = omega arith

send-count :
    (m : AgentMessage) (o : Sent) (c : WebSocketClient)
    → (send m o c).0.reconnect_count ≡ c.reconnect_count
unfolding send
send-count m o c =
    under_if (λ (r : WebSocketClient × Bool). r.0.reconnect_count ≡ c.reconnect_count)
      (c.has_ws && is_connected c) (λ _. on o) (λ _. refl)
  where
    on : (o : Sent) → (send_on o m c).0.reconnect_count ≡ c.reconnect_count
    on Sent.taken = refl
    on Sent.closed = refl
    on Sent.failed = refl

registration-IsSound :
    (o : Sent) (c : WebSocketClient)
    → c.run_point ≡ RunPoint.in_register
    → IsSound c
    → IsSound (registration o c)
unfolding registration
registration-IsSound o c e h = (
  (send-IsSound (AgentMessage.register c.max_slots) o c h).0,
  rw (send-count (AgentMessage.register c.max_slots) o c, at_point c RunPoint.in_register e h)
      (omega arith),
)

react-IsSound :
    (t : Option String) (drives : List ℕ) (o : Sent) (c : WebSocketClient)
    → c.has_ws ≡ true
    → IsSound c
    → IsSound (react t drives o c)
unfolding react send_drive_list
react-IsSound none drives o c w h = h
react-IsSound (some t) drives o c w h =
    under_if IsSound (str_eq t (backend_text BackendMessageType.register_ack))
      (λ _. ((λ _. w), h.1))
      (λ _.
        under_if IsSound (str_eq t (backend_text BackendMessageType.heartbeat_ack)) (λ _. h)
          (λ _.
            under_if IsSound (str_eq t (backend_text BackendMessageType.get_drives))
              (λ _. send-IsSound (AgentMessage.drive_list drives) o c h) (λ _. h)))

tasks_ended-IsSound :
    (c : WebSocketClient) → c.run_point ≡ RunPoint.in_wait → IsSound c → IsSound (tasks_ended c)
unfolding tasks_ended
tasks_ended-IsSound c e h =
    under_if IsSound c.should_run
      (λ _.
        handle_reconnect-IsSound (record c { state = AgentState.disconnected })
          (at_point c RunPoint.in_wait e h))
      (λ _. (h.0, inl (at_point c RunPoint.in_wait e h)))

disconnect-IsSound : (c : WebSocketClient) → IsSound c → IsSound (disconnect c)
unfolding disconnect
disconnect-IsSound c h = ((λ k. unconnected k), stays c.run_point h.1)
  where
    stays :
        (p : RunPoint)
        → Bounded c.should_run c.reconnect_count p
        → Bounded false c.reconnect_count p
    stays RunPoint.not_begun b = b
    stays RunPoint.at_head (inl l) = inl l
    stays RunPoint.at_head (inr (n, stopped)) = inr (n, refl)
    stays RunPoint.in_connect b = b
    stays RunPoint.in_register b = b
    stays RunPoint.in_wait b = b
    stays RunPoint.returned b = b
    stays (RunPoint.in_sleep delay) b = b

beat-IsSound : (o : Sent) (c : WebSocketClient) → IsSound c → IsSound (beat o c)
unfolding beat
beat-IsSound o c h =
    under_if IsSound (is_connected c) (λ _. send-IsSound AgentMessage.heartbeat o c h) (λ _. h)

Step-IsSound : {c d : WebSocketClient} → Step c d → IsSound c → IsSound d
unfolding register_handler connect_failed handle_message
Step-IsSound (handles c t n) h = h
Step-IsSound (begins c e) h = (h.0, inl (rw (at_point c RunPoint.not_begun e h) (omega arith)))
Step-IsSound (loops c e) h = loop_head-IsSound c e h
Step-IsSound (opens c e) h = ((λ _. refl), refl)
Step-IsSound (fails c e) h =
    handle_reconnect-IsSound (record c { state = AgentState.disconnected })
      (at_point c RunPoint.in_connect e h)
Step-IsSound (registers c o e) h = registration-IsSound o c e h
Step-IsSound (receives c t drives o e w) h = react-IsSound t drives o c w h
Step-IsSound (beats c o e) h = beat-IsSound o c h
Step-IsSound (loses c e) h = tasks_ended-IsSound c e h
Step-IsSound (wakes c delay e) h = (h.0, inl (at_point c (RunPoint.in_sleep delay) e h).1.0)
Step-IsSound (sends c m o) h = send-IsSound m o c h
Step-IsSound (disconnects c) h = disconnect-IsSound c h

-- In every state that a new client can reach, in whatever order the socket answers, messages come and
-- go and the agent disconnects: a client that takes itself for connected has a socket; it waits for
-- one, or for its tasks, after at most ten failures in a row; between two attempts it sleeps five
-- times the number of failures, or 25 if they are more than five; and after eleven it was told to
-- stop, and is at the head of its loop or has returned.
pub Reach-IsSound : (n : ℕ) (b : Bool) {c : WebSocketClient} → Reach (new_client n b) c → IsSound c
Reach-IsSound n b here = new_client-IsSound n b
Reach-IsSound n b (next r s) = Step-IsSound s (Reach-IsSound n b r)
