-- ===== src/Interface/WebSocket/Reconnecting.antt =====
-- How `run` gives up on a backend that never answers.
use aio_ss_usb_test_agent.Prelude.{
  ℕ, zero, suc, ◌+◌, ◌*◌, if◌then◌else◌, ◌<◌, ◌≡◌, refl, sym, ap, ltb, true, false, arith, List, [],
  ◌∷◌, ◌++◌,
}
use aio_ss_usb_test_agent.Interface.WebSocket.{
  WebSocketClient, AgentState, RunPoint, is_connected, begin_connect, connect_failed,
  reconnect_delay, loop_head,
}

-- `run` goes on by itself: an attempt to connect fails, and a sleep ends.
abbrev turn_at : RunPoint → WebSocketClient → WebSocketClient
turn_at RunPoint.at_head c = loop_head c
turn_at RunPoint.in_connect c = connect_failed c
turn_at (RunPoint.in_sleep delay) c = record c { run_point = RunPoint.at_head }
turn_at _ c = c

abbrev turn : WebSocketClient → WebSocketClient
turn c = turn_at c.run_point c

abbrev sleeps_of : RunPoint → List ℕ
sleeps_of (RunPoint.in_sleep delay) = delay ∷ []
sleeps_of _ = []

-- An attempt is three turns, with a sleep after the second one; the sleeps are listed in their order.
abbrev pub unanswered : ℕ → WebSocketClient → WebSocketClient × List ℕ
unanswered zero c = (c, [])
unanswered (suc n) c =
    let rest = unanswered n (turn (turn (turn c))) in
    (rest.0, sleeps_of (turn (turn c)).run_point ++ rest.1)

-- The sleeps after the failures count + 1 to count + n: 5, 10, 15 and 20 after the first four, and 25
-- after each later one.
abbrev pub delays : ℕ → ℕ → List ℕ
delays count zero = []
delays count (suc n) = (if ltb count 4 then 5 * (count + 1) else 25) ∷ delays (count + 1) n

reconnect_delay_lem :
    (count : ℕ) → reconnect_delay (count + 1) ≡ (if ltb count 4 then 5 * (count + 1) else 25)
reconnect_delay_lem count = ground arith

-- At the head of the loop, going on, without a connection.
abbrev pub IsTrying : WebSocketClient → Type 0
IsTrying c = (c.run_point ≡ RunPoint.at_head) × ((c.should_run ≡ true) × (is_connected c ≡ false))

begins_connect : (c : WebSocketClient) → IsTrying c → turn c ≡ begin_connect c
unfolding loop_head
begins_connect c (at, (runs, off)) = rw (at, runs, off) refl

-- After a failure that is not the last one.
abbrev failed_once : WebSocketClient → WebSocketClient
failed_once c = record c {
  reconnect_count = c.reconnect_count + 1;
  state = AgentState.reconnecting;
  run_point = RunPoint.in_sleep (reconnect_delay (c.reconnect_count + 1));
}

abbrev woken : WebSocketClient → WebSocketClient
woken c = record (failed_once c) { run_point = RunPoint.at_head }

fails_once :
    (c : WebSocketClient)
    → c.reconnect_count < 10
    → connect_failed (begin_connect c) ≡ failed_once c
unfolding connect_failed
fails_once c h = rw ((not_last c.reconnect_count h)) refl
  where
    not_last : (n : ℕ) → n < 10 → ltb 10 (n + 1) ≡ false
    not_last n h = ground arith

-- After the last failure, at the head of the loop.
abbrev failed_last : WebSocketClient → WebSocketClient
failed_last c = record c {
  reconnect_count = c.reconnect_count + 1;
  state = AgentState.reconnecting;
  should_run = false;
  run_point = RunPoint.at_head;
}

fails_last :
    (c : WebSocketClient)
    → c.reconnect_count ≡ 10
    → connect_failed (begin_connect c) ≡ failed_last c
unfolding connect_failed
fails_last c h = rw ((last c.reconnect_count h)) refl
  where
    last : (n : ℕ) → n ≡ 10 → ltb 10 (n + 1) ≡ true
    last n h = ground arith

abbrev pub HasGivenUp : WebSocketClient → Type 0
HasGivenUp c =
    (c.run_point ≡ RunPoint.returned)
    × ((c.should_run ≡ false) × ((c.reconnect_count ≡ 11) × (is_connected c ≡ false)))

-- `run` ends, if the socket never opens: from n + 1 failures short of the eleventh it makes n + 1
-- attempts and returns, unconnected and with eleven failures counted, after sleeps of 5, 10, 15 and
-- 20 after the first four failures, and of 25 after each later one.
pub unanswered-HasGivenUp :
    (n : ℕ) (c : WebSocketClient)
    → IsTrying c
    → c.reconnect_count + n ≡ 10
    → HasGivenUp (unanswered (suc n) c).0 × ((unanswered (suc n) c).1 ≡ delays c.reconnect_count n)
unfolding loop_head
unanswered-HasGivenUp zero c t e =
    rw (begins_connect c t, fails_last c (omega (arith, e)))
      ((refl, (refl, (omega (arith, e), refl))), refl)
unanswered-HasGivenUp (suc n) c t e =
    let rest = unanswered-HasGivenUp n (woken c) (refl, (t.1.0, refl)) (omega (arith, e)) in
    rw (begins_connect c t, fails_once c (omega (arith, e)))
      (
        rest.0,
        rw (sym (reconnect_delay_lem c.reconnect_count))
            (ap (λ ds. reconnect_delay (c.reconnect_count + 1) ∷ ds) rest.1),
      )
