-- ===== src/Agent/Monitoring.antt =====
-- Which slots the monitors watch.
use aio_ss_usb_test_agent.Prelude.{
  ℕ, ◌≡◌, refl, ◌≢◌, Bool, true, false, Option, none, some, String, [], arith, ==_iff, ◌∙◌, sym, ap,
  Option-cases, Bool-cases, inl, inr, ℕ_discrete, ◌⊎◌,
}
use aio_ss_usb_test_agent.Prelude.Dict.{Dict, get, put, pop, get-put, get-pop, beq, nat_eq}
use aio_ss_usb_test_agent.Domain.Enums.{ProcessState}
use aio_ss_usb_test_agent.Domain.State.{SlotState, SlotEvent, slot_state_eq, SlotState-discrete}
use aio_ss_usb_test_agent.Domain.Context.{Time}
use aio_ss_usb_test_agent.Domain.Transitions.{edge}
use aio_ss_usb_test_agent.Domain.Machine.{SlotStateMachine, notices, move_to}
use aio_ss_usb_test_agent.Domain.Machine.Moves.{trigger_invalid, trigger_moved, move_keeps}
use aio_ss_usb_test_agent.Domain.Manager.{get_slot}
use aio_ss_usb_test_agent.Agent.Completion.{completion_steps, slots-on_slot_state_change}
use aio_ss_usb_test_agent.Agent.{
  Agent, Message, queue, tell_completed, move_completed, move_if_running, in_batch_mode,
  on_mfc_test_completed, watch_if_any, on_slot_state_change, call_back, trigger_logged,
  ends_monitoring, watch_slot, unwatch_slot, add_monitored_slot, remove_monitored_slot,
}

-- Each machine has its own index and calls the agent back, and a slot that is IDLE, COMPLETED,
-- FAILED or in ERROR is watched by neither monitor.
pub record IsTidy (a : Agent) : Type 0 where
  pub own_index : (i : ℕ) (m : SlotStateMachine) → get_slot a.slots i ≡ some m → m.slot_idx ≡ i
  pub wired : (i : ℕ) (m : SlotStateMachine) → get_slot a.slots i ≡ some m → m.has_callback ≡ true
  pub unmonitored :
      (i : ℕ) (m : SlotStateMachine)
      → get_slot a.slots i ≡ some m
      → ends_monitoring m.state ≡ true
      → (get a.monitored_slots i ≡ none) × (get a.watched_pids i ≡ none)

module _ {ℓ} {V : Type ℓ} (d : Dict ℕ V) (i : ℕ) where
  get-pop_same : get (pop d i) i ≡ none
  get-pop_same = ground (arith, get-pop d i i)

  get-pop_other : (j : ℕ) → i ≢ j → get (pop d i) j ≡ get d j
  get-pop_other j ne = ground (arith, get-pop d i j, ==_iff i j)

  get-put_other : (j : ℕ) (v : V) → i ≢ j → get (put d i v) j ≡ get d j
  get-put_other j v ne = ground (arith, get-put d i j v, ==_iff i j)

watch-others :
    (i j : ℕ) (pid : Option ℕ) (a : Agent)
    → i ≢ j
    → get (watch_if_any i pid a).watched_pids j ≡ get a.watched_pids j
unfolding watch_if_any watch_slot
watch-others i j none a ne = refl
watch-others i j (some pid) a ne = ground (arith, get-put_other a.watched_pids i j pid ne)

module _ (i : ℕ) (t : SlotState) (a : Agent) where
  change-others :
      (j : ℕ)
      → i ≢ j
      → let a' = on_slot_state_change i t a in
        (get a'.monitored_slots j ≡ get a.monitored_slots j)
        × (get a'.watched_pids j ≡ get a.watched_pids j)
  unfolding on_slot_state_change unwatch_slot add_monitored_slot remove_monitored_slot
  change-others j ne = (
    ground
        (arith, get-pop_other a.monitored_slots i j ne, get-put_other a.monitored_slots i j tt ne),
    ground (arith, get-pop_other a.watched_pids i j ne, watch-others i j (get a.pids i) a ne),
  )

  change-ends :
      ends_monitoring t ≡ true
      → let a' = on_slot_state_change i t a in
        (get a'.monitored_slots i ≡ none) × (get a'.watched_pids i ≡ none)
  unfolding on_slot_state_change watch_slot unwatch_slot add_monitored_slot remove_monitored_slot
      SlotState-discrete
  change-ends h = (
    ground (arith, get-pop_same a.monitored_slots i),
    ground (arith, get-pop_same a.watched_pids i),
  )

-- The agent in which the machine of slot i has been replaced.
abbrev with_slot : ℕ → SlotStateMachine → Agent → Agent
with_slot i m a = record a { slots = record (a.slots) { machines = put (a.slots).machines i m } }

placed :
    (i j : ℕ) (m m' : SlotStateMachine) (a : Agent)
    → get_slot (with_slot i m a).slots j ≡ some m'
    → ((i ≡ j) × (m ≡ m')) ⊎ ((i ≢ j) × (get_slot a.slots j ≡ some m'))
unfolding get_slot
placed i j m m' a h = elim (ℕ_discrete i j) [
  | yes same ↦ inl (same, ground (arith, get-put (a.slots).machines i j m, ==_iff i j))
  | no apart ↦ inr (apart, ground (arith, get-put_other (a.slots).machines i j m apart))
]

one_notice :
    (i : ℕ) (t : SlotState) (m : SlotStateMachine) (a : Agent)
    → m.slot_idx ≡ i
    → m.has_callback ≡ true
    → call_back (notices t m) a ≡ on_slot_state_change i t a
unfolding call_back notices
one_notice i t m a x c = ground arith

module _ (i : ℕ) (t : SlotState) (m : SlotStateMachine) (a : Agent) where
  -- A slot that moves to a state, with its callback, keeps the agent tidy.
  change-IsTidy :
      m.slot_idx ≡ i
      → m.has_callback ≡ true
      → m.state ≡ t
      → IsTidy a
      → IsTidy (on_slot_state_change i t (with_slot i m a))
  change-IsTidy x c s tidy =
      let b = with_slot i m a in
      let same = (slots-on_slot_state_change i t b).0 in
      record {
        own_index = λ j n h. elim (placed i j m n a (rw (← same) h)) [
          | inl (e, f) ↦ rw (← f, ← e) x
          | inr (ne, g) ↦ tidy.own_index j n g
        ];
        wired = λ j n h. elim (placed i j m n a (rw (← same) h)) [
          | inl (e, f) ↦ rw (← f) c
          | inr (ne, g) ↦ tidy.wired j n g
        ];
        unmonitored = λ j n h end. elim (placed i j m n a (rw (← same) h)) [
          | inl (e, f) ↦ rw (← e) (
              change-ends i t b
                (ap ends_monitoring (sym s ∙ ap (λ (k : SlotStateMachine). k.state) f) ∙ end))
          | inr (ne, g) ↦
              let kept = change-others i t b j ne in
              let was = tidy.unmonitored j n g end in (kept.0 ∙ was.0, kept.1 ∙ was.1)
        ];
      }

module _ (i : ℕ) (m : SlotStateMachine) (e : SlotEvent) (msg : Option String) (now : Time)
    (a : Agent) where
  -- A trigger of a slot's machine keeps the agent tidy, whatever the event, whether it is accepted
  -- or refused: the callback is enough to stop the monitors when the slot ends.
  pub trigger_logged-IsTidy :
      get_slot a.slots i ≡ some m → IsTidy a → IsTidy (trigger_logged i m e msg now a)
  unfolding trigger_logged
  trigger_logged-IsTidy h tidy = elim (Option-cases (edge m.state e)) [
    | inl stuck ↦ rw (trigger_invalid e [] msg now m stuck) tidy
    | inr (t, step) ↦
        let m' = move_to t e [] msg now m in
        let (idx, callback, state) = move_keeps t e msg now m in
        let x = tidy.own_index i m h in
        let c = tidy.wired i m h in
        rw (trigger_moved e [] msg now m t step, one_notice i t m (with_slot i m' a) x c)
          (change-IsTidy i t m' a (idx ∙ x) (callback ∙ c) state tidy)
  ]

pub queue-IsTidy : (message : Message) (a : Agent) → IsTidy a → IsTidy (queue message a)
queue-IsTidy message a tidy = record {
  own_index = tidy.own_index;
  wired = tidy.wired;
  unmonitored = tidy.unmonitored;
}

tell-IsTidy :
    (i : ℕ) (f : ProcessState) (b : Bool) (a : Agent) → IsTidy a → IsTidy (tell_completed i f b a)
unfolding tell_completed
tell-IsTidy i ProcessState.fail b a tidy = queue-IsTidy _ a tidy
tell-IsTidy i ProcessState.stop b a tidy = queue-IsTidy _ a tidy
tell-IsTidy i f true a tidy = tidy
tell-IsTidy i f false a tidy = queue-IsTidy _ a tidy

module _ (i : ℕ) (m : SlotStateMachine) (now : Time) (a : Agent) where
  move-IsTidy :
      (f : ProcessState) (b : Bool)
      → get_slot a.slots i ≡ some m
      → IsTidy a
      → IsTidy (move_completed i m f b now a)
  unfolding move_completed
  move-IsTidy ProcessState.fail b h tidy =
      trigger_logged-IsTidy i m SlotEvent.fail (some "Test failed (detected via UI)") now a h tidy
  move-IsTidy ProcessState.stop b h tidy =
      trigger_logged-IsTidy i m SlotEvent.stopped none now a h tidy
  move-IsTidy ProcessState.pass true h tidy = tidy
  move-IsTidy ProcessState.pass false h tidy =
      trigger_logged-IsTidy i m SlotEvent.complete none now a h tidy
  move-IsTidy _ b h tidy = tidy

move_if_running-IsTidy :
    (i : ℕ) (f : ProcessState) (b : Bool) (now : Time) (a : Agent)
    → IsTidy a
    → IsTidy (move_if_running i f b now a)
unfolding move_if_running
move_if_running-IsTidy i f b now a tidy = elim (Option-cases (get_slot a.slots i)) [
  | inl h ↦ rw (h, move_if_running) tidy
  | inr (m, h) ↦ elim (Bool-cases (beq m.state SlotState.running)) [
    | inl r ↦ rw (h, move_if_running, r) (move-IsTidy i m now a f b h tidy)
    | inr r ↦ rw (h, move_if_running, r) tidy
  ]
]

-- The callback on a completion keeps the agent tidy, whatever the slot and what its window shows: no
-- monitor goes on with a slot that the completion has ended.
pub on_mfc_test_completed-IsTidy :
    (i : ℕ) (f : ProcessState) (now : Time) (a : Agent)
    → IsTidy a
    → IsTidy (on_mfc_test_completed i f now a)
on_mfc_test_completed-IsTidy i f now a tidy =
    rw (completion_steps i now a f (in_batch_mode i a) refl) (
      tell-IsTidy i f (in_batch_mode i a) (move_if_running i f (in_batch_mode i a) now a)
        (move_if_running-IsTidy i f (in_batch_mode i a) now a tidy))
