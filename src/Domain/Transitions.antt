-- ===== src/Domain/Transitions.antt =====
-- domain/state_machine.py: the table of transitions and the lookup table made from it.
use aio_ss_usb_test_agent.Prelude.{
  ◌≡◌, refl, Bool, true, ◌&&◌, ◌↔◌, Option, none, some, arith, List, [], ◌∷◌,
}
use aio_ss_usb_test_agent.Prelude.Dict.{Eq, beq, Dict, get, put}
use aio_ss_usb_test_agent.Domain.State.{
  SlotState, SlotEvent, SlotState-discrete, SlotEvent-discrete, slot_state_eq, slot_event_eq,
}

-- `guard` and `action` are None in every transition of the table, and nothing reads them.
pub record Transition : Type 0 where
  pub from_state : SlotState
  pub event : SlotEvent
  pub to_state : SlotState

abbrev pub Key : Type 0
Key = SlotState × SlotEvent

unfoldable pub key_beq : Key → Key → Bool
key_beq (s, e) (t, f) = beq s t && beq e f

pub key_beq_iff : (a b : Key) → (key_beq a b ≡ true) ↔ (a ≡ b)
unfolding key_beq
key_beq_iff (s, e) (t, f) = ground (arith, slot_state_eq.beq_iff s t, slot_event_eq.beq_iff e f)

instance abbrev pub key_eq : Eq Key
key_eq = record { beq = key_beq; beq_iff = key_beq_iff }

abbrev row : SlotState → SlotEvent → SlotState → Transition
row s e t = record { from_state = s; event = e; to_state = t }

transitions : List Transition
transitions =
    row SlotState.idle SlotEvent.connect SlotState.connecting
    ∷ row SlotState.idle SlotEvent.start_test SlotState.preparing
    ∷ row SlotState.idle SlotEvent.reset SlotState.idle
    ∷ row SlotState.connecting SlotEvent.connected SlotState.ready
    ∷ row SlotState.connecting SlotEvent.connection_failed SlotState.error
    ∷ row SlotState.connecting SlotEvent.disconnected SlotState.idle
    ∷ row SlotState.ready SlotEvent.start_test SlotState.preparing
    ∷ row SlotState.ready SlotEvent.disconnected SlotState.idle
    ∷ row SlotState.ready SlotEvent.reset SlotState.idle
    ∷ row SlotState.preparing SlotEvent.configure SlotState.configuring
    ∷ row SlotState.preparing SlotEvent.fail SlotState.failed
    ∷ row SlotState.preparing SlotEvent.error SlotState.error
    ∷ row SlotState.preparing SlotEvent.stop SlotState.stopping
    ∷ row SlotState.configuring SlotEvent.configured SlotState.ready
    ∷ row SlotState.configuring SlotEvent.run SlotState.running
    ∷ row SlotState.configuring SlotEvent.fail SlotState.failed
    ∷ row SlotState.configuring SlotEvent.error SlotState.error
    ∷ row SlotState.configuring SlotEvent.stop SlotState.stopping
    ∷ row SlotState.running SlotEvent.pause SlotState.paused
    ∷ row SlotState.running SlotEvent.stop SlotState.stopping
    ∷ row SlotState.running SlotEvent.complete SlotState.completed
    ∷ row SlotState.running SlotEvent.fail SlotState.failed
    ∷ row SlotState.running SlotEvent.error SlotState.error
    ∷ row SlotState.running SlotEvent.disconnected SlotState.error
    ∷ row SlotState.running SlotEvent.batch_complete SlotState.waiting
    ∷ row SlotState.waiting SlotEvent.batch_next SlotState.configuring
    ∷ row SlotState.waiting SlotEvent.all_batches_done SlotState.completed
    ∷ row SlotState.waiting SlotEvent.stop SlotState.stopping
    ∷ row SlotState.waiting SlotEvent.error SlotState.error
    ∷ row SlotState.waiting SlotEvent.fail SlotState.failed
    ∷ row SlotState.paused SlotEvent.resume SlotState.running
    ∷ row SlotState.paused SlotEvent.stop SlotState.stopping
    ∷ row SlotState.paused SlotEvent.error SlotState.error
    ∷ row SlotState.stopping SlotEvent.stopped SlotState.idle
    ∷ row SlotState.stopping SlotEvent.error SlotState.error
    ∷ row SlotState.completed SlotEvent.reset SlotState.idle
    ∷ row SlotState.completed SlotEvent.start_test SlotState.preparing
    ∷ row SlotState.failed SlotEvent.reset SlotState.idle
    ∷ row SlotState.failed SlotEvent.retry SlotState.preparing
    ∷ row SlotState.failed SlotEvent.start_test SlotState.preparing
    ∷ row SlotState.error SlotEvent.reset SlotState.idle
    ∷ row SlotState.error SlotEvent.retry SlotState.idle
    ∷ row SlotState.error SlotEvent.start_test SlotState.preparing
    ∷ []

-- The comprehension adds one item for each transition, in order.
add_all : Dict Key SlotState → List Transition → Dict Key SlotState
add_all d [] = d
add_all d (t ∷ ts) = add_all (put d (t.from_state, t.event) t.to_state) ts

unfoldable pub transition_map : Dict Key SlotState
unfolding transitions add_all put key_beq SlotState-discrete SlotEvent-discrete
transition_map = add_all [] transitions

unfoldable pub next_state : SlotState → SlotEvent → Option SlotState
unfolding transition_map get
next_state s e = get transition_map (s, e)

-- The diagram, as a function.
unfoldable pub edge : SlotState → SlotEvent → Option SlotState
edge SlotState.idle SlotEvent.connect = some SlotState.connecting
edge SlotState.idle SlotEvent.start_test = some SlotState.preparing
edge SlotState.idle SlotEvent.reset = some SlotState.idle
edge SlotState.connecting SlotEvent.connected = some SlotState.ready
edge SlotState.connecting SlotEvent.connection_failed = some SlotState.error
edge SlotState.connecting SlotEvent.disconnected = some SlotState.idle
edge SlotState.ready SlotEvent.start_test = some SlotState.preparing
edge SlotState.ready SlotEvent.disconnected = some SlotState.idle
edge SlotState.ready SlotEvent.reset = some SlotState.idle
edge SlotState.preparing SlotEvent.configure = some SlotState.configuring
edge SlotState.preparing SlotEvent.fail = some SlotState.failed
edge SlotState.preparing SlotEvent.error = some SlotState.error
edge SlotState.preparing SlotEvent.stop = some SlotState.stopping
edge SlotState.configuring SlotEvent.configured = some SlotState.ready
edge SlotState.configuring SlotEvent.run = some SlotState.running
edge SlotState.configuring SlotEvent.fail = some SlotState.failed
edge SlotState.configuring SlotEvent.error = some SlotState.error
edge SlotState.configuring SlotEvent.stop = some SlotState.stopping
edge SlotState.running SlotEvent.pause = some SlotState.paused
edge SlotState.running SlotEvent.stop = some SlotState.stopping
edge SlotState.running SlotEvent.complete = some SlotState.completed
edge SlotState.running SlotEvent.fail = some SlotState.failed
edge SlotState.running SlotEvent.error = some SlotState.error
edge SlotState.running SlotEvent.disconnected = some SlotState.error
edge SlotState.running SlotEvent.batch_complete = some SlotState.waiting
edge SlotState.waiting SlotEvent.batch_next = some SlotState.configuring
edge SlotState.waiting SlotEvent.all_batches_done = some SlotState.completed
edge SlotState.waiting SlotEvent.stop = some SlotState.stopping
edge SlotState.waiting SlotEvent.error = some SlotState.error
edge SlotState.waiting SlotEvent.fail = some SlotState.failed
edge SlotState.paused SlotEvent.resume = some SlotState.running
edge SlotState.paused SlotEvent.stop = some SlotState.stopping
edge SlotState.paused SlotEvent.error = some SlotState.error
edge SlotState.stopping SlotEvent.stopped = some SlotState.idle
edge SlotState.stopping SlotEvent.error = some SlotState.error
edge SlotState.completed SlotEvent.reset = some SlotState.idle
edge SlotState.completed SlotEvent.start_test = some SlotState.preparing
edge SlotState.failed SlotEvent.reset = some SlotState.idle
edge SlotState.failed SlotEvent.retry = some SlotState.preparing
edge SlotState.failed SlotEvent.start_test = some SlotState.preparing
edge SlotState.error SlotEvent.reset = some SlotState.idle
edge SlotState.error SlotEvent.retry = some SlotState.idle
edge SlotState.error SlotEvent.start_test = some SlotState.preparing
edge _ _ = none

-- No two transitions of the table have one source and one event, so each row takes effect.
pub next_state-eq-edge : (s : SlotState) (e : SlotEvent) → next_state s e ≡ edge s e
unfolding next_state edge
next_state-eq-edge SlotState.idle SlotEvent.connect = refl
next_state-eq-edge SlotState.idle _ = refl
next_state-eq-edge SlotState.connecting SlotEvent.connect = refl
next_state-eq-edge SlotState.connecting _ = refl
next_state-eq-edge SlotState.ready SlotEvent.connect = refl
next_state-eq-edge SlotState.ready _ = refl
next_state-eq-edge SlotState.preparing SlotEvent.connect = refl
next_state-eq-edge SlotState.preparing _ = refl
next_state-eq-edge SlotState.configuring SlotEvent.connect = refl
next_state-eq-edge SlotState.configuring _ = refl
next_state-eq-edge SlotState.running SlotEvent.connect = refl
next_state-eq-edge SlotState.running _ = refl
next_state-eq-edge SlotState.waiting SlotEvent.connect = refl
next_state-eq-edge SlotState.waiting _ = refl
next_state-eq-edge SlotState.paused SlotEvent.connect = refl
next_state-eq-edge SlotState.paused _ = refl
next_state-eq-edge SlotState.stopping SlotEvent.connect = refl
next_state-eq-edge SlotState.stopping _ = refl
next_state-eq-edge SlotState.completed SlotEvent.connect = refl
next_state-eq-edge SlotState.completed _ = refl
next_state-eq-edge SlotState.failed SlotEvent.connect = refl
next_state-eq-edge SlotState.failed _ = refl
next_state-eq-edge SlotState.error SlotEvent.connect = refl
next_state-eq-edge SlotState.error _ = refl
