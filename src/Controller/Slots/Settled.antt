-- ===== src/Controller/Slots/Settled.antt =====
-- In which status a call on a slot leaves it, and what it has done in the window by then.
use aio_ss_usb_test_agent.Prelude.{
  ℕ, ltb, ◌≡◌, refl, ◌⊎◌, inl, inr, Bool, true, false, under_if, Option, none, some, is_some, List,
  [], ◌∷◌, arith,
}
use aio_ss_usb_test_agent.Prelude.Dict.{Dict, get, put, get-put, nat_eq}
use aio_ss_usb_test_agent.Domain.Config.{TestConfig}
use aio_ss_usb_test_agent.Controller.Windows.{WindowManager, Shown, is_slot_connected}
use aio_ss_usb_test_agent.Controller.Starting.{
  Action, Fault, Performed, Answers, start_sequence, continue_sequence, stop_sequence,
}
use aio_ss_usb_test_agent.Controller.Starting.Order.{
  NoTest, Orderly, IsStarted, IsContactAndTest, start_sequence-Orderly, continue_sequence-Orderly,
}
use aio_ss_usb_test_agent.Controller.Slots.{
  SlotStatus, ControlState, MfcController, Done, change_state, set_windows, set_error, conclude,
  perform, prepare, to_running, refused, start_connected, start_test, continue_connected,
  continue_batch, stop_connected, stop_test,
}

abbrev pub HasStatus : SlotStatus → Option ControlState → Type 0
HasStatus st none = ⊥
HasStatus st (some s) = s.status ≡ some st

-- A call that returns True leaves the slot in the status and has done what P asks for. One that returns
-- False has not clicked Test, and leaves the slot's state as it was, or in ERROR.
abbrev pub Settled : (List Action → Type 0) → SlotStatus → ℕ → MfcController → Done → Type 0
Settled P st i c d =
    (d.ok ≡ true → HasStatus st (get d.controller.slot_states i) × P d.actions)
    × (d.ok ≡ false
        → NoTest d.actions
          × ((get d.controller.slot_states i ≡ get c.slot_states i)
              ⊎ HasStatus SlotStatus.error (get d.controller.slot_states i)))

change_state-get :
    (i : ℕ) (f : ControlState → ControlState) (c : MfcController) (s : ControlState)
    → get c.slot_states i ≡ some s
    → get (change_state i f c).slot_states i ≡ some (f s)
unfolding change_state
change_state-get i f c s e = rw e (get-put-same c.slot_states i (f s))
  where
    get-put-same : (d : Dict ℕ ControlState) (i : ℕ) (s : ControlState) → get (put d i s) i ≡ some s
    get-put-same d i s = ground (arith, get-put d i i s)

refused-Settled :
    (P : List Action → Type 0) (st : SlotStatus) (i : ℕ) (c : MfcController) (m : WindowManager)
    → Settled P st i c (refused (set_windows m c))
refused-Settled P st i c m = ((λ e. absurd (ground (arith, e))), (λ _. (tt, inl refl)))

module _ (P : List Action → Type 0) (st : SlotStatus) (i : ℕ) (c : MfcController)
    (f : ControlState → ControlState) (sets : (s : ControlState) → (f s).status ≡ some st) where
  -- c was made from the controller before the call.
  conclude-Settled :
      (before : MfcController) (s : ControlState) (p : Performed)
      → get c.slot_states i ≡ some s
      → Orderly P p
      → Settled P st i before (conclude i f c p)
  conclude-Settled before s (done, none) e h =
      ((λ _. (rw (change_state-get i f c s e) (sets s), h)), (λ x. absurd (ground (arith, x))))
  conclude-Settled before s (done, some fault) e h = (
    (λ x. absurd (ground (arith, x))),
    (λ _. (h, inr (rw (change_state-get i (set_error fault) c s e) refl))),
  )

perform-Settled :
    (P : List Action → Type 0) (st : SlotStatus) (i : ℕ) (c before : MfcController)
    (f : ControlState → ControlState) (s : ControlState) (p : Performed) (r : Bool × WindowManager)
    → ((s : ControlState) → (f s).status ≡ some st)
    → get c.slot_states i ≡ some s
    → Orderly P p
    → Settled P st i before (perform i f p c r)
perform-Settled P st i c before f s p (true, m) sets e h =
    conclude-Settled P st i (set_windows m c) f sets before s p e h
perform-Settled P st i c before f s p (false, m) sets e h =
    conclude-Settled P st i (set_windows m c) f sets before s ([], some Fault.no_window) e tt

start_connected-Settled :
    (i : ℕ) (config : TestConfig) (sh : Shown) (a : Answers) (c : MfcController) (s : ControlState)
    (r : Bool × WindowManager)
    → get c.slot_states i ≡ some s
    → Settled (IsStarted config a) SlotStatus.running i c (start_connected i config sh a c r)
start_connected-Settled i config sh a c s (false, m) e =
    refused-Settled (IsStarted config a) SlotStatus.running i c m
start_connected-Settled i config sh a c s (true, m) e =
    under_if (Settled (IsStarted config a) SlotStatus.running i c) (ltb i 4)
      (λ _.
        perform-Settled (IsStarted config a) SlotStatus.running i
          (change_state i (prepare config) (set_windows m c)) c (to_running "Initializing")
          (prepare config s) (start_sequence config a) (is_slot_connected i sh m) (λ _. refl)
          (change_state-get i (prepare config) (set_windows m c) s e)
          (start_sequence-Orderly config a))
      (λ _. refused-Settled (IsStarted config a) SlotStatus.running i c m)

-- Whatever the system shows and the controls answer, for a slot that the controller has: if
-- `start_test` returns True, the slot is RUNNING, and in its window the drive, the capacity, the
-- method, the number of loops and the file of the configuration were set, in this order, and then
-- Contact and at last Test were clicked. If it returns False, Test was not clicked, and the slot's
-- state is as before or is ERROR: it is not left PREPARING.
pub start_test-Settled :
    (i : ℕ) (config : TestConfig) (first second : Shown) (a : Answers) (c : MfcController)
    (s : ControlState)
    → get c.slot_states i ≡ some s
    → Settled (IsStarted config a) SlotStatus.running i c (start_test i config first second a c)
unfolding start_test
start_test-Settled i config first second a c s e =
    start_connected-Settled i config second a c s (is_slot_connected i first c.window_manager) e

continue_connected-Settled :
    (i : ℕ) (sh : Shown) (a : Answers) (c : MfcController) (s : ControlState)
    (r : Bool × WindowManager)
    → get c.slot_states i ≡ some s
    → Settled IsContactAndTest SlotStatus.running i c (continue_connected i sh a c r)
continue_connected-Settled i sh a c s (false, m) e =
    refused-Settled IsContactAndTest SlotStatus.running i c m
continue_connected-Settled i sh a c s (true, m) e =
    under_if (Settled IsContactAndTest SlotStatus.running i c) (is_some (get c.slot_states i))
      (λ _.
        perform-Settled IsContactAndTest SlotStatus.running i (set_windows m c) c
          (to_running "Batch Continue") s (continue_sequence a) (is_slot_connected i sh m)
          (λ _. refl) e (continue_sequence-Orderly a))
      (λ _. refused-Settled IsContactAndTest SlotStatus.running i c m)

-- The same of `continue_batch`, which clicks Contact and Test and sets nothing.
pub continue_batch-Settled :
    (i : ℕ) (first second : Shown) (a : Answers) (c : MfcController) (s : ControlState)
    → get c.slot_states i ≡ some s
    → Settled IsContactAndTest SlotStatus.running i c (continue_batch i first second a c)
unfolding continue_batch
continue_batch-Settled i first second a c s e =
    continue_connected-Settled i second a c s (is_slot_connected i first c.window_manager) e

abbrev pub IsStopped : List Action → Type 0
IsStopped done = done ≡ Action.stop_clicked ∷ []

stop_connected-Settled :
    (i : ℕ) (sh : Shown) (a : Answers) (c : MfcController) (s : ControlState)
    (r : Bool × WindowManager)
    → get c.slot_states i ≡ some s
    → Settled IsStopped SlotStatus.stopped i c (stop_connected i sh a c r)
unfolding stop_sequence
stop_connected-Settled i sh a c s (false, m) e = refused-Settled IsStopped SlotStatus.stopped i c m
stop_connected-Settled i sh a c s (true, m) e =
    under_if (Settled IsStopped SlotStatus.stopped i c) (is_some (get c.slot_states i))
      (λ _.
        perform-Settled IsStopped SlotStatus.stopped i (set_windows m c) c
          (λ s. record s { status = some SlotStatus.stopped }) s (stop_sequence a)
          (is_slot_connected i sh m) (λ _. refl) e
          (under_if (Orderly IsStopped) a.stop_works (λ _. refl) (λ _. tt)))
      (λ _. refused-Settled IsStopped SlotStatus.stopped i c m)

-- If `stop_test` returns True, the slot is STOPPED, and Stop was clicked in its window and nothing
-- else; if it returns False, the slot's state is as before or is ERROR.
pub stop_test-Settled :
    (i : ℕ) (first second : Shown) (a : Answers) (c : MfcController) (s : ControlState)
    → get c.slot_states i ≡ some s
    → Settled IsStopped SlotStatus.stopped i c (stop_test i first second a c)
unfolding stop_test
stop_test-Settled i first second a c s e =
    stop_connected-Settled i second a c s (is_slot_connected i first c.window_manager) e
