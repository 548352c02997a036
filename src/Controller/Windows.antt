-- ===== src/Controller/Windows.antt =====
-- controller/window_manager.py: `SlotWindowManager` and `WindowManager`. What pywinauto and psutil answer
-- is an argument. The search of controls hands the call on to pywinauto, and is left out.
pub mod Connecting
pub mod Refreshing
mod Examples
use aio_ss_usb_test_agent.Prelude.{
  ℕ, zero, suc, if◌then◌else◌, Bool, true, false, not, ◌&&◌, ◌||◌, Option, none, some, is_some,
  List, [], ◌∷◌,
}
use aio_ss_usb_test_agent.Prelude.Dict.{Dict, get, put, nat_eq}
use aio_ss_usb_test_agent.Domain.Context.{Time}
use aio_ss_usb_test_agent.Infrastructure.ProcessManager.{
  truthy, Slots, Launch, Termination, new_slots, get_pid, is_active, launch_for_slot,
  terminate_for_slot, clear_slot, refresh_status, assign_pid_to_slot,
}

-- `available` says that pywinauto could be imported.
pub record SlotWindow : Type 0 where
  pub available : Bool
  pub has_app : Bool
  pub has_window : Bool
  pub window_pid : Option ℕ

abbrev pub new_window : Bool → SlotWindow
new_window available = record {
  available = available;
  has_app = false;
  has_window = false;
  window_pid = none;
}

-- `_clear_connection`
abbrev pub clear_connection : SlotWindow → SlotWindow
clear_connection w = record w { has_app = false; has_window = false; window_pid = none }

-- What the system shows at one time: which processes there are, and of which of them the window is
-- still there, where `none` is an exception.
pub record Shown : Type 0 where
  pub pid_exists : ℕ → Bool
  pub window_exists : ℕ → Option Bool

abbrev pub window_answer : SlotWindow → Option Bool → Bool × SlotWindow
window_answer w none = (false, w)
window_answer w (some true) = (true, w)
window_answer w (some false) = (false, clear_connection w)

abbrev pub connected_at : Shown → SlotWindow → Option ℕ → Bool × SlotWindow
connected_at sh w none = (false, w)
connected_at sh w (some p) =
    if sh.pid_exists p then window_answer w (sh.window_exists p) else (false, clear_connection w)

-- `is_connected` changes the window: a connection that is no more is cleared.
unfoldable pub is_window_connected : Shown → SlotWindow → Bool × SlotWindow
is_window_connected sh w =
    if w.available && (w.has_app && w.has_window)
    then connected_at sh w w.window_pid
    else (false, w)

-- How one attempt to connect ends: no application, a window that is not there or cannot be asked, a
-- window whose title cannot be read, which raises after the pid was stored, or a connection.
pub data Attempt : Type 0 where
  no_app no_window untitled found : Attempt

-- The attempts made before the timeout.
abbrev pub connect_loop : ℕ → List Attempt → SlotWindow → Bool × SlotWindow
connect_loop pid [] w = (false, w)
connect_loop pid (Attempt.no_app ∷ more) w = connect_loop pid more w
connect_loop pid (Attempt.no_window ∷ more) w =
    connect_loop pid more (record w { has_app = true; has_window = true })
connect_loop pid (Attempt.untitled ∷ more) w =
    connect_loop pid more (record w { has_app = true; has_window = true; window_pid = some pid })
connect_loop pid (Attempt.found ∷ more) w =
    (true, record w { has_app = true; has_window = true; window_pid = some pid })

unfoldable pub connect_to_pid : ℕ → List Attempt → SlotWindow → Bool × SlotWindow
connect_to_pid pid attempts w = if w.available then connect_loop pid attempts w else (false, w)

pub record WindowManager : Type 0 where
  pub processes : Slots
  pub slot_windows : Dict ℕ SlotWindow

unfoldable pub fill_windows : ℕ → Bool → Dict ℕ SlotWindow
fill_windows zero available = []
fill_windows (suc n) available = put (fill_windows n available) n (new_window available)

unfoldable pub new_window_manager : ℕ → Bool → WindowManager
unfolding fill_windows
new_window_manager max_slots available = record {
  processes = new_slots max_slots;
  slot_windows = fill_windows max_slots available;
}

abbrev pub set_window : ℕ → SlotWindow → WindowManager → WindowManager
set_window i w m = record m { slot_windows = put m.slot_windows i w }

abbrev pub if_window : ℕ → Shown → WindowManager → Option SlotWindow → Bool × WindowManager
if_window i sh m none = (false, m)
if_window i sh m (some w) = let r = is_window_connected sh w in (r.0, set_window i r.1 m)

unfoldable pub is_slot_connected : ℕ → Shown → WindowManager → Bool × WindowManager
unfolding is_window_connected
is_slot_connected i sh m = if_window i sh m (get m.slot_windows i)

-- What one call of `launch_and_connect` is answered.
pub record Connection : Type 0 where
  pub shown : Shown
  pub old_ends : Termination
  pub launch : Launch
  pub attempts : List Attempt
  pub new_ends : Termination

abbrev pub connect_window :
    ℕ → Connection → WindowManager → Bool × SlotWindow → Bool × WindowManager
connect_window i k m (true, w) = (true, set_window i w m)
connect_window i k m (false, w) = (
  false,
  record (set_window i w m) { processes = (terminate_for_slot i k.new_ends m.processes).0 },
)

abbrev pub connect_launched :
    ℕ → Connection → SlotWindow → WindowManager → Slots × Option ℕ → Bool × WindowManager
connect_launched i k w m (processes, none) = (false, record m { processes = processes })
connect_launched i k w m (processes, some p) =
    connect_window i k (record m { processes = processes }) (connect_to_pid p k.attempts w)

abbrev pub launch_window : ℕ → Connection → WindowManager → Option SlotWindow → Bool × WindowManager
launch_window i k m none = (false, m)
launch_window i k m (some w) =
    connect_launched i k (clear_connection w) (set_window i (clear_connection w) m)
      (launch_for_slot k.shown.pid_exists i k.old_ends k.launch m.processes)

unfoldable pub launch_and_connect : ℕ → Connection → WindowManager → Bool × WindowManager
unfolding connect_to_pid
launch_and_connect i k m = launch_window i k m (get m.slot_windows i)

-- Whether the assignment succeeds is not looked at.
abbrev pub connect_assigned :
    ℕ → ℕ → Shown → Time → List Attempt → WindowManager → Option SlotWindow → Bool × WindowManager
connect_assigned i pid sh now attempts m none = (false, m)
connect_assigned i pid sh now attempts m (some w) =
    let r = connect_to_pid pid attempts w in
    (
      r.0,
      record (set_window i r.1 m) {
        processes = (assign_pid_to_slot sh.pid_exists i pid now m.processes).0;
      },
    )

unfoldable pub connect_to_existing :
    ℕ → ℕ → Shown → Time → List Attempt → WindowManager → Bool × WindowManager
unfolding connect_to_pid
connect_to_existing i pid sh now attempts m =
    connect_assigned i pid sh now attempts m (get m.slot_windows i)

abbrev pub disconnect_window : ℕ → WindowManager → Option SlotWindow → WindowManager
disconnect_window i m none = m
disconnect_window i m (some w) = set_window i (clear_connection w) m

unfoldable pub disconnect_slot : ℕ → WindowManager → WindowManager
disconnect_slot i m = record (disconnect_window i m (get m.slot_windows i)) {
  processes = clear_slot i m.processes;
}

unfoldable pub terminate_slot : ℕ → Termination → WindowManager → Bool × WindowManager
terminate_slot i t m =
    let r = terminate_for_slot i t m.processes in
    (r.1, record (disconnect_window i m (get m.slot_windows i)) { processes = r.0 })

-- for slot_idx in self._slot_windows
unfoldable pub terminate_all_slots :
    (ℕ → Termination) → Dict ℕ SlotWindow → WindowManager → WindowManager
unfolding terminate_slot
terminate_all_slots t [] m = m
terminate_all_slots t ((i, w) ∷ ws) m = terminate_all_slots t ws (terminate_slot i (t i) m).1

-- A window that is connected to a process, of another pid than 0, while that of its slot is not
-- active, is disconnected.
abbrev pub refresh_window : Shown → Slots → ℕ → Bool × SlotWindow → SlotWindow
refresh_window sh processes i (false, w) = w
refresh_window sh processes i (true, w) =
    if is_some (truthy w.window_pid) && not (is_active sh.pid_exists processes i)
    then clear_connection w
    else w

abbrev pub refresh_windows : Shown → Slots → Dict ℕ SlotWindow → Dict ℕ SlotWindow
refresh_windows sh processes [] = []
refresh_windows sh processes ((i, w) ∷ ws) =
    (i, refresh_window sh processes i (is_window_connected sh w)) ∷ refresh_windows sh processes ws

unfoldable pub refresh_all_status : Shown → WindowManager → WindowManager
unfolding is_window_connected
refresh_all_status sh m =
    let processes = refresh_status sh.pid_exists m.processes in
    record { processes = processes; slot_windows = refresh_windows sh processes m.slot_windows }
