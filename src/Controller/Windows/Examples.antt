-- ===== src/Controller/Windows/Examples.antt =====
-- Two slots, of which the first is connected.
use aio_ss_usb_test_agent.Prelude.{ℕ, ◌≡◌, refl, ◌==◌, true, ◌||◌, some, [], ◌∷◌, All}
use aio_ss_usb_test_agent.Prelude.Dict.{get, put, nat_eq}
use aio_ss_usb_test_agent.Infrastructure.ProcessManager.{
  Launch, Process, terminated, launch_for_slot, launch_exe_get_pid, is_active, get_pid,
  existing_pids, find_new, find_other, new_slots,
}
use aio_ss_usb_test_agent.Controller.Windows.{
  WindowManager, Shown, Connection, found, no_app, new_window_manager, launch_and_connect,
  refresh_all_status, connect_to_pid, fill_windows,
}
use aio_ss_usb_test_agent.Controller.Windows.Connecting.{Connected, launch_and_connect-Connected}
use aio_ss_usb_test_agent.Controller.Windows.Refreshing.{
  AllRunning, IsBacked, refresh_all_status-AllBacked,
}

abbrev program : ℕ → Process
program p = record { process_pid = p; is_readable = true; is_program = true }

abbrev launch : Launch
launch = record {
  file_exists = true;
  before = program 7 ∷ [];
  result = 42;
  polls = (program 7 ∷ []) ∷ (program 7 ∷ program 8 ∷ []) ∷ [];
  launched_at = 100;
}

abbrev shown : Shown
shown = record { pid_exists = λ p. p == 7 || p == 8; window_exists = λ p. some true }

abbrev connection : Connection
connection = record {
  shown = shown;
  old_ends = terminated;
  launch = launch;
  attempts = no_app ∷ found ∷ [];
  new_ends = terminated;
}

abbrev manager : WindowManager
manager = new_window_manager 2 true

launch_and_connect-Connected_example :
    Connected 1 connection.attempts (launch_and_connect 1 connection manager)
launch_and_connect-Connected_example = launch_and_connect-Connected 1 connection manager

abbrev connected : WindowManager
connected = (launch_and_connect 1 connection manager).1

is_connected : (launch_and_connect 1 connection manager).0 ≡ true
unfolding launch_and_connect new_window_manager fill_windows new_slots get put launch_for_slot
    launch_exe_get_pid is_active get_pid existing_pids find_new find_other connect_to_pid
is_connected = refl

-- The process of the slot is gone.
abbrev later : Shown
later = record { pid_exists = λ p. p == 7; window_exists = λ p. some true }

refresh_all_status-AllBacked_example :
    AllRunning later (refresh_all_status later connected).processes
    × All
        (IsBacked later (refresh_all_status later connected).processes)
        (refresh_all_status later connected).slot_windows
refresh_all_status-AllBacked_example = refresh_all_status-AllBacked later connected
