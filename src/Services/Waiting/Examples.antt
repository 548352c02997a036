-- ===== src/Services/Waiting/Examples.antt =====
-- The wait at two polls, at the times of a test that runs for eleven seconds.
use aio_ss_usb_test_agent.Prelude.{◌≡◌, refl, true, false, none, some, List, [], ◌∷◌}
use aio_ss_usb_test_agent.Prelude.Dict.{get}
use aio_ss_usb_test_agent.Domain.Enums.{ProcessState}
use aio_ss_usb_test_agent.Domain.State.{SlotState}
use aio_ss_usb_test_agent.Domain.Context.{Time, new_context}
use aio_ss_usb_test_agent.Domain.Machine.{new_machine}
use aio_ss_usb_test_agent.Services.World.{World, ok, pause, interfere, is_cancel_requested}
use aio_ss_usb_test_agent.Services.Waiting.{Poll, judge, round, wait_loop, wait_for_pass}
use aio_ss_usb_test_agent.Services.Waiting.Verdict.{HasPassed, wait_for_pass-true}
use aio_ss_usb_test_agent.Services.Waiting.Quiet.{quiet_verdict}

abbrev world : World
world = record {
  machine = new_machine 0 SlotState.running true 0;
  cancel_requested = [];
  local = new_context 0 0;
  local_ref = 0;
  clock = 0;
  progress = [];
  commands = [];
}

abbrev poll : Time → ProcessState → Poll
poll t s = record {
  before = record { meanwhile = []; clock = t };
  tested_at = t;
  ui = some s;
  read_at = t;
}

abbrev passing : List Poll
passing = poll 600 ProcessState.test ∷ poll 11700 ProcessState.pass ∷ []

abbrev early : List Poll
early = poll 600 ProcessState.test ∷ poll 9000 ProcessState.pass ∷ poll 20000 ProcessState.fail ∷ []

says_true : (wait_for_pass 0 3600000 500 passing world).0 ≡ ok true
unfolding wait_for_pass wait_loop round judge is_cancel_requested pause interfere get
says_true = refl

early_pass : (wait_for_pass 0 3600000 500 early world).0 ≡ ok false
unfolding wait_for_pass wait_loop round judge is_cancel_requested pause interfere get
early_pass = refl

wait_for_pass-true_example : HasPassed 0 3600000 500 passing
wait_for_pass-true_example = wait_for_pass-true 0 3600000 500 passing world says_true

no_cancel : is_cancel_requested 0 world ≡ false
unfolding is_cancel_requested get
no_cancel = refl

polls_say : quiet_verdict 3600000 500 none passing ≡ some true
unfolding quiet_verdict judge
polls_say = refl
