-- ===== src/Domain/Texts/Examples.antt =====
-- Texts of a window.
use aio_ss_usb_test_agent.Prelude.{◌≡◌, ◌∷◌, ◌++◌, refl, some}
use aio_ss_usb_test_agent.Domain.Enums.{ProcessState, TestPhase}
use aio_ss_usb_test_agent.Domain.Texts.{
  codes, process_state_from_text, test_phase_from_text, match_loops, parse_progress_text,
}
use aio_ss_usb_test_agent.Domain.Texts.Progress.{decimal, match_loops-decimal}

spoken : process_state_from_text (codes "Pass") ≡ ProcessState.pass
unfolding process_state_from_text
spoken = refl

in_capitals : process_state_from_text (codes " FAIL ") ≡ ProcessState.fail
unfolding process_state_from_text
in_capitals = refl

at_the_end : process_state_from_text (codes "10/10 IDLE") ≡ ProcessState.idle
unfolding process_state_from_text
at_the_end = refl

not_a_state : process_state_from_text (codes "10/10IDLE") ≡ ProcessState.unknown
unfolding process_state_from_text
not_a_state = refl

copying : test_phase_from_text (codes "4/10  File Copy 35/88") ≡ TestPhase.copy
unfolding test_phase_from_text
copying = refl

lower_case : test_phase_from_text (codes "1/2 contact test") ≡ TestPhase.contact
unfolding test_phase_from_text
lower_case = refl

-- The total of the text is taken only if none is known.
loops_read : parse_progress_text (codes " 4/10  File Copy 35/88") (0, 0) ≡ (4, 10)
unfolding parse_progress_text match_loops
loops_read = refl

total_kept : parse_progress_text (codes "4/10 IDLE") (0, 12) ≡ (4, 12)
unfolding parse_progress_text match_loops
total_kept = refl

match_loops-decimal_example :
    match_loops (decimal 12 ++ (47 ∷ (decimal 340 ++ codes " IDLE"))) ≡ some (12, 340)
match_loops-decimal_example = match_loops-decimal 12 340 (codes " IDLE") refl
