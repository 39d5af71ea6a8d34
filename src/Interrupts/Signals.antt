-- ===== src/Interrupts/Signals.antt =====
-- An interrupt that comes while a process is about to wait for it.
use cxp.Common.{ℕ, ◌≡◌, refl, some, none, arith, ==-refl}
use cxp.Common.Outcome.{done}
use cxp.Machine.{Machine, ready, pun_of}
use cxp.Sched.{set_sched_state, get_current, relinquish, prepare_to_wait}
use cxp.Interrupts.{Receivers, set_receiver, receive_begin, transmit, resume_receiver}

transmit_early :
    (m : Machine) (s : Receivers) (cpu intr_no : ℕ)
    → let curr = get_current m cpu in
      transmit (receive_begin m s cpu intr_no).0 (receive_begin m s cpu intr_no).1 cpu intr_no
      ≡ done (
        some curr,
        set_sched_state (prepare_to_wait m curr) curr ready,
        set_receiver
            (set_receiver s (pun_of m curr) intr_no (some curr))
            (pun_of m curr)
            intr_no
            none,
      )
unfolding receive_begin transmit resume_receiver prepare_to_wait
transmit_early m s cpu intr_no = ground arith

-- If the interrupt comes after a process has announced that it waits for it and before its
-- `relinquish`, the process is ready again, `relinquish` leaves it the unit, and no one stands in the
-- interrupt's structure any more.
pub receive_not_lost :
    (m : Machine) (s : Receivers) (cpu intr_no : ℕ)
    → let curr = get_current m cpu in
      let m1 = (receive_begin m s cpu intr_no).0 in
      let s1 = (receive_begin m s cpu intr_no).1 in
      (m2 : Machine) × (s2 : Receivers) × (transmit m1 s1 cpu intr_no ≡ done (some curr, m2, s2))
      × ((m2.procs curr).sched_state ≡ ready)
      × (relinquish m2 cpu ≡ done m2)
      × (get_current m2 cpu ≡ curr)
      × (s2 (pun_of m curr) intr_no ≡ none)
unfolding relinquish prepare_to_wait
receive_not_lost m s cpu intr_no =
    let curr = get_current m cpu in
    (
      set_sched_state (prepare_to_wait m curr) curr ready,
      set_receiver (set_receiver s (pun_of m curr) intr_no (some curr)) (pun_of m curr) intr_no
          none,
      transmit_early m s cpu intr_no,
      rw (==-refl curr) refl,
      rw (==-refl curr) refl,
      refl,
      rw (==-refl (pun_of m curr), ==-refl intr_no) refl,
    )
