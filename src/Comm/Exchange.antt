-- ===== src/Comm/Exchange.antt =====
-- The compare-exchange on the state of an alternation (alt.c, timer.c).
use cxp.Common.{ℕ, ◌≡◌, refl, true, false}
use cxp.Machine.{Machine, AltState}
use cxp.Comm.{same_alt, set_alt_state, alt_cas}

module _ (m : Machine) (p : ℕ) (expected desired s : AltState) where
  pub alt_cas-lose :
      (m.procs p).alt_state ≡ s
      → same_alt s expected ≡ false
      → alt_cas m p expected desired ≡ (false, s, m)
  unfolding alt_cas
  alt_cas-lose e h = rw (e, h) refl

  pub alt_cas-win :
      (m.procs p).alt_state ≡ s
      → same_alt s expected ≡ true
      → alt_cas m p expected desired ≡ (true, expected, set_alt_state m p desired)
  unfolding alt_cas
  alt_cas-win e h = rw (e, h) refl
