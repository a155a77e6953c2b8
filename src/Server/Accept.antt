-- ===== src/Server/Accept.antt =====
-- How long the server accepts connections.
use ai_switch.Base.{◌≡◌, refl, false, arith}
use ai_switch.Server.{Server, stop, accept, accept_error, signal, signal_error, Reach, here, next}

-- From a state in which no accept is pending, as one failed accept leaves it, the server never starts
-- one again and makes no more sessions.
pub Reach-not_accepting :
    {s t : Server}
    → Reach s t
    → s.accepting ≡ false
    → (t.accepting ≡ false) × (t.sessions ≡ s.sessions)
unfolding stop
Reach-not_accepting here h = (h, refl)
Reach-not_accepting (next r (accept going pending)) h =
    let (off, _) = Reach-not_accepting r h in absurd (ground arith)
Reach-not_accepting (next r (accept_error going pending)) h =
    let (_, same) = Reach-not_accepting r h in (refl, same)
Reach-not_accepting (next r (signal going pending)) h =
    let (off, same) = Reach-not_accepting r h in (off, same)
Reach-not_accepting (next r (signal_error going pending)) h =
    let (off, same) = Reach-not_accepting r h in (off, same)
