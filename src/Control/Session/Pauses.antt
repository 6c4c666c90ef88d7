-- ===== src/Control/Session/Pauses.antt =====
-- How long the loop of internal/control/client.go, `Run`, sleeps.
use Prim.Native.Nat.{min}
use compute_agent.Base.{ℕ, zero, suc, ◌^◌, ◌≡◌, refl, some, List, [], ◌∷◌, length}
use compute_agent.Clock.{Duration, seconds}
use compute_agent.Control.Backoff.{backoff_after-power}
use compute_agent.Control.Session.{Session, new_session, Event, run}
use compute_agent.Control.Session.Soundness.{Doubles, run-IsSound}

-- So many pauses, the latest first.
abbrev pub pauses_of : ℕ → List Duration
pauses_of zero = []
pauses_of (suc n) = seconds (min (2 ^ n) 30) ∷ pauses_of n

Doubles-pauses_of : (ds : List Duration) → Doubles ds → ds ≡ pauses_of (length ds)
Doubles-pauses_of [] h = refl
Doubles-pauses_of (d ∷ ds) h =
    rw (h.0, backoff_after-power (length ds), ← Doubles-pauses_of ds h.1) refl

-- In every state that the loop can reach, the pauses that it has made since the last registration
-- that was accepted, or since its start, were of one second, two, four and so on, each of the next
-- power of two but none above thirty seconds, and the pause that would come next is of the power
-- after them, under the same bound.
pub run-pauses :
    (es : List Event) (s : Session)
    → run es new_session ≡ some s
    → (s.pauses ≡ pauses_of (length s.pauses))
      × (s.backoff ≡ seconds (min (2 ^ length s.pauses) 30))
run-pauses es s h =
    let v = run-IsSound es s h in
    (Doubles-pauses_of s.pauses v.paused, rw (v.next, backoff_after-power (length s.pauses)) refl)
