-- ===== src/Tests/Streams.antt =====
-- A stream that flaps, recovers and drops.
use openoms.Base.{ℕ, ◌≤◌, ◌≡◌, refl, none, List, [], ◌∷◌, ok, err, map, All}
use openoms.Streams.{
  Key, Call, handle, set_connecting, set_live, set_down, record_event, StreamKind, Session, run,
  supervise, started,
}
use openoms.Streams.Health.{IsKept, run-IsKept}
use openoms.Streams.Backoff.{expected_waits, supervise-expected_waits, supervise-bounds}

abbrev alpaca : Key
alpaca = ("ALPACA", "paper")

abbrev calls : List (Call ℕ)
calls =
    handle alpaca StreamKind.execution
    ∷ set_connecting alpaca
    ∷ set_live alpaca 5
    ∷ record_event alpaca 7
    ∷ set_down alpaca "timed out"
    ∷ []

run-IsKept_example : IsKept (run (λ _. none) calls)
run-IsKept_example = run-IsKept calls

abbrev flap : Session ℕ
flap = record { calls = []; result = err "refused"; lasted = 2 }

abbrev long : Session ℕ
long = record { calls = set_live alpaca 9 ∷ []; result = ok tt; lasted = 3600 }

abbrev sessions : List (Session ℕ)
sessions = flap ∷ flap ∷ flap ∷ flap ∷ flap ∷ flap ∷ long ∷ flap ∷ []

waits : supervise alpaca (started (λ _. none)) sessions ≡ 1 ∷ 2 ∷ 4 ∷ 8 ∷ 16 ∷ 30 ∷ 1 ∷ 2 ∷ []
unfolding supervise started
waits = refl

supervise-expected_waits_example :
    supervise alpaca (started (λ _. none)) sessions
    ≡ expected_waits 0 (map (λ x. x.lasted) sessions)
supervise-expected_waits_example = supervise-expected_waits alpaca (λ _. none) sessions

supervise-bounds_example :
    All (λ w. (1 ≤ w) × (w ≤ 30)) (supervise alpaca (started (λ _. none)) sessions)
supervise-bounds_example = supervise-bounds alpaca (λ _. none) sessions
