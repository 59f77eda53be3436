-- ===== src/Streams/Backoff.antt =====
-- The waits of the supervisor.
use openoms.Base.{
  ℕ, zero, suc, ◌*◌, ◌^◌, ◌≤◌, ◌≡◌, refl, List, [], ◌∷◌, leb, if◌then◌else◌, map, All, arith,
  Bool-cases, inl, inr, ap, ◌∙◌, sym, subst,
}
use openoms.Streams.{
  Key, Registry, Session, Supervisor, stable_after_secs, next_backoff, backoff_after, round,
  supervise, started,
}

-- 2 ^ k seconds, at most half a minute.
abbrev pub capped : ℕ → ℕ
capped k = if leb (2 ^ k) 30 then 2 ^ k else 30

-- The waits by the number of sessions in a row that were not stable.
unfoldable pub expected_waits : ℕ → List ℕ → List ℕ
expected_waits flaps [] = []
expected_waits flaps (lasted ∷ rest) =
    let since = if leb stable_after_secs lasted then 0 else flaps in
    capped since ∷ expected_waits (suc since) rest

pow_suc : (k : ℕ) → 2 ^ suc k ≡ 2 * 2 ^ k
pow_suc k = omega arith

next_backoff-capped : (k : ℕ) → next_backoff (capped k) ≡ capped (suc k)
unfolding next_backoff
next_backoff-capped k = ground (arith, pow_suc k)

backoff_after-capped :
    (secs flaps lasted : ℕ)
    → secs ≡ capped flaps
    → backoff_after secs lasted ≡ capped (if leb stable_after_secs lasted then 0 else flaps)
unfolding backoff_after
backoff_after-capped secs flaps lasted h = elim (Bool-cases (leb stable_after_secs lasted)) [
  | inl stable ↦ rw (stable, backoff_after) refl
  | inr short ↦ rw (short, backoff_after) h
]

module _ {T : Type 0} (key : Key) where
  supervise_from :
      (s : Supervisor T) (flaps : ℕ) (sessions : List (Session T))
      → s.backoff_secs ≡ capped flaps
      → supervise key s sessions ≡ expected_waits flaps (map (λ x. x.lasted) sessions)
  unfolding supervise round expected_waits
  supervise_from s flaps [] h = refl
  supervise_from s flaps (x ∷ xs) h =
      let since = if leb stable_after_secs x.lasted then 0 else flaps in
      let wait = backoff_after-capped s.backoff_secs flaps x.lasted h in
      let rest =
        supervise_from (round key s x).0 (suc since) xs
          (ap next_backoff wait ∙ next_backoff-capped since) in
      λ i. wait i ∷ rest i

  -- The supervisor waits after each session for 2^k seconds, but no more than 30, where k counts the
  -- sessions in a row before it, back to the last that was up for 60 seconds or, if none was, to the
  -- start; after a session that was up so long, k is 0.
  pub supervise-expected_waits :
      (health : Registry T) (sessions : List (Session T))
      → supervise key (started health) sessions ≡ expected_waits 0 (map (λ x. x.lasted) sessions)
  unfolding started
  supervise-expected_waits health sessions = supervise_from (started health) 0 sessions refl

pow_positive : (k : ℕ) → 1 ≤ 2 ^ k
pow_positive zero = omega arith
pow_positive (suc k) = omega (arith, pow_suc k, pow_positive k)

capped-bounds : (k : ℕ) → (1 ≤ capped k) × (capped k ≤ 30)
capped-bounds k = (ground (arith, pow_positive k), ground (arith, pow_positive k))

expected_waits-bounds :
    (lasted : List ℕ) (flaps : ℕ) → All (λ w. (1 ≤ w) × (w ≤ 30)) (expected_waits flaps lasted)
unfolding expected_waits
expected_waits-bounds [] flaps = tt
expected_waits-bounds (x ∷ xs) flaps =
    let since = if leb stable_after_secs x then 0 else flaps in
    (capped-bounds since, expected_waits-bounds xs (suc since))

-- The supervisor never reconnects at once, and never waits for more than 30 seconds.
pub supervise-bounds :
    {T : Type 0} (key : Key) (health : Registry T) (sessions : List (Session T))
    → All (λ w. (1 ≤ w) × (w ≤ 30)) (supervise key (started health) sessions)
supervise-bounds key health sessions =
    subst (All (λ w. (1 ≤ w) × (w ≤ 30))) (sym (supervise-expected_waits key health sessions))
      (expected_waits-bounds (map (λ x. x.lasted) sessions) 0)
