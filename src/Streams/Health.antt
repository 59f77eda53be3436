-- ===== src/Streams/Health.antt =====
-- The health of every stream agrees with its state.
use openoms.Base.{
  ◌≡◌, refl, sym, subst, inl, inr, true, Bool-cases, String, eq_iff, Option, none, some, List, [],
  ◌∷◌, arith, or_option, map_option,
}
use openoms.Streams.{
  StreamState, connecting, live, down, StreamKind, StreamTransport, StreamHealth, Key, same_key,
  Registry, set_entry, seeded, handle_with_transport, mutate, connecting_of, live_of, down_of,
  event_of, Call, handle, fix_handle, set_connecting, set_live, record_event, set_down, step, run,
}

same_key-eq : (a b : Key) → same_key a b ≡ true → a ≡ b
same_key-eq a b h = λ i. (first i, second i)
  where
    first : a.0 ≡ b.0
    first = ground (arith, eq_iff a.0 b.0, h)

    second : a.1 ≡ b.1
    second = ground (arith, eq_iff a.1 b.1, h)

module _ {T : Type 0} where
  -- What a state says of the rest of the snapshot.
  abbrev pub OfState : StreamState → Option T → Option T → Option String → Type 0
  OfState connecting since last error = since ≡ none
  OfState live since last error =
      ((t : T) × (since ≡ some t)) × ((t : T) × (last ≡ some t)) × (error ≡ none)
  OfState down since last error = (since ≡ none) × ((e : String) × (error ≡ some e))

  abbrev pub IsHealthy : Key → StreamHealth T → Type 0
  IsHealthy key h =
      (h.broker_code ≡ key.0)
      × (h.environment ≡ key.1)
      × OfState h.state h.connected_since h.last_event_at h.last_error

  abbrev pub AtEntry : (StreamHealth T → Type 0) → Option (StreamHealth T) → Type 0
  AtEntry P none = Unit
  AtEntry P (some h) = P h

  abbrev pub IsKept : Registry T → Type 0
  IsKept map = (key : Key) → AtEntry (IsHealthy key) (map key)

  set_entry-IsKept :
      (map : Registry T) (key : Key) (entry : Option (StreamHealth T))
      → IsKept map
      → AtEntry (IsHealthy key) entry
      → IsKept (set_entry map key entry)
  unfolding set_entry
  set_entry-IsKept map key entry kept at other = elim (Bool-cases (same_key other key)) [
    | inl e ↦
        rw (e, set_entry)
          (subst (λ k. AtEntry (IsHealthy k) entry) (sym (same_key-eq other key e)) at)
    | inr e ↦ rw (e, set_entry) (kept other)
  ]

  mutate-IsKept :
      (map : Registry T) (key : Key) (f : StreamHealth T → StreamHealth T)
      → ((h : StreamHealth T) → IsHealthy key h → IsHealthy key (f h))
      → IsKept map
      → IsKept (mutate map key f)
  unfolding mutate
  mutate-IsKept map key f keeps kept =
      set_entry-IsKept map key (map_option f (map key)) kept (mapped (map key) (kept key))
    where
      mapped :
          (entry : Option (StreamHealth T))
          → AtEntry (IsHealthy key) entry
          → AtEntry (IsHealthy key) (map_option f entry)
      mapped none at = tt
      mapped (some h) at = keeps h at

  handle-IsKept :
      (map : Registry T) (key : Key) (kind : StreamKind) (transport : StreamTransport)
      → IsKept map
      → IsKept (handle_with_transport map key kind transport)
  unfolding handle_with_transport seeded
  handle-IsKept map key kind transport kept =
      set_entry-IsKept map key (or_option (map key) (some (seeded key kind transport))) kept
        (either (map key) (kept key))
    where
      either :
          (entry : Option (StreamHealth T))
          → AtEntry (IsHealthy key) entry
          → AtEntry (IsHealthy key) (or_option entry (some (seeded key kind transport)))
      either none at = (refl, refl, refl)
      either (some h) at = at

  event-OfState :
      (now : T) (state : StreamState) (since last : Option T) (error : Option String)
      → OfState state since last error
      → OfState state since (some now) error
  event-OfState now connecting since last error h = h
  event-OfState now live since last error (h, _, e) = (h, (now, refl), e)
  event-OfState now down since last error h = h

  step-IsKept : (map : Registry T) (call : Call T) → IsKept map → IsKept (step map call)
  unfolding step connecting_of live_of down_of event_of
  step-IsKept map (handle key kind) kept = handle-IsKept map key kind _ kept
  step-IsKept map (fix_handle key) kept = handle-IsKept map key _ _ kept
  step-IsKept map (set_connecting key) kept =
      mutate-IsKept map key connecting_of (λ h at. (at.0, at.1, refl)) kept
  step-IsKept map (set_live key now) kept =
      mutate-IsKept map key (live_of now) (λ h at. (at.0, at.1, ((now, refl), (now, refl), refl)))
        kept
  step-IsKept map (set_down key error) kept =
      mutate-IsKept map key (down_of error) (λ h at. (at.0, at.1, (refl, (error, refl)))) kept
  step-IsKept map (record_event key now) kept =
      mutate-IsKept map key (event_of now)
        (λ h at. (
          at.0,
          at.1,
          event-OfState now h.state h.connected_since h.last_event_at h.last_error at.2,
        ))
        kept

  run-from : (map : Registry T) (calls : List (Call T)) → IsKept map → IsKept (run map calls)
  unfolding run
  run-from map [] kept = kept
  run-from map (c ∷ cs) kept = run-from (step map c) cs (step-IsKept map c kept)

  -- After any calls of the registry and its handles, every snapshot stands under its own broker and
  -- environment; one of a live stream tells since when it is connected and when it had its last
  -- event, and no error; one of another stream tells no time of connection; and one that is down
  -- tells the error.
  pub run-IsKept : (calls : List (Call T)) → IsKept (run (λ _. none) calls)
  run-IsKept calls = run-from (λ _. none) calls (λ key. tt)
