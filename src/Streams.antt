-- ===== src/Streams.antt =====
-- crates/gateway/src/stream_health.rs and stream_supervisor.rs: the health of the broker streams, and
-- the loop that reconnects one.
pub mod Health
pub mod Backoff
use openoms.Base.{
  ℕ, ◌*◌, Bool, ◌&&◌, String, str_eq, Option, none, some, List, [], ◌∷◌, Result, ok, err, leb,
  if◌then◌else◌, or_option, map_option,
}

pub data StreamState : Type 0 where
  connecting live down : StreamState

pub data StreamKind : Type 0 where
  feed execution : StreamKind

pub data StreamTransport : Type 0 where
  web_socket fix : StreamTransport

-- A snapshot of one stream; `T` is a point in time.
pub record StreamHealth (T : Type 0) : Type 0 where
  pub broker_code : String
  pub environment : String
  pub kind : StreamKind
  pub transport : StreamTransport
  pub state : StreamState
  pub connected_since : Option T
  pub last_event_at : Option T
  pub last_error : Option String

abbrev pub Key : Type 0
Key = String × String

abbrev pub same_key : Key → Key → Bool
same_key a b = str_eq a.0 b.0 && str_eq a.1 b.1

-- The map behind the lock, which no writer is taken to have poisoned.
abbrev pub Registry : Type 0 → Type 0
Registry T = Key → Option (StreamHealth T)

module _ {T : Type 0} where
  unfoldable pub set_entry : Registry T → Key → Option (StreamHealth T) → Registry T
  set_entry map key entry other = if same_key other key then entry else map other

  unfoldable pub seeded : Key → StreamKind → StreamTransport → StreamHealth T
  seeded key kind transport = record {
    broker_code = key.0;
    environment = key.1;
    kind = kind;
    transport = transport;
    state = StreamState.connecting;
    connected_since = none;
    last_event_at = none;
    last_error = none;
  }

  -- `entry(key).or_insert_with(…)`
  unfoldable pub handle_with_transport :
      Registry T → Key → StreamKind → StreamTransport → Registry T
  unfolding set_entry seeded
  handle_with_transport map key kind transport =
      set_entry map key (or_option (map key) (some (seeded key kind transport)))

  unfoldable pub mutate : Registry T → Key → (StreamHealth T → StreamHealth T) → Registry T
  unfolding set_entry
  mutate map key f = set_entry map key (map_option f (map key))

  unfoldable pub connecting_of : StreamHealth T → StreamHealth T
  connecting_of h = record h { state = StreamState.connecting; connected_since = none }

  unfoldable pub live_of : T → StreamHealth T → StreamHealth T
  live_of now h = record h {
    state = StreamState.live;
    connected_since = some now;
    last_event_at = some now;
    last_error = none;
  }

  unfoldable pub down_of : String → StreamHealth T → StreamHealth T
  down_of error h = record h {
    state = StreamState.down;
    connected_since = none;
    last_error = some error;
  }

  unfoldable pub event_of : T → StreamHealth T → StreamHealth T
  event_of now h = record h { last_event_at = some now }

-- The calls of the registry and of a stream's handle.
pub data Call (T : Type 0) : Type 0 where
  handle : Key → StreamKind → Call T
  fix_handle set_connecting : Key → Call T
  set_live record_event : Key → T → Call T
  set_down : Key → String → Call T

module _ {T : Type 0} where
  unfoldable pub step : Registry T → Call T → Registry T
  unfolding handle_with_transport mutate connecting_of live_of down_of event_of
  step map (handle key kind) = handle_with_transport map key kind StreamTransport.web_socket
  step map (fix_handle key) = handle_with_transport map key StreamKind.execution StreamTransport.fix
  step map (set_connecting key) = mutate map key connecting_of
  step map (set_live key now) = mutate map key (live_of now)
  step map (set_down key error) = mutate map key (down_of error)
  step map (record_event key now) = mutate map key (event_of now)

  unfoldable pub run : Registry T → List (Call T) → Registry T
  unfolding step
  run map [] = map
  run map (c ∷ cs) = run (step map c) cs

-- One session as the supervisor sees it: the calls it makes on its handle, how it ended, and the
-- seconds it lasted.
pub record Session (T : Type 0) : Type 0 where
  pub calls : List (Call T)
  pub result : Result (Unit {0}) String
  pub lasted : ℕ

-- The supervisor between two rounds.
pub record Supervisor (T : Type 0) : Type 0 where
  pub health : Registry T
  pub backoff_secs : ℕ

abbrev pub initial_backoff_secs : ℕ
initial_backoff_secs = 1

abbrev pub max_backoff_secs : ℕ
max_backoff_secs = 30

abbrev pub stable_after_secs : ℕ
stable_after_secs = 60

-- `(backoff_secs * 2).min(MAX_BACKOFF_SECS)`
unfoldable pub next_backoff : ℕ → ℕ
next_backoff secs = if leb (secs * 2) max_backoff_secs then secs * 2 else max_backoff_secs

-- The reset after a stable session.
unfoldable pub backoff_after : ℕ → ℕ → ℕ
backoff_after secs lasted = if leb stable_after_secs lasted then initial_backoff_secs else secs

unfoldable pub closed_with : Result (Unit {0}) String → String
closed_with (ok _) = "stream closed"
closed_with (err e) = e

module _ {T : Type 0} where
  -- A round of the loop, with the seconds it sleeps at its end.
  unfoldable pub round : Key → Supervisor T → Session T → Supervisor T × ℕ
  unfolding run step closed_with backoff_after next_backoff
  round key s session =
      let wait = backoff_after s.backoff_secs session.lasted in
      (
        record {
          health =
              step (run (step s.health (set_connecting key)) session.calls)
                (set_down key (closed_with session.result));
          backoff_secs = next_backoff wait;
        },
        wait,
      )

  -- The sleeps of `supervise` over the sessions that it runs.
  unfoldable pub supervise : Key → Supervisor T → List (Session T) → List ℕ
  unfolding round
  supervise key s [] = []
  supervise key s (session ∷ sessions) =
      (round key s session).1 ∷ supervise key (round key s session).0 sessions

  unfoldable pub started : Registry T → Supervisor T
  started health = record { health = health; backoff_secs = initial_backoff_secs }
