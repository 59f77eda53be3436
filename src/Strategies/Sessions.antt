-- ===== src/Strategies/Sessions.antt =====
-- The FIX sessions of strategies: who may log on, and which strategies are live.
pub mod Live
use openoms.Base.{
  Bool, true, false, ◌&&◌, not, String, str_eq, Option, none, some, List, [], ◌∷◌, Result, ok, err,
  ◌>>=◌, if◌then◌else◌, ok_or,
}
use openoms.Orders.Risk.{TradingState, active, reducing, halted}
use openoms.Strategies.{Strategy}

pub record SessionKey : Type 0 where
  pub sender_comp_id : String
  pub target_comp_id : String

abbrev pub same_key : SessionKey → SessionKey → Bool
same_key a b = str_eq a.sender_comp_id b.sender_comp_id && str_eq a.target_comp_id b.target_comp_id

abbrev pub is_halted : TradingState → Bool
is_halted halted = true
is_halted _ = false

-- `Option::is_some_and`
abbrev pub is_some_and : {A : Type 0} → (A → Bool) → Option A → Bool
is_some_and p none = false
is_some_and p (some a) = p a

module _ {F : Type 0} where
  -- The checks after the password's.
  unfoldable pub admits : Strategy F → Bool → Result (Unit {0}) String
  admits s live =
      if is_halted s.state
      then err "strategy is halted"
      else (if not s.rest_enabled
          then err "strategy is stopped"
          else (if live then err "a session is already logged on" else ok tt))

  -- `verify_fix_password` checks a password against its hash.
  unfoldable pub logon_decision :
      (String → String → Bool)
      → Option (Strategy F)
      → Option String
      → Bool
      → Result (Unit {0}) String
  unfolding admits
  logon_decision verify_fix_password strategy password live = do
    s ← ok_or strategy "unknown CompIDs"
    hash ← ok_or s.fix_password_hash "no FIX password set"
    (if not (is_some_and (λ p. verify_fix_password p hash) password)
        then err "wrong password"
        else admits s live)

-- Which strategies are live, as a set of codes, and the strategy behind each session.
pub record FixSessions (F : Type 0) : Type 0 where
  pub live : String → Bool
  pub sessions : SessionKey → Option (Strategy F)

abbrev pub set_code : (String → Bool) → String → Bool → String → Bool
set_code live code b other = if str_eq other code then b else live other

module _ {F : Type 0} where
  abbrev pub set_session :
      (SessionKey → Option (Strategy F))
      → SessionKey
      → Option (Strategy F)
      → SessionKey
      → Option (Strategy F)
  set_session sessions key s other = if same_key other key then s else sessions other

  unfoldable pub logged_on : FixSessions F → SessionKey → Strategy F → FixSessions F
  logged_on x key strategy = record {
    live = set_code x.live strategy.code true;
    sessions = set_session x.sessions key (some strategy);
  }

  unfoldable pub logged_out : FixSessions F → SessionKey → FixSessions F
  logged_out x key = elim (x.sessions key) [
    | none ↦ x
    | some strategy ↦ record {
      live = set_code x.live strategy.code false;
      sessions = set_session x.sessions key none;
    }
  ]

  abbrev pub session_key : Strategy F → SessionKey
  session_key s = record { sender_comp_id = s.sender_comp_id; target_comp_id = s.target_comp_id }

  -- The registry's snapshot is a list of strategies.
  unfoldable pub by_comp_ids : List (Strategy F) → SessionKey → Option (Strategy F)
  by_comp_ids [] key = none
  by_comp_ids (s ∷ rest) key =
      let found = by_comp_ids rest key in if same_key (session_key s) key then some s else found

-- What the acceptor reports that changes the sessions.
pub data Inbound : Type 0 where
  logon logout : SessionKey → Inbound

module _ {F : Type 0} where
  -- The arms of `run`, with the registry as it is then.
  unfoldable pub handle : FixSessions F → List (Strategy F) × Inbound → FixSessions F
  unfolding by_comp_ids logged_on logged_out
  handle x (registry, logon key) = elim (by_comp_ids registry key) [
    | none ↦ x
    | some strategy ↦ logged_on x key strategy
  ]
  handle x (registry, logout key) = logged_out x key

  unfoldable pub run : FixSessions F → List (List (Strategy F) × Inbound) → FixSessions F
  unfolding handle
  run x [] = x
  run x (e ∷ es) = run (handle x e) es

  abbrev pub no_sessions : FixSessions F
  no_sessions = record { live = λ _. false; sessions = λ _. none }
