-- ===== src/Strategies/Sessions/Live.antt =====
-- A strategy is live exactly while its session is on.
use openoms.Base.{◌≡◌, Bool, false, String, str_eq, Option, none, some, List, All}
use openoms.Strategies.{Strategy}
use openoms.Strategies.Sessions.{SessionKey, FixSessions, session_key}

-- The code of a session's strategy.
abbrev pub has_code : {F : Type 0} → String → Option (Strategy F) → Bool
has_code code none = false
has_code code (some s) = str_eq s.code code

-- A registry in which every strategy has the session key that belongs to its code.
abbrev pub IsRegistry : {F : Type 0} → (String → SessionKey) → List (Strategy F) → Type 0
IsRegistry owner registry = All (λ s. owner s.code ≡ session_key s) registry

module _ {F : Type 0} (owner : String → SessionKey)
    (injective : (a b : String) → owner a ≡ owner b → a ≡ b) where
  -- A session is its strategy's, and a strategy is live if its session is on.
  record IsTracked (x : FixSessions F) : Type 0 where
    owned : (k : SessionKey) (s : Strategy F) → x.sessions k ≡ some s → owner s.code ≡ k
    live_at : (c : String) → x.live c ≡ has_code c (x.sessions (owner c))
