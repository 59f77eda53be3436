-- ===== src/EventStore.antt =====
-- src/event_store.rs: the append-only stream of an order, with its version check.
use openoms.Base.{
  ℕ, suc, ◌+◌, ◌%◌, ◌^◌, List, [], ◌∷◌, ◌++◌, Result, ok, err, if◌then◌else◌, leb, ◌==◌,
}
use openoms.Orders.Events.{OrderDomainEvent}

-- A row of `order_event`: the version column, an i64 by its bit pattern, and the payload.
pub record StoredEvent (F T : Type 0) : Type 0 where
  pub version : ℕ
  pub event : OrderDomainEvent F T

pub record ConcurrencyError : Type 0 where
  pub expected : ℕ
  pub actual : ℕ

module _ {F T : Type 0} where
  -- `COALESCE(MAX(version), 0)`
  unfoldable pub current_version : List (StoredEvent F T) → ℕ
  current_version [] = 0
  current_version (e ∷ es) =
      let rest = current_version es in if leb rest e.version then e.version else rest

  -- The loop of the inserts, from an index on.
  unfoldable pub number_events : ℕ → ℕ → List (OrderDomainEvent F T) → List (StoredEvent F T)
  number_events expected index [] = []
  number_events expected index (e ∷ es) =
      record { version = (expected + index + 1) % 2 ^ 64; event = e }
      ∷ number_events expected (suc index) es

  unfoldable pub append_events :
      List (StoredEvent F T)
      → ℕ
      → List (OrderDomainEvent F T)
      → Result (List (StoredEvent F T)) ConcurrencyError
  unfolding current_version number_events
  append_events stream expected [] = ok stream
  append_events stream expected (e ∷ es) =
      if current_version stream == expected
      then ok (stream ++ number_events expected 0 (e ∷ es))
      else err (record { expected = expected; actual = current_version stream })
