-- ===== src/Tests/EventBus.antt =====
-- A transfer to a portfolio that is named twice.
use openoms.Base.{ℕ, ◌≡◌, [], ◌∷◌, ◌==◌, arith}
use openoms.Positions.{KeyEq}
use openoms.Positions.Replay.{IsEquality}
use openoms.EventBus.{has_seen, publish_transfer}
use openoms.EventBus.Transfers.{announced, publish_transfer-once}

instance abbrev portfolio_keys : KeyEq ℕ
portfolio_keys = record { same = ◌==◌ }

portfolios-IsEquality : IsEquality ℕ
portfolios-IsEquality = ground arith

publish_transfer-once_example :
    announced {K = ℕ} 2 (publish_transfer 1 (2 ∷ 3 ∷ 2 ∷ 1 ∷ []) "7") ≡ 1
unfolding has_seen
publish_transfer-once_example =
    publish_transfer-once portfolios-IsEquality 1 (2 ∷ 3 ∷ 2 ∷ 1 ∷ []) "7" 2
