-- ===== src/Tests/MarkRouter.antt =====
-- The mark router at small inputs.
use openoms.Base.{ℕ, ◌*◌, ◌^◌, ◌≡◌, refl, none, some, List, [], ◌∷◌, inl, inr, arith}
use openoms.Base.Int.{pos}
use openoms.Float.Sample.{Sample, sample_float}
use openoms.MarkRouter.{Quote, Active, Router, Policy, run}
use openoms.MarkRouter.Mirror.{IsMirrored, run-IsMirrored}
use openoms.MarkRouter.Ownership.{run-owner}
use openoms.Tests.Data.{number}

abbrev policy : Policy
policy = record { rank_of = λ _ _. none; class_of = λ _. some "SPOT" }

abbrev idle : Router Sample
idle = record { active = λ _. none; marks = λ _. none; lane = [] }

abbrev owner : Active
owner = record { source = "BINANCE"; rank = pos 1; at = 0 }

abbrev owned : Router Sample
owned = record idle {
  active = λ _. some owner;
  marks = λ _. some (record { bid = number 9; ask = number 10; ts = 0 });
}

abbrev quote : ℕ → ℕ → Quote Sample
quote id at = record {
  instrument_id = id;
  bid = number 11;
  ask = number 12;
  ts_recv = at;
  source_code = "BYBIT";
}

-- A quote for another instrument, then one for instrument 1 after nine seconds.
abbrev quotes : List (Quote Sample × ℕ)
quotes = (quote 2 5, 5) ∷ (quote 1 (9 * 10 ^ 9), 6) ∷ []

run-IsMirrored_example : IsMirrored (run policy idle quotes)
run-IsMirrored_example = run-IsMirrored policy idle quotes (λ i. refl)

run-owner_example :
    ((run policy owned quotes).active 1 ≡ some owner)
    × ((run policy owned quotes).marks 1 ≡ owned.marks 1)
run-owner_example =
    run-owner policy 1 "SPOT" owner refl owned quotes refl (
      inl refl,
      (inr (refl, record { other = refl; not_better = refl; in_time = omega arith }), tt),
    )
