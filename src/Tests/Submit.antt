-- ===== src/Tests/Submit.antt =====
-- An order submitted over small reference data.
use openoms.Base.{ℕ, ◌+◌, ◌^◌, ◌<◌, ◌≡◌, refl, true, String, none, some, List, [], ◌∷◌, ok, arith}
use openoms.Float.Sample.{Sample, sample_float}
use openoms.RiskEngine.{RiskDataProvider}
use openoms.Execution.{Store}
use openoms.Strategies.{Origin}
use openoms.OrderEntry.Preflight.{
  Catalog, AccountRow, InstrumentRow, BrokerInstrumentRow, Preflight, preflight,
}
use openoms.OrderEntry.Preflight.Sound.{IsChecked, preflight-IsChecked}
use openoms.OrderEntry.Submit.{Submitter, accept_order}
use openoms.OrderEntry.Submit.Outcomes.{Outcome, accept_order-Outcome}
use openoms.Gateway.{Uuid}
use openoms.EventStore.{StoredEvent, current_version}
use openoms.Orders.State.{OrderStatus, OrderAggregateState}
use openoms.Orders.Aggregate.Decide.{fill_event}
use openoms.OrderEngine.Represents.{Represents}
use openoms.OrderEntry.Placing.{place_order}
use openoms.OrderEntry.Placing.Outcomes.{place_order-Outcome}
use openoms.OrderEntry.Placing.Outcomes as Placing
use openoms.Tests.Data.{number, meta, submit_ten, part_filled}

abbrev paper : AccountRow
paper = record {
  connection_status = "ACTIVE";
  broker_code = "ALPACA";
  environment = "paper";
  broker_connection_code = "alpaca-paper";
  external_account_ref = "PA-1";
  portfolio_id = some "p-1";
}

abbrev stock : InstrumentRow Sample
stock = record {
  instrument_class = "EQUITY";
  status = "ACTIVE";
  currency = "USD";
  contract_size = number 1;
}

abbrev listed : BrokerInstrumentRow Sample
listed = record {
  is_tradeable = true;
  broker_symbol = "X";
  native_id = none;
  min_quantity = some (number 1);
}

abbrev catalog : Catalog Sample
catalog = record {
  default_account = λ _. some "a-1";
  account = λ _. some paper;
  instrument = λ _. some stock;
  broker_instrument = λ _ _. some listed;
}

abbrev looked_up : Preflight Sample
looked_up = record { cmd = submit_ten; account = paper; instrument = stock; mapping = listed }

passes : preflight catalog none submit_ten ≡ ok looked_up
unfolding preflight
passes = refl

preflight-IsChecked_example : IsChecked catalog none submit_ten looked_up
preflight-IsChecked_example = preflight-IsChecked catalog none submit_ten looked_up passes

abbrev trader : Submitter Sample
trader = record {
  principal_id = "u-1";
  can_trade = true;
  origin = Origin.api;
  known = true;
  locked = none;
  live = true;
}

abbrev no_limits : RiskDataProvider Sample ℕ String
no_limits = record {
  risk_config = λ _. ok none;
  exposure = λ _. ok (record { position_qty = number 0; working_qty = number 0 });
}

abbrev no_orders : Store Sample ℕ
no_orders = record {
  rows = λ _. none;
  external_order_ids = λ _. none;
  streams = λ _. [];
  positions = λ _. none;
}

accept_order-Outcome_example :
    Outcome no_limits trader looked_up
      (ok none)
      no_orders
      "o-1"
      (accept_order no_limits trader looked_up (ok none) no_orders "o-1" meta)
accept_order-Outcome_example =
    accept_order-Outcome no_limits trader looked_up no_orders "o-1" (λ _. refl) meta (ok none)

-- Texts stand for UUIDs.
instance abbrev text_ids : Uuid String
text_ids = record { to_text = λ s. s }

-- The order was canceled while the venue took it.
abbrev gone : OrderAggregateState Sample
gone = record part_filled { status = OrderStatus.canceled; version = 2 }

abbrev stream : List (StoredEvent Sample ℕ)
stream =
    record {
      version = 2;
      event = fill_event part_filled "o-1" "x-0" (number 4) (number 100) "XNYS" (meta 3);
    }
    ∷ []

abbrev canceled_here : Store Sample ℕ
canceled_here = record no_orders { rows = λ _. some gone; streams = λ _. stream }

taken :
    place_order {Key = String}
      (some (λ _. ok "v-1"))
      gone
      canceled_here
      "o-1"
      looked_up
      (λ n _. meta n)
    ≡ record { store = canceled_here; answered = ok tt; cancels = ("v-1", "X") ∷ [] }
unfolding place_order
taken = refl

represents : Represents canceled_here "o-1" gone stream
unfolding current_version
represents = (refl, refl, refl, refl)

small : gone.version + 1 < 2 ^ 62
small = omega arith

place_order-Outcome_example :
    Placing.Outcome {Key = String} canceled_here "o-1" gone stream represents small
      (λ n _. meta n)
      looked_up
      (some (ok "v-1"))
      (place_order {Key = String}
        (some (λ _. ok "v-1"))
        gone
        canceled_here
        "o-1"
        looked_up
        (λ n _. meta n))
place_order-Outcome_example =
    place_order-Outcome canceled_here "o-1" gone stream represents small (λ n _. meta n)
      (some (λ _. ok "v-1")) gone looked_up
