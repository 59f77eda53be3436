-- ===== src/Gateway.antt =====
-- crates/gateway/src/contract.rs and the errors of adapter.rs: what connectors report to the engine.
use openoms.Base.{ℕ, ◌||◌, String, ◌<>◌, Option, List, Result, if◌then◌else◌, leb, ◌==◌}

-- UUIDs, from the library `uuid`, with their text form.
pub record Uuid (Key : Type 0) : Type 0 where
  pub to_text : Key → String

pub data ExecSource : Type 0 where
  session snapshot : ExecSource

-- `working` is an order that is still open at the broker.
pub data BrokerOrderOutcome : Type 0 where
  filled canceled rejected working : BrokerOrderOutcome

pub record BrokerOrderState (F : Type 0) : Type 0 where
  pub outcome : BrokerOrderOutcome
  pub executed_qty : F
  pub avg_px : F

pub data ExecKind (F : Type 0) : Type 0 where
  fill : (execution_id : String) (qty price : F) → ExecKind F
  cumulative : (cum_qty avg_px : F) → ExecKind F
  terminal : BrokerOrderState F → ExecKind F
  canceled : (reason : Option String) → ExecKind F
  rejected : (reason : String) → ExecKind F
  ack : (venue_order_id : String) → ExecKind F

pub record ExecEvent (F Key : Type 0) : Type 0 where
  pub order_id : Key
  pub venue : String
  pub actor : String
  pub source : ExecSource
  pub kind : ExecKind F

pub data VenueReport (F : Type 0) : Type 0 where
  fill : (execution_id : String) (fill_qty fill_price : F) (venue : String) → VenueReport F
  reject : (reason : String) (venue : Option String) → VenueReport F
  canceled : (reason venue : Option String) → VenueReport F

-- The `match report` of `from_report`.
abbrev pub kind_of_report : {F : Type 0} → VenueReport F → ExecKind F
kind_of_report (VenueReport.fill execution_id fill_qty fill_price _) =
    ExecKind.fill execution_id fill_qty fill_price
kind_of_report (VenueReport.canceled reason _) = ExecKind.canceled reason
kind_of_report (VenueReport.reject reason _) = ExecKind.rejected reason

abbrev pub from_report : {F Key : Type 0} → Key → String → String → VenueReport F → ExecEvent F Key
from_report order_id venue actor report = record {
  order_id = order_id;
  venue = venue;
  actor = actor;
  source = ExecSource.session;
  kind = kind_of_report report;
}

pub record BrokerOpenOrder (F : Type 0) : Type 0 where
  pub client_order_id : String
  pub venue_order_id : String
  pub symbol : String
  pub executed_qty : F

pub data BrokerError : Type 0 where
  network broker_rejected not_configured no_such_order : String → BrokerError

-- The `Display` of a `BrokerError`.
abbrev pub error_text : BrokerError → String
error_text (BrokerError.network msg) = "network error: " <> msg
error_text (BrokerError.broker_rejected msg) = "broker rejected: " <> msg
error_text (BrokerError.not_configured msg) = "not configured: " <> msg
error_text (BrokerError.no_such_order msg) = "no such order: " <> msg

-- `display` writes a status code.
abbrev pub http_failure : (display : ℕ → String) → ℕ → String → BrokerError
http_failure display status body =
    if leb 500 status || status == 429
    then BrokerError.network ("HTTP " <> (display status <> (": " <> body)))
    else BrokerError.broker_rejected body

-- What reconciliation asks of a `BrokerAdapter`, with the broker's answers during one pass.
pub record BrokerAdapter (F : Type 0) : Type 0 where
  pub open_orders : Result (List (BrokerOpenOrder F)) BrokerError
  pub order_status : String → String → String → Result (BrokerOrderState F) BrokerError
