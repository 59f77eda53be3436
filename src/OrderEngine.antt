-- ===== src/OrderEngine.antt =====
-- src/order_engine.rs: what the engine books for an event of a connector.
pub mod Booking
pub mod Closing
pub mod Slots
pub mod Stored
pub mod Represents
pub mod Refinement
use openoms.Base.{Bool, true, false, String, ◌<>◌, Option, none, some, List, [], ◌∷◌, ◌++◌}
use openoms.Float.{Float64}
use openoms.Orders.Commands.{ExecutionReport}
use openoms.Gateway.{Uuid, ExecKind, ExecEvent, BrokerOrderOutcome, BrokerOrderState}
use openoms.Recon.{missing_qty, increment_price}

unfoldable pub needs_booked_state : {F : Type 0} → ExecKind F → Bool
needs_booked_state (ExecKind.cumulative _ _) = true
needs_booked_state (ExecKind.terminal _) = true
needs_booked_state _ = false

-- The fill of what is missing, if anything is.
unfoldable pub missing_fill :
    {F : Type 0}
    → Option F
    → (execution_id : String) (fill_price : F) (venue : String) → List (ExecutionReport F)
missing_fill none execution_id fill_price venue = []
missing_fill (some fill_qty) execution_id fill_price venue =
    ExecutionReport.fill execution_id fill_qty fill_price venue ∷ []

-- The `match st.outcome`.
unfoldable pub close_reports : {F : Type 0} → BrokerOrderOutcome → String → List (ExecutionReport F)
close_reports BrokerOrderOutcome.canceled venue = ExecutionReport.canceled none (some venue) ∷ []
close_reports BrokerOrderOutcome.rejected venue =
    ExecutionReport.reject "rejected" (some venue) ∷ []
close_reports BrokerOrderOutcome.filled venue = []
close_reports BrokerOrderOutcome.working venue = []

module _ {F : Type 0} ⦃fl : Float64 F⦄ where
  -- The `match &ev.kind`.
  unfoldable pub reports_for_kind :
      String → String → ExecKind F → F → Option F → List (ExecutionReport F)
  unfolding missing_fill close_reports missing_qty increment_price
  reports_for_kind venue id (ExecKind.fill execution_id qty price) booked_cum booked_avg =
      ExecutionReport.fill execution_id qty price venue ∷ []
  reports_for_kind venue id (ExecKind.cumulative cum_qty avg_px) booked_cum booked_avg =
      missing_fill (missing_qty booked_cum cum_qty)
        (venue <> ("-" <> (id <> ("-" <> fl.display cum_qty))))
        (increment_price booked_cum booked_avg cum_qty avg_px) venue
  reports_for_kind venue id (ExecKind.terminal st) booked_cum booked_avg =
      missing_fill (missing_qty booked_cum st.executed_qty) ("recon-" <> id)
        (increment_price booked_cum booked_avg st.executed_qty st.avg_px) venue
      ++ close_reports st.outcome venue
  reports_for_kind venue id (ExecKind.canceled reason) booked_cum booked_avg =
      ExecutionReport.canceled reason (some venue) ∷ []
  reports_for_kind venue id (ExecKind.rejected reason) booked_cum booked_avg =
      ExecutionReport.reject reason (some venue) ∷ []
  reports_for_kind venue id (ExecKind.ack _) booked_cum booked_avg = []

module _ {F Key : Type 0} ⦃fl : Float64 F⦄ ⦃uuid : Uuid Key⦄ where
  unfoldable pub reports_for : ExecEvent F Key → F → Option F → List (ExecutionReport F)
  unfolding reports_for_kind
  reports_for ev booked_cum booked_avg =
      reports_for_kind ev.venue (uuid.to_text ev.order_id) ev.kind booked_cum booked_avg
