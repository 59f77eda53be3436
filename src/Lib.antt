-- ===== src/Lib.antt =====
-- OpenOMS, an order management system: the models of its core and the theorems on them.
--
-- The program takes orders from clients, checks them against risk limits, decides every change in
-- an event-sourced aggregate, routes orders to brokers, and books what brokers report. A command
-- goes through the risk engine and the aggregate to the event store; a connector's event goes
-- through the order engine, which turns it into execution reports against what is booked, and
-- execution applies each report in one transaction on the order's row, its stream and the
-- positions. Quotes of all feeds go through the mark router, which decides whose quotes set an
-- instrument's mark. A co-located strategy places its orders itself and runs the checks of its own
-- risk book before each. Reconciliation compares the broker's open orders with the booked ones and
-- sends the engine what is missing.
--
-- The files, by the part of the program that they are about:
--   Orders          src/domain/orders: State, Errors, Events, Commands, Invariants (validate_submit,
--                   require_existing_order), Lifecycle (which command in which status), Aggregate
--                   (Decide for decide, Apply for apply and rehydrate, Run for commands one after the
--                   other as apply_once handles each), Risk (check_trading_state, check_limit)
--   RiskEngine      src/risk_engine.rs: check_submit over the port RiskDataProvider
--   Positions       src/positions.rs: PositionMath, the position table, rebuild_positions
--   Gateway         crates/gateway/src/contract.rs and adapter.rs: what connectors report
--   Recon           src/recon_orders.rs: plan_order_recon, plan_stuck, reconcile_with, missing_qty
--   OrderEngine     src/order_engine.rs: reports_for and the booking of its reports on an aggregate,
--                   Stored (apply_exec on the store), Slots (the reconcile slot of a connection)
--   EventStore      src/event_store.rs: append_events_in_tx and current_version
--   Execution       src/execution.rs: apply_once and process_execution_report
--   Handlers        src/handlers.rs: ApiError, the answer to a refused command, the text columns of an
--                   order's row
--   OrderEntry      src/order_entry.rs: Preflight and Submit (submit up to the commit of its first
--                   transaction), Placing (its broker call and what follows), record_rejection, Routing
--                   (persist_routed), Cancel (cancel)
--   Strategies      src/strategies: the checks of an order (guard.rs), Sessions (logons and live
--                   sessions of session.rs), the closing order of control.rs
--   FixAcceptor     crates/gateway/src/fix_acceptor: decoding of the requests of a FIX session
--   Streams         crates/gateway/src/stream_health.rs and stream_supervisor.rs: health and reconnects
--   LiveUpdates     src/live_updates.rs: the notices of one open screen (Conflator and pump)
--   MarkRouter      src/mark_router.rs with src/marks.rs and the price lane of src/event_bus.rs
--   ColoRisk        crates/colo-risk/src/lib.rs: the checks of a co-located strategy
--   EventBus        src/event_bus.rs: the messages of the order lane
--   Float, Base     f64, and what the other files share
--   Tests           runs at small inputs
--
-- Each type and function has its name in the source; a child module holds the proofs about its
-- parent. A function that returns Result returns the Result of Base, `?` is its bind. State is passed
-- explicitly: an aggregate, a position table as a map, and for Execution a store with the order rows,
-- the venues' ids, the event streams and the positions, of which a transaction reads one and writes
-- another, since other transactions may commit in between.
--
-- f64 is a parameter: a type with the operations that the code uses. Theorems hold for any such type,
-- or, where they take IsIeee or IsSymmetric, for one with those facts of IEEE 754, which allow for
-- rounding and NaN. A sample with integers and a NaN shows that the facts can hold together.
-- The tables order_state and position hold quantities and prices in NUMERIC columns, which a bound
-- f64 enters with 15 significant digits: what such a column gives back is an operation of its own,
-- to_numeric, of which nothing is assumed, and every modelled write of these tables passes through
-- it (insert_order_state, update_row, upsert, rebuild_positions), while the events keep the exact
-- numbers. So a stored order is not always the aggregate's state, and the theorems on the store say
-- what the columns give back.
-- Timestamps are a type parameter, UUIDs are texts or a type with a text form. A version is an i64 by
-- its bit pattern, so that adding one is modulo 2^64; theorems that count versions assume fewer than
-- 2^62. Loops are recursion on lists, and the retries recursion on the five attempts.
--
-- Not modelled: HTTP, authentication, configuration, SQL beyond what the modelled queries do, Kafka,
-- the connectors' sockets, the reports to strategies, co-located links, and the waits between
-- retries. The broker's answers and the database's rows are arguments.
pub mod Base
pub mod ColoRisk
pub mod EventBus
pub mod EventStore
pub mod Execution
pub mod FixAcceptor
pub mod Float
pub mod Gateway
pub mod Handlers
pub mod LiveUpdates
pub mod MarkRouter
pub mod OrderEngine
pub mod OrderEntry
pub mod Orders
pub mod Positions
pub mod Recon
pub mod RiskEngine
pub mod Strategies
pub mod Streams
pub mod Tests
