-- ===== src/Tests.antt =====
-- Runs of the models at small inputs, and the theorems at inputs that meet their hypotheses.
mod ColoRisk
mod Data
mod Engine
mod EventBus
mod FixAcceptor
mod Execution
mod LiveUpdates
mod MarkRouter
mod OrderEntry
mod Orders
mod Positions
mod Recon
mod Risk
mod Routing
mod Strategies
mod Submit
mod Streams
