-- ===== src/Tests.antt =====
-- Runs of the definitions at concrete inputs, and the theorems at inputs that satisfy their hypotheses.
mod Broker
mod Peers
mod Caching
mod Syncing
mod Commands
mod Handlers
mod Requests
mod Listening
mod Actions
mod Satellites
