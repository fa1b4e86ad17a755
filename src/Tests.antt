-- ===== src/Tests.antt =====
-- Tests of the definitions on concrete inputs, and uses of the theorems there.
mod World
mod Sorting
mod Pins
mod Logs
mod Allocation
mod Calls
mod Readings
mod Peers
mod Daemon
mod Connector
mod Members
mod Stopping
mod Control
mod Replicas
mod Building
