-- ===== src/Examples.antt =====
-- Runs at concrete inputs: each theorem of the development at data that meets its conditions.
mod Timeouts
mod Carriers
mod Lifetimes
mod Datagrams
mod Buffers
mod Processes
mod WebSockets
mod Schedules
mod Uris
mod Sockets
mod Strings
mod Exchanges
mod Handshakes
mod Transfers
mod Cycles
mod Mailboxes
mod Settings
mod Processors
mod Clocks
mod Endings
