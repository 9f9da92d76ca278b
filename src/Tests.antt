-- ===== src/Tests.antt =====
-- The tests of the development: each theorem that has a hypothesis or a parameter, on an input.
pub mod Fixtures
mod Packets
mod Buffers
mod Tables
mod Streams
mod Bodies
pub mod Peers
pub mod Lookups
pub mod Clients
mod Webservers
mod Scratches
pub mod Deliveries
mod Fetches
mod Sets
mod Proxies
