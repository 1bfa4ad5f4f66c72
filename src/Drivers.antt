-- ===== src/Drivers.antt =====
-- The helpers of the test drivers src/syd/net/*.t.cpp, and the drivers' tests.
pub mod Transfers
pub mod Calls
pub mod Futures
pub mod Connects
pub mod Exchanges
pub mod PosixBuffers
pub mod Accepts
pub mod Readers
pub mod Usage
pub mod Servers
pub mod Sdo
pub mod Addresses
