-- ===== src/Tests.antt =====
-- Tests, and the theorems at concrete inputs, over a simulated system.
mod System
mod Memory
mod Heaps
mod Texts
mod Addresses
mod Sockets
mod Server
mod Drivers
mod Exchanges
mod Expectations
mod Few
mod Hosts
mod Working
mod Single
mod Arrays
mod Units
mod Buffers
mod Iterators
