-- ===== src/Net.antt =====
-- The library `src/syd/net`: addresses and sockets.
pub mod Bytes
pub mod Address
pub mod ConnectedSocket
pub mod PosixSocketBuffer
pub mod SocketBuffer
pub mod ConnectedReader
pub mod ConnectedWriter
pub mod ListenSocket
pub mod UnixAddress
pub mod Ipv4Address
pub mod Print
pub mod AddressInfoList
pub mod AddressFamily
pub mod Resolver
pub mod EchoServer
