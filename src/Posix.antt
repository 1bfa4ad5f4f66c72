-- ===== src/Posix.antt =====
-- What sydn takes from the operating system and the C library. None of it is code of the
-- repository: the constants, the layout of the socket addresses and the functions are parameters.
pub mod Platform
pub mod Kernel
pub mod Laws
pub mod Fair
pub mod Returns
