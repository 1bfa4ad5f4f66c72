-- ===== src/Lib.antt =====
-- Verification of sydn, C++ network communication classes.
--
-- Parts and files. A file is named for the class that it models; the files in the folder of its name
-- prove what their own names say.
--   Mem/Sdo           src/syd/mem/mem_sdo.h: `sdo`, the small data optimised array of bytes.
--   Mem/Heap, Mem/Object
--                     the same class on a free store of blocks, with its destructor.
--   Net/Address       src/syd/net/address.{h,cpp}: `address`, a socket address in such an array.
--   Net/Ipv4Address   src/syd/net/ipv4_address.{h,cpp}, over `address`.
--   Net/UnixAddress   src/syd/net/unix_address.{h,cpp}, over `address`.
--   Net/Print         `operator<<` of addresses, in src/syd/net/address.cpp, with the printers of the
--                     families in ipv4_address.cpp and unix_address.cpp.
--   Net/Bytes         16-bit fields of C structures in the bytes of an address.
--   Net/ConnectedSocket, Net/ListenSocket, Net/ConnectedReader, Net/ConnectedWriter
--                     the classes of these names in src/syd/net. The listening socket hands new
--                     descriptors to a connected socket (`import`); a reader and a writer use the
--                     descriptor of a connected socket, which is an argument of theirs.
--   Net/PosixSocketBuffer, Net/SocketBuffer
--                     src/syd/net/posix_socket_buffer.{h,cpp} and socket_buffer.h.
--   Net/AddressInfoList
--                     src/syd/net/address_info_list.h: the list of getaddrinfo and its iterator.
--   Net/EchoServer    the session loop of src/examples/echoserver/echoserver.cpp.
--   Net/EchoServer/Server
--                     its accept loop, beside which the sessions run, each in a thread of its own.
--                     A thread's call of the system is one step, and any thread may take the next.
--   Net/AddressInfoList/Info, Net/Resolver
--                     src/syd/net/address_info_list.cpp and resolver.cpp, which the library's build
--                     leaves out.
--   Net/AddressFamily `address_family` of src/syd/net/address.h.
--   Drivers           the helpers of the test drivers src/syd/net/*.t.cpp (the servers to which a socket
--                     under test connects), and the drivers' tests: of arrays (Sdo), of addresses
--                     (Addresses), of connected_socket.t.cpp (Connects, Exchanges), listen_socket.t.cpp
--                     (Accepts, and Usage for the destructor), posix_socket_buffer.t.cpp (PosixBuffers)
--                     and connected_reader.t.cpp (Readers). A test returns what it expects. Futures has
--                     the thread of `createAcceptServer` as a state with steps, which Connects runs
--                     between the test's statements; elsewhere a thread's calls come in one order, which
--                     the comments name.
--   Posix             what comes from outside the repository, all of it parameters: `Platform` (the
--                     system headers' constants and layouts, pure functions of the C library),
--                     `Kernel` (the system calls over a state `W`), `Laws` (the documented behaviour
--                     that theorems ask for), `Fair` (that of a connection that may block), `Returns`
--                     (statements about runs). Drivers/Connects/Sockets has what the drivers' tests ask
--                     of sockets of the family AF_INET, by the states that such a socket goes through.
--   Common            the shared helpers. Tests: concrete inputs and a simulated kernel.
--
-- State and calls. An object is a record of its members; a member function takes the record and
-- returns the new one. A function that makes system calls runs in the monad `M W`: it takes the
-- system's state and returns a result with the new state, or `none`, if an assertion fails or the
-- C++ is undefined (a read of a byte without a value decides a branch, a write through a null
-- pointer). A byte of memory is a `Cell`, which may have no value; a pointer into an address is the
-- list of the cells behind it. An `int` is the integer type of Common/Int, `size_t` a number;
-- the `socklen_t` of `getsockname` and `accept` is reduced modulo 2^32 (the sizes given to `bind` and
-- `connect` are those of addresses, and taken as they are), and what `read` and `write` return is
-- narrowed to 32 bits.
-- Assertions are taken to be enabled. `std::error_condition` is its number in the generic category.
-- The host stores 16-bit integers with the low byte first and has pointers of 8 bytes.
--
-- Fuel. The loop of `local_address` runs on fuel; two rounds are shown to be enough. The loop of an
-- echo session runs on fuel; more rounds than there are bytes to read are shown to be enough. The loops
-- of the test drivers' servers run on fuel; more rounds than the bytes of the text and the calls that
-- would have blocked are shown to be enough.
--
-- Not modelled: a failed allocation; the implicit copies of socket objects; the console output of the
-- echo server and the creation of its threads; how the future of a lookup is run; the shared
-- ownership of the nodes of getaddrinfo; in the drivers, orders of a thread's calls within a statement
-- of the test; the copies of GSL and googletest under src/thirdparty.
pub mod Common
pub mod Drivers
pub mod Mem
pub mod Net
pub mod Posix
pub mod Tests
