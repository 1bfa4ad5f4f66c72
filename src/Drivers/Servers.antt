-- ===== src/Drivers/Servers.antt =====
-- The servers of src/syd/net/connected_socket.t.cpp, to which the sockets under test connect. The
-- future of each is its function on the listening descriptor, which runs once.
pub mod Close
use sydn.Common.{
  ℕ, Bool, true, false, not, Option, none, some, List, [], ◌∷◌, length, map, take, ◌==◌, ◌&&◌,
  if◌then◌else◌, ℤ, minus_one, ◌==ℤ◌, Cell, byte,
}
use sydn.Posix.Platform.{Platform}
use sydn.Posix.Kernel.{Kernel, M, pure, ◌>>=◌, ◌>>◌, call, defined}
use sydn.Net.Address
use sydn.Net.Address.{Address}
use sydn.Net.Ipv4Address
use sydn.Net.PosixSocketBuffer.{assert, to_socklen}
use sydn.Net.Print.{codes}
use sydn.Drivers.Calls.{memcmp_eq}
use sydn.Drivers.Transfers.{read_all, write_all}

-- Whether two texts are the same.
unfoldable pub same_text : List Cell → List Cell → Option Bool
same_text xs ys = if length xs == length ys then memcmp_eq (length xs) xs ys else some false

module _ (p : Platform) {W : Type 0} (k : Kernel W) where
  -- The descriptor, and what `*address` becomes; the pointer is not null.
  unfoldable pub create_listening_socket : Address → M W (ℤ × Address)
  create_listening_socket address = do
    fd ← call (k.socket p.af_inet p.sock_stream 0)
    assert k (not (fd ==ℤ minus_one))
    local_address ← defined (Ipv4Address.make p (codes "127.0.0.1") 0)
    bound ← call (k.bind fd (Address.native local_address) (Address.size local_address))
    assert k (not (bound ==ℤ minus_one))
    listening ← call (k.listen fd 1)
    assert k (not (listening ==ℤ minus_one))
    filled ←
        call (
          k.getsockname fd (Address.native local_address) (to_socklen (Address.size local_address)))
    assert k (not (filled.result ==ℤ minus_one))
    pure (fd, Address.assign address (Address.with_native local_address filled.buffer))

  -- The future of `createAcceptServer`.
  unfoldable pub accept_server : ℤ → M W Address
  accept_server server = do
    address ← defined (Ipv4Address.make_any p)
    filled ← call (k.accept server (Address.native address) (to_socklen (Address.size address)))
    assert k (not (filled.result ==ℤ minus_one))
    call (k.close server)
    call (k.close filled.result)
    pure (Address.with_native address filled.buffer)

  -- The future of `createServerExpectString`, with room for that many rounds, and whether it finds
  -- what it expects. The text has no zero byte.
  unfoldable pub expect_string : ℕ → List ℕ → ℤ → M W Bool
  expect_string fuel text server = do
    filled ← call (k.accept server none 0)
    assert k (not (filled.result ==ℤ minus_one))
    call (k.close server)
    str ← read_all p k fuel filled.result (length text)
    found ← defined (same_text str (map byte text))
    call (k.close filled.result)
    pure found

  -- The future of `createServerWriteString`.
  unfoldable pub write_string : ℕ → List ℕ → ℤ → M W (Unit {0})
  write_string fuel text server = do
    filled ← call (k.accept server none 0)
    assert k (not (filled.result ==ℤ minus_one))
    call (k.close server)
    write_all p k fuel filled.result (map byte text)
    call (k.close filled.result)
    pure tt
