-- ===== src/Drivers/Futures.antt =====
-- The future of `createAcceptServer` of src/syd/net/connected_socket.t.cpp, as the thread that
-- `std::async` starts for it: what the thread has still to do. Its calls, each of them a step, come
-- between those of the test that created it.
pub mod Orders
pub mod Descriptors
use sydn.Common.{ℕ, zero, suc, not, ℤ, minus_one, ◌==ℤ◌}
use sydn.Posix.Platform.{Platform}
use sydn.Posix.Kernel.{Kernel, M, pure, ◌>>=◌, ◌>>◌, call, defined}
use sydn.Net.Address
use sydn.Net.Address.{Address}
use sydn.Net.Ipv4Address
use sydn.Net.PosixSocketBuffer.{assert, to_socklen}

pub data AcceptFuture : Type 0 where
  -- The thread is about to call `accept` on its listening descriptor.
  accepting : ℤ → AcceptFuture
  -- It is about to close that one; it has the connection's descriptor and the address.
  closing_server : ℤ → ℤ → Address → AcceptFuture
  closing_remote : ℤ → Address → AcceptFuture
  ready : Address → AcceptFuture

module _ (p : Platform) {W : Type 0} (k : Kernel W) where
  unfoldable pub step : AcceptFuture → M W AcceptFuture
  step (accepting server) = do
    address ← defined (Ipv4Address.make_any p)
    filled ← call (k.accept server (Address.native address) (to_socklen (Address.size address)))
    assert k (not (filled.result ==ℤ minus_one))
    pure (closing_server server filled.result (Address.with_native address filled.buffer))
  step (closing_server server remote address) = do
    call (k.close server)
    pure (closing_remote remote address)
  step (closing_remote remote address) = do call (k.close remote); pure (ready address)
  step (ready address) = pure (ready address)

  -- That many steps.
  unfoldable pub run : ℕ → AcceptFuture → M W AcceptFuture
  run zero future = pure future
  run (suc steps) future = do future' ← step future; run steps future'

  -- The rest of the steps, from each of the states.
  unfoldable pub close_remote : ℤ → Address → M W Address
  close_remote remote address = do call (k.close remote); pure address

  unfoldable pub close_server : ℤ → ℤ → Address → M W Address
  unfolding close_remote
  close_server server remote address = do call (k.close server); close_remote remote address

  unfoldable pub accept_and_close : ℤ → M W Address
  unfolding close_server
  accept_and_close server = do
    address ← defined (Ipv4Address.make_any p)
    filled ← call (k.accept server (Address.native address) (to_socklen (Address.size address)))
    assert k (not (filled.result ==ℤ minus_one))
    close_server server filled.result (Address.with_native address filled.buffer)

  -- What `get` and the future's destructor wait for.
  unfoldable pub get : AcceptFuture → M W Address
  unfolding accept_and_close
  get (ready address) = pure address
  get (closing_remote remote address) = close_remote remote address
  get (closing_server server remote address) = close_server server remote address
  get (accepting server) = accept_and_close server
