-- ===== src/Drivers/PosixBuffers/Listening.antt =====
-- The tests of src/syd/net/posix_socket_buffer.t.cpp in which a buffer listens.
use sydn.Common.{ℕ, Bool, ltb, ◌==◌, ◌&&◌, List}
use sydn.Posix.Platform.{Platform}
use sydn.Posix.Kernel.{Kernel, M, pure, ◌>>=◌, ◌>>◌, defined}
use sydn.Net.Address
use sydn.Net.ConnectedSocket
use sydn.Net.ConnectedSocket.{stream, no_error}
use sydn.Net.Ipv4Address
use sydn.Net.PosixSocketBuffer
use sydn.Net.PosixSocketBuffer.{posix}
use sydn.Net.Print.{codes}
use sydn.Net.SocketBuffer
use sydn.Drivers.Accepts.{Accepted}
use sydn.Drivers.Calls.{compare_address}
use sydn.Drivers.Usage.{Limits, Expectations, count_in_use}

module _ (p : Platform) {W : Type 0} (k : Kernel W) where
  -- The test of `listen`: whether it reports no error.
  unfoldable pub construction_at : List ℕ → ℕ → M W Bool
  construction_at text port = do
    local_address ← defined (Ipv4Address.make p text port)
    (error, socket) ← PosixSocketBuffer.listen p k PosixSocketBuffer.initial stream local_address
    PosixSocketBuffer.close_own k socket
    pure (error == no_error)

  unfoldable pub construction_no_address_no_port : M W Bool
  unfolding construction_at
  construction_no_address_no_port = construction_at (codes "0.0.0.0") 0

  unfoldable pub construction_with_address_no_port : M W Bool
  unfolding construction_at
  construction_with_address_no_port = construction_at (codes "127.0.0.1") 0

  unfoldable pub construction_no_address_with_port : M W Bool
  unfolding construction_at
  construction_no_address_with_port = construction_at (codes "0.0.0.0") 12345

  unfoldable pub construction_with_address_and_port : M W Bool
  unfolding construction_at
  construction_with_address_and_port = construction_at (codes "127.0.0.1") 12345

  unfoldable pub destruction_listen : Limits W → M W Expectations
  destruction_listen l = do
    fd_count ← count_in_use k l
    local_address ← defined (Ipv4Address.make p (codes "0.0.0.0") 0)
    (error, socket) ← PosixSocketBuffer.listen p k PosixSocketBuffer.initial stream local_address
    within ← count_in_use k l
    PosixSocketBuffer.close_own k socket
    after ← count_in_use k l
    pure (record {
      good = error == no_error;
      in_use = ltb fd_count within;
      released = after == fd_count;
    })

  -- The peer's thread connects before `accept` is called, which would wait for it, and makes its other
  -- calls when the test waits for the thread. `fuel` is that of the loops of `local_address`. `good`
  -- tells of `listen` and of `local_address`.
  unfoldable pub accept_with_address : ℕ → M W Accepted
  accept_with_address fuel = do
    local_address ← defined (Ipv4Address.make p (codes "127.0.0.1") 0)
    (error₁, socket) ← PosixSocketBuffer.listen p k PosixSocketBuffer.initial stream local_address
    (error₂, server_address) ← PosixSocketBuffer.local_address p k fuel socket Address.empty
    (result, remote_socket) ←
        ConnectedSocket.connect p k ConnectedSocket.initial stream server_address Address.empty
    (error₃, client_socket, client_address) ←
        PosixSocketBuffer.accept_from p k socket (posix PosixSocketBuffer.initial) Address.empty
    reported ← ConnectedSocket.local_address p k fuel remote_socket
    ConnectedSocket.close_own k remote_socket
    same ← defined (compare_address p reported client_address)
    SocketBuffer.destroy p k client_socket
    PosixSocketBuffer.close_own k socket
    pure (record {
      good = error₁ == no_error && error₂ == no_error;
      accepted = error₃ == no_error;
      connected = result == no_error;
      same = same;
    })

  unfoldable pub accept_without_address : ℕ → M W (Bool × Bool × Bool)
  accept_without_address fuel = do
    local_address ← defined (Ipv4Address.make p (codes "127.0.0.1") 0)
    (error₁, socket) ← PosixSocketBuffer.listen p k PosixSocketBuffer.initial stream local_address
    (error₂, server_address) ← PosixSocketBuffer.local_address p k fuel socket Address.empty
    (result, remote_socket) ←
        ConnectedSocket.connect p k ConnectedSocket.initial stream server_address Address.empty
    (error₃, client_socket) ← PosixSocketBuffer.accept p k socket (posix PosixSocketBuffer.initial)
    SocketBuffer.destroy p k client_socket
    ConnectedSocket.close_own k remote_socket
    PosixSocketBuffer.close_own k socket
    pure (error₁ == no_error && error₂ == no_error, error₃ == no_error, result == no_error)
