-- ===== src/Drivers/Accepts.antt =====
-- The tests of src/syd/net/listen_socket.t.cpp but `Destruction`.
use sydn.Common.{ℕ, Bool, ◌==◌, List}
use sydn.Posix.Platform.{Platform}
use sydn.Posix.Kernel.{Kernel, M, pure, ◌>>=◌, ◌>>◌, defined}
use sydn.Net.Address
use sydn.Net.ConnectedSocket
use sydn.Net.ConnectedSocket.{stream, no_error}
use sydn.Net.Ipv4Address
use sydn.Net.ListenSocket
use sydn.Net.Print.{codes}
use sydn.Drivers.Calls.{compare_address}

-- What the tests of `accept` find: whether the socket is good before the call and after it, whether
-- the peer has connected with no error, and whether they have one address of the peer.
pub record Accepted : Type 0 where
  pub good : Bool
  pub accepted : Bool
  pub connected : Bool
  pub same : Bool

module _ (p : Platform) {W : Type 0} (k : Kernel W) where
  -- The test of a constructor: whether the socket is good.
  unfoldable pub construction_at : List ℕ → ℕ → M W Bool
  construction_at text port = do
    local_address ← defined (Ipv4Address.make p text port)
    socket ← ListenSocket.make p k stream local_address
    ListenSocket.close_own k socket
    pure (ListenSocket.to_bool p socket)

  unfoldable pub construction_no_address_no_port : M W Bool
  unfolding construction_at
  construction_no_address_no_port = construction_at (codes "0.0.0.0") 0

  unfoldable pub construction_with_address_no_port : M W Bool
  unfolding construction_at
  construction_with_address_no_port = construction_at (codes "127.0.0.1") 0

  unfoldable pub construction_no_address_with_port : M W Bool
  unfolding construction_at
  construction_no_address_with_port = construction_at (codes "0.0.0.0") 12345

  unfoldable pub construction_with_address_and_port : M W Bool
  unfolding construction_at
  construction_with_address_and_port = construction_at (codes "127.0.0.1") 12345

  -- The peer's thread connects before `accept` is called, which would wait for it, and makes its other
  -- calls when the test waits for the thread. `fuel` is that of the peer's loop of `local_address`.
  unfoldable pub accept_with_address : ℕ → M W Accepted
  accept_with_address fuel = do
    local_address ← defined (Ipv4Address.make p (codes "127.0.0.1") 0)
    socket ← ListenSocket.make p k stream local_address
    let server_address = ListenSocket.local_address socket
    (result, remote_socket) ←
        ConnectedSocket.connect p k ConnectedSocket.initial stream server_address Address.empty
    (socket', client_socket, client_address) ←
        ListenSocket.accept_from p k socket ConnectedSocket.initial Address.empty
    reported ← ConnectedSocket.local_address p k fuel remote_socket
    ConnectedSocket.close_own k remote_socket
    same ← defined (compare_address p reported client_address)
    ConnectedSocket.close_own k client_socket
    ListenSocket.close_own k socket'
    pure (record {
      good = ListenSocket.to_bool p socket;
      accepted = ListenSocket.to_bool p socket';
      connected = result == no_error;
      same = same;
    })

  -- The three first findings. The destructor of the future waits for the thread, after that of
  -- `client_socket`.
  unfoldable pub accept_without_address : M W (Bool × Bool × Bool)
  accept_without_address = do
    local_address ← defined (Ipv4Address.make p (codes "127.0.0.1") 0)
    socket ← ListenSocket.make p k stream local_address
    let server_address = ListenSocket.local_address socket
    (result, remote_socket) ←
        ConnectedSocket.connect p k ConnectedSocket.initial stream server_address Address.empty
    (socket', client_socket) ← ListenSocket.accept k socket ConnectedSocket.initial
    ConnectedSocket.close_own k client_socket
    ConnectedSocket.close_own k remote_socket
    ListenSocket.close_own k socket'
    pure (ListenSocket.to_bool p socket, ListenSocket.to_bool p socket', result == no_error)
