-- ===== src/Drivers/Connects.antt =====
-- The tests `Construction`, `ConstructionLocalAddress` and `Destruction` of
-- src/syd/net/connected_socket.t.cpp: a socket connects to `createAcceptServer`.
pub mod Held
pub mod Sockets
pub mod Listening
pub mod Connecting
pub mod Destruction
use sydn.Common.{ℕ, Bool, not, ltb, ◌==◌}
use sydn.Posix.Platform.{Platform}
use sydn.Posix.Kernel.{Kernel, M, pure, ◌>>=◌, ◌>>◌, call, defined}
use sydn.Net.Address
use sydn.Net.Address.{Address}
use sydn.Net.ConnectedSocket
use sydn.Net.ConnectedSocket.{stream, no_error}
use sydn.Net.Ipv4Address
use sydn.Net.Print.{codes}
use sydn.Drivers.Calls.{compare_address}
use sydn.Drivers.Futures.{AcceptFuture, accepting, run, get}
use sydn.Drivers.Servers.{create_listening_socket}
use sydn.Drivers.Usage.{Limits, Expectations, count_in_use}

-- What `Construction` expects: no error, and that the server and the socket report one address.
pub record Reports : Type 0 where
  pub connected : Bool
  pub not_null : Bool
  pub same : Bool

module _ (p : Platform) {W : Type 0} (k : Kernel W) where
  -- `steps` is how many of its calls the server's thread makes before the test waits for it, and
  -- `fuel` that of the loop of `local_address`. The default of the last argument of `connect` is
  -- the null address.
  unfoldable pub construction_from : ℕ → ℕ → Address → M W Reports
  construction_from steps fuel local = do
    (server, server_address) ← create_listening_socket p k Address.empty
    (result, socket) ←
        ConnectedSocket.connect p k ConnectedSocket.initial stream server_address local
    server_result ← run p k steps (accepting server)
    server_reported_address ← get p k server_result
    local_address ← ConnectedSocket.local_address p k fuel socket
    not_null ← defined (Address.ne_null p local_address)
    same ← defined (compare_address p server_reported_address local_address)
    ConnectedSocket.close_own k socket
    pure (record { connected = result == no_error; not_null = not_null; same = same })

  unfoldable pub construction : ℕ → ℕ → M W Reports
  unfolding construction_from
  construction steps fuel = construction_from steps fuel Address.empty

  unfoldable pub construction_local_address : ℕ → ℕ → M W Reports
  unfolding construction_from
  construction_local_address steps fuel = do
    local ← defined (Ipv4Address.make p (codes "127.0.0.1") 0)
    construction_from steps fuel local

  -- `before` and `later` are how many of its calls the server's thread makes before the descriptors
  -- are counted and between that and the socket's destructor. The future's destructor waits for the
  -- rest.
  unfoldable pub destruction : Limits W → ℕ → ℕ → M W Expectations
  destruction l before later = do
    fd_count₀ ← count_in_use k l
    (server, server_address) ← create_listening_socket p k Address.empty
    fd_count ← count_in_use k l
    (result, socket) ←
        ConnectedSocket.connect p k ConnectedSocket.initial stream server_address Address.empty
    server_result ← run p k before (accepting server)
    within ← count_in_use k l
    server_result' ← run p k later server_result
    ConnectedSocket.close_own k socket
    get p k server_result'
    after ← count_in_use k l
    pure (record {
      good = result == no_error;
      in_use = ltb fd_count within;
      released = after == fd_count₀;
    })
