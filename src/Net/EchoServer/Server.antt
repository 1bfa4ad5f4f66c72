-- ===== src/Net/EchoServer/Server.antt =====
-- `EchoServer` of src/examples/echoserver/echoserver.cpp: the accept loop, and the sessions that run
-- beside it, each in a thread of its own.
pub mod Descriptors
pub mod Serving
use sydn.Common.{ℕ, ◌≡◌, List, [], ◌∷◌, ◌++◌, Cell, Option, some, if◌then◌else◌}
use sydn.Posix.Platform.{Platform}
use sydn.Posix.Kernel.{Kernel, M, pure, ◌>>=◌, ◌>>◌, defined}
use sydn.Net.Address
use sydn.Net.Address.{Address}
use sydn.Net.ConnectedSocket
use sydn.Net.ConnectedSocket.{ConnectedSocket, stream}
use sydn.Net.ConnectedReader
use sydn.Net.ConnectedReader.{ConnectedReader}
use sydn.Net.ConnectedWriter
use sydn.Net.ConnectedWriter.{ConnectedWriter}
use sydn.Net.Ipv4Address
use sydn.Net.ListenSocket
use sydn.Net.ListenSocket.{ListenSocket}
use sydn.Net.Print.{codes}

-- `ClientSession`.
pub record ClientSession : Type 0 where
  pub d_socket : ConnectedSocket
  pub d_address : Address

-- The state of `EchoServer::run` in its loop: the listening socket, and the sessions whose threads
-- have not ended.
pub record Server : Type 0 where
  pub listen_socket : ListenSocket
  pub sessions : List ClientSession

-- What `run` comes to before its loop: it returns, or it serves.
pub data Started : Type 0 where
  returned : ℕ → Started
  serving : Server → Started

module _ (p : Platform) where
  -- `d_serverAddress`.
  unfoldable pub server_address : Option Address
  server_address = Ipv4Address.make p (codes "127.0.0.1") 0

module _ (p : Platform) {W : Type 0} (k : Kernel W) where
  -- `EchoServer::run` up to its loop, but for the console output. The listening socket is destroyed
  -- when the function returns.
  unfoldable pub start : M W Started
  start = do
    address ← defined (server_address p)
    listen_socket ← ListenSocket.make p k stream address
    if ListenSocket.to_bool p listen_socket
        then pure (serving (record { listen_socket = listen_socket; sessions = [] }))
        else (do ListenSocket.close_own k listen_socket; pure (returned 1))

  -- One round of the loop: the new session starts whatever the accept comes to.
  unfoldable pub round : Server → M W Server
  round server = do
    (listen_socket, socket, address) ←
        ListenSocket.accept_from p k server.listen_socket ConnectedSocket.initial Address.empty
    pure (record {
      listen_socket = listen_socket;
      sessions = record { d_socket = socket; d_address = address } ∷ server.sessions;
    })

  -- One thing that happens, in whichever thread: a round of the loop, a read or a write of a session,
  -- or the end of a session, which destroys its socket.
  pub data Step (server : Server) (w : W) : Server → W → Type 0 where
    accepted :
        {server' : Server} {w' : W} → round server w ≡ some (server', w') → Step server w server' w'
    was_read :
        {w' : W} (session : ClientSession) (reader reader' : ConnectedReader)
        (buffer buffer' : List Cell)
        → ConnectedReader.read k session.d_socket reader buffer w ≡ some ((reader', buffer'), w')
        → Step server w server w'
    written :
        {w' : W} (session : ClientSession) (writer writer' : ConnectedWriter) (bytes : List Cell)
        → ConnectedWriter.write k session.d_socket writer bytes w ≡ some (writer', w')
        → Step server w server w'
    ended :
        {w' : W} (before after : List ClientSession) (session : ClientSession)
        (socket : ConnectedSocket)
        → server.sessions ≡ before ++ session ∷ after
        → ConnectedSocket.close_own k session.d_socket w ≡ some (socket, w')
        → Step server w (record server { sessions = before ++ after }) w'

  -- Any interleaving of these.
  pub data Reach (server : Server) (w : W) : Server → W → Type 0 where
    here : Reach server w server w
    next :
        {server' server'' : Server} {w' w'' : W}
        → Reach server w server' w'
        → Step server' w' server'' w''
        → Reach server w server'' w''
