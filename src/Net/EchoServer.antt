-- ===== src/Net/EchoServer.antt =====
-- The session of a client of the echo server, of src/examples/echoserver/echoserver.cpp.
pub mod Session
pub mod Server
use sydn.Common.{
  ℕ, zero, suc, Bool, not, ◌&&◌, Option, none, List, take, replicate, ◌==◌, if◌then◌else◌, Cell,
  unspecified,
}
use sydn.Posix.Platform.{Platform}
use sydn.Posix.Kernel.{Kernel, M, pure, ◌>>=◌}
use sydn.Net.ConnectedSocket.{ConnectedSocket}
use sydn.Net.ConnectedReader
use sydn.Net.ConnectedReader.{ConnectedReader}
use sydn.Net.ConnectedWriter
use sydn.Net.ConnectedWriter.{ConnectedWriter}

-- `sizeof(buffer)`.
abbrev pub buffer_size : ℕ
buffer_size = 128

module _ (p : Platform) {W : Type 0} (k : Kernel W) (socket : ConnectedSocket) where
  -- The `while` loop of `run`, on fuel; `none` when the fuel runs out.
  unfoldable pub loop : ℕ → ConnectedReader → ConnectedWriter → List Cell → M W (Unit {0})
  loop zero reader writer buffer = λ w. none
  loop (suc fuel) reader writer buffer = do
    (reader', buffer') ← ConnectedReader.read k socket reader buffer
    if ConnectedReader.to_bool p reader'
        then (do
          writer' ←
              ConnectedWriter.write k socket writer
                (take (ConnectedReader.last_bytes reader') buffer')
          let rest = loop fuel reader' writer' buffer' in
              if ConnectedWriter.to_bool p writer' && not (ConnectedWriter.last_bytes writer' == 0)
              then rest
              else pure tt)
        else pure tt

  -- `ClientSession::run`, but for its console output.
  unfoldable pub run : ℕ → M W (Unit {0})
  run fuel =
      loop fuel ConnectedReader.initial ConnectedWriter.initial (replicate buffer_size unspecified)
