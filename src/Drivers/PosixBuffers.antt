-- ===== src/Drivers/PosixBuffers.antt =====
-- The tests of src/syd/net/posix_socket_buffer.t.cpp in which a buffer connects to a server. The
-- server's thread and what is compared are those of the tests of `connected_socket`.
pub mod Listening
pub mod Destruction
use sydn.Common.{ℕ, ltb, ◌==◌, ◌&&◌, List, [], ◌∷◌, ◌++◌, map, take, replicate, Cell, byte}
use sydn.Posix.Platform.{Platform}
use sydn.Posix.Kernel.{Kernel, M, pure, ◌>>=◌, ◌>>◌, defined}
use sydn.Net.Address
use sydn.Net.Address.{Address}
use sydn.Net.ConnectedSocket.{stream, no_error}
use sydn.Net.Ipv4Address
use sydn.Net.PosixSocketBuffer
use sydn.Net.PosixSocketBuffer.{assert}
use sydn.Net.Print.{codes}
use sydn.Drivers.Calls.{compare_address}
use sydn.Drivers.Connects.{Reports}
use sydn.Drivers.Exchanges.{Written, Received, streq, test_text}
use sydn.Drivers.Futures.{AcceptFuture, accepting, run, get}
use sydn.Drivers.Servers.{create_listening_socket, expect_string, write_string}
use sydn.Drivers.Usage.{Limits, Expectations, count_in_use}

module _ (p : Platform) {W : Type 0} (k : Kernel W) where
  -- `connected` tells of both calls that are expected to report no error.
  unfoldable pub construction_from : ℕ → ℕ → Address → M W Reports
  construction_from steps fuel local = do
    (server, server_address) ← create_listening_socket p k Address.empty
    (result, socket) ←
        PosixSocketBuffer.connect p k PosixSocketBuffer.initial stream server_address local
    server_result ← run p k steps (accepting server)
    server_reported_address ← get p k server_result
    (error, local_address) ← PosixSocketBuffer.local_address p k fuel socket Address.empty
    not_null ← defined (Address.ne_null p local_address)
    same ← defined (compare_address p server_reported_address local_address)
    PosixSocketBuffer.close_own k socket
    pure (record {
      connected = result == no_error && error == no_error;
      not_null = not_null;
      same = same;
    })

  unfoldable pub construction : ℕ → ℕ → M W Reports
  unfolding construction_from
  construction steps fuel = construction_from steps fuel Address.empty

  unfoldable pub construction_local_address : ℕ → ℕ → M W Reports
  unfolding construction_from
  construction_local_address steps fuel = do
    local ← defined (Ipv4Address.make p (codes "127.0.0.1") 0)
    construction_from steps fuel local

  unfoldable pub destruction_connect : Limits W → ℕ → ℕ → M W Expectations
  destruction_connect l before later = do
    fd_count₀ ← count_in_use k l
    (server, server_address) ← create_listening_socket p k Address.empty
    fd_count ← count_in_use k l
    (result, socket) ←
        PosixSocketBuffer.connect p k PosixSocketBuffer.initial stream server_address Address.empty
    server_result ← run p k before (accepting server)
    within ← count_in_use k l
    server_result' ← run p k later server_result
    PosixSocketBuffer.close_own k socket
    get p k server_result'
    after ← count_in_use k l
    pure (record {
      good = result == no_error;
      in_use = ltb fd_count within;
      released = after == fd_count₀;
    })

  unfoldable pub write_test : ℕ → List ℕ → List Cell → M W Written
  write_test fuel expected bytes = do
    (server, server_address) ← create_listening_socket p k Address.empty
    (result, socket) ←
        PosixSocketBuffer.connect p k PosixSocketBuffer.initial stream server_address Address.empty
    (error, count) ← PosixSocketBuffer.write k socket bytes
    PosixSocketBuffer.close_own k socket
    found ← expect_string p k fuel expected server
    pure (record {
      connected = result == no_error;
      okay = error == no_error;
      count = count;
      found = found;
    })

  unfoldable pub test_write_string : ℕ → M W Written
  unfolding write_test
  test_write_string fuel = write_test fuel test_text (map byte test_text)

  unfoldable pub test_write_chars : ℕ → M W Written
  unfolding write_test
  test_write_chars fuel = write_test fuel test_text (map byte test_text ++ (byte 0 ∷ []))

  unfoldable pub test_write_span : ℕ → M W Written
  unfolding write_test
  test_write_span fuel = write_test fuel (codes "This ") (take 5 (map byte test_text))

  unfoldable pub read_test : ℕ → List Cell → M W Received
  read_test fuel buffer = do
    (server, server_address) ← create_listening_socket p k Address.empty
    (result, socket) ←
        PosixSocketBuffer.connect p k PosixSocketBuffer.initial stream server_address Address.empty
    write_string p k fuel test_text server
    (error, count, buffer') ← PosixSocketBuffer.read k socket buffer
    same ← defined (streq buffer' test_text)
    PosixSocketBuffer.close_own k socket
    pure (record {
      connected = result == no_error;
      okay = error == no_error;
      count = count;
      same = same;
    })

  unfoldable pub test_read_buffer : ℕ → M W Received
  unfolding read_test
  test_read_buffer fuel = read_test fuel (replicate 1024 (byte 0))

  unfoldable pub test_read_vector : ℕ → M W Received
  unfolding read_test
  test_read_vector fuel = read_test fuel (replicate 1024 (byte 0))
