-- ===== src/Drivers/Exchanges.antt =====
-- The tests of src/syd/net/connected_socket.t.cpp in which a socket and a server exchange a text.
pub mod Writes
use sydn.Common.{
  ℕ, Bool, false, Option, none, some, List, [], ◌∷◌, ◌++◌, map, take, replicate, ◌==◌,
  if◌then◌else◌, Cell, byte, unspecified,
}
use sydn.Posix.Platform.{Platform}
use sydn.Posix.Kernel.{Kernel, M, pure, ◌>>=◌, ◌>>◌, defined}
use sydn.Net.Address
use sydn.Net.ConnectedSocket
use sydn.Net.ConnectedSocket.{ConnectedSocket, ErrorCondition, stream, no_error}
use sydn.Net.Print.{codes}
use sydn.Drivers.Calls
use sydn.Drivers.Servers.{create_listening_socket, expect_string, write_string}

abbrev pub test_text : List ℕ
test_text = codes "This is a test"

-- What a test of `write` finds: whether `connect` and `write` report no error, the number of bytes, and
-- whether the server finds what it expects.
pub record Written : Type 0 where
  pub connected : Bool
  pub okay : Bool
  pub count : ℕ
  pub found : Bool

-- What a test of `read` finds; `same` tells whether the buffer holds the text.
pub record Received : Type 0 where
  pub connected : Bool
  pub okay : Bool
  pub count : ℕ
  pub same : Bool

-- `EXPECT_STREQ`: whether a zero byte ends the text in memory, and it is the same up to there; `none`:
-- a byte without a value is read, or one past the memory.
unfoldable pub streq : List Cell → List ℕ → Option Bool
streq [] text = none
streq (unspecified ∷ cells) text = none
streq (byte c ∷ cells) [] = some (c == 0)
streq (byte c ∷ cells) (x ∷ text) =
    let rest = streq cells text in
    if c == 0 then some false else (if c == x then rest else some false)

module _ (p : Platform) {W : Type 0} (k : Kernel W) where
  -- The test of `write` with the text that the server expects and the data that the socket writes. The
  -- calls of the server's thread come last, where the destructor of its future waits for it. `fuel` is
  -- that of its loop.
  unfoldable pub write_test : ℕ → List ℕ → List Cell → M W Written
  write_test fuel expected bytes = do
    (server, server_address) ← create_listening_socket p k Address.empty
    (result, socket) ←
        ConnectedSocket.connect p k ConnectedSocket.initial stream server_address Address.empty
    (error, count) ← Calls.write k socket bytes
    ConnectedSocket.close_own k socket
    found ← expect_string p k fuel expected server
    pure (record {
      connected = result == no_error;
      okay = error == no_error;
      count = count;
      found = found;
    })

  unfoldable pub test_write_string : ℕ → M W Written
  unfolding write_test
  test_write_string fuel = write_test fuel test_text (map byte test_text)

  -- The data of a string literal has its zero byte.
  unfoldable pub test_write_chars : ℕ → M W Written
  unfolding write_test
  test_write_chars fuel = write_test fuel test_text (map byte test_text ++ (byte 0 ∷ []))

  unfoldable pub test_write_span : ℕ → M W Written
  unfolding write_test
  test_write_span fuel = write_test fuel (codes "This ") (take 5 (map byte test_text))

  -- The test of `read` into a buffer. The calls of the server's thread come before that of `read`, which
  -- would wait for them.
  unfoldable pub read_test : ℕ → List Cell → M W Received
  read_test fuel buffer = do
    (server, server_address) ← create_listening_socket p k Address.empty
    (result, socket) ←
        ConnectedSocket.connect p k ConnectedSocket.initial stream server_address Address.empty
    write_string p k fuel test_text server
    (error, count, buffer') ← Calls.read k socket buffer
    same ← defined (streq buffer' test_text)
    ConnectedSocket.close_own k socket
    pure (record {
      connected = result == no_error;
      okay = error == no_error;
      count = count;
      same = same;
    })

  -- `char buffer[1024] = {0}`.
  unfoldable pub test_read_buffer : ℕ → M W Received
  unfolding read_test
  test_read_buffer fuel = read_test fuel (replicate 1024 (byte 0))

  -- `std::vector<char> v(1024)`, which has the value zero everywhere.
  unfoldable pub test_read_vector : ℕ → M W Received
  unfolding read_test
  test_read_vector fuel = read_test fuel (replicate 1024 (byte 0))
