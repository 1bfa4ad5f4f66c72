-- ===== src/Drivers/Readers.antt =====
-- The tests of src/syd/net/connected_reader.t.cpp.
use sydn.Common.{ℕ, Bool, ◌&&◌, ◌==◌, List, replicate, Cell, byte}
use sydn.Posix.Platform.{Platform}
use sydn.Posix.Kernel.{Kernel, M, pure, ◌>>=◌, ◌>>◌, defined}
use sydn.Net.Address
use sydn.Net.ConnectedReader
use sydn.Net.ConnectedSocket
use sydn.Net.ConnectedSocket.{ErrorCondition, stream, no_error}
use sydn.Drivers.Exchanges.{Received, streq, test_text}
use sydn.Drivers.Servers.{create_listening_socket, write_string}

-- What the test `Error` finds: whether the new reader is as it should be, the result of `read`, and
-- whether the error is `bad_file_descriptor`.
pub record Unread : Type 0 where
  pub fresh : Bool
  pub was_read : Bool
  pub bad : Bool

module _ (p : Platform) where
  -- The expectations of the test `Constructor`; those on a reader that has not been used.
  unfoldable pub constructor : Bool
  constructor =
      let reader = ConnectedReader.initial in
      ConnectedReader.to_bool p reader
      && ConnectedReader.last_bytes reader == 0
      && ConnectedReader.error reader == no_error

  module _ {W : Type 0} (k : Kernel W) where
    -- `read` returns the reader, whose test is `to_bool`. `bad_file_descriptor` is the value of
    -- `std::errc::bad_file_descriptor`.
    unfoldable pub error_into : ErrorCondition → List Cell → M W Unread
    error_into bad_file_descriptor buffer = do
      let socket = ConnectedSocket.initial
      (reader, buffer') ← ConnectedReader.read k socket ConnectedReader.initial buffer
      ConnectedSocket.close_own k socket
      pure (record {
        fresh = constructor;
        was_read = ConnectedReader.to_bool p reader;
        bad = ConnectedReader.error reader == bad_file_descriptor;
      })

    unfoldable pub error : ErrorCondition → M W Unread
    unfolding error_into
    error bad_file_descriptor = error_into bad_file_descriptor (replicate 1024 (byte 0))

    -- The calls of the server's thread come before that of `read`, which would wait for them.
    unfoldable pub read_test : ℕ → List Cell → M W Received
    read_test fuel buffer = do
      (server, server_address) ← create_listening_socket p k Address.empty
      (result, socket) ←
          ConnectedSocket.connect p k ConnectedSocket.initial stream server_address Address.empty
      write_string p k fuel test_text server
      (reader, buffer') ← ConnectedReader.read k socket ConnectedReader.initial buffer
      same ← defined (streq buffer' test_text)
      ConnectedSocket.close_own k socket
      pure (record {
        connected = result == no_error;
        okay = ConnectedReader.to_bool p reader;
        count = ConnectedReader.last_bytes reader;
        same = same;
      })

    unfoldable pub test_read_buffer : ℕ → M W Received
    unfolding read_test
    test_read_buffer fuel = read_test fuel (replicate 1024 (byte 0))

    unfoldable pub test_read_vector : ℕ → M W Received
    unfolding read_test
    test_read_vector fuel = read_test fuel (replicate 1024 (byte 0))
