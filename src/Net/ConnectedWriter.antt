-- ===== src/Net/ConnectedWriter.antt =====
-- `syd::net::connected_writer` of src/syd/net/connected_writer.h and connected_writer.cpp. The
-- socket that the writer refers to is an argument.
pub mod Results
use sydn.Common.{
  ℕ, Bool, not, ◌&&◌, ◌||◌, List, length, ◌==◌, if◌then◌else◌, ℤ, minus_one, ◌==ℤ◌, narrow, to_size,
  Cell,
}
use sydn.Posix.Platform.{Platform}
use sydn.Posix.Kernel.{Kernel, M, pure, ◌>>=◌, call}
use sydn.Net.ConnectedSocket.{ConnectedSocket, ErrorCondition, no_error, last_error}

pub record ConnectedWriter : Type 0 where
  pub d_last_error : ErrorCondition
  pub d_last_bytes : ℕ

abbrev pub initial : ConnectedWriter
initial = record { d_last_error = no_error; d_last_bytes = 0 }

-- A result below -1 is not told from a number of bytes here.
unfoldable pub write :
    {W : Type 0} → Kernel W → ConnectedSocket → ConnectedWriter → List Cell → M W ConnectedWriter
write k socket writer bytes = do
  r ← call (k.write socket.d_fd bytes (length bytes))
  let res = narrow r
  if res ==ℤ minus_one
      then (do e ← last_error k; pure (record { d_last_error = e; d_last_bytes = 0 }))
      else pure (record { d_last_error = no_error; d_last_bytes = to_size res })

module _ (p : Platform) where
  unfoldable pub would_have_blocked : ConnectedWriter → Bool
  would_have_blocked writer =
      writer.d_last_error == p.operation_would_block
      || writer.d_last_error == p.resource_unavailable_try_again

  unfoldable pub okay : ConnectedWriter → Bool
  okay writer = writer.d_last_error == no_error && not (would_have_blocked writer)

  -- `operator bool`.
  abbrev pub to_bool : ConnectedWriter → Bool
  to_bool writer = okay writer

abbrev pub last_bytes : ConnectedWriter → ℕ
last_bytes writer = writer.d_last_bytes

abbrev pub error : ConnectedWriter → ErrorCondition
error writer = writer.d_last_error
