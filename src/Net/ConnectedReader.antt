-- ===== src/Net/ConnectedReader.antt =====
-- `syd::net::connected_reader` of src/syd/net/connected_reader.h and connected_reader.cpp. The
-- socket that the reader refers to is an argument.
pub mod Results
use sydn.Common.{
  ℕ, Bool, not, ◌&&◌, ◌||◌, List, length, ◌==◌, if◌then◌else◌, ℤ, minus_one, ◌==ℤ◌, narrow,
  is_nonneg, to_size, Cell, some,
}
use sydn.Posix.Platform.{Platform}
use sydn.Posix.Kernel.{Kernel, M, pure, ◌>>=◌, ◌>>◌, call}
use sydn.Net.ConnectedSocket.{ConnectedSocket, ErrorCondition, no_error, last_error}
use sydn.Net.PosixSocketBuffer.{assert}

pub record ConnectedReader : Type 0 where
  pub d_last_error : ErrorCondition
  pub d_last_bytes : ℕ

abbrev pub initial : ConnectedReader
initial = record { d_last_error = no_error; d_last_bytes = 0 }

-- The new reader, and the new content of the buffer that `data` refers to.
unfoldable pub read :
    {W : Type 0}
    → Kernel W
    → ConnectedSocket
    → ConnectedReader
    → List Cell
    → M W (ConnectedReader × List Cell)
read k socket reader buffer = do
  (r, buffer') ←
      λ w. (let (r, b, w') = k.read socket.d_fd buffer (length buffer) w in some ((r, b), w'))
  let res = narrow r
  if res ==ℤ minus_one
      then (do e ← last_error k; pure (record { d_last_error = e; d_last_bytes = 0 }, buffer'))
      else (do
        assert k (is_nonneg res)
        pure (record { d_last_error = no_error; d_last_bytes = to_size res }, buffer'))

module _ (p : Platform) where
  unfoldable pub would_have_blocked : ConnectedReader → Bool
  would_have_blocked reader =
      reader.d_last_error == p.operation_would_block
      || reader.d_last_error == p.resource_unavailable_try_again

  unfoldable pub okay : ConnectedReader → Bool
  okay reader = reader.d_last_error == no_error && not (would_have_blocked reader)

  -- `operator bool`.
  abbrev pub to_bool : ConnectedReader → Bool
  to_bool reader = okay reader

abbrev pub last_bytes : ConnectedReader → ℕ
last_bytes reader = reader.d_last_bytes

abbrev pub error : ConnectedReader → ErrorCondition
error reader = reader.d_last_error
