-- ===== src/Drivers/Transfers.antt =====
-- `readAll` and `writeAll` of src/syd/net/connected_socket.t.cpp: the peers of the sockets under test.
pub mod Rounds
pub mod Reads
pub mod Writes
use sydn.Common.{
  ℕ, zero, suc, ◌+◌, ◌-◌, ◌%◌, ◌^◌, ◌||◌, none, some, List, ◌++◌, length, take, drop, replicate,
  ◌==◌, if◌then◌else◌, narrow, is_nonneg, to_size, Cell, unspecified, ℤ,
}
use sydn.Posix.Platform.{Platform}
use sydn.Posix.Kernel.{Kernel, M, pure, ◌>>=◌, call}
use sydn.Net.ConnectedSocket.{last_error}

-- The difference of two numbers of type `size_t`.
abbrev pub size_difference : ℕ → ℕ → ℕ
size_difference a b = (a + 2 ^ 64 - b % 2 ^ 64) % 2 ^ 64

module _ (p : Platform) {W : Type 0} (k : Kernel W) where
  -- What a round does after a failed call: it goes on if the call would have blocked.
  abbrev pub retry : {A : Type 0} → M W A → M W A
  retry again = do
    e ← last_error k
    if e == p.operation_would_block || e == p.resource_unavailable_try_again then again else λ w.
        none

  -- The loop of `readAll`, with room for that many rounds: the buffer when `count` is `size`.
  unfoldable pub read_loop : ℕ → ℤ → ℕ → ℕ → List Cell → M W (List Cell)
  read_loop zero fd size count buffer = λ w. none
  read_loop (suc fuel) fd size count buffer = if count == size then pure buffer else (do
    (r, rest) ← λ w.
        (let (r, b, w') = k.read fd (drop count buffer) (size_difference size count) w in
          some ((r, b), w'))
    let res = narrow r
    let buffer' = take count buffer ++ rest
    if is_nonneg res
        then read_loop fuel fd size ((count + to_size res) % 2 ^ 64) buffer'
        else retry (read_loop fuel fd size count buffer'))

  unfoldable pub read_all : ℕ → ℤ → ℕ → M W (List Cell)
  read_all fuel fd size = read_loop fuel fd size 0 (replicate size unspecified)

  -- The loop of `writeAll`.
  unfoldable pub write_loop : ℕ → ℤ → List Cell → ℕ → M W (Unit {0})
  write_loop zero fd str count = λ w. none
  write_loop (suc fuel) fd str count = if count == length str then pure tt else (do
    r ← call (k.write fd (drop count str) (size_difference (length str) count))
    let res = narrow r
    if is_nonneg res
        then write_loop fuel fd str ((count + to_size res) % 2 ^ 64)
        else retry (write_loop fuel fd str count))

  unfoldable pub write_all : ℕ → ℤ → List Cell → M W (Unit {0})
  write_all fuel fd str = write_loop fuel fd str 0
