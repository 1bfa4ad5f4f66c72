-- ===== src/Drivers/Calls.antt =====
-- `read`, `write` and `compareAddress` of src/syd/net/connected_socket.t.cpp.
pub mod Agree
use sydn.Common.{
  ℕ, zero, suc, min, Bool, true, false, not, Option, none, some, List, [], ◌∷◌, length, ◌==◌,
  if◌then◌else◌, ◌==ℤ◌, minus_one, narrow, is_nonneg, to_size, Cell, byte, unspecified,
}
use sydn.Posix.Platform.{Platform}
use sydn.Posix.Kernel.{Kernel, M, pure, ◌>>=◌, ◌>>◌, call}
use sydn.Net.Address
use sydn.Net.Address.{Address}
use sydn.Net.ConnectedSocket
use sydn.Net.ConnectedSocket.{ConnectedSocket, ErrorCondition, no_error, last_error}
use sydn.Net.PosixSocketBuffer.{assert}

module _ {W : Type 0} (k : Kernel W) where
  -- The error, the number of bytes, and the buffer's new content.
  unfoldable pub read : ConnectedSocket → List Cell → M W (ErrorCondition × ℕ × List Cell)
  read socket buffer = do
    (r, buffer') ← λ w.
        (let (r, b, w') = k.read (ConnectedSocket.native_handle socket) buffer (length buffer) w in
          some ((r, b), w'))
    let res = narrow r
    if res ==ℤ minus_one
        then (do e ← last_error k; pure (e, 0, buffer'))
        else (do assert k (is_nonneg res); pure (no_error, to_size res, buffer'))

  unfoldable pub write : ConnectedSocket → List Cell → M W (ErrorCondition × ℕ)
  write socket buffer = do
    r ← call (k.write (ConnectedSocket.native_handle socket) buffer (length buffer))
    let res = narrow r
    if res ==ℤ minus_one
        then (do e ← last_error k; pure (e, 0))
        else (do assert k (is_nonneg res); pure (no_error, to_size res))

-- Whether `memcmp` returns 0 on the first `n` bytes; `none`: it reads a byte without a value, or past
-- the memory.
unfoldable pub memcmp_eq : ℕ → List Cell → List Cell → Option Bool
memcmp_eq zero xs ys = some true
memcmp_eq (suc n) (byte x ∷ xs) (byte y ∷ ys) =
    let rest = memcmp_eq n xs ys in if x == y then rest else some false
memcmp_eq (suc n) xs ys = none

-- A null pointer is no argument of `memcmp`, whatever the length.
abbrev pub compare_native : ℕ → Option (List Cell) → Option (List Cell) → Option Bool
compare_native n (some xs) (some ys) = memcmp_eq n xs ys
compare_native n none ys = none
compare_native n (some xs) none = none

module _ (p : Platform) where
  unfoldable pub compare_address : Address → Address → Option Bool
  compare_address lhs rhs = elim (Address.family p lhs) [
    | none ↦ none
    | some f ↦ elim (Address.family p rhs) [
      | none ↦ none
      | some g ↦
          if not (f == g)
          then some false
          else compare_native (min (Address.size lhs) (Address.size rhs)) (Address.native lhs)
              (Address.native rhs)
    ]
  ]
