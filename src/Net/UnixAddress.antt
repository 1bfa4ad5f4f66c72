-- ===== src/Net/UnixAddress.antt =====
-- `syd::net::unix_address` of src/syd/net/unix_address.h and unix_address.cpp. The class adds no
-- members to `address`. A `std::string` is the list of its bytes.
pub mod Path
pub mod Make
use sydn.Common.{
  ℕ, zero, suc, Bool, true, false, Option, none, some, List, [], ◌∷◌, length, drop, replicate,
  splice_at, ltb, leb, ◌==◌, if◌then◌else◌, Cell, byte, unspecified,
}
use mathlib.Core.Option
use sydn.Posix.Platform.{Platform}
use sydn.Net.Bytes.{set16}
use sydn.Net.Address
use sydn.Net.Address.{Address}

-- `strncpy(dst, src.c_str(), n)`: the `n` bytes that it writes.
unfoldable pub strncpy : ℕ → List ℕ → List Cell
strncpy zero src = []
strncpy (suc n) [] = byte 0 ∷ strncpy n []
strncpy (suc n) (c ∷ src) = if c == 0 then replicate (suc n) (byte 0) else byte c ∷ strncpy n src

-- The string of the bytes up to a zero; `none`: it reads a byte without a value, or past the memory.
unfoldable pub c_string : List Cell → Option (List ℕ)
c_string [] = none
c_string (unspecified ∷ bytes) = none
c_string (byte c ∷ bytes) = if c == 0 then some [] else Option.map (◌∷◌ c) (c_string bytes)

module _ (p : Platform) where
  -- The result, and the new address; `none` for a write through a null pointer.
  unfoldable pub set_path : Address → List ℕ → Option (Bool × Address)
  set_path a path =
      if ltb p.sizeof_sun_path (length path)
      then some (false, a)
      else Option.map (λ b. (true, b))
          (Address.update a λ bytes. splice_at p.sun_path bytes (strncpy p.sizeof_sun_path path))

  -- The constructor; `none` also for a failed assertion of `resize`.
  unfoldable pub make : List ℕ → Option Address
  make path = elim (Address.resize p Address.empty p.sizeof_sockaddr_un) [
    | none ↦ none
    | some a ↦ elim (Address.update a (set16 0 p.af_unix)) [
      | none ↦ none
      | some b ↦ Option.map (λ r. r.1) (set_path b path)
    ]
  ]

  -- `none`: the assertion fails, or the path cannot be read.
  unfoldable pub path : Address → Option (List ℕ)
  path a =
      if leb p.sizeof_sockaddr_un (Address.size a)
      then elim (Address.native a) [ none ↦ none | some bytes ↦ c_string (drop p.sun_path bytes) ]
      else none
