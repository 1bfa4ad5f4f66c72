-- ===== src/Net/Print.antt =====
-- `operator<<(std::ostream &, address const &)` of src/syd/net/address.cpp, with the printers of each
-- family in address.cpp, ipv4_address.cpp and unix_address.cpp. A stream is the text written so far.
-- `none`: a byte without a value is read, or a read through a null pointer.
pub mod Results
use sydn.Common.{
  ℕ, zero, suc, ◌+◌, ◌/◌, ◌%◌, Option, none, some, List, [], ◌∷◌, ◌++◌, drop, ltb, ◌==◌, ◌==ℤ◌, ℤ,
  pos, if◌then◌else◌, Cell,
}
use mathlib.Core.Option
use Prim.Native.Char.{code}
use Prim.Native.String.{String}
use sydn.Posix.Platform.{Platform}
use sydn.Net.Bytes.{get16}
use sydn.Net.Address
use sydn.Net.Address.{Address}
use sydn.Net.UnixAddress.{c_string}

-- The bytes of a text in ASCII.
abbrev pub codes : String → List ℕ
codes String.[] = []
codes (String.◌∷◌ c s) = code c ∷ codes s

-- The digits of a number, on fuel; the number is fuel enough.
unfoldable pub digits : ℕ → ℕ → List ℕ
digits zero n = (48 + n) ∷ []
digits (suc fuel) n =
    let higher = digits fuel (n / 10) in
    if ltb n 10 then (48 + n) ∷ [] else higher ++ (48 + n % 10) ∷ []

-- `operator<<` of the standard library for a number that is not negative.
abbrev pub decimal : ℕ → List ℕ
decimal n = digits n n

-- `printAddress<Family>` for a family that has no printer.
unfoldable pub print_unknown : List ℕ → List Cell → Option (List ℕ)
print_unknown stream bytes =
    Option.map (λ family. stream ++ codes "Unknown address family: " ++ decimal family)
      (get16 0 bytes)

unfoldable pub print_unspec : List ℕ → List ℕ
print_unspec stream = stream ++ codes "Unspecified address"

-- A printer that reads the memory of the address.
abbrev pub reading : Address → (List Cell → Option (List ℕ)) → Option (List ℕ)
reading a f = elim (Address.native a) [ none ↦ none | some bytes ↦ f bytes ]

module _ (p : Platform) where
  unfoldable pub print_inet : List ℕ → Option (List Cell) → ℕ → List ℕ
  print_inet stream bytes length =
      let (res, host, port) = p.getnameinfo bytes length in
      if res ==ℤ pos 0
      then stream ++ host ++ codes ":" ++ port
      else stream ++ codes "invalid-address(" ++ p.gai_strerror res ++ codes ")"

  unfoldable pub print_inet6 : List ℕ → Option (List Cell) → ℕ → List ℕ
  unfolding print_inet
  print_inet6 stream bytes length = print_inet stream bytes length

  unfoldable pub print_unix : List ℕ → List Cell → Option (List ℕ)
  print_unix stream bytes =
      Option.map (λ path. stream ++ codes "unix:" ++ path) (c_string (drop p.sun_path bytes))

  unfoldable pub print : List ℕ → Address → Option (List ℕ)
  print stream a = elim (Address.family p a) [
    | none ↦ none
    | some family ↦
        if family == p.af_unspec
        then some (print_unspec stream)
        else if family == p.af_inet
        then some (print_inet stream (Address.native a) (Address.size a))
        else if family == p.af_inet6
        then some (print_inet6 stream (Address.native a) (Address.size a))
        else if family == p.af_unix
        then reading a (print_unix stream)
        else reading a (print_unknown stream)
  ]
