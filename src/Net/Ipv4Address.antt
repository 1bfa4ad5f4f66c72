-- ===== src/Net/Ipv4Address.antt =====
-- `syd::net::ipv4_address` of src/syd/net/ipv4_address.h and ipv4_address.cpp. The class adds no
-- members to `address`. A `std::string` is the list of its bytes.
pub mod Fields
pub mod Text
use sydn.Common.{
  zero, suc, [], ◌∷◌, take, replicate, ◌==◌, if◌then◌else◌, ℕ, ◌%◌, ◌^◌, Bool, Option, none, some,
  List, drop, splice_at, ℤ, pos, ◌==ℤ◌, Cell,
}
use mathlib.Core.Option
use sydn.Posix.Platform.{Platform}
use sydn.Net.Bytes.{get16, set16}
use sydn.Net.Address
use sydn.Net.Address.{Address}

-- `strnlen(text, n)`.
unfoldable pub strnlen : ℕ → List ℕ → ℕ
strnlen zero text = 0
strnlen (suc n) [] = 0
strnlen (suc n) (c ∷ text) = if c == 0 then 0 else suc (strnlen n text)

module _ (p : Platform) where
  -- `htons` takes an unsigned integer of 16 bits. `none`: a write through a null pointer.
  unfoldable pub set_port : Address → ℕ → Option Address
  set_port a port = Address.update a (set16 p.sin_port (p.htons (port % 2 ^ 16)))

  -- `none`: the field has no value, or a read through a null pointer.
  unfoldable pub port : Address → Option ℕ
  port a = elim (Address.native a) [
    | none ↦ none
    | some bytes ↦ Option.map p.ntohs (get16 p.sin_port bytes)
  ]

  -- What `inet_pton` is called on: the family and the memory at `sin_addr`.
  unfoldable pub pton : ℕ → List ℕ → List Cell → ℤ × List Cell
  pton family text bytes = p.inet_pton family text (drop p.sin_addr bytes)

  -- The result, and the new address.
  unfoldable pub set_address : Address → List ℕ → Option (Bool × Address)
  set_address a text = elim (Address.native a) [
    | none ↦ none
    | some bytes ↦ elim (get16 0 bytes) [
      | none ↦ none
      | some family ↦
          Option.map (λ b. ((pton family text bytes).0 ==ℤ pos 1, b))
            (Address.update a λ old. splice_at p.sin_addr old (pton family text bytes).1)
    ]
  ]

  -- The text that `inet_ntop` makes of the memory at `sin_addr`, up to its zero byte.
  unfoldable pub numeric_host : ℕ → List Cell → List ℕ
  numeric_host family bytes =
      let tmp =
        p.inet_ntop family (drop p.sin_addr bytes) p.inet_addrstrlen
          (replicate p.inet_addrstrlen 0) in
      take (strnlen p.inet_addrstrlen tmp) tmp

  -- `address()`.
  unfoldable pub address : Address → Option (List ℕ)
  address a = elim (Address.native a) [
    | none ↦ none
    | some bytes ↦ Option.map (λ family. numeric_host family bytes) (get16 0 bytes)
  ]

  -- The default constructor; `none` also for a failed assertion of `resize`.
  unfoldable pub make_any : Option Address
  make_any = elim (Address.resize p Address.empty p.sizeof_sockaddr_in) [
    | none ↦ none
    | some a ↦ Address.update a (set16 0 p.af_inet)
  ]

  -- `ipv4_address(address, port)`.
  unfoldable pub make : List ℕ → ℕ → Option Address
  make text port = elim (Address.resize p Address.empty p.sizeof_sockaddr_in) [
    | none ↦ none
    | some a ↦ elim (Address.update a (set16 0 p.af_inet)) [
      | none ↦ none
      | some b ↦ elim (set_port b port) [
        | none ↦ none
        | some c ↦ Option.map (λ r. r.1) (set_address c text)
      ]
    ]
  ]
