-- ===== src/Net/AddressInfoList/Info.antt =====
-- The accessors of `address_info` in src/syd/net/address_info_list.cpp. A node that `getaddrinfo` made
-- is a parameter, with the fields that are read of it; `ai_type`, which the source names, is read as
-- the socket type of the node.
use sydn.Common.{
  ℕ, ◌≤◌, ◌≡◌, ◌≢◌, ap₂, ◌∙◌, inr, Option, none, some, List, length, take, splice, ltb, ge→ltb,
  if◌then◌else◌, arith, Cell, length-splice, length-take, take-splice,
}
use mathlib.Core.Option
use sydn.Posix.Platform.{Platform}
use sydn.Mem.Sdo.Invariant
use sydn.Net.Address
use sydn.Net.Address.{Address}
use sydn.Net.Address.Contents.{IsValid, contents, memory, resized, resize-IsSize, update_lem}
use sydn.Net.Address.Family.{resized-empty-IsValid}
use sydn.Net.AddressInfoList.{AddressInfo}

pub record Node : Type 0 where
  pub ai_family : ℕ
  pub ai_type : ℕ
  pub ai_protocol : ℕ
  pub ai_addrlen : ℕ
  pub ai_addr : List Cell

module _ (nodes : ℕ → Node) where
  -- `none`: a read through a null pointer.
  abbrev pub element : AddressInfo → Option Node
  element info = Option.map nodes info.d_element

  unfoldable pub family : AddressInfo → Option ℕ
  family info = Option.map (λ node. node.ai_family) (element info)

  unfoldable pub socket_type : AddressInfo → Option ℕ
  socket_type info = Option.map (λ node. node.ai_type) (element info)

  unfoldable pub protocol : AddressInfo → Option ℕ
  protocol info = Option.map (λ node. node.ai_protocol) (element info)

  -- `none` also for a failed assertion of `resize`, a write through a null pointer, and a read past
  -- the address of the node.
  unfoldable pub address : Platform → AddressInfo → Option Address
  address p info = elim (element info) [
    | none ↦ none
    | some node ↦ elim (Address.resize p Address.empty node.ai_addrlen) [
      | none ↦ none
      | some result ↦
          if ltb (length node.ai_addr) node.ai_addrlen
          then none
          else Address.update result λ bytes. splice bytes (take node.ai_addrlen node.ai_addr)
    ]
  ]

  -- The address of a node whose address is a whole `sockaddr`, not empty, is exactly that one.
  pub contents-address :
      (p : Platform) (info : AddressInfo) (e : ℕ)
      → info.d_element ≡ some e
      → p.sizeof_sockaddr ≤ (nodes e).ai_addrlen
      → (nodes e).ai_addrlen ≢ 0
      → (nodes e).ai_addrlen ≤ length (nodes e).ai_addr
      → (a : Address) × (address p info ≡ some a)
        × IsValid a
        × (contents a ≡ take (nodes e).ai_addrlen (nodes e).ai_addr)
  unfolding address
  contents-address p info e here least given whole =
      let n = (nodes e).ai_addrlen in
      let first = resized Address.empty n in
      let bytes = take n (nodes e).ai_addr in
      let valid = resized-empty-IsValid n in
      let size_eq = Invariant.size-resize Address.c_sdo_size Address.empty.d_data n in
      let room = Invariant.length-data_of Address.c_sdo_size first.d_data valid in
      let (a, made, v, s, _, m) =
        update_lem first (λ before. splice before bytes) valid (omega (arith, size_eq, given))
          (length-splice (memory first) bytes) in
      (
        a,
        rw
            (
              address,
              here,
              resize-IsSize p Address.empty n (inr least),
              ge→ltb (length (nodes e).ai_addr) n whole,
            )
            made,
        v,
        ap₂ take (s ∙ size_eq) m
            ∙ take-splice n (memory first) bytes (omega (arith, length-take n (nodes e).ai_addr))
                (omega (arith, room, size_eq, valid.fits)),
      )
