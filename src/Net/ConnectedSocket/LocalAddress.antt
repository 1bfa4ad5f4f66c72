-- ===== src/Net/ConnectedSocket/LocalAddress.antt =====
-- `connected_socket::local_address` against `posix_socket_buffer::local_address`.
use sydn.Common.{
  ◌<◌, ◌^◌, ◌⊎◌, length, map, byte, arith, ℕ, zero, suc, ◌≡◌, refl, ltb, minus_one, ◌==ℤ◌,
  Bool-cases, Option-cases, inl, inr,
}
use mathlib.Core.Option
use sydn.Posix.Platform.{Platform, IsSound}
use sydn.Posix.Kernel.{Kernel}
use sydn.Posix.Laws.{SocketName}
use sydn.Posix.Returns.{Returns, Returns-map, Returns-mono}
use sydn.Net.Address
use sydn.Net.Address.{Address}
use sydn.Net.ConnectedSocket.{ConnectedSocket, ErrorCondition, local_address_loop, local_address}
use sydn.Net.PosixSocketBuffer
use sydn.Net.PosixSocketBuffer.{to_socklen, PosixSocketBuffer}
use sydn.Net.PosixSocketBuffer.LocalAddress.{Failed, Outcome, local_address_lem}
use sydn.Net.Address.Contents.{empty-IsValid, IsValid, IsSize, contents}

abbrev pub address_of : {W : Type 0} → (ErrorCondition × Address) × W → Address × W
address_of ((e, a), w) = (a, w)

module _ (p : Platform) {W : Type 0} (k : Kernel W) where
  loop_agrees :
      (fuel : ℕ) (s : ConnectedSocket) (address : Address) (w : W)
      → local_address_loop p k fuel s address w
        ≡ Option.map address_of
            (PosixSocketBuffer.local_address_loop p k fuel (record { d_fd = s.d_fd }) address w)
  unfolding local_address_loop PosixSocketBuffer.local_address_loop
  loop_agrees zero s address w = refl
  loop_agrees (suc fuel) s address w =
      let called =
        k.getsockname s.d_fd (Address.native address) (to_socklen (Address.capacity address)) w in
      let filled_address = Address.with_native address called.0.buffer in
      elim (Bool-cases (called.0.result ==ℤ minus_one)) [
        | inl e ↦ elim (Option-cases (Address.move_assign filled_address Address.empty)) [
          | inl n ↦ rw (e, n)
          | inr (cleared, c) ↦ rw (e, c)
        ]
        | inr e ↦ elim (Option-cases (Address.resize p filled_address called.0.length)) [
          | inl n ↦ rw (e, n)
          | inr (resized, r) ↦
              elim (Bool-cases (ltb (Address.capacity filled_address) called.0.length)) [
                | inl again ↦ rw (e, r, again) (loop_agrees fuel s resized called.1)
                | inr done ↦ rw (e, r, done)
              ]
        ]
      ]

  -- `connected_socket::local_address` makes the calls that `posix_socket_buffer::local_address`
  -- makes on a new address, and returns the address that this leaves, from every state and for all
  -- arguments, with the same rounds of the loop.
  pub local_address_agrees :
      (fuel : ℕ) (s : ConnectedSocket) (w : W)
      → local_address p k fuel s w
        ≡ Option.map address_of
            (PosixSocketBuffer.local_address p k fuel (record { d_fd = s.d_fd }) Address.empty w)
  unfolding local_address PosixSocketBuffer.local_address
  local_address_agrees fuel s w =
      elim (Option-cases (Address.resize p Address.empty p.sizeof_sockaddr)) [
        | inl n ↦ rw n
        | inr (address, r) ↦ rw r (loop_agrees fuel s address w)
      ]

  -- With room for two rounds the loop ends, no assertion fails, and `local_address` returns a valid
  -- address: exactly the socket's name, or, if a call of `getsockname` failed, one of size 0. It is
  -- required that `sizeof(sockaddr)` fits a `socklen_t`, and that the name is empty or at least as
  -- long as a `sockaddr`.
  pub local_address_named :
      (s : ConnectedSocket) (n : SocketName k s.d_fd) (fuel : ℕ) (w : W)
      → IsSound p
      → p.sizeof_sockaddr < 2 ^ 32
      → IsSize p (length (n.name w))
      → Returns
          (λ a w'.
            IsValid a
            × ((contents a ≡ map byte (n.name w))
                ⊎ (Failed p k (record { d_fd = s.d_fd }) n w' × (Address.size a ≡ 0))))
          (local_address p k (suc (suc fuel)) s w)
  local_address_named s n fuel w sound socklen named =
      let b : PosixSocketBuffer = record { d_fd = s.d_fd } in
      rw (local_address_agrees (suc (suc fuel)) s w) (
        Returns-map
          (λ a w'.
            IsValid a
            × ((contents a ≡ map byte (n.name w)) ⊎ (Failed p k b n w' × (Address.size a ≡ 0))))
          address_of (PosixSocketBuffer.local_address p k (suc (suc fuel)) b Address.empty w)
          (Returns-mono (Outcome p k b n (n.name w)) _ _
            (local_address_lem p k b n fuel Address.empty w sound empty-IsValid.0
              (omega (arith, empty-IsValid.2)) socklen named)
            λ r w' (valid, outcome). (
              valid,
              elim outcome [
                | inl (_, named_so) ↦ inl named_so
                | inr (failed, _, zero_size) ↦ inr (failed, zero_size)
              ],
            )))
