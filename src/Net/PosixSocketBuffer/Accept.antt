-- ===== src/Net/PosixSocketBuffer/Accept.antt =====
-- The address that `posix_socket_buffer::accept` stores.
use sydn.Common.{
  ℕ, ◌≤◌, ◌<◌, ◌^◌, ◌≡◌, refl, ap, ◌∙◌, inr, max, false, some, map, arith, length, take, splice,
  replicate, ge→ltb, byte, unspecified, ℤ, minus_one, ◌==ℤ◌, length-splice, length-map, take-all,
}
use sydn.Mem.Sdo.Invariant
use sydn.Mem.Sdo.Contents as Characters
use sydn.Posix.Platform.{Platform, IsSound}
use sydn.Posix.Kernel.{Kernel}
use sydn.Posix.Laws.{PeerName}
use sydn.Posix.Returns.{Returns, Returns->>=}
use sydn.Net.Address
use sydn.Net.Address.{Address}
use sydn.Net.Address.Contents.{
  IsValid, contents, memory, native_of_ne_zero, IsSize, resized, resize-IsSize, written_lem,
  resized-contents,
}
use sydn.Net.ConnectedSocket.{no_error}
use sydn.Net.PosixSocketBuffer.{PosixSocketBuffer, posix, import, to_socklen, refill, accept_from}

import-Returns :
    {W : Type 0} (k : Kernel W) (s : PosixSocketBuffer) (fd : ℤ) (w : W)
    → Returns (λ s' w'. import k s fd w ≡ some (s', w')) (import k s fd w)
unfolding import
import-Returns k s fd w = ground arith

-- After the resize to the reported length the capacity is at least that length, so that the test for
-- a retry never holds.
refill_never :
    {W : Type 0} (p : Platform) (k : Kernel W) (s : PosixSocketBuffer) (a : Address) (len : ℕ)
    (w : W)
    → refill p k s (resized a len) len w ≡ some (resized a len, w)
unfolding refill
refill_never p k s a len w = rw (
    ge→ltb (Address.capacity (resized a len)) len
      (omega (arith, Invariant.capacity-resize Address.c_sdo_size a.d_data len)))

module _ (p : Platform) {W : Type 0} (k : Kernel W) (s : PosixSocketBuffer)
    (n : PeerName k s.d_fd) where
  -- A connection is accepted with no error, and `peer` imports its descriptor: the calls are `accept`
  -- and those of the import, and no other is made. If the peer's address fits the capacity (its own, or
  -- if that is less `sizeof(sockaddr)`), the address becomes exactly the peer's; otherwise it gets the
  -- peer's length and not one of its bytes has a value: growing the buffer drops what was stored, and the
  -- retry, which would call `getsockname`, is not made. It is required that `accept` of the system
  -- succeeds, that the address was valid, that its capacity and `sizeof(sockaddr)` fit a `socklen_t`, and
  -- that the peer's address is empty or at least as long as a `sockaddr`.
  pub accept_from_lem :
      (peer : PosixSocketBuffer) (a : Address) (w : W)
      → IsSound p
      → IsValid a
      → Address.capacity a < 2 ^ 32
      → p.sizeof_sockaddr < 2 ^ 32
      → IsSize p (length (n.peer w))
      → let room = Address.capacity (resized a p.sizeof_sockaddr) in
        let accepted = k.accept s.d_fd (some (memory (resized a p.sizeof_sockaddr))) room w in
        (accepted.0.result ==ℤ minus_one) ≡ false
        → Returns
            (λ r w'.
              (r.0 ≡ no_error)
              × ((peer' : PosixSocketBuffer) × (r.1 ≡ posix peer')
                  × (import k peer accepted.0.result accepted.1 ≡ some (peer', w')))
              × (length (n.peer w) ≤ room → contents r.2 ≡ map byte (n.peer w))
              × (room < length (n.peer w)
                  → contents r.2 ≡ replicate (length (n.peer w)) unspecified))
            (accept_from p k s (posix peer) a w)
  unfolding accept_from
  accept_from_lem peer a w sound v small socklen named e =
      let least = p.sizeof_sockaddr in
      let first = resized a least in
      let room = Address.capacity first in
      let accepted = k.accept s.d_fd (some (memory first)) room w in
      let cap : room ≡ max (Address.capacity a) least =
        Invariant.capacity-resize Address.c_sdo_size a.d_data least in
      let first_valid = Invariant.resize-IsValid Address.c_sdo_size a.d_data least v in
      let given = native_of_ne_zero first (
        omega (
          arith,
          sound.family_in_sockaddr,
          Invariant.size-resize Address.c_sdo_size a.d_data least,
        )) in
      let fits : to_socklen room ≡ room = omega (arith, cap) in
      let len = length (n.peer w) in
      let bytes = map byte (take room (n.peer w)) in
      let written = Address.with_native first (some (splice (memory first) bytes)) in
      let memory_length = Invariant.length-data_of Address.c_sdo_size first.d_data first_valid in
      let (valid, _, capacity, m) =
        written_lem first (splice (memory first) bytes) first_valid
          (length-splice (memory first) bytes ∙ memory_length) in
      rw
        (
          resize-IsSize p a least (inr (omega arith)),
          given,
          fits,
          e,
          n.peer_copies (memory first) room w e,
        )
        (Returns->>= (λ s' w'. import k peer accepted.0.result accepted.1 ≡ some (s', w')) _
          (import k peer _) _ _ (import-Returns k peer _ _)
          λ s' w' imported.
            rw (n.peer_reports (memory first) room w e, resize-IsSize p written len named)
              (rw (refill_never p k s written len w', Returns)
                (
                  refl,
                  (s', refl, imported),
                  λ short.
                      resized-contents written len (map byte (n.peer w)) (memory first)
                        (m
                          ∙ ap (λ b. splice (memory first) (map byte b))
                              (take-all room (n.peer w) short))
                        (length-map byte (n.peer w)) (omega (arith, capacity))
                        (omega (arith, memory_length)),
                  λ long.
                      (Characters.resize_lem Address.c_sdo_size written.d_data len valid).4
                        (omega (arith, capacity)),
                )))
