-- ===== src/Net/ListenSocket/Construction.antt =====
-- What holds of a listening socket's descriptor after the constructor, however it ends.
use sydn.Common.{ℕ, ◌≡◌, true, Option, some, List, ℤ, minus_one, ◌==ℤ◌, Cell, Bool-cases, inl, inr}
use sydn.Posix.Platform.{Platform}
use sydn.Posix.Kernel.{Kernel, M}
use sydn.Posix.Returns.{Returns}
use sydn.Net.Address
use sydn.Net.Address.{Address}
use sydn.Net.Address.Contents.{IsSize, resize-IsSize, resized}
use sydn.Net.ConnectedSocket.{SocketType, to_int}
use sydn.Net.PosixSocketBuffer.{to_socklen}
use sydn.Net.ListenSocket.{
  ListenSocket, initial, c_listen_backlog, check_result, checked, read_local_address, make,
}

-- A statement on a descriptor and the system that the calls on that descriptor leave true.
pub record IsKept {W : Type 0} (k : Kernel W) (P : ℤ → W → Type 0) : Type 0 where
  pub binds : (fd : ℤ) (b : Option (List Cell)) (n : ℕ) (w : W) → P fd w → P fd (k.bind fd b n w).1
  pub listens : (fd : ℤ) (n : ℕ) (w : W) → P fd w → P fd (k.listen fd n w).1
  pub names :
      (fd : ℤ) (b : Option (List Cell)) (n : ℕ) (w : W) → P fd w → P fd (k.getsockname fd b n w).1

module _ {W : Type 0} {k : Kernel W} (p : Platform) {P : ℤ → W → Type 0} (kept : IsKept k P) where
  abbrev Made : ListenSocket → W → Type 0
  Made s w = P s.d_fd w

  -- A step of the constructor, with its early return.
  checked-Made :
      (s : ListenSocket) (code : ℤ) (rest : ListenSocket → M W ListenSocket) (w' : W)
      → Made s w'
      → Returns Made (rest s w')
      → Returns Made (checked k s code rest w')
  unfolding check_result
  checked-Made s code rest w' a more = elim (Bool-cases (code ==ℤ minus_one)) [
    | inl e ↦ rw e a
    | inr e ↦ rw e more
  ]

  read_local_address-Made :
      (s : ListenSocket) (local : Address) (w' : W)
      → IsSize p (Address.size local)
      → Made s w'
      → Returns Made (read_local_address p k s local w')
  unfolding read_local_address
  read_local_address-Made s local w' sized a =
      let address = resized s.d_local_address (Address.size local) in
      let room = Address.native address in
      let len = to_socklen (Address.capacity address) in
      let filled = k.getsockname s.d_fd room len w' in
      let after = kept.names s.d_fd room len w' a in
      rw (resize-IsSize p s.d_local_address (Address.size local) sized) (
        checked-Made (record s { d_local_address = Address.with_native address filled.0.buffer })
          filled.0.result _ filled.1 after after)

  -- What the constructor does once it has a descriptor.
  bound-Made :
      (s : ListenSocket) (local : Address) (w' : W)
      → IsSize p (Address.size local)
      → Made s w'
      → let bound = k.bind s.d_fd (Address.native local) (Address.size local) w' in
        let listening = k.listen s.d_fd c_listen_backlog bound.1 in
        Returns Made (
          checked k s bound.0
            (λ s'. (λ w₁.
              checked k s'
                (k.listen s'.d_fd c_listen_backlog w₁).0
                (λ s''. read_local_address p k s'' local)
                (k.listen s'.d_fd c_listen_backlog w₁).1))
            bound.1)
  bound-Made s local w' sized a =
      let bound = k.bind s.d_fd (Address.native local) (Address.size local) w' in
      let after = kept.binds s.d_fd (Address.native local) (Address.size local) w' a in
      let listening = k.listen s.d_fd c_listen_backlog bound.1 in
      let last = kept.listens s.d_fd c_listen_backlog bound.1 after in
      checked-Made s bound.0 _ bound.1 after (
        checked-Made s listening.0 (λ s''. read_local_address p k s'' local) listening.1 last
          (read_local_address-Made s local listening.1 sized last))

  -- The statement holds of what `socket` returns.
  pub make-IsKept :
      (type : SocketType) (local : Address) (domain : ℕ) (w : W)
      → Address.ne_null p local ≡ some true
      → Address.family p local ≡ some domain
      → IsSize p (Address.size local)
      → (let new = k.socket domain (to_int p type) 0 w in P new.0 new.1)
      → Returns (λ s w'. P s.d_fd w') (make p k type local w)
  unfolding make
  make-IsKept type local domain w given family sized a =
      let new = k.socket domain (to_int p type) 0 w in
      rw (given, family)
        (checked-Made (record initial { d_fd = new.0 }) new.0 _ new.1 a
          (bound-Made (record initial { d_fd = new.0 }) local new.1 sized a))
