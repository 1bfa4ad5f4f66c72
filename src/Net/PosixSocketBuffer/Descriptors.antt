-- ===== src/Net/PosixSocketBuffer/Descriptors.antt =====
-- Which descriptors the operations of `posix_socket_buffer` open and close.
use sydn.Common.{
  ℕ, ◌≡◌, ◌≢◌, sym, ◌∙◌, ap, true, some, arith, ℤ, minus_one, ◌==ℤ◌, Bool-cases, inl, inr,
}
use mathlib.Core.Option
use mathlib.Core.Bool.{false≢true}
use sydn.Posix.Platform.{Platform}
use sydn.Posix.Kernel.{Kernel}
use sydn.Posix.Laws.{Descriptors}
use sydn.Posix.Returns.{Returns, Returns-mono}
use sydn.Net.Address
use sydn.Net.Address.{Address}
use sydn.Net.ConnectedSocket
use sydn.Net.ConnectedSocket.{ConnectedSocket, SocketType, ErrorCondition, to_int}
use sydn.Net.PosixSocketBuffer.{
  PosixSocketBuffer, connect, bind_and_listen, listen, c_listen_backlog,
}

-- A result of `connected_socket::connect` read as one of `posix_socket_buffer::connect`.
abbrev pub as_posix :
    {W : Type 0} → (ErrorCondition × ConnectedSocket) × W → (ErrorCondition × PosixSocketBuffer) × W
as_posix ((e, s), w) = ((e, record { d_fd = s.d_fd }), w)

module _ (p : Platform) {W : Type 0} (k : Kernel W) where
  -- `posix_socket_buffer::connect` and `connected_socket::connect` make the same calls and come to
  -- the same descriptor and error, from every state and for all arguments.
  pub connect_agrees :
      (s : ConnectedSocket) (type : SocketType) (remote local : Address) (w : W)
      → connect p k (record { d_fd = s.d_fd }) type remote local w
        ≡ Option.map as_posix (ConnectedSocket.connect p k s type remote local w)
  unfolding connect ConnectedSocket.connect
  connect_agrees s type remote local w = ground arith

module _ {W : Type 0} {k : Kernel W} (d : Descriptors k) (p : Platform) where
  bind_and_listen-keeps :
      (s : PosixSocketBuffer) (local : Address) (w : W) (m : ℤ)
      → Returns
          (λ r w'. (d.is_open w' m ≡ d.is_open w m) × (r.1.d_fd ≡ s.d_fd))
          (bind_and_listen p k s local w)
  unfolding bind_and_listen
  bind_and_listen-keeps s local w m =
      let bound = k.bind s.d_fd (Address.native local) (Address.size local) w in
      ground (
        arith,
        d.bind_keeps s.d_fd (Address.native local) (Address.size local) w m,
        d.listen_keeps s.d_fd c_listen_backlog bound.1 m,
      )

  -- Unlike `connect`, `listen` does not close the descriptor that the buffer has: it stays open, and
  -- the buffer no longer has it. The address is not the null address.
  pub listen_leaks :
      (s : PosixSocketBuffer) (type : SocketType) (local : Address) (domain : ℕ) (w : W)
      → d.is_open w s.d_fd ≡ true
      → Address.ne_null p local ≡ some true
      → Address.family p local ≡ some domain
      → Returns
          (λ r w'. (d.is_open w' s.d_fd ≡ true) × (r.1.d_fd ≢ s.d_fd))
          (listen p k s type local w)
  unfolding listen
  listen_leaks s type local domain w o given f =
      let new = k.socket domain (to_int p type) 0 w in
      let kept : d.is_open new.1 s.d_fd ≡ true =
        ground (arith, d.socket_opens domain (to_int p type) 0 w s.d_fd) in
      let other : new.0 ≢ s.d_fd = λ same.
        false≢true (sym (d.socket_fresh domain (to_int p type) 0 w) ∙ ap (d.is_open w) same ∙ o) in
      elim (Bool-cases (new.0 ==ℤ minus_one)) [
        | inl e ↦ rw (given, f, e) (kept, other)
        | inr e ↦
            rw (given, f, e)
              (Returns-mono
                (λ r w'. (d.is_open w' s.d_fd ≡ d.is_open new.1 s.d_fd) × (r.1.d_fd ≡ new.0))
                (λ r w'. (d.is_open w' s.d_fd ≡ true) × (r.1.d_fd ≢ s.d_fd))
                (bind_and_listen p k (record { d_fd = new.0 }) local new.1)
                (bind_and_listen-keeps (record { d_fd = new.0 }) local new.1 s.d_fd)
                λ r w' h. (h.0 ∙ kept, rw h.1 other))
      ]
