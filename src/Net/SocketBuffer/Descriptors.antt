-- ===== src/Net/SocketBuffer/Descriptors.antt =====
-- Which descriptors the life of a socket buffer opens and closes, `listen` apart.
use sydn.Common.{
  ℕ, ◌≡◌, refl, true, false, Option, none, ltb, List, arith, ℤ, minus_one, ◌==ℤ◌, ==ℤ_refl, ==ℤ_iff,
  Cell, Bool-cases, Option-cases, inl, inr,
}
use mathlib.Core.Option
use sydn.Posix.Platform.{Platform}
use sydn.Posix.Kernel.{Kernel}
use sydn.Posix.Laws.{Descriptors}
use sydn.Posix.Returns.{IfReturns, IfReturns-then, IfReturns-map, Returns-IfReturns, Returns-mono}
use sydn.Net.Address
use sydn.Net.Address.{Address}
use sydn.Net.ConnectedSocket
use sydn.Net.ConnectedSocket.{ConnectedSocket, SocketType, ErrorCondition, to_int}
use sydn.Net.ConnectedSocket.Descriptors.{
  Accounts, Opened, close_own-Accounts, socket-Accounts, trans-Accounts, keeps-Accounts,
  bind_and_connect-Accounts, import-Accounts,
}
use sydn.Net.PosixSocketBuffer
use sydn.Net.PosixSocketBuffer.{to_socklen, PosixSocketBuffer, SocketBuffer, base, posix}
use sydn.Net.PosixSocketBuffer.Descriptors.{as_posix, connect_agrees}
use sydn.Net.SocketBuffer.{descriptor, accept, accept_from}

module _ {W : Type 0} {k : Kernel W} (d : Descriptors k) where
  -- What the descriptor that an object has is known to be before a call.
  abbrev pub Owns : ℤ → W → Type 0
  Owns fd w = (fd ==ℤ minus_one) ≡ false → d.is_open w fd ≡ true

  pub same-Accounts :
      (fd : ℤ) (w w' : W)
      → Owns fd w
      → ((m : ℤ) → d.is_open w' m ≡ d.is_open w m)
      → Accounts d fd w fd w'
  same-Accounts fd w w' own keeps =
      keeps-Accounts d (record { others = λ m. refl; own = own }) keeps

  none-Accounts : (w : W) → Accounts d minus_one w minus_one w
  none-Accounts w = record { others = λ m. refl; own = λ h. cc (==ℤ_refl minus_one) }

  module _ (p : Platform) where
    bound_connect-Accounts :
        {fd : ℤ} {w : W} (s : ConnectedSocket) (remote local : Address) (w' : W)
        → Accounts d fd w s.d_fd w'
        → IfReturns
            (λ r w''. Accounts d fd w r.1.d_fd w'')
            (ConnectedSocket.bind_and_connect p k s remote local w')
    unfolding ConnectedSocket.bind_and_connect
    bound_connect-Accounts {fd} {w} s remote local w' a =
        elim (Option-cases (Address.ne_null p local)) [
          | inl b ↦ rw b tt
          | inr (bound, b) ↦
              Returns-IfReturns (λ r w''. Accounts d fd w r.1.d_fd w'')
                (ConnectedSocket.bind_and_connect p k s remote local w')
                (bind_and_connect-Accounts d p s remote local bound w' b a)
        ]

    -- Also for addresses whose family may have no value, if the call returns.
    socket_connect-Accounts :
        (s : ConnectedSocket) (type : SocketType) (remote local : Address) (w : W)
        → IfReturns
            (λ r w'. Accounts d s.d_fd w r.1.d_fd w')
            (ConnectedSocket.connect p k s type remote local w)
    unfolding ConnectedSocket.connect
    socket_connect-Accounts s type remote local w =
        IfReturns-then (λ s' w'. Accounts d s.d_fd w s'.d_fd w' × (s'.d_fd ≡ minus_one)) _
          (ConnectedSocket.close_own k s) _ w
          (Returns-IfReturns (λ s' w'. Accounts d s.d_fd w s'.d_fd w' × (s'.d_fd ≡ minus_one))
            (ConnectedSocket.close_own k s w) (close_own-Accounts d s w))
          λ s' w' h. elim (Option-cases (Address.family p remote)) [
            | inl f ↦ rw f tt
            | inr (domain, f) ↦
                let new = k.socket domain (to_int p type) 0 w' in
                let a =
                  trans-Accounts d (rw h.1 at h.0)
                    (socket-Accounts d domain (to_int p type) 0 w') in
                elim (Bool-cases (new.0 ==ℤ minus_one)) [
                  | inl e ↦ rw (f, e) a
                  | inr e ↦
                      rw (f, e)
                        (bound_connect-Accounts (record { d_fd = new.0 }) remote local new.1 a)
                ]
          ]

    pub connect-keeps :
        (s : PosixSocketBuffer) (type : SocketType) (remote local : Address) (w : W)
        → IfReturns
            (λ r w'. Accounts d s.d_fd w r.1.d_fd w')
            (PosixSocketBuffer.connect p k s type remote local w)
    connect-keeps s type remote local w =
        rw (connect_agrees p k (record { d_fd = s.d_fd }) type remote local w) (
          IfReturns-map (λ r w'. Accounts d s.d_fd w r.1.d_fd w') as_posix
            (ConnectedSocket.connect p k (record { d_fd = s.d_fd }) type remote local w)
            (socket_connect-Accounts (record { d_fd = s.d_fd }) type remote local w))

    import_agrees :
        (s : PosixSocketBuffer) (fd : ℤ) (w : W)
        → PosixSocketBuffer.import k s fd w
          ≡ Option.map
              (λ (s', w'). (record { d_fd = s'.d_fd }, w'))
              (ConnectedSocket.import k (record { d_fd = s.d_fd }) fd w)
    unfolding PosixSocketBuffer.import ConnectedSocket.import
    import_agrees s fd w = ground arith

    import-keeps :
        (s : PosixSocketBuffer) (fd : ℤ) (w w' : W)
        → ((s.d_fd ==ℤ minus_one) ≡ false → d.is_open w s.d_fd ≡ true)
        → Opened d w fd w'
        → IfReturns (λ s' w''. Accounts d s.d_fd w s'.d_fd w'') (PosixSocketBuffer.import k s fd w')
    import-keeps s fd w w' own new = rw (import_agrees s fd w') (
        IfReturns-map (λ s' w''. Accounts d s.d_fd w s'.d_fd w'') _
          (ConnectedSocket.import k (record { d_fd = s.d_fd }) fd w')
          (Returns-IfReturns (λ s' w''. Accounts d s.d_fd w s'.d_fd w'') _
            (Returns-mono (λ s' w''. Accounts d s.d_fd w s'.d_fd w'' × (s'.d_fd ≡ fd)) _ _
              (import-Accounts d (record { d_fd = s.d_fd }) fd w w' own new) λ s' w'' h. h.0)))

    pub failed_accept-keeps :
        (fd own : ℤ) (room : Option (List Cell)) (len : ℕ) (w : W)
        → Owns own w
        → ((k.accept fd room len w).0.result ==ℤ minus_one) ≡ true
        → Accounts d own w own (k.accept fd room len w).1
    failed_accept-keeps fd own room len w o e =
        same-Accounts own w (k.accept fd room len w).1 o λ m. ground (
          arith,
          d.accept_opens fd room len w m,
          ==ℤ_iff m (k.accept fd room len w).0.result,
          ==ℤ_iff m minus_one,
          ==ℤ_iff (k.accept fd room len w).0.result minus_one,
        )

    pub accepted-Opened :
        (fd : ℤ) (room : Option (List Cell)) (len : ℕ) (w : W)
        → Opened d w (k.accept fd room len w).0.result (k.accept fd room len w).1
    accepted-Opened fd room len w = record {
      fresh = d.accept_fresh fd room len w;
      opens = d.accept_opens fd room len w;
    }

    pub accept-keeps :
        (server socket : SocketBuffer) (w : W)
        → Owns (descriptor socket) w
        → IfReturns
            (λ r w'. Accounts d (descriptor socket) w (descriptor r.1) w')
            (accept p k server socket w)
    unfolding accept PosixSocketBuffer.accept
    accept-keeps base socket w own = same-Accounts (descriptor socket) w w own λ m. refl
    accept-keeps (posix s) base w own = tt
    accept-keeps (posix s) (posix peer) w own =
        elim (Bool-cases ((k.accept s.d_fd none 0 w).0.result ==ℤ minus_one)) [
          | inl e ↦ rw e (failed_accept-keeps s.d_fd peer.d_fd none 0 w own e)
          | inr e ↦ rw e (
              IfReturns-then (λ s' w''. Accounts d peer.d_fd w s'.d_fd w'') _
                (PosixSocketBuffer.import k peer _) _ _
                (import-keeps peer _ w _ own (accepted-Opened s.d_fd none 0 w)) λ s' w'' h. h)
        ]

    refill-keeps :
        (s : PosixSocketBuffer) (address : Address) (len : ℕ) (w : W)
        → IfReturns
            (λ r w'. (m : ℤ) → d.is_open w' m ≡ d.is_open w m)
            (PosixSocketBuffer.refill p k s address len w)
    unfolding PosixSocketBuffer.refill
    refill-keeps s address len w = elim (Bool-cases (ltb (Address.capacity address) len)) [
      | inl e ↦ rw e λ m. d.getsockname_keeps s.d_fd (Address.native address) len w m
      | inr e ↦ rw e λ m. refl
    ]

    pub accept_from-keeps :
        (server socket : SocketBuffer) (address : Address) (w : W)
        → Owns (descriptor socket) w
        → IfReturns
            (λ r w'. Accounts d (descriptor socket) w (descriptor r.1) w')
            (accept_from p k server socket address w)
    unfolding accept_from PosixSocketBuffer.accept_from
    accept_from-keeps base socket address w own =
        same-Accounts (descriptor socket) w w own λ m. refl
    accept_from-keeps (posix s) base address w own = tt
    accept_from-keeps (posix s) (posix peer) address w own =
        elim (Option-cases (Address.resize p address p.sizeof_sockaddr)) [
          | inl none_left ↦ rw none_left tt
          | inr (a, resized) ↦
              let room = Address.native a in
              let len = to_socklen (Address.capacity a) in
              elim (Bool-cases ((k.accept s.d_fd room len w).0.result ==ℤ minus_one)) [
                | inl e ↦ rw (resized, e) (failed_accept-keeps s.d_fd peer.d_fd room len w own e)
                | inr e ↦
                    rw (resized, e)
                      (IfReturns-then (λ s' w''. Accounts d peer.d_fd w s'.d_fd w'') _
                        (PosixSocketBuffer.import k peer _) _ _
                        (import-keeps peer _ w _ own (accepted-Opened s.d_fd room len w))
                        λ s' w'' imported.
                          let found = (k.accept s.d_fd room len w).0 in
                          elim (Option-cases
                            (Address.resize p (Address.with_native a found.buffer) found.length)) [
                              | inl none_left ↦ rw none_left tt
                              | inr (b, grown) ↦ rw grown (
                                  IfReturns-then
                                    (λ r w₄. (m : ℤ) → d.is_open w₄ m ≡ d.is_open w'' m)
                                    (λ (r : ErrorCondition × SocketBuffer × Address) w'.
                                      Accounts d peer.d_fd w (descriptor r.1) w')
                                    (PosixSocketBuffer.refill p k s b found.length) _ w''
                                    (refill-keeps s b found.length w'')
                                    λ _ w₄ kept. keeps-Accounts d imported kept)
                            ])
              ]
        ]
