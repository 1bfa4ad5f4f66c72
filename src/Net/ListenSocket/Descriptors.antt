-- ===== src/Net/ListenSocket/Descriptors.antt =====
-- Which descriptors a listening socket opens and closes.
use sydn.Common.{
  ℕ, ◌≡◌, refl, true, some, ltb, arith, ℤ, minus_one, ◌==ℤ◌, ==ℤ_iff, Bool-cases, Option-cases, inl,
  inr,
}
use sydn.Posix.Platform.{Platform}
use sydn.Posix.Kernel.{Kernel, ◌>>=◌}
use sydn.Posix.Laws.{Descriptors}
use sydn.Posix.Returns.{IfReturns, IfReturns-then, Returns, Returns->>=, Returns-IfReturns}
use sydn.Net.Address
use sydn.Net.Address.{Address}
use sydn.Net.Address.Contents.{IsSize, resized}
use sydn.Net.ConnectedSocket
use sydn.Net.ConnectedSocket.{ConnectedSocket, SocketType, to_int}
use sydn.Net.ConnectedSocket.Descriptors.{
  Accounts, keeps-Accounts, socket-Accounts, import-Accounts,
}
use sydn.Net.PosixSocketBuffer.{to_socklen}
use sydn.Net.SocketBuffer.Descriptors.{Owns, failed_accept-keeps, accepted-Opened}
use sydn.Net.ListenSocket.Construction.{make-IsKept}
use sydn.Net.ListenSocket.{ListenSocket, make, close_own, accept_from, refill}

module _ {W : Type 0} {k : Kernel W} (d : Descriptors k) (p : Platform) where
  -- However the constructor ends, it opens no descriptor but the one that the object then has. The
  -- address is not the null address, and has a size that a socket address may have.
  pub make-Accounts :
      (type : SocketType) (local : Address) (domain : ℕ) (w : W)
      → Address.ne_null p local ≡ some true
      → Address.family p local ≡ some domain
      → IsSize p (Address.size local)
      → Returns (λ s w'. Accounts d minus_one w s.d_fd w') (make p k type local w)
  make-Accounts type local domain w given family sized =
      make-IsKept p
        (record {
          binds = λ fd b n w' a. keeps-Accounts d a (d.bind_keeps fd b n w');
          listens = λ fd n w' a. keeps-Accounts d a (d.listen_keeps fd n w');
          names = λ fd b n w' a. keeps-Accounts d a (d.getsockname_keeps fd b n w');
        })
        type local domain w given family sized (socket-Accounts d domain (to_int p type) 0 w)

  -- The destructor closes the socket's own descriptor and no other.
  pub close_own-Made :
      (w : W) (s : ListenSocket) (w' : W)
      → Accounts d minus_one w s.d_fd w'
      → Returns (λ _ w''. (m : ℤ) → d.is_open w'' m ≡ d.is_open w m) (close_own k s w')
  unfolding close_own
  close_own-Made w s w' a = elim (Bool-cases (s.d_fd ==ℤ minus_one)) [
    | inl e ↦ rw e λ m. ground (
      arith,
      a.others m,
      ==ℤ_iff s.d_fd minus_one,
      ==ℤ_iff m minus_one,
      d.minus_one_closed w,
      d.minus_one_closed w',
    )
    | inr e ↦ rw e λ m. ground (
      arith,
      a.others m,
      ==ℤ_iff m minus_one,
      d.minus_one_closed w,
      d.minus_one_closed w',
      d.close_closes s.d_fd w' m,
    )
  ]

  -- A listening socket that is made and destroyed leaves the system's open descriptors as they were,
  -- whichever call of the constructor failed. No assertion fails.
  pub make-close_own :
      (type : SocketType) (local : Address) (domain : ℕ) (w : W)
      → Address.ne_null p local ≡ some true
      → Address.family p local ≡ some domain
      → IsSize p (Address.size local)
      → Returns
          (λ _ w'. (m : ℤ) → d.is_open w' m ≡ d.is_open w m)
          ((do s ← make p k type local; close_own k s) w)
  make-close_own type local domain w given family sized =
      Returns->>= (λ s w'. Accounts d minus_one w s.d_fd w') _ (make p k type local) _ w
        (make-Accounts type local domain w given family sized) λ s w' a. close_own-Made w s w' a

  refill-keeps :
      (s : ListenSocket) (address : Address) (len : ℕ) (w : W)
      → IfReturns (λ r w'. (m : ℤ) → d.is_open w' m ≡ d.is_open w m) (refill k s address len w)
  unfolding refill
  refill-keeps s address len w = elim (Bool-cases (ltb (Address.capacity address) len)) [
    | inl e ↦ rw e λ m. d.getsockname_keeps s.d_fd (Address.native address) len w m
    | inr e ↦ rw e λ m. refl
  ]

  -- An accept with an address closes the descriptor that the connected socket had and no other, opens
  -- none but the one that it then has, and leaves the listening socket's own as it was.
  pub accept_from-Accounts :
      (s : ListenSocket) (socket : ConnectedSocket) (address : Address) (w : W)
      → Owns d socket.d_fd w
      → IfReturns
          (λ r w'. Accounts d socket.d_fd w r.1.d_fd w' × (r.0.d_fd ≡ s.d_fd))
          (accept_from p k s socket address w)
  unfolding accept_from
  accept_from-Accounts s socket address w own =
      elim (Option-cases (Address.resize p address (Address.size s.d_local_address))) [
        | inl missing ↦ rw missing tt
        | inr (a, resized) ↦
            let room = Address.native a in
            let len = to_socklen (Address.capacity a) in
            let found = (k.accept s.d_fd room len w).0 in
            elim (Bool-cases (found.result ==ℤ minus_one)) [
              | inl e ↦
                  rw (resized, e)
                    (failed_accept-keeps d p s.d_fd socket.d_fd room len w own e, refl)
              | inr e ↦
                  rw (resized, e)
                    (IfReturns-then
                      (λ s' w''. Accounts d socket.d_fd w s'.d_fd w'' × (s'.d_fd ≡ found.result)) _
                      (ConnectedSocket.import k socket _) _ _
                      (Returns-IfReturns
                        (λ s' w''. Accounts d socket.d_fd w s'.d_fd w'' × (s'.d_fd ≡ found.result))
                        _
                        (import-Accounts d socket _ w _ own
                          (accepted-Opened d p s.d_fd room len w)))
                      λ s' w'' imported.
                        elim (Option-cases
                          (Address.resize p (Address.with_native a found.buffer) found.length)) [
                            | inl missing ↦ rw missing tt
                            | inr (b, grown) ↦ rw grown (
                                IfReturns-then (λ r w₄. (m : ℤ) → d.is_open w₄ m ≡ d.is_open w'' m)
                                  (λ (r : ListenSocket × ConnectedSocket × Address) w'.
                                    Accounts d socket.d_fd w r.1.d_fd w' × (r.0.d_fd ≡ s.d_fd))
                                  (refill k s b found.length) _ w''
                                  (refill-keeps s b found.length w'')
                                  λ _ w₄ kept. (keeps-Accounts d imported.0 kept, refl))
                          ])
            ]
      ]
