-- ===== src/Net/ConnectedSocket/Descriptors.antt =====
-- Which descriptors the operations of `connected_socket` open and close.
use sydn.Common.{
  ℕ, ◌≡◌, refl, ◌∙◌, Bool, true, false, not, ◌&&◌, ◌||◌, some, arith, ℤ, minus_one, ◌==ℤ◌, ==ℤ_iff,
  ==ℤ_refl, Bool-cases, inl, inr,
}
use sydn.Posix.Platform.{Platform}
use sydn.Posix.Kernel.{Kernel}
use sydn.Posix.Laws.{Descriptors}
use sydn.Posix.Returns.{Returns, Returns->>=}
use sydn.Net.Address
use sydn.Net.Address.{Address}
use sydn.Net.ConnectedSocket.{
  ConnectedSocket, SocketType, to_int, close_own, import, connect_to, bind_and_connect, connect,
}

module _ {W : Type 0} {k : Kernel W} (d : Descriptors k) where
  -- The descriptor `m` is open, and is not the socket's own.
  abbrev pub other_open : ℤ → W → ℤ → Bool
  other_open fd w m = d.is_open w m && not (m ==ℤ fd)

  -- From `w` with the own descriptor `fd` to `w'` with `fd'`: the descriptors that are not the
  -- socket's are as they were, and the socket's own, if it has one, is open.
  pub record Accounts (fd : ℤ) (w : W) (fd' : ℤ) (w' : W) : Type 0 where
    pub others : (m : ℤ) → other_open fd' w' m ≡ other_open fd w m
    pub own : (fd' ==ℤ minus_one) ≡ false → d.is_open w' fd' ≡ true

  pub close_own-Accounts :
      (s : ConnectedSocket) (w : W)
      → Returns (λ s' w'. Accounts s.d_fd w s'.d_fd w' × (s'.d_fd ≡ minus_one)) (close_own k s w)
  unfolding close_own
  close_own-Accounts s w = elim (Bool-cases (s.d_fd ==ℤ minus_one)) [
    | inl e ↦ rw e (record { others = λ m. refl; own = λ h. cc }, (==ℤ_iff s.d_fd minus_one).0 e)
    | inr e ↦ rw e (
      record {
        others = λ m.
            ground (arith, d.close_closes s.d_fd w m, d.minus_one_closed w, ==ℤ_iff m minus_one);
        own = λ h. cc (==ℤ_refl minus_one);
      },
      refl,
    )
  ]

  pub socket-Accounts :
      (domain type protocol : ℕ) (w : W)
      → Accounts minus_one w (k.socket domain type protocol w).0 (k.socket domain type protocol w).1
  socket-Accounts domain type protocol w = record {
    others = λ m. ground (
      arith,
      d.socket_opens domain type protocol w m,
      d.socket_fresh domain type protocol w,
      d.minus_one_closed w,
      ==ℤ_iff m minus_one,
      ==ℤ_iff m (k.socket domain type protocol w).0,
    );
    own = λ h. ground (
      arith,
      d.socket_opens domain type protocol w (k.socket domain type protocol w).0,
      ==ℤ_refl (k.socket domain type protocol w).0,
    );
  }

  pub keeps-Accounts :
      {fd fd' : ℤ} {w w' w'' : W}
      → Accounts fd w fd' w'
      → ((m : ℤ) → d.is_open w'' m ≡ d.is_open w' m)
      → Accounts fd w fd' w''
  keeps-Accounts {fd} {fd'} {w} {w'} {w''} a h = record {
    others = λ m. rw (h m) (a.others m);
    own = λ o. rw (h fd') (a.own o);
  }

  pub trans-Accounts :
      {fd fd' fd'' : ℤ} {w w' w'' : W}
      → Accounts fd w fd' w'
      → Accounts fd' w' fd'' w''
      → Accounts fd w fd'' w''
  trans-Accounts a b = record { others = λ m. b.others m ∙ a.others m; own = b.own }

  module _ (p : Platform) where
    connect_to-Accounts :
        {fd : ℤ} {w : W} (s : ConnectedSocket) (remote : Address) (w' : W)
        → Accounts fd w s.d_fd w'
        → Returns (λ r w''. Accounts fd w r.1.d_fd w'') (connect_to p k s remote w')
    unfolding connect_to
    connect_to-Accounts s remote w' a =
        let after =
          keeps-Accounts a
            (d.connect_keeps s.d_fd (Address.native remote) (Address.size remote) w') in
        elim (Bool-cases
          ((k.connect s.d_fd (Address.native remote) (Address.size remote) w').0 ==ℤ minus_one)) [
            | inl e ↦ rw e after
            | inr e ↦ rw e after
          ]

    pub bind_and_connect-Accounts :
        {fd : ℤ} {w : W} (s : ConnectedSocket) (remote local : Address) (bound : Bool) (w' : W)
        → Address.ne_null p local ≡ some bound
        → Accounts fd w s.d_fd w'
        → Returns (λ r w''. Accounts fd w r.1.d_fd w'') (bind_and_connect p k s remote local w')
    unfolding bind_and_connect
    bind_and_connect-Accounts s remote local false w' b a = rw b (connect_to-Accounts s remote w' a)
    bind_and_connect-Accounts s remote local true w' b a =
        let bound = k.bind s.d_fd (Address.native local) (Address.size local) w' in
        let after =
          keeps-Accounts a (d.bind_keeps s.d_fd (Address.native local) (Address.size local) w') in
        elim (Bool-cases (bound.0 ==ℤ minus_one)) [
          | inl e ↦ rw (b, e) after
          | inr e ↦ rw (b, e) (connect_to-Accounts s remote bound.1 after)
        ]

    -- However `connect` ends, it closes the socket's old descriptor and no other, opens none but the
    -- socket's new one, and leaves the socket either without a descriptor or with an open one. Its
    -- arguments are addresses whose family has a value.
    pub connect-Accounts :
        (s : ConnectedSocket) (type : SocketType) (remote local : Address) (domain : ℕ)
        (bound : Bool) (w : W)
        → Address.family p remote ≡ some domain
        → Address.ne_null p local ≡ some bound
        → Returns (λ r w'. Accounts s.d_fd w r.1.d_fd w') (connect p k s type remote local w)
    unfolding connect
    connect-Accounts s type remote local domain bound w f b =
        Returns->>= (λ s' w'. Accounts s.d_fd w s'.d_fd w' × (s'.d_fd ≡ minus_one)) _
          (close_own k s) _ w (close_own-Accounts s w)
          λ s' w' h.
            let new = k.socket domain (to_int p type) 0 w' in
            let a = trans-Accounts (rw h.1 at h.0) (socket-Accounts domain (to_int p type) 0 w') in
            elim (Bool-cases (new.0 ==ℤ minus_one)) [
              | inl e ↦ rw (f, e) a
              | inr e ↦
                  rw (f, e)
                    (bind_and_connect-Accounts (record { d_fd = new.0 }) remote local bound new.1 b
                      a)
            ]

  -- A descriptor that the system has just handed out: it was free, and it alone was opened.
  pub record Opened (w : W) (fd : ℤ) (w' : W) : Type 0 where
    pub fresh : d.is_open w fd ≡ false
    pub opens : (m : ℤ) → d.is_open w' m ≡ (d.is_open w m || (m ==ℤ fd && not (m ==ℤ minus_one)))

  -- To import a descriptor that was just opened closes the socket's old one and no other, and the
  -- socket then owns the new one.
  pub import-Accounts :
      (s : ConnectedSocket) (fd : ℤ) (w w' : W)
      → ((s.d_fd ==ℤ minus_one) ≡ false → d.is_open w s.d_fd ≡ true)
      → Opened w fd w'
      → Returns (λ s' w''. Accounts s.d_fd w s'.d_fd w'' × (s'.d_fd ≡ fd)) (import k s fd w')
  unfolding import
  import-Accounts s fd w w' own new = elim (Bool-cases (s.d_fd ==ℤ minus_one)) [
    | inl e ↦ rw e (
      record {
        others = λ m. ground (
          arith,
          new.opens m,
          new.fresh,
          d.minus_one_closed w,
          ==ℤ_iff m fd,
          ==ℤ_iff m minus_one,
          ==ℤ_iff s.d_fd minus_one,
        );
        own = λ h. ground (arith, new.opens fd, ==ℤ_refl fd);
      },
      refl,
    )
    | inr e ↦ rw e (
      record {
        others = λ m. ground (
          arith,
          new.opens m,
          new.fresh,
          d.minus_one_closed w,
          ==ℤ_iff m fd,
          ==ℤ_iff m minus_one,
          ==ℤ_iff s.d_fd minus_one,
          own e,
          d.close_closes s.d_fd w' m,
          ==ℤ_iff m s.d_fd,
        );
        own = λ h. ground (
          arith,
          own e,
          new.opens fd,
          new.fresh,
          ==ℤ_refl fd,
          d.close_closes s.d_fd w' fd,
          ==ℤ_iff fd s.d_fd,
        );
      },
      refl,
    )
  ]
