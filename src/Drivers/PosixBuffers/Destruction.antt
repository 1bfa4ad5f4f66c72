-- ===== src/Drivers/PosixBuffers/Destruction.antt =====
-- The test `DestructionListen` of src/syd/net/posix_socket_buffer.t.cpp.
use sydn.Common.{
  drop, inr, ◌<◌, ◌≡◌, refl, sym, ap, ◌∙◌, true, false, lt→ltb, ==_iff, some, ℤ, minus_one, ◌==ℤ◌,
  ==ℤ_refl, bit, arith,
}
use sydn.Posix.Platform.{Platform, IsSound}
use sydn.Posix.Kernel.{Kernel}
use sydn.Posix.Laws.{Descriptors}
use sydn.Posix.Returns.{Returns, Returns->>=}
use sydn.Mem.Sdo.{data_of}
use sydn.Net.Address.{Address}
use sydn.Net.ConnectedSocket.{stream, to_int, no_error}
use sydn.Net.Ipv4Address.{port}
use sydn.Net.Ipv4Address.Fields.{IsIpv4, IsIpv4-usable, port_lem, make-stored}
use sydn.Net.Address.Contents.{memory}
use sydn.Net.PosixSocketBuffer
use sydn.Net.PosixSocketBuffer.{PosixSocketBuffer, c_listen_backlog}
use sydn.Net.Print.{codes}
use sydn.Drivers.Usage.{Limits, Expectations, count_in_use}
use sydn.Drivers.Usage.Counts.{IsLimited, count_in_use_lem}
use sydn.Drivers.Connects.Held.{used, Adds, used-Adds, total_open, Adds-opened, Adds-closed}
use sydn.Drivers.Connects.Sockets.{IsWorking}
use sydn.Drivers.Connects.Connecting.{bit_eq, used-Same, Counts}
use sydn.Drivers.PosixBuffers.Listening.{destruction_listen}

module _ {W : Type 0} {k : Kernel W} (d : Descriptors k) (l : Limits W) (limited : IsLimited d l)
    (p : Platform) (working : IsWorking d l limited p) (sound : IsSound p) where
  -- A buffer that listens has one descriptor more, which was free.
  abbrev Bound : W → PosixSocketBuffer → W → Type 0
  Bound w s w' = Adds d l limited w (λ m. bit (m ==ℤ s.d_fd)) w' × ((s.d_fd ==ℤ minus_one) ≡ false)

  listen-Bound :
      (local : Address) (w : W)
      → IsIpv4 p sound local
      → port p local ≡ some 0
      → working.is_local (drop p.sin_addr (memory local)) ≡ true
      → used d l limited w < limited.limit
      → Returns
          (λ r w'. (r.0 ≡ no_error) × Bound w r.1 w')
          (PosixSocketBuffer.listen p k PosixSocketBuffer.initial stream local w)
  unfolding PosixSocketBuffer.listen PosixSocketBuffer.bind_and_listen to_int data_of
  listen-Bound local w ipv4 any here free =
      let (given, family, native) = IsIpv4-usable p sound local ipv4 in
      let new = k.socket p.af_inet p.sock_stream 0 w in
      let (works, is_fresh) = working.socket_works w free in
      let opened =
        Adds-opened d l limited w w new.1 (λ m. 0) new.0 (λ m. omega arith)
          (d.socket_fresh p.af_inet p.sock_stream 0 w) (d.socket_opens p.af_inet p.sock_stream 0 w)
          works in
      let bound = k.bind new.0 (some (memory local)) p.sizeof_sockaddr_in new.1 in
      let (binds, (name, _, is_bound)) =
        working.bind_works new.0 (memory local) new.1 is_fresh ipv4.family
          (sym (port_lem p sound local ipv4) ∙ any) here in
      let (listens, _) =
        working.listen_works new.0 c_listen_backlog bound.1 name is_bound (omega arith) in
      rw (given, family, works, native, ipv4.whole, binds, listens)
        (
          refl,
          (
            λ m. omega (
              arith,
              ap bit (d.listen_keeps new.0 c_listen_backlog bound.1 m),
              ap bit (d.bind_keeps new.0 (some (memory local)) p.sizeof_sockaddr_in new.1 m),
              opened m,
            ),
            works,
          ),
        )

  close_own-Bound :
      (s : PosixSocketBuffer) (w w' : W)
      → Bound w s w'
      → Returns (λ _ w''. Adds d l limited w (λ m. 0) w'') (PosixSocketBuffer.close_own k s w')
  unfolding PosixSocketBuffer.close_own
  close_own-Bound s w w' (h, given) = rw given (
      Adds-closed d l limited w w' _ (λ m. 0) s.d_fd (λ m. omega (arith, h m))
        (d.close_closes s.d_fd w'))

  -- The test ends and finds what it expects, when a descriptor is free: `listen` reports no error, the
  -- buffer uses a descriptor, and when it has been destroyed as many are in use as before, the same
  -- ones. A new socket can be bound to a local address and the port 0, and a bound one listens.
  pub destruction_listen_lem :
      (w : W)
      → used d l limited w < limited.limit
      → Returns
          (λ (expected : Expectations) w'.
            (expected.good ≡ true)
            × (expected.in_use ≡ true)
            × (expected.released ≡ true)
            × ((m : ℤ) → d.is_open w' m ≡ d.is_open w m))
          (destruction_listen p k l w)
  unfolding destruction_listen
  destruction_listen_lem w free =
      let Q : Expectations → W → Type 0 = λ expected w'.
        (expected.good ≡ true)
        × (expected.in_use ≡ true)
        × (expected.released ≡ true)
        × ((m : ℤ) → d.is_open w' m ≡ d.is_open w m) in
      let count = count_in_use_lem d l limited in
      let same_used = used-Same d l limited p working sound in
      let counts = Counts d l limited p working sound in
      let (a, made, ipv4, port, (dst, wide, stored)) = make-stored p sound (codes "0.0.0.0") 0 in
      let here : working.is_local (drop p.sin_addr (memory a)) ≡ true =
        ap working.is_local stored ∙ working.host (codes "0.0.0.0") dst (inr refl) wide in
      Returns->>= (counts w) Q (count_in_use k l) _ w (count w) λ n₀ w₁ (e₀, same₁). rw made (
        Returns->>= (λ r w₂. (r.0 ≡ no_error) × Bound w₁ r.1 w₂) Q
          (PosixSocketBuffer.listen p k PosixSocketBuffer.initial stream a) _ w₁
          (listen-Bound a w₁ ipv4 (port ∙ ap some (omega arith)) here
            (omega (arith, same_used w w₁ same₁)))
          λ (e, s) w₂ (fine, bound).
            Returns->>= (counts w₂) Q (count_in_use k l) _ w₂ (count w₂) λ n₁ w₃ (e₁, same₃).
              let bound₃ : Bound w₁ s w₃ = (λ m. ap bit (same₃ m) ∙ bound.0 m, bound.1) in
              Returns->>= (λ _ w₄. Adds d l limited w₁ (λ m. 0) w₄) Q
                (PosixSocketBuffer.close_own k s) _ w₃ (close_own-Bound s w₁ w₃ bound₃)
                λ _ w₄ adds.
                  Returns->>= (counts w₄) Q (count_in_use k l) _ w₄ (count w₄) λ n₂ w₅ (e₂, same₅).
                    let back : (m : ℤ) → d.is_open w₄ m ≡ d.is_open w m =
                      λ m. bit_eq _ _ (adds m) ∙ same₁ m in
                    let o : d.is_open w₂ s.d_fd ≡ true =
                      ground (arith, bound.0 s.d_fd, ==ℤ_refl s.d_fd) in
                    (
                      (==_iff e no_error).1 fine,
                      lt→ltb n₀ n₁ (
                          omega (
                            arith,
                            e₀,
                            e₁,
                            same_used w w₁ same₁,
                            used-Adds d l limited w₁ w₂ (λ m. bit (m ==ℤ s.d_fd)) bound.0,
                            total_open d l limited w₂ s.d_fd o,
                          )),
                      (==_iff n₂ n₀).1 (e₂ ∙ same_used w w₄ back ∙ sym e₀),
                      λ m. same₅ m ∙ back m,
                    ))
