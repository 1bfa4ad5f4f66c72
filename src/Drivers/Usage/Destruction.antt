-- ===== src/Drivers/Usage/Destruction.antt =====
-- The test `Destruction` of src/syd/net/listen_socket.t.cpp passes.
use sydn.Common.{
  ℕ, ◌+◌, ◌<◌, ◌≡◌, ◌≢◌, refl, sym, ap, ◌∙◌, true, false, lt→ltb, ==_iff, ne→test, some, ℤ, pos,
  minus_one, ◌==ℤ◌, Bool-cases, bit, inl, inr, arith,
}
use sydn.Posix.Platform.{Platform, IsSound, RejectsText}
use sydn.Posix.Kernel.{Kernel}
use sydn.Posix.Laws.{Descriptors}
use sydn.Posix.Returns.{Returns, Returns->>=, Returns-mono}
use sydn.Net.Address
use sydn.Net.Address.{Address}
use sydn.Net.Address.Contents.{IsSize}
use sydn.Net.ConnectedSocket.{stream, to_int}
use sydn.Net.ConnectedSocket.Descriptors.{Accounts, socket-Accounts, keeps-Accounts}
use sydn.Net.EchoServer.Server.Descriptors.{gained}
use sydn.Net.Ipv4Address.Fields.{make-usable}
use sydn.Net.ListenSocket
use sydn.Net.ListenSocket.{ListenSocket, make, checked, check_result}
use sydn.Net.ListenSocket.Construction.{make-IsKept}
use sydn.Net.ListenSocket.Descriptors.{close_own-Made}
use sydn.Net.Print.{codes}
use sydn.Drivers.Usage.{Limits, Expectations, count_in_use, destruction}
use sydn.Drivers.Usage.Counts.{IsLimited, how_many, how_many-ext, how_many-gain, count_in_use_lem}

pos-ne : (i : ℕ) → (pos i ==ℤ minus_one) ≡ false
unfolding ◌==ℤ◌
pos-ne i = refl

module _ {W : Type 0} {k : Kernel W} (d : Descriptors k) (l : Limits W) (limited : IsLimited d l)
    (p : Platform) (sound : IsSound p) (rejects : RejectsText p)
    (errno_set : (domain type protocol : ℕ) (w : W)
      → ((k.socket domain type protocol w).0 ==ℤ minus_one) ≡ true
      → k.errno (k.socket domain type protocol w).1 ≢ 0) where
  -- A socket that reports to be good has a descriptor.
  abbrev Constructed : W → ListenSocket → W → Type 0
  Constructed w s w' =
      Accounts d minus_one w s.d_fd w'
      × (ListenSocket.to_bool p s ≡ true → (s.d_fd ==ℤ minus_one) ≡ false)

  make-Constructed :
      (local : Address) (domain : ℕ) (w : W)
      → Address.ne_null p local ≡ some true
      → Address.family p local ≡ some domain
      → IsSize p (Address.size local)
      → Returns (Constructed w) (make p k stream local w)
  unfolding make check_result ListenSocket.okay
  make-Constructed local domain w given family sized =
      let new = k.socket domain (to_int p stream) 0 w in
      let opened = socket-Accounts d domain (to_int p stream) 0 w in
      elim (Bool-cases (new.0 ==ℤ minus_one)) [
        | inl e ↦
            rw (given, family, e, ne→test _ 0 (errno_set domain (to_int p stream) 0 w e))
              (opened, λ good. absurd (cc good))
        | inr e ↦
            Returns-mono
              (λ (s : ListenSocket) w'.
                Accounts d minus_one w s.d_fd w' × ((s.d_fd ==ℤ minus_one) ≡ false))
              (Constructed w) (make p k stream local w)
              (make-IsKept {k = k} p
                {P = λ fd w'. Accounts d minus_one w fd w' × ((fd ==ℤ minus_one) ≡ false)}
                (record {
                  binds = λ fd b n w' (a, h). (keeps-Accounts d a (d.bind_keeps fd b n w'), h);
                  listens = λ fd n w' (a, h). (keeps-Accounts d a (d.listen_keeps fd n w'), h);
                  names =
                      λ fd b n w' (a, h). (keeps-Accounts d a (d.getsockname_keeps fd b n w'), h);
                })
                stream local domain w given family sized (opened, e))
              λ s w' (a, h). (a, λ good. h)
      ]

  abbrev used : W → ℕ
  used w = how_many (d.is_open w) limited.limit 0

  -- A new descriptor is counted.
  used-Constructed :
      (w w' : W) (s : ListenSocket)
      → Constructed w s w'
      → ListenSocket.to_bool p s ≡ true
      → used w < used w'
  used-Constructed w w' s (a, good) g =
      let (n, is_pos, below) = limited.in_range w' s.d_fd (a.own (good g)) in
      how_many-gain (d.is_open w) (d.is_open w') n limited.limit
        (λ i.
          gained d p s.d_fd w w' a (pos i) (pos-ne i)
          ∙ ap (λ fd. bit (d.is_open w (pos i)) + bit (pos i ==ℤ fd)) is_pos)
        below

  -- The test ends, a socket that is good uses a descriptor, and when it has been destroyed as many
  -- descriptors are in use as before, the same ones, whether or not it was good.
  pub destruction_lem :
      (w : W)
      → Returns
          (λ (expected : Expectations) w'.
            (expected.released ≡ true)
            × (expected.good ≡ true → expected.in_use ≡ true)
            × ((m : ℤ) → d.is_open w' m ≡ d.is_open w m))
          (destruction p k l w)
  unfolding destruction
  destruction_lem w =
      let Q : Expectations → W → Type 0 = λ expected w'.
        (expected.released ≡ true)
        × (expected.good ≡ true → expected.in_use ≡ true)
        × ((m : ℤ) → d.is_open w' m ≡ d.is_open w m) in
      let (a, made, given, family, sized) = make-usable p sound (codes "0.0.0.0") 0 rejects in
      Returns->>= (λ n w'. (n ≡ used w) × ((m : ℤ) → d.is_open w' m ≡ d.is_open w m)) Q
        (count_in_use k l) _ w (count_in_use_lem d l limited w)
        λ n₀ w₁ (e₀, kept₀). rw made (
          Returns->>= (Constructed w₁) Q (make p k stream a) _ w₁
            (make-Constructed a p.af_inet w₁ given family sized)
            λ s w₂ built.
              Returns->>= (λ n w'. (n ≡ used w₂) × ((m : ℤ) → d.is_open w' m ≡ d.is_open w₂ m)) Q
                (count_in_use k l) _ w₂ (count_in_use_lem d l limited w₂)
                λ n₁ w₃ (e₁, kept₁).
                  Returns->>= (λ _ w'. (m : ℤ) → d.is_open w' m ≡ d.is_open w₁ m) Q
                    (ListenSocket.close_own k s) _ w₃
                    (close_own-Made d p w₁ s w₃ (keeps-Accounts d built.0 kept₁))
                    λ _ w₄ closed.
                      Returns->>=
                        (λ n w'. (n ≡ used w₄) × ((m : ℤ) → d.is_open w' m ≡ d.is_open w₄ m)) Q
                        (count_in_use k l) _ w₄ (count_in_use_lem d l limited w₄)
                        λ n₂ w₅ (e₂, kept₂).
                          let same =
                            how_many-ext (d.is_open w₁) (d.is_open w) limited.limit 0 kept₀ in
                          let back =
                            how_many-ext (d.is_open w₄) (d.is_open w₁) limited.limit 0 closed in
                          (
                            (==_iff n₂ n₀).1 (e₂ ∙ back ∙ same ∙ sym e₀),
                            λ good.
                                lt→ltb n₀ n₁ (
                                  omega (arith, e₀, e₁, same, used-Constructed w₁ w₂ s built good)),
                            λ m. kept₂ m ∙ closed m ∙ kept₀ m,
                          ))
