-- ===== src/Drivers/Connects/Destruction.antt =====
-- The test `Destruction` of src/syd/net/connected_socket.t.cpp, whatever the order of the calls.
use sydn.Common.{
  List, ℕ, ◌+◌, ◌-◌, ◌≤◌, ◌≡◌, refl, sym, ap, ◌∙◌, true, false, ltb, ==_iff, ℤ, minus_one, ◌==ℤ◌,
  ==ℤ_refl, bit, arith,
}
use mathlib.Core.Path.{subst}
use sydn.Posix.Platform.{Platform, IsSound}
use sydn.Posix.Kernel.{Kernel}
use sydn.Posix.Laws.{Descriptors}
use sydn.Posix.Returns.{Returns, Returns->>=, Returns-mono}
use sydn.Net.Address
use sydn.Net.Address.{Address}
use sydn.Net.ConnectedSocket
use sydn.Net.ConnectedSocket.{ConnectedSocket, stream, to_int}
use sydn.Drivers.Futures.{AcceptFuture, accepting, run, get}
use sydn.Drivers.Futures.Descriptors.{
  held, left, Awaits, Awaits-same, Awaits-close, left-holding, Running, total-held, Stepped,
  run-Running, get-Running,
}
use sydn.Drivers.Servers.{create_listening_socket}
use sydn.Drivers.Usage.{Limits, Expectations, count_in_use}
use sydn.Drivers.Usage.Counts.{IsLimited, count_in_use_lem}
use sydn.Drivers.Connects.{destruction}
use sydn.Drivers.Connects.Connecting.{
  bit_eq, Same, Connects, connect-Connects, close_own-Connects, used-Same, Counts, CountsServing,
  count_in_use-CountsServing, Reaches,
}
use sydn.Drivers.Connects.Held.{total_none, total_add, used, Adds, used-Adds, total_open}
use sydn.Drivers.Connects.Sockets.{IsWorking}
use sydn.Drivers.Connects.Listening.{Listens, create_listening_socket-Listens}

module _ {W : Type 0} {k : Kernel W} (d : Descriptors k) (l : Limits W) (limited : IsLimited d l)
    (p : Platform) (working : IsWorking d l limited p) (sound : IsSound p) where
  Same-Running :
      (w w' w'' : W) (others : ℤ → ℕ) (future : AcceptFuture)
      → Running d l limited p working sound w others future w'
      → Same d l limited p working sound w' w''
      → ((m : ℤ) → working.server w'' m ≡ working.server w' m)
      → Running d l limited p working sound w others future w''
  Same-Running w w' w'' others future r same serving = record {
    adds = λ m. ap bit (same m) ∙ r.adds m;
    free = r.free;
    awaits = Awaits-same d l limited p working sound future w' w'' serving r.awaits;
  }

  -- The future once the socket has connected.
  started :
      (w w₁ w₂ w₃ w₄ : W) (server : ℤ) (name : List ℕ) (s : ConnectedSocket)
      → used d l limited w + 3 ≤ limited.limit
      → Same d l limited p working sound w w₁
      → Adds d l limited w₁ (λ m. bit (m ==ℤ server)) w₂
      → Same d l limited p working sound w₂ w₃
      → Connects d l limited p working sound w₃ s w₄
      → Reaches d l limited p working sound server name s.d_fd w₄
      → Running d l limited p working sound w (λ m. bit (m ==ℤ s.d_fd)) (accepting server) w₄
  started w w₁ w₂ w₃ w₄ server name s room same listens same' connects
        (_, (connection, _, waits, _)) =
      let adds : Adds d l limited w (λ m. bit (m ==ℤ s.d_fd) + bit (m ==ℤ server)) w₄ =
        λ m. omega (arith, connects.0 m, ap bit (same' m), listens m, ap bit (same m)) in
      let o : d.is_open w₄ s.d_fd ≡ true = ground (arith, adds s.d_fd, ==ℤ_refl s.d_fd) in
      record {
        adds = adds;
        free = omega (arith, total_open d l limited w₄ s.d_fd o);
        awaits = (name, connection, waits);
      }

  -- What is counted while the socket is connected.
  counted :
      (w w₄ w₅ : W) (before n₁ n₂ : ℕ) (s : ConnectedSocket) (future : AcceptFuture)
      → d.is_open w₄ s.d_fd ≡ true
      → Running d l limited p working sound w (λ m. bit (m ==ℤ s.d_fd)) future w₅
      → left future ≡ 3 - before
      → n₁ ≡ used d l limited w + 1
      → n₂ ≡ used d l limited w₅
      → ltb n₁ n₂ ≡ ltb before 3
  counted w w₄ w₅ before n₁ n₂ s future o r e₀ e₁ e₂ =
      let more : ℤ → ℕ = λ m. bit (m ==ℤ s.d_fd) in
      ground (
        arith,
        e₀,
        e₁,
        e₂,
        used-Adds d l limited w w₅ (λ m. more m + held future m) r.adds,
        total_add more (held future) limited.limit 0,
        total_open d l limited w₄ s.d_fd o,
        total-held d l limited p working sound w w₅ more future r,
        left-holding future,
      )

  -- The open descriptors are those of before: what the socket's destructor and the wait leave.
  closed :
      (w w' : W) (others : ℤ → ℕ) (future : AcceptFuture) (s : ConnectedSocket)
      → Running d l limited p working sound w (λ m. bit (m ==ℤ s.d_fd)) future w'
      → (s.d_fd ==ℤ minus_one) ≡ false
      → Returns
          (λ _ w''. Running d l limited p working sound w (λ m. 0) future w'')
          (ConnectedSocket.close_own k s w')
  closed w w' others future s r given =
      Returns-mono (λ _ w''. Adds d l limited w (held future) w'' × (w'' ≡ (k.close s.d_fd w').1)) _
        (ConnectedSocket.close_own k s w')
        (close_own-Connects d l limited p working sound s w w' (held future)
          (λ m. omega (arith, r.adds m)) given)
        λ _ w'' (adds, e). record {
          adds = λ m. omega (arith, adds m);
          free = omega (arith, r.free, total_none (λ m. 0) limited.limit 0 λ n le. refl);
          awaits =
              subst (Awaits d l limited p working sound future) (sym e)
                (Awaits-close d l limited p working sound w w' s.d_fd future r);
        }

  -- The test ends, whatever the number of calls that the server's thread makes before the descriptors
  -- are counted, between that and the socket's destructor, and at the wait. As many descriptors are in
  -- use at the end as at the start, the same ones. The test finds more in use while the socket is
  -- connected exactly if the thread has made fewer than its three calls by then. Three descriptors are
  -- free at the start, and sockets are what they are documented to be: a new one is bound and listens,
  -- and can be connected to a server, whose `accept` then has a connection.
  pub destruction_any_order :
      (before later : ℕ) (w : W)
      → used d l limited w + 3 ≤ limited.limit
      → Returns
          (λ (expected : Expectations) w'.
            (expected.released ≡ true)
            × (expected.in_use ≡ ltb before 3)
            × ((m : ℤ) → d.is_open w' m ≡ d.is_open w m))
          (destruction p k l before later w)
  unfolding destruction
  destruction_any_order before later w room =
      let Q : Expectations → W → Type 0 = λ expected w'.
        (expected.released ≡ true)
        × (expected.in_use ≡ ltb before 3)
        × Same d l limited p working sound w w' in
      let count = count_in_use_lem d l limited in
      let serving = count_in_use-CountsServing d l limited p working sound in
      Returns->>= (Counts d l limited p working sound w) Q (count_in_use k l) _ w (count w)
        λ n₀ w₁ (e₀, same₁).
          Returns->>= (Listens d l limited p working sound w₁) Q
            (create_listening_socket p k Address.empty) _ w₁
            (create_listening_socket-Listens d l limited p working sound w₁
              (omega (arith, used-Same d l limited p working sound w w₁ same₁)))
            λ (server, address) w₂ (listens, o₂, family, (name, serves, (bytes, native, named))).
              Returns->>= (CountsServing d l limited p working sound w₂) Q (count_in_use k l) _ w₂
                (serving w₂)
                λ n₁ w₃ ((e₁, same₃), serving₃).
                  let used₁ = used-Same d l limited p working sound w w₁ same₁ in
                  let used₂ = used-Adds d l limited w₁ w₂ (λ m. bit (m ==ℤ server)) listens in
                  let one = total_open d l limited w₂ server o₂ in
                  let used₃ = used-Same d l limited p working sound w₂ w₃ same₃ in
                  Returns->>= _ Q
                    (ConnectedSocket.connect p k ConnectedSocket.initial stream address
                      Address.empty)
                    _ w₃
                    (connect-Connects d l limited p working sound address bytes server name w₃
                      family native named (same₃ server ∙ o₂) (serving₃ server ∙ serves)
                      (omega (arith, used₁, used₂, one, used₃)))
                    λ (result, s) w₄ (connects, _, reaches).
                      let more : ℤ → ℕ = λ m. bit (m ==ℤ s.d_fd) in
                      let r₄ =
                        started w w₁ w₂ w₃ w₄ server name s room same₁ listens same₃ connects
                          reaches in
                      let o₄ : d.is_open w₄ s.d_fd ≡ true =
                        ground (arith, connects.0 s.d_fd, ==ℤ_refl s.d_fd) in
                      Returns->>= (Stepped d l limited p working sound w more (3 - before)) Q
                        (run p k before (accepting server)) _ w₄
                        (run-Running d l limited p working sound before w w₄ more (accepting server)
                          r₄)
                        λ f₅ w₅ (r₅, left₅).
                          Returns->>= (CountsServing d l limited p working sound w₅) Q
                            (count_in_use k l) _ w₅ (serving w₅)
                            λ n₂ w₆ ((e₂, same₆), serving₆).
                              Returns->>=
                                (Stepped d l limited p working sound w more (left f₅ - later)) Q
                                (run p k later f₅) _ w₆
                                (run-Running d l limited p working sound later w w₆ more f₅
                                  (Same-Running w w₅ w₆ more f₅ r₅ same₆ serving₆))
                                λ f₇ w₇ (r₇, _).
                                  Returns->>=
                                    (λ _ w₈. Running d l limited p working sound w (λ m. 0) f₇ w₈) Q
                                    (ConnectedSocket.close_own k s) _ w₇
                                    (closed w w₇ more f₇ s r₇ connects.1)
                                    λ _ w₈ r₈.
                                      Returns->>= (λ _ w₉. Adds d l limited w (λ m. 0) w₉) Q
                                        (get p k f₇) _ w₈
                                        (get-Running d l limited p working sound w w₈ (λ m. 0) f₇
                                          r₈)
                                        λ _ w₉ adds.
                                          Returns->>= (Counts d l limited p working sound w₉) Q
                                            (count_in_use k l) _ w₉ (count w₉)
                                            λ n₃ w₁₀ (e₃, same₁₀).
                                              let back : Same d l limited p working sound w w₉ =
                                                λ m. bit_eq _ _ (adds m) in
                                              (
                                                (==_iff n₃ n₀).1 (
                                                    e₃
                                                    ∙ used-Same d l limited p working sound w w₉
                                                        back
                                                    ∙ sym e₀),
                                                counted w w₄ w₅ before n₁ n₂ s f₅ o₄ r₅ left₅
                                                    (omega (arith, e₁, used₁, used₂, one)) e₂,
                                                λ m. same₁₀ m ∙ back m,
                                              )
