-- ===== src/Drivers/Exchanges/Writes.antt =====
-- The tests of `write` of src/syd/net/connected_socket.t.cpp: what the socket writes the server finds.
use sydn.Common.{
  ==ℤ_refl, some, ℕ, ◌+◌, ◌≤◌, ◌<◌, ◌^◌, ◌≡◌, refl, ap, ◌∙◌, true, false, not, ◌&&◌, none, List, [],
  ◌∷◌, ◌++◌, length, map, take, ==_iff, ℤ, ◌==ℤ◌, narrow-pos, is_nonneg, to_size, byte, bit, arith,
}
use sydn.Posix.Platform.{Platform, IsSound}
use sydn.Posix.Kernel.{Kernel}
use sydn.Posix.Laws.{Descriptors}
use sydn.Posix.Returns.{Returns, Returns->>=}
use sydn.Net.Address
use sydn.Net.ConnectedSocket
use sydn.Net.ConnectedSocket.{ConnectedSocket, ErrorCondition, stream, no_error}
use sydn.Net.Print.{codes}
use sydn.Drivers.Calls
use sydn.Drivers.Servers.{create_listening_socket, expect_string}
use sydn.Drivers.Servers.Close.{expect_string_lem}
use sydn.Drivers.Usage.{Limits}
use sydn.Drivers.Usage.Counts.{IsLimited}
use sydn.Drivers.Connects.Held.{used, Adds, used-Adds, total_open}
use sydn.Drivers.Connects.Sockets.{IsWorking}
use sydn.Drivers.Connects.Listening.{Listens, create_listening_socket-Listens}
use sydn.Drivers.Connects.Connecting.{connect-Connects, close_own-Connects, closed_ne_open}
use sydn.Drivers.Exchanges.{
  Written, test_text, write_test, test_write_string, test_write_chars, test_write_span,
}

module _ {W : Type 0} {k : Kernel W} (d : Descriptors k) (l : Limits W) (limited : IsLimited d l)
    (p : Platform) (working : IsWorking d l limited p) (sound : IsSound p) where
  abbrev Wrote : List ℕ → ℕ → W → ErrorCondition × ℕ → W → Type 0
  Wrote bytes connection w r w' =
      (r.0 ≡ no_error)
      × (r.1 ≡ length bytes)
      × (working.sent w' connection ≡ working.sent w connection ++ bytes)
      × ((m : ℤ) → d.is_open w' m ≡ d.is_open w m)
      × ((m : ℤ) → working.server w' m ≡ working.server w m)

  write-Wrote :
      (s : ConnectedSocket) (bytes : List ℕ) (connection : ℕ) (w : W)
      → working.connected w s.d_fd ≡ some connection
      → length bytes < 2 ^ 31
      → Returns (Wrote bytes connection w) (Calls.write k s (map byte bytes) w)
  unfolding Calls.write is_nonneg to_size ◌==ℤ◌
  write-Wrote s bytes connection w connected small =
      let (all, sent) = working.write_works s.d_fd bytes w connection connected small in
      rw (all, narrow-pos (length bytes) small)
        (
          refl,
          refl,
          sent,
          d.write_keeps s.d_fd (map byte bytes) (length (map byte bytes)) w,
          working.write_keeps s.d_fd (map byte bytes) (length (map byte bytes)) w,
        )

  -- What the server's thread finds, when the connection waits for it with the bytes.
  expect_string-waiting :
      (fuel patience : ℕ) (expected bytes : List ℕ) (server : ℤ) (name : List ℕ) (connection : ℕ)
      (w : W)
      → d.is_open w server ≡ true
      → used d l limited w < limited.limit
      → working.server w server ≡ some (name, some connection)
      → working.sent w connection ≡ bytes
      → take (length expected) bytes ≡ expected
      → length expected < 2 ^ 31
      → ((fd : ℤ) (w : W) → (working.inputs fd).patience w ≤ patience)
      → length expected + patience < fuel
      → Returns
          (λ found w'.
            (found ≡ true) × ((m : ℤ) → d.is_open w' m ≡ (d.is_open w m && not (m ==ℤ server))))
          (expect_string p k fuel expected server w)
  expect_string-waiting fuel patience expected bytes server name connection w live free waits sent
        begins fits patient enough =
      let (new, w₁) = k.accept server none 0 w in
      let (works, accepted, kept) =
        working.accept_works server none 0 w name connection waits free in
      let other : (new.result ==ℤ server) ≡ false =
        closed_ne_open d w new.result server (d.accept_fresh server none 0 w) live in
      let w₂ = (k.close server w₁).1 in
      let arrived : (working.inputs new.result).input w₂ ≡ bytes =
        working.reads new.result w₂ connection
          (working.close_accepted server w₁ new.result other ∙ accepted)
        ∙ working.close_sent server w₁ connection
        ∙ kept
        ∙ sent in
      expect_string_lem d p fuel expected server w (working.inputs new.result) works fits
        (ap (take (length expected)) arrived ∙ begins)
        (omega (arith, enough, patient new.result w₂))

  -- The test of `write` ends and finds what it expects: `connect` and `write` report no error, all bytes
  -- are written, and the server finds the text that they begin with. The same descriptors are open as
  -- before.
  pub write_test_lem :
      (fuel patience : ℕ) (expected bytes : List ℕ) (w : W)
      → used d l limited w + 3 ≤ limited.limit
      → take (length expected) bytes ≡ expected
      → length bytes < 2 ^ 31
      → length expected < 2 ^ 31
      → ((fd : ℤ) (w : W) → (working.inputs fd).patience w ≤ patience)
      → length expected + patience < fuel
      → Returns
          (λ (r : Written) w'.
            (r.connected ≡ true)
            × (r.okay ≡ true)
            × (r.count ≡ length bytes)
            × (r.found ≡ true)
            × ((m : ℤ) → d.is_open w' m ≡ d.is_open w m))
          (write_test p k fuel expected (map byte bytes) w)
  unfolding write_test
  write_test_lem fuel patience expected bytes w room begins small fits patient enough =
      let Q : Written → W → Type 0 = λ r w'.
        (r.connected ≡ true)
        × (r.okay ≡ true)
        × (r.count ≡ length bytes)
        × (r.found ≡ true)
        × ((m : ℤ) → d.is_open w' m ≡ d.is_open w m) in
      Returns->>= (Listens d l limited p working sound w) Q
        (create_listening_socket p k Address.empty) _ w
        (create_listening_socket-Listens d l limited p working sound w (omega arith))
        λ (server, address) w₁ (listens, o₁, family, (name, serves, (native, given, named))).
          let used₁ = used-Adds d l limited w w₁ (λ m. bit (m ==ℤ server)) listens in
          let one = total_open d l limited w₁ server o₁ in
          Returns->>= _ Q
            (ConnectedSocket.connect p k ConnectedSocket.initial stream address Address.empty) _ w₁
            (connect-Connects d l limited p working sound address native server name w₁ family given
              named o₁ serves (omega (arith, used₁, one)))
            λ (result, s) w₂ (connects, good, (other, (connection, connected, waits, nothing))).
              Returns->>= (Wrote bytes connection w₂) Q (Calls.write k s (map byte bytes)) _ w₂
                (write-Wrote s bytes connection w₂ connected small)
                λ (error, count) w₃ (okay, all, sent, same₃, serving₃).
                  Returns->>=
                    (λ _ w₄.
                      Adds d l limited w (λ m. bit (m ==ℤ server)) w₄
                      × (w₄ ≡ (k.close s.d_fd w₃).1))
                    Q (ConnectedSocket.close_own k s) _ w₃
                    (close_own-Connects d l limited p working sound s w w₃ (λ m. bit (m ==ℤ server))
                      (λ m. omega (arith, ap bit (same₃ m), connects.0 m, listens m)) connects.1)
                    λ _ w₄ (adds, e).
                      Returns->>=
                        (λ found w₆.
                          (found ≡ true)
                          × ((m : ℤ) → d.is_open w₆ m ≡ (d.is_open w₄ m && not (m ==ℤ server))))
                        Q (expect_string p k fuel expected server) _ w₄
                        (expect_string-waiting fuel patience expected bytes server name connection
                          w₄ (ground (arith, adds server, ==ℤ_refl server))
                          (omega
                            (arith, used-Adds d l limited w w₄ (λ m. bit (m ==ℤ server)) adds, one))
                          (ap (λ w. working.server w server) e
                            ∙ working.close_keeps s.d_fd w₃ server other
                            ∙ serving₃ server
                            ∙ waits)
                          (ap (λ w. working.sent w connection) e
                            ∙ working.close_sent s.d_fd w₃ connection
                            ∙ sent
                            ∙ ap (λ before. before ++ bytes) nothing)
                          begins fits patient enough)
                        λ found w₆ (is_found, closed). (
                          (==_iff result no_error).1 good,
                          (==_iff error no_error).1 okay,
                          all,
                          is_found,
                          λ m. ground (arith, closed m, adds m),
                        )

  abbrev pub Passes : W → ℕ → Written → W → Type 0
  Passes w count r w' =
      (r.connected ≡ true)
      × (r.okay ≡ true)
      × (r.count ≡ count)
      × (r.found ≡ true)
      × ((m : ℤ) → d.is_open w' m ≡ d.is_open w m)

  -- The tests `WriteString`, `WriteChars` and `WriteSpan` end and find what they expect: `connect` and
  -- `write` report no error, 14, 15 and 5 bytes are written, and the server finds the text that they
  -- begin with. The same descriptors are open as before. Three descriptors are free, sockets are what they are
  -- documented to be, a connection delivers in order what is written to it, at most `patience` reads
  -- would have blocked, and there is room for a round per byte and one per such read.
  pub test_writes_lem :
      (fuel patience : ℕ) (w : W)
      → used d l limited w + 3 ≤ limited.limit
      → ((fd : ℤ) (w : W) → (working.inputs fd).patience w ≤ patience)
      → 14 + patience < fuel
      → Returns (Passes w 14) (test_write_string p k fuel w)
        × Returns (Passes w 15) (test_write_chars p k fuel w)
        × Returns (Passes w 5) (test_write_span p k fuel w)
  unfolding test_write_string test_write_chars test_write_span
  test_writes_lem fuel patience w room patient enough = (
    write_test_lem fuel patience test_text test_text w room refl (omega arith) (omega arith) patient
        (omega arith),
    write_test_lem fuel patience test_text (test_text ++ (0 ∷ [])) w room refl (omega arith)
        (omega arith) patient (omega arith),
    write_test_lem fuel patience (codes "This ") (take 5 test_text) w room refl (omega arith)
        (omega arith) patient (omega arith),
  )
