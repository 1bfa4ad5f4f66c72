-- ===== src/Net/EchoServer/Server/Descriptors.antt =====
-- Which descriptors are open while the echo server runs, whatever its threads do in whatever order.
use sydn.Common.{
  bit, ℕ, ◌+◌, ◌≡◌, refl, ap, sym, ◌∙◌, List, [], ◌∷◌, ◌++◌, true, false, Cell, some, ℤ, minus_one,
  ◌==ℤ◌, ==ℤ_iff, ==ℤ_refl, narrow, is_nonneg, length, Bool-cases, inl, inr, arith,
}
use mathlib.Core.Path.{subst}
use sydn.Posix.Platform.{Platform}
use sydn.Posix.Kernel.{Kernel}
use sydn.Posix.Laws.{Descriptors}
use sydn.Posix.Returns.{IfReturns, IfReturns-eq, IfReturns-then, Returns, Returns-IfReturns}
use sydn.Net.Address
use sydn.Net.ConnectedSocket
use sydn.Net.ConnectedSocket.{ConnectedSocket}
use sydn.Net.ConnectedSocket.Descriptors.{Accounts, close_own-Accounts}
use sydn.Net.ConnectedReader
use sydn.Net.ConnectedReader.{ConnectedReader}
use sydn.Net.ConnectedWriter
use sydn.Net.ConnectedWriter.{ConnectedWriter}
use sydn.Net.ListenSocket
use sydn.Net.ListenSocket.Descriptors.{accept_from-Accounts}
use sydn.Net.SocketBuffer.Calls.{Keeps}
use sydn.Net.EchoServer.Server.{
  ClientSession, Server, round, Step, Reach, accepted, was_read, written, ended, here, next,
}

-- How many of the sessions have the descriptor `m`.
abbrev pub owned : ℤ → List ClientSession → ℕ
owned m [] = 0
owned m (session ∷ sessions) = bit (m ==ℤ session.d_socket.d_fd) + owned m sessions

owned-append : (m : ℤ) (xs ys : List ClientSession) → owned m (xs ++ ys) ≡ owned m xs + owned m ys
owned-append m [] ys = omega arith
owned-append m (x ∷ xs) ys = omega (arith, owned-append m xs ys)

module _ {W : Type 0} {k : Kernel W} (d : Descriptors k) (p : Platform) where
  -- From the state in which the loop begins with no session, at `w`: the descriptors that are open
  -- are those of `w` and those of the sessions, each of which belongs to one session alone, and the
  -- listening socket has the descriptor that it had.
  pub record Serves (server : Server) (w : W) (server' : Server) (w' : W) : Type 0 where
    pub listening : server'.listen_socket.d_fd ≡ server.listen_socket.d_fd
    pub accounts :
        (m : ℤ)
        → (m ==ℤ minus_one) ≡ false
        → bit (d.is_open w' m) ≡ bit (d.is_open w m) + owned m server'.sessions

  read-Keeps :
      (socket : ConnectedSocket) (reader : ConnectedReader) (buffer : List Cell) (w : W)
      → IfReturns (λ _ w'. Keeps d p w w') (ConnectedReader.read k socket reader buffer w)
  unfolding ConnectedReader.read
  read-Keeps socket reader buffer w =
      let res = narrow (k.read socket.d_fd buffer (length buffer) w).0 in
      let keeps = d.read_keeps socket.d_fd buffer (length buffer) w in
      elim (Bool-cases (res ==ℤ minus_one)) [
        | inl e ↦ rw e keeps
        | inr e ↦ elim (Bool-cases (is_nonneg res)) [
          | inl n ↦ rw (e, n) keeps
          | inr n ↦ rw (e, n) tt
        ]
      ]

  write-Keeps :
      (socket : ConnectedSocket) (writer : ConnectedWriter) (bytes : List Cell) (w : W)
      → IfReturns (λ _ w'. Keeps d p w w') (ConnectedWriter.write k socket writer bytes w)
  unfolding ConnectedWriter.write
  write-Keeps socket writer bytes w =
      let res = narrow (k.write socket.d_fd bytes (length bytes) w).0 in
      let keeps = d.write_keeps socket.d_fd bytes (length bytes) w in
      elim (Bool-cases (res ==ℤ minus_one)) [ inl e ↦ rw e keeps | inr e ↦ rw e keeps ]

  Keeps-Serves :
      {server server' : Server} {w w' w'' : W}
      → Serves server w server' w'
      → Keeps d p w' w''
      → Serves server w server' w''
  Keeps-Serves s keeps = record {
    listening = s.listening;
    accounts = λ m h. rw (keeps m) (s.accounts m h);
  }

  -- A new socket's descriptor was closed before, and is open.
  pub gained :
      (fd : ℤ) (w w' : W)
      → Accounts d minus_one w fd w'
      → (m : ℤ) → (m ==ℤ minus_one) ≡ false
      → bit (d.is_open w' m) ≡ bit (d.is_open w m) + bit (m ==ℤ fd)
  gained fd w w' a m h = elim (Bool-cases (m ==ℤ fd)) [
    | inl e ↦
        let e' = (==ℤ_iff m fd).0 e in
        let open' = a.own (subst (λ n. (n ==ℤ minus_one) ≡ false) e' h) in
        ground (arith, a.others m, subst (λ n. d.is_open w' n ≡ true) (sym e') open')
    | inr e ↦ ground (arith, a.others m)
  ]

  round-Serves :
      (server server' : Server) (w w' : W)
      → round p k server w ≡ some (server', w')
      → (server'.listen_socket.d_fd ≡ server.listen_socket.d_fd)
        × ((m : ℤ)
            → (m ==ℤ minus_one) ≡ false
            → bit (d.is_open w' m) + owned m server.sessions
              ≡ bit (d.is_open w m) + owned m server'.sessions)
  unfolding round
  round-Serves server server' w w' e =
      let P : Server → W → Type 0 = λ s w''.
        (s.listen_socket.d_fd ≡ server.listen_socket.d_fd)
        × ((m : ℤ)
            → (m ==ℤ minus_one) ≡ false
            → bit (d.is_open w'' m) + owned m server.sessions
              ≡ bit (d.is_open w m) + owned m s.sessions) in
      IfReturns-eq P
        (IfReturns-then
          (λ r w''. Accounts d minus_one w r.1.d_fd w'' × (r.0.d_fd ≡ server.listen_socket.d_fd)) P
          (ListenSocket.accept_from p k server.listen_socket ConnectedSocket.initial Address.empty)
          _ w
          (accept_from-Accounts d p server.listen_socket ConnectedSocket.initial Address.empty w
            λ h. absurd (cc (==ℤ_refl minus_one)))
          λ r w'' a. (a.1, λ m h. omega (arith, gained r.1.d_fd w w'' a.0 m h)))
        e

  -- The descriptor of a session that ends was open, and is closed.
  lost :
      (session : ClientSession) (w w' : W) (m : ℤ) (rest : ℕ)
      → Returns
          (λ s w''. Accounts d session.d_socket.d_fd w s.d_fd w'' × (s.d_fd ≡ minus_one))
          (ConnectedSocket.close_own k session.d_socket w)
      → (socket : ConnectedSocket)
      → ConnectedSocket.close_own k session.d_socket w ≡ some (socket, w')
      → (m ==ℤ minus_one) ≡ false
      → bit (d.is_open w m) ≡ rest + bit (m ==ℤ session.d_socket.d_fd)
      → bit (d.is_open w' m) ≡ rest
  lost session w w' m rest closed socket e h before =
      let a : Accounts d session.d_socket.d_fd w socket.d_fd w' × (socket.d_fd ≡ minus_one) =
        IfReturns-eq (λ s w''. Accounts d session.d_socket.d_fd w s.d_fd w'' × (s.d_fd ≡ minus_one))
          (Returns-IfReturns
            (λ (s : ConnectedSocket) w''.
              Accounts d session.d_socket.d_fd w s.d_fd w'' × (s.d_fd ≡ minus_one))
            (ConnectedSocket.close_own k session.d_socket w) closed)
          e in
      ground (arith, before, a.0.others m, a.1, h)

  step-Serves :
      {server server' server'' : Server} {w w' w'' : W}
      → Serves server w server' w'
      → Step p k server' w' server'' w''
      → Serves server w server'' w''
  step-Serves {server} {server'} {server''} {w} {w'} {w''} s (accepted e) =
      let r = round-Serves server' server'' w' w'' e in
      record {
        listening = r.0 ∙ s.listening;
        accounts = λ m h. omega (arith, r.1 m h, s.accounts m h);
      }
  step-Serves s (was_read session reader reader' buffer buffer' e) =
      Keeps-Serves s
        (IfReturns-eq (λ _ w₁. Keeps d p _ w₁) (read-Keeps session.d_socket reader buffer _) e)
  step-Serves s (written session writer writer' bytes e) =
      Keeps-Serves s
        (IfReturns-eq (λ _ w₁. Keeps d p _ w₁) (write-Keeps session.d_socket writer bytes _) e)
  step-Serves {server} {server'} {server''} {w} {w'} {w''} s
        (ended before after session socket found e) =
      record {
        listening = s.listening;
        accounts = λ m h.
            lost session w' w'' m (bit (d.is_open w m) + owned m (before ++ after))
              (close_own-Accounts d session.d_socket w') socket e h
              (omega (
                arith,
                s.accounts m h,
                ap (owned m) found,
                owned-append m before after,
                owned-append m before (session ∷ after),
              ));
      }

  -- Whatever the threads do in whatever order.
  pub Reach-Serves :
      {server : Server} {w : W} {server' : Server} {w' : W}
      → server.sessions ≡ []
      → Reach p k server w server' w'
      → Serves server w server' w'
  Reach-Serves e here = record { listening = refl; accounts = λ m h. omega (arith, ap (owned m) e) }
  Reach-Serves e (next before step) = step-Serves (Reach-Serves e before) step
