-- ===== src/Net/EchoServer/Server/Serving.antt =====
-- `EchoServer::run` from its start: the listening socket that it makes, and the descriptors that are
-- open while it serves.
use sydn.Common.{
  bit, ◌+◌, ◌≡◌, refl, ap, [], true, false, some, ℤ, minus_one, ◌==ℤ◌, inl, inr, arith, Bool-cases,
}
use sydn.Posix.Platform.{Platform, IsSound, RejectsText}
use sydn.Posix.Kernel.{Kernel}
use sydn.Posix.Laws.{Descriptors}
use sydn.Posix.Returns.{IfReturns-eq, Returns, Returns->>=, Returns-IfReturns}
use sydn.Net.ConnectedSocket.{stream}
use sydn.Net.ConnectedSocket.Descriptors.{Accounts}
use sydn.Net.Ipv4Address.Fields.{make-usable}
use sydn.Net.ListenSocket
use sydn.Net.ListenSocket.{ListenSocket}
use sydn.Net.ListenSocket.Descriptors.{make-Accounts, close_own-Made}
use sydn.Net.Print.{codes}
use sydn.Net.EchoServer.Server.{Server, Started, returned, serving, server_address, start, Reach}
use sydn.Net.EchoServer.Server.Descriptors.{owned, gained, Reach-Serves}

module _ {W : Type 0} {k : Kernel W} (d : Descriptors k) (p : Platform) (sound : IsSound p)
    (rejects : RejectsText p) where
  -- What the start leaves at `w'`: no descriptor of its own when it returned, with the code 1, and
  -- the listening socket's when it serves, with no session.
  abbrev pub Begins : W → Started → W → Type 0
  Begins w (returned code) w' = (code ≡ 1) × ((m : ℤ) → d.is_open w' m ≡ d.is_open w m)
  Begins w (serving server) w' =
      (server.sessions ≡ [])
      × (ListenSocket.to_bool p server.listen_socket ≡ true)
      × Accounts d minus_one w server.listen_socket.d_fd w'

  -- The server starts or returns 1, and no assertion fails.
  pub start_lem : (w : W) → Returns (Begins w) (start p k w)
  unfolding start server_address
  start_lem w =
      let (a, made, given, family, sized) = make-usable p sound (codes "127.0.0.1") 0 rejects in
      rw made (
        Returns->>= (λ (s : ListenSocket) w'. Accounts d minus_one w s.d_fd w') (Begins w)
          (ListenSocket.make p k stream a) _ w
          (make-Accounts d p stream a p.af_inet w given family sized)
          λ s w' accounts. elim (Bool-cases (ListenSocket.to_bool p s)) [
            | inl e ↦ rw e (refl, e, accounts)
            | inr e ↦ rw e (
                Returns->>= (λ _ w''. (m : ℤ) → d.is_open w'' m ≡ d.is_open w m) (Begins w)
                  (ListenSocket.close_own k s) _ w' (close_own-Made d p w s w' accounts)
                  λ _ w'' h. (refl, h))
          ])

  -- While the server serves, whatever its threads have done in whatever order, the open descriptors
  -- are those that were open before it started, the listening socket's, and those of the sessions,
  -- each of which belongs to one session alone.
  pub serve-Accounts :
      (w w₁ w' : W) (server server' : Server)
      → start p k w ≡ some (serving server, w₁)
      → Reach p k server w₁ server' w'
      → (m : ℤ) → (m ==ℤ minus_one) ≡ false
      → bit (d.is_open w' m)
        ≡ bit (d.is_open w m) + bit (m ==ℤ server'.listen_socket.d_fd) + owned m server'.sessions
  serve-Accounts w w₁ w' server server' started reach m h =
      let begun : Begins w (serving server) w₁ =
        IfReturns-eq (Begins w) (Returns-IfReturns (Begins w) (start p k w) (start_lem w))
          started in
      let s = Reach-Serves d p begun.0 reach in
      omega (
        arith,
        s.accounts m h,
        gained d p server.listen_socket.d_fd w w₁ begun.2 m h,
        ap (λ fd. bit (m ==ℤ fd)) s.listening,
      )
