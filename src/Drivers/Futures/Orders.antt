-- ===== src/Drivers/Futures/Orders.antt =====
-- The future of `createAcceptServer` comes to the same however many of its steps were made before the
-- test waits for it.
use sydn.Common.{
  ℕ, zero, suc, ◌≡◌, refl, ◌∙◌, ℤ, minus_one, ◌==ℤ◌, Option-cases, Bool-cases, inl, inr,
}
use sydn.Posix.Platform.{Platform}
use sydn.Posix.Kernel.{Kernel, ◌>>=◌}
use sydn.Net.Address
use sydn.Net.Ipv4Address
use sydn.Net.PosixSocketBuffer.{to_socklen}
use sydn.Drivers.Servers.{accept_server}
use sydn.Drivers.Futures.{
  AcceptFuture, accepting, closing_server, closing_remote, ready, step, run, get,
}

module _ (p : Platform) {W : Type 0} (k : Kernel W) where
  get-step : (future : AcceptFuture) (w : W) → (step p k future >>= get p k) w ≡ get p k future w
  unfolding step get
  get-step (ready address) w = refl
  get-step (closing_remote remote address) w = refl
  get-step (closing_server server remote address) w = refl
  get-step (accepting server) w = elim (Option-cases (Ipv4Address.make_any p)) [
    | inl e ↦ rw (◌>>=◌, e) refl
    | inr (a, e) ↦
        elim (Bool-cases (
          (k.accept server (Address.native a) (to_socklen (Address.size a)) w).0.result
          ==ℤ minus_one)) [ inl f ↦ rw (◌>>=◌, e, f) refl | inr f ↦ rw (◌>>=◌, e, f) refl ]
  ]

  -- However many steps were made before the wait, the future gives the same address, or fails the same
  -- assertion, and leaves the same system.
  pub get-run :
      (steps : ℕ) (future : AcceptFuture) (w : W)
      → (run p k steps future >>= get p k) w ≡ get p k future w
  unfolding run
  get-run zero future w = refl
  get-run (suc steps) future w = elim (Option-cases (step p k future w)) [
    | inl e ↦ rw (◌>>=◌, e) (rw (◌>>=◌, e) at (get-step future w))
    | inr ((future', w'), e) ↦
        rw (◌>>=◌, e) (get-run steps future' w' ∙ (rw (◌>>=◌, e) at (get-step future w)))
  ]

  -- A future that has made no step computes what `createAcceptServer` says.
  pub get-accept_server :
      (server : ℤ) (w : W) → get p k (accepting server) w ≡ accept_server p k server w
  unfolding get accept_server
  get-accept_server server w = refl
