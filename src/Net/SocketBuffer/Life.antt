-- ===== src/Net/SocketBuffer/Life.antt =====
-- The descriptors of a socket buffer over its whole life, `listen` apart.
use sydn.Common.{
  refl, ℤ, arith, ==ℤ_iff, ==ℤ_refl, ℕ, ◌≡◌, some, List, minus_one, ◌==ℤ◌, Cell, Bool-cases, inl,
  inr,
}
use sydn.Posix.Platform.{Platform}
use sydn.Posix.Kernel.{Kernel}
use sydn.Posix.Laws.{Descriptors}
use sydn.Posix.Returns.{
  Returns, Returns-mono, Returns-IfReturns, IfReturns, IfReturns-then, IfReturns-eq,
}
use sydn.Net.Address.{Address}
use sydn.Net.ConnectedSocket
use sydn.Net.ConnectedSocket.{SocketType, ErrorCondition}
use sydn.Net.ConnectedSocket.Descriptors.{Accounts, trans-Accounts, close_own-Accounts}
use sydn.Net.PosixSocketBuffer
use sydn.Net.PosixSocketBuffer.{SocketBuffer, base, posix}
use sydn.Net.SocketBuffer.{
  descriptor, connect, accept, accept_from, write, read, local_address, remote_address, destroy,
}
use sydn.Net.SocketBuffer.Descriptors.{
  Owns, same-Accounts, connect-keeps, accept-keeps, accept_from-keeps,
}
use sydn.Net.SocketBuffer.Calls.{
  remote_address-Keeps, Keeps, write-Keeps, read-Keeps, local_address-Keeps,
}

module _ (p : Platform) {W : Type 0} (k : Kernel W) where
  -- One call that returns: of a member function of the object but `listen` and the accepts, or of an
  -- accept of another object `server` into the object.
  pub data Step (b : SocketBuffer) (w : W) : SocketBuffer → W → Type 0 where
    connected :
        {b' : SocketBuffer} {w' : W} (type : SocketType) (remote local : Address)
        (e : ErrorCondition)
        → connect p k b type remote local w ≡ some ((e, b'), w')
        → Step b w b' w'
    accepted :
        {b' : SocketBuffer} {w' : W} (server : SocketBuffer) (e : ErrorCondition)
        → accept p k server b w ≡ some ((e, b'), w')
        → Step b w b' w'
    accepted_from :
        {b' : SocketBuffer} {w' : W} (server : SocketBuffer) (address address' : Address)
        (e : ErrorCondition)
        → accept_from p k server b address w ≡ some ((e, b', address'), w')
        → Step b w b' w'
    written :
        {w' : W} (bytes : List Cell) (r : ErrorCondition × ℕ)
        → write p k b bytes w ≡ some (r, w')
        → Step b w b w'
    was_read :
        {w' : W} (buffer : List Cell) (r : ErrorCondition × ℕ × List Cell)
        → read p k b buffer w ≡ some (r, w')
        → Step b w b w'
    asked_local :
        {w' : W} (fuel : ℕ) (address : Address) (r : ErrorCondition × Address)
        → local_address p k fuel b address w ≡ some (r, w')
        → Step b w b w'
    asked_remote :
        {w' : W} (address : Address) (r : ErrorCondition × Address)
        → remote_address p k b address w ≡ some (r, w')
        → Step b w b w'
    destroyed : {b' : SocketBuffer} {w' : W} → destroy p k b w ≡ some (b', w') → Step b w b' w'

  -- Any number of calls.
  pub data Reach (b : SocketBuffer) (w : W) : SocketBuffer → W → Type 0 where
    here : Reach b w b w
    next :
        {b' b'' : SocketBuffer} {w' w'' : W}
        → Reach b w b' w'
        → Step b' w' b'' w''
        → Reach b w b'' w''

module _ {W : Type 0} {k : Kernel W} (d : Descriptors k) (p : Platform) where
  connect-Accounts :
      (b : SocketBuffer) (type : SocketType) (remote local : Address) (w : W)
      → Owns d (descriptor b) w
      → IfReturns
          (λ r w'. Accounts d (descriptor b) w (descriptor r.1) w')
          (connect p k b type remote local w)
  unfolding connect
  connect-Accounts base type remote local w own = same-Accounts d minus_one w w own λ m. refl
  connect-Accounts (posix s) type remote local w own =
      IfReturns-then (λ r w'. Accounts d s.d_fd w r.1.d_fd w') _
        (PosixSocketBuffer.connect p k s type remote local) _ w
        (connect-keeps d p s type remote local w) λ r w' h. h

  destroy-Accounts :
      (b : SocketBuffer) (w : W)
      → Owns d (descriptor b) w
      → Returns
          (λ b' w'. Accounts d (descriptor b) w (descriptor b') w' × (descriptor b' ≡ minus_one))
          (destroy p k b w)
  unfolding destroy PosixSocketBuffer.close_own ConnectedSocket.close_own
  destroy-Accounts base w own = (same-Accounts d minus_one w w own λ m. refl, refl)
  destroy-Accounts (posix s) w own = elim (Bool-cases (s.d_fd ==ℤ minus_one)) [
    | inl e ↦ rw e (rw e at (close_own-Accounts d (record { d_fd = s.d_fd }) w))
    | inr e ↦ rw e (rw e at (close_own-Accounts d (record { d_fd = s.d_fd }) w))
  ]

  Step-Accounts :
      {b b' : SocketBuffer} {w w' : W}
      → Owns d (descriptor b) w
      → Step p k b w b' w'
      → Accounts d (descriptor b) w (descriptor b') w'
  Step-Accounts {b} {w = w} own (connected type remote local e c) =
      IfReturns-eq (λ r w'. Accounts d (descriptor b) w (descriptor r.1) w')
        (connect-Accounts b type remote local w own) c
  Step-Accounts {b} {w = w} own (accepted server e c) =
      IfReturns-eq (λ r w'. Accounts d (descriptor b) w (descriptor r.1) w')
        (accept-keeps d p server b w own) c
  Step-Accounts {b} {w = w} own (accepted_from server address address' e c) =
      IfReturns-eq (λ r w'. Accounts d (descriptor b) w (descriptor r.1) w')
        (accept_from-keeps d p server b address w own) c
  Step-Accounts {b} {w = w} {w'} own (written bytes r c) =
      same-Accounts d (descriptor b) w w' own
        (IfReturns-eq (λ _. Keeps d p w) (write-Keeps d p b bytes w) c)
  Step-Accounts {b} {w = w} {w'} own (was_read buffer r c) =
      same-Accounts d (descriptor b) w w' own
        (IfReturns-eq (λ _. Keeps d p w) (read-Keeps d p b buffer w) c)
  Step-Accounts {b} {w = w} {w'} own (asked_local fuel address r c) =
      same-Accounts d (descriptor b) w w' own
        (IfReturns-eq (λ _. Keeps d p w) (local_address-Keeps d p fuel b address w) c)
  Step-Accounts {b} {w = w} {w'} own (asked_remote address r c) =
      same-Accounts d (descriptor b) w w' own
        (IfReturns-eq (λ _. Keeps d p w) (remote_address-Keeps d p b address w) c)
  Step-Accounts {b} {w = w} own (destroyed c) =
      IfReturns-eq (λ b' w'. Accounts d (descriptor b) w (descriptor b') w')
        (Returns-IfReturns (λ b' w'. Accounts d (descriptor b) w (descriptor b') w')
          (destroy p k b w)
          (Returns-mono
            (λ b' w'. Accounts d (descriptor b) w (descriptor b') w' × (descriptor b' ≡ minus_one))
            (λ b' w'. Accounts d (descriptor b) w (descriptor b') w') (destroy p k b w)
            (destroy-Accounts b w own) λ b' w' h. h.0))
        c

  Reach-Accounts :
      {b : SocketBuffer} {w : W} {b' : SocketBuffer} {w' : W}
      → Owns d (descriptor b) w
      → Reach p k b w b' w'
      → Accounts d (descriptor b) w (descriptor b') w'
  Reach-Accounts {b} {w = w} own here = same-Accounts d (descriptor b) w w own λ m. refl
  Reach-Accounts own (next r st) =
      let a = Reach-Accounts own r in trans-Accounts d a (Step-Accounts a.own st)

  -- A posix buffer that starts without a descriptor, goes through any sequence of steps (of calls
  -- that return, `listen` and its own accepts excluded) and is then destroyed leaves the system's
  -- open descriptors exactly as they were.
  pub Reach-destroy :
      (b : SocketBuffer) (w w' : W)
      → Reach p k (posix PosixSocketBuffer.initial) w b w'
      → Returns (λ _ w''. (m : ℤ) → d.is_open w'' m ≡ d.is_open w m) (destroy p k b w')
  Reach-destroy b w w' r =
      let a = Reach-Accounts (λ h. cc (==ℤ_refl minus_one)) r in
      Returns-mono
        (λ b' w''. Accounts d (descriptor b) w' (descriptor b') w'' × (descriptor b' ≡ minus_one))
        (λ _ w''. (m : ℤ) → d.is_open w'' m ≡ d.is_open w m) (destroy p k b w')
        (destroy-Accounts b w' a.own)
        λ b' w'' (ended, none_left) m. ground (
          arith,
          (trans-Accounts d a (rw none_left at ended)).others m,
          d.minus_one_closed w,
          d.minus_one_closed w'',
          ==ℤ_iff m minus_one,
        )
