-- ===== src/Drivers/Futures/Descriptors.antt =====
-- Which descriptors the future of `createAcceptServer` opens and closes, step by step.
use sydn.Common.{
  false, ◌∙◌, List, ℕ, zero, suc, ◌+◌, ◌-◌, ◌≤◌, ◌<◌, ◌≡◌, refl, ltb, some, ℤ, ◌==ℤ◌, ==ℤ_refl, bit,
  arith,
}
use mathlib.Core.Path.{subst}
use sydn.Posix.Platform.{Platform, IsSound}
use sydn.Posix.Kernel.{Kernel}
use sydn.Posix.Laws.{Descriptors}
use sydn.Posix.Returns.{Returns, Returns->>=, Returns-mono}
use sydn.Net.Address
use sydn.Net.Address.{Address}
use sydn.Net.Address.Family.{labelled}
use sydn.Net.Ipv4Address
use sydn.Net.PosixSocketBuffer.{to_socklen}
use sydn.Drivers.Futures.{
  AcceptFuture, accepting, closing_server, closing_remote, ready, step, run, get,
}
use sydn.Drivers.Futures.Orders.{get-run}
use sydn.Drivers.Usage.{Limits}
use sydn.Drivers.Usage.Counts.{IsLimited}
use sydn.Drivers.Connects.Held.{
  total, total_none, total_add, used, Adds, used-Adds, total_open, Adds-opened, Adds-closed,
}
use sydn.Drivers.Connects.Sockets.{IsWorking}

-- The descriptors that a future has, each as often as it has it.
abbrev pub held : AcceptFuture → ℤ → ℕ
held (accepting server) m = bit (m ==ℤ server)
held (closing_server server remote address) m = bit (m ==ℤ remote) + bit (m ==ℤ server)
held (closing_remote remote address) m = bit (m ==ℤ remote)
held (ready address) m = 0

-- How many steps are left, and how many descriptors.
abbrev pub left : AcceptFuture → ℕ
left (accepting server) = 3
left (closing_server server remote address) = 2
left (closing_remote remote address) = 1
left (ready address) = 0

abbrev pub holding : AcceptFuture → ℕ
holding (accepting server) = 1
holding (closing_server server remote address) = 2
holding (closing_remote remote address) = 1
holding (ready address) = 0

pub left-holding : (future : AcceptFuture) → ltb 0 (holding future) ≡ ltb 0 (left future)
left-holding (accepting server) = refl
left-holding (closing_server server remote address) = refl
left-holding (closing_remote remote address) = refl
left-holding (ready address) = refl

left_le : (future : AcceptFuture) → left future ≤ 3
left_le (accepting server) = omega arith
left_le (closing_server server remote address) = omega arith
left_le (closing_remote remote address) = omega arith
left_le (ready address) = omega arith

-- The default constructor of `ipv4_address` does not fail.
make_any_lem : (p : Platform) → IsSound p → (a : Address) × (Ipv4Address.make_any p ≡ some a)
unfolding Ipv4Address.make_any
make_any_lem p sound =
    let (a, resized, updated, _, _, _, _, _) =
      labelled p p.sizeof_sockaddr_in p.af_inet
        (omega (arith, sound.family_in_sockaddr, sound.sockaddr_in_extends))
        sound.sockaddr_in_extends sound.inet_in_range in
    (a, rw (Ipv4Address.make_any, resized, updated))

module _ {W : Type 0} {k : Kernel W} (d : Descriptors k) (l : Limits W) (limited : IsLimited d l)
    (p : Platform) (working : IsWorking d l limited p) (sound : IsSound p) where
  -- A connection waits for the server whose thread has not accepted one.
  abbrev pub Awaits : AcceptFuture → W → Type 0
  Awaits (accepting server) w =
      (name : List ℕ) × (connection : ℕ) × (working.server w server ≡ some (name, some connection))
  Awaits (closing_server server remote address) w = Unit
  Awaits (closing_remote remote address) w = Unit
  Awaits (ready address) w = Unit

  pub Awaits-same :
      (future : AcceptFuture) (w w' : W)
      → ((m : ℤ) → working.server w' m ≡ working.server w m)
      → Awaits future w
      → Awaits future w'
  Awaits-same (accepting server) w w' same (name, connection, e) =
      (name, connection, same server ∙ e)
  Awaits-same (closing_server server remote address) w w' same h = tt
  Awaits-same (closing_remote remote address) w w' same h = tt
  Awaits-same (ready address) w w' same h = tt

  -- The open descriptors are those of `w`, some others and those of the future. There is room for two
  -- more than those of `w` and the others.
  pub record Running (w : W) (others : ℤ → ℕ) (future : AcceptFuture) (w' : W) : Type 0 where
    pub adds : Adds d l limited w (λ m. others m + held future m) w'
    pub free : used d l limited w + total others limited.limit 0 + 1 < limited.limit
    pub awaits : Awaits future w'

  -- Each of the descriptors that a future has is another one.
  pub total-held :
      (w w' : W) (others : ℤ → ℕ) (future : AcceptFuture)
      → Running w others future w'
      → total (held future) limited.limit 0 ≡ holding future
  total-held w w' others (ready address) r = total_none (λ m. 0) limited.limit 0 λ n le. refl
  total-held w w' others (closing_remote remote address) r =
      total_open d l limited w' remote (ground (arith, r.adds remote, ==ℤ_refl remote))
  total-held w w' others (accepting server) r =
      total_open d l limited w' server (ground (arith, r.adds server, ==ℤ_refl server))
  total-held w w' others (closing_server server remote address) r = omega (
    arith,
    total_add (λ m. bit (m ==ℤ remote)) (λ m. bit (m ==ℤ server)) limited.limit 0,
    total_open d l limited w' remote (ground (arith, r.adds remote, ==ℤ_refl remote)),
    total_open d l limited w' server (ground (arith, r.adds server, ==ℤ_refl server)),
  )

  -- A descriptor that the future does not have may be closed.
  pub Awaits-close :
      (w w' : W) (fd : ℤ) (future : AcceptFuture)
      → Running w (λ m. bit (m ==ℤ fd)) future w'
      → Awaits future (k.close fd w').1
  Awaits-close w w' fd (accepting server) r =
      let (name, connection, e) = r.awaits in
      let other : (server ==ℤ fd) ≡ false = ground (arith, r.adds server, ==ℤ_refl server) in
      (name, connection, working.close_keeps fd w' server other ∙ e)
  Awaits-close w w' fd (closing_server server remote address) r = tt
  Awaits-close w w' fd (closing_remote remote address) r = tt
  Awaits-close w w' fd (ready address) r = tt

  abbrev pub Stepped : W → (ℤ → ℕ) → ℕ → AcceptFuture → W → Type 0
  Stepped w others steps future w' = Running w others future w' × (left future ≡ steps)

  step-Running :
      (w w' : W) (others : ℤ → ℕ) (future : AcceptFuture)
      → Running w others future w'
      → Returns (Stepped w others (left future - 1)) (step p k future w')
  unfolding step
  step-Running w w' others (ready address) r = (r, refl)
  step-Running w w' others (closing_remote remote address) r = (
    record {
      adds = λ m.
          omega (
            arith,
            Adds-closed d l limited w w' _ others remote r.adds (d.close_closes remote w') m,
          );
      free = r.free;
      awaits = tt;
    },
    refl,
  )
  step-Running w w' others (closing_server server remote address) r = (
    record {
      adds =
          Adds-closed d l limited w w' _ (λ m. others m + bit (m ==ℤ remote)) server
            (λ m. omega (arith, r.adds m)) (d.close_closes server w');
      free = r.free;
      awaits = tt;
    },
    refl,
  )
  step-Running w w' others (accepting server) r =
      let (a, made) = make_any_lem p sound in
      let room = Address.native a in
      let len = to_socklen (Address.size a) in
      let new = k.accept server room len w' in
      let (name, connection, waits) = r.awaits in
      let (works, _, _) = working.accept_works server room len w' name connection waits (
        omega (
          arith,
          r.free,
          used-Adds d l limited w w' (λ m. others m + bit (m ==ℤ server)) r.adds,
          total_add others (λ m. bit (m ==ℤ server)) limited.limit 0,
          total-held w w' others (accepting server) r,
        )) in
      let opened =
        Adds-opened d l limited w w' new.1 (λ m. others m + bit (m ==ℤ server)) new.0.result r.adds
          (d.accept_fresh server room len w') (d.accept_opens server room len w') works in
      rw (made, works)
        (record { adds = λ m. omega (arith, opened m); free = r.free; awaits = tt }, refl)

  pub run-Running :
      (steps : ℕ) (w w' : W) (others : ℤ → ℕ) (future : AcceptFuture)
      → Running w others future w'
      → Returns (Stepped w others (left future - steps)) (run p k steps future w')
  unfolding run
  run-Running zero w w' others future r = (r, omega arith)
  run-Running (suc steps) w w' others future r =
      Returns->>= (Stepped w others (left future - 1)) (Stepped w others (left future - suc steps))
        (step p k future) (run p k steps) w' (step-Running w w' others future r)
        λ future' w'' (r', e).
          Returns-mono (Stepped w others (left future' - steps))
            (Stepped w others (left future - suc steps)) _
            (run-Running steps w w'' others future' r')
            λ f w₃ (r'', e'). (r'', omega (arith, e, e'))

  -- What the wait for the future leaves.
  pub get-Running :
      (w w' : W) (others : ℤ → ℕ) (future : AcceptFuture)
      → Running w others future w'
      → Returns (λ _ w''. Adds d l limited w others w'') (get p k future w')
  unfolding get
  get-Running w w' others future r =
      subst (Returns (λ _ w''. Adds d l limited w others w'')) (get-run p k 3 future w') (
        Returns->>= (Stepped w others (left future - 3)) (λ _ w''. Adds d l limited w others w'')
          (run p k 3 future) (get p k) w' (run-Running 3 w w' others future r)
          λ f w'' (r', e). finish f w'' r' (omega (arith, e, left_le future)))
    where
      finish :
          (f : AcceptFuture) (w'' : W)
          → Running w others f w''
          → left f ≡ 0
          → Returns (λ _ w₃. Adds d l limited w others w₃) (get p k f w'')
      finish (ready address) w'' r' e = λ m. omega (arith, r'.adds m)
      finish (accepting server) w'' r' e = absurd (omega (arith, e))
      finish (closing_server server remote address) w'' r' e = absurd (omega (arith, e))
      finish (closing_remote remote address) w'' r' e = absurd (omega (arith, e))
