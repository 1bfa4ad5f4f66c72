-- ===== src/Drivers/Connects/Connecting.antt =====
-- A new socket that connects while a descriptor is free, and what its destructor leaves.
use sydn.Common.{
  ==ℤ_iff, true, none, map, take, byte, [], refl, ◌∙◌, List, Cell, ℕ, ◌+◌, ◌<◌, ◌≡◌, ap, Bool,
  false, ==_refl, some, ℤ, minus_one, ◌==ℤ◌, ==ℤ_refl, Bool-cases, bit, inl, inr, arith,
}
use sydn.Posix.Platform.{Platform, IsSound}
use sydn.Posix.Kernel.{Kernel}
use sydn.Posix.Laws.{Descriptors}
use sydn.Posix.Returns.{Returns, Returns-both}
use sydn.Net.Address
use sydn.Net.Address.{Address}
use sydn.Net.Address.Contents.{empty-IsValid}
use sydn.Net.ConnectedSocket
use sydn.Net.ConnectedSocket.{ConnectedSocket, stream, to_int, no_error}
use sydn.Drivers.Usage.{Limits, count_in_use}
use sydn.Drivers.Usage.Counts.{IsLimited, how_many-ext, count_in_use_lem, count_in_use_keeps}
use sydn.Drivers.Connects.Held.{used, Adds, Adds-opened, Adds-closed}
use sydn.Drivers.Connects.Sockets.{IsWorking}

null-ne_null : (p : Platform) → Address.ne_null p Address.empty ≡ some false
unfolding Address.ne_null Address.family
null-ne_null p = ground (arith, empty-IsValid.1, ==_refl p.af_unspec)

open_ne_closed :
    {W : Type 0} {k : Kernel W} (d : Descriptors k) (w : W) (a b : ℤ)
    → d.is_open w a ≡ true
    → d.is_open w b ≡ false
    → (a ==ℤ b) ≡ false
open_ne_closed d w a b opened closed = elim (Bool-cases (a ==ℤ b)) [
  | inl e ↦ absurd (cc (opened, closed, (==ℤ_iff a b).0 e))
  | inr e ↦ e
]

pub closed_ne_open :
    {W : Type 0} {k : Kernel W} (d : Descriptors k) (w : W) (a b : ℤ)
    → d.is_open w a ≡ false
    → d.is_open w b ≡ true
    → (a ==ℤ b) ≡ false
closed_ne_open d w a b closed opened = elim (Bool-cases (a ==ℤ b)) [
  | inl e ↦ absurd (cc (opened, closed, (==ℤ_iff a b).0 e))
  | inr e ↦ e
]

pub bit_eq : (a b : Bool) → bit a ≡ bit b + 0 → a ≡ b
bit_eq a b h = ground arith

module _ {W : Type 0} {k : Kernel W} (d : Descriptors k) (l : Limits W) (limited : IsLimited d l)
    (p : Platform) (working : IsWorking d l limited p) (sound : IsSound p) where
  abbrev pub Same : W → W → Type 0
  Same w w' = (m : ℤ) → d.is_open w' m ≡ d.is_open w m

  -- `connect` on a new socket to a server for which no connection waits, with a free descriptor, gives
  -- it one more, which was free, the end of a connection that waits for the server.
  abbrev pub Connects : W → ConnectedSocket → W → Type 0
  Connects w s w' =
      Adds d l limited w (λ m. bit (m ==ℤ s.d_fd)) w' × ((s.d_fd ==ℤ minus_one) ≡ false)

  abbrev pub Reaches : ℤ → List ℕ → ℤ → W → Type 0
  Reaches server name fd w =
      ((server ==ℤ fd) ≡ false)
      × ((connection : ℕ) × (working.connected w fd ≡ some connection)
          × (working.server w server ≡ some (name, some connection))
          × (working.sent w connection ≡ []))

  pub connect-Connects :
      (remote : Address) (bytes : List Cell) (server : ℤ) (name : List ℕ) (w : W)
      → Address.family p remote ≡ some p.af_inet
      → Address.native remote ≡ some bytes
      → take (Address.size remote) bytes ≡ map byte name
      → d.is_open w server ≡ true
      → working.server w server ≡ some (name, none)
      → used d l limited w < limited.limit
      → Returns
          (λ r w'. Connects w r.1 w' × (r.0 ≡ no_error) × Reaches server name r.1.d_fd w')
          (ConnectedSocket.connect p k ConnectedSocket.initial stream remote Address.empty w)
  unfolding ConnectedSocket.connect to_int
  connect-Connects remote bytes server name w family native named live serves free =
      let new = k.socket p.af_inet p.sock_stream 0 w in
      let (works, is_fresh) = working.socket_works w free in
      let opened =
        Adds-opened d l limited w w new.1 (λ m. 0) new.0 (λ m. omega arith)
          (d.socket_fresh p.af_inet p.sock_stream 0 w) (d.socket_opens p.af_inet p.sock_stream 0 w)
          works in
      let tried = k.connect new.0 (some bytes) (Address.size remote) new.1 in
      let other : (server ==ℤ new.0) ≡ false =
        open_ne_closed d w server new.0 live (d.socket_fresh p.af_inet p.sock_stream 0 w) in
      let (connects, reached) =
        working.connect_works new.0 server bytes (Address.size remote) new.1 name is_fresh
          (working.socket_keeps p.af_inet p.sock_stream 0 w server other ∙ serves) named in
      let kept : Connects w (record { d_fd = new.0 }) tried.1 = (
        λ m. omega (
          arith,
          ap bit (d.connect_keeps new.0 (some bytes) (Address.size remote) new.1 m),
          opened m,
        ),
        works,
      ) in
      rw (==ℤ_refl minus_one, family, works, null-ne_null p, native, connects)
        (kept, refl, (other, reached))

  pub close_own-Connects :
      (s : ConnectedSocket) (w w' : W) (more : ℤ → ℕ)
      → Adds d l limited w (λ m. more m + bit (m ==ℤ s.d_fd)) w'
      → (s.d_fd ==ℤ minus_one) ≡ false
      → Returns
          (λ _ w''. Adds d l limited w more w'' × (w'' ≡ (k.close s.d_fd w').1))
          (ConnectedSocket.close_own k s w')
  unfolding ConnectedSocket.close_own
  close_own-Connects s w w' more h given =
      rw given (Adds-closed d l limited w w' _ more s.d_fd h (d.close_closes s.d_fd w'), refl)

  pub used-Same : (w w' : W) → Same w w' → used d l limited w' ≡ used d l limited w
  used-Same w w' same = how_many-ext (d.is_open w') (d.is_open w) limited.limit 0 same

  abbrev pub Counts : W → ℕ → W → Type 0
  Counts w n w' = (n ≡ used d l limited w) × Same w w'

  -- The servers too stay what they are.
  abbrev pub CountsServing : W → ℕ → W → Type 0
  CountsServing w n w' = Counts w n w' × ((m : ℤ) → working.server w' m ≡ working.server w m)

  pub count_in_use-CountsServing : (w : W) → Returns (CountsServing w) (count_in_use k l w)
  count_in_use-CountsServing w =
      Returns-both (Counts w) (λ _ w'. (m : ℤ) → working.server w' m ≡ working.server w m)
        (count_in_use k l w) (count_in_use_lem d l limited w)
        (count_in_use_keeps k l (λ w'. (m : ℤ) → working.server w' m ≡ working.server w m)
          (λ fd w' h m. working.fcntl_keeps fd w' m ∙ h m)
          (λ w' h m. working.getrlimit_keeps w' m ∙ h m) w λ m. refl)
