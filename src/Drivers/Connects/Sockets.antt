-- ===== src/Drivers/Connects/Sockets.antt =====
-- The documented behaviour of sockets of the family `AF_INET`, on which the tests of the drivers rest.
use sydn.Common.{
  ℕ, ◌≤◌, ◌<◌, ◌^◌, ◌≡◌, ◌⊎◌, ◌++◌, Bool, true, false, Option, none, some, List, [], length, map,
  take, drop, splice, ℤ, pos, minus_one, ◌==ℤ◌, Cell, byte,
}
use mathlib.Core.Option
use sydn.Posix.Platform.{Platform}
use sydn.Posix.Kernel.{Kernel}
use sydn.Posix.Laws.{Descriptors}
use sydn.Posix.Fair.{FairInput}
use sydn.Net.Bytes.{get16}
use sydn.Net.Print.{codes}
use sydn.Drivers.Usage.{Limits}
use sydn.Drivers.Usage.Counts.{IsLimited}
use sydn.Drivers.Connects.Held.{used}

-- The name of a socket of this family: a `sockaddr_in`.
abbrev pub IsName : Platform → List ℕ → Type 0
IsName p name = (length name ≡ p.sizeof_sockaddr_in) × (get16 0 (map byte name) ≡ some p.af_inet)

-- What a descriptor is: a new socket; one that is bound to a name; a server, which listens, with its
-- name and the connection that waits for it, if one does; the end that has connected of a connection;
-- and the end that was accepted. A connection has a number, and the bytes that were sent to the accepted
-- end and not read. `is_local` tells of the bytes of an internet address whether it is one of the host.
pub record IsWorking {W : Type 0} {k : Kernel W} (d : Descriptors k) (l : Limits W)
    (limited : IsLimited d l) (p : Platform) : Type 0 where
  pub fresh : W → ℤ → Bool
  pub bound : W → ℤ → Option (List ℕ)
  pub server : W → ℤ → Option (List ℕ × Option ℕ)
  pub connected : W → ℤ → Option ℕ
  pub accepted : W → ℤ → Option ℕ
  pub sent : W → ℕ → List ℕ
  pub is_local : List Cell → Bool
  pub socklen : p.sizeof_sockaddr_in < 2 ^ 32
  -- `inet_pton` writes an address of the host for these texts.
  pub host :
      (text : List ℕ) (dst : List Cell)
      → (text ≡ codes "127.0.0.1") ⊎ (text ≡ codes "0.0.0.0")
      → 4 ≤ length dst
      → is_local (splice dst (p.inet_pton p.af_inet text dst).1) ≡ true
  -- `socket` for a stream fails only when no descriptor is free.
  pub socket_works :
      (w : W)
      → used d l limited w < limited.limit
      → let (fd, w') = k.socket p.af_inet p.sock_stream 0 w in
        ((fd ==ℤ minus_one) ≡ false) × (fresh w' fd ≡ true)
  -- `bind` of a new socket to an address of the host and the port 0, for which the system chooses one.
  pub bind_works :
      (fd : ℤ) (bytes : List Cell) (w : W)
      → fresh w fd ≡ true
      → get16 0 bytes ≡ some p.af_inet
      → Option.map p.ntohs (get16 p.sin_port bytes) ≡ some 0
      → is_local (drop p.sin_addr bytes) ≡ true
      → let (r, w') = k.bind fd (some bytes) p.sizeof_sockaddr_in w in
        ((r ==ℤ minus_one) ≡ false) × ((name : List ℕ) × IsName p name × (bound w' fd ≡ some name))
  -- `listen` on a bound socket, with room for a connection.
  pub listen_works :
      (fd : ℤ) (n : ℕ) (w : W) (name : List ℕ)
      → bound w fd ≡ some name
      → 0 < n
      → let (r, w') = k.listen fd n w in
        ((r ==ℤ minus_one) ≡ false) × (server w' fd ≡ some (name, none))
  -- `getsockname` of a server copies as much of its name as there is room for.
  pub getsockname_works :
      (fd : ℤ) (bytes : List Cell) (n : ℕ) (w : W) (name : List ℕ) (waiting : Option ℕ)
      → server w fd ≡ some (name, waiting)
      → let filled = (k.getsockname fd (some bytes) n w).0 in
        ((filled.result ==ℤ minus_one) ≡ false)
        × (filled.buffer ≡ some (splice bytes (map byte (take n name))))
  -- `connect` of a new socket to the name of a server for which no connection waits: a new connection,
  -- which then waits.
  pub connect_works :
      (fd other : ℤ) (bytes : List Cell) (n : ℕ) (w : W) (name : List ℕ)
      → fresh w fd ≡ true
      → server w other ≡ some (name, none)
      → take n bytes ≡ map byte name
      → let (r, w') = k.connect fd (some bytes) n w in
        ((r ==ℤ minus_one) ≡ false)
        × ((connection : ℕ) × (connected w' fd ≡ some connection)
            × (server w' other ≡ some (name, some connection))
            × (sent w' connection ≡ []))
  -- `accept` of a server for which a connection waits, when a descriptor is free.
  pub accept_works :
      (fd : ℤ) (b : Option (List Cell)) (n : ℕ) (w : W) (name : List ℕ) (connection : ℕ)
      → server w fd ≡ some (name, some connection)
      → used d l limited w < limited.limit
      → let (filled, w') = k.accept fd b n w in
        ((filled.result ==ℤ minus_one) ≡ false)
        × (accepted w' filled.result ≡ some connection)
        × (sent w' connection ≡ sent w connection)
  -- `write` on the connected end of less than 2^31 bytes takes them all.
  pub write_works :
      (fd : ℤ) (bytes : List ℕ) (w : W) (connection : ℕ)
      → connected w fd ≡ some connection
      → length bytes < 2 ^ 31
      → let (r, w') = k.write fd (map byte bytes) (length (map byte bytes)) w in
        (r ≡ pos (length bytes)) × (sent w' connection ≡ sent w connection ++ bytes)
  -- The accepted end reads what was sent.
  pub inputs : (fd : ℤ) → FairInput p k fd
  pub reads :
      (fd : ℤ) (w : W) (connection : ℕ)
      → accepted w fd ≡ some connection
      → (inputs fd).input w ≡ sent w connection
  -- A server stays what it is under the calls on other descriptors, and those that ask for something.
  pub socket_keeps :
      (domain type protocol : ℕ) (w : W) (m : ℤ)
      → (m ==ℤ (k.socket domain type protocol w).0) ≡ false
      → server (k.socket domain type protocol w).1 m ≡ server w m
  pub getsockname_keeps :
      (fd : ℤ) (b : Option (List Cell)) (n : ℕ) (w : W) (m : ℤ)
      → server (k.getsockname fd b n w).1 m ≡ server w m
  pub write_keeps :
      (fd : ℤ) (b : List Cell) (n : ℕ) (w : W) (m : ℤ) → server (k.write fd b n w).1 m ≡ server w m
  pub close_keeps :
      (fd : ℤ) (w : W) (m : ℤ) → (m ==ℤ fd) ≡ false → server (k.close fd w).1 m ≡ server w m
  pub fcntl_keeps : (fd : ℤ) (w : W) (m : ℤ) → server (l.fcntl fd w).1 m ≡ server w m
  pub getrlimit_keeps : (w : W) (m : ℤ) → server (l.getrlimit w).1 m ≡ server w m
  -- To close a descriptor takes back nothing that was sent, and changes no other end.
  pub close_sent : (fd : ℤ) (w : W) (c : ℕ) → sent (k.close fd w).1 c ≡ sent w c
  pub close_accepted :
      (fd : ℤ) (w : W) (m : ℤ) → (m ==ℤ fd) ≡ false → accepted (k.close fd w).1 m ≡ accepted w m
