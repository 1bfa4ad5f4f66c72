-- ===== src/Tests/Hosts.antt =====
-- A system with room for four descriptors whose sockets listen, wait, connect and carry bytes as those
-- of a host do.
use sydn.Common.{
  ℕ, suc, ◌≡◌, refl, ap, inl, inr, Bool, true, false, not, ◌&&◌, ◌||◌, Option, none, some, [], ◌∷◌,
  ◌++◌, List, map, take, drop, splice, length, if◌then◌else◌, arith, byte, unspecified, Cell, ℤ,
  pos, negsuc, minus_one, ◌==◌, ==_refl, ◌==ℤ◌, ==ℤ_refl, Option-cases,
}
use sydn.Posix.Kernel.{Kernel}
use sydn.Posix.Laws.{Descriptors}
use sydn.Drivers.Usage.{Limits}
use sydn.Drivers.Usage.Counts.{IsLimited}
use sydn.Tests.Few.{
  Table, room, is_open, free, taken, fresh, opens, closes, tells, in_range, limits,
}
use sydn.Tests.System.{fill}

pub record Host : Type 0 where
  pub live : Table
  pub new : ℤ → Bool
  pub bound : ℤ → Option (List ℕ)
  pub servers : ℤ → Option (List ℕ × Option ℕ)
  pub connected : ℤ → Option ℕ
  pub accepted : ℤ → Option ℕ
  pub sent : ℕ → List ℕ
  pub next : ℕ

-- A cell without a value is sent as some byte.
abbrev pub code : Cell → ℕ
code (byte n) = n
code unspecified = 0

pub codes_back : (xs : List ℕ) → map code (map byte xs) ≡ xs
codes_back [] = refl
codes_back (x ∷ xs) = ap (◌∷◌ x) (codes_back xs)

abbrev pub same : List Cell → List ℕ → Bool
same [] [] = true
same [] (x ∷ xs) = false
same (c ∷ cells) [] = false
same (c ∷ cells) (x ∷ xs) = code c == x && same cells xs

pub same_bytes : (xs : List ℕ) → same (map byte xs) xs ≡ true
same_bytes [] = refl
same_bytes (x ∷ xs) = rw (==_refl x) (same_bytes xs)

abbrev pub at : {A : Type 0} → ℤ → A → (ℤ → A) → ℤ → A
at fd a f m = if m ==ℤ fd then a else f m

pub at_same : {A : Type 0} (fd : ℤ) (a : A) (f : ℤ → A) → at fd a f fd ≡ a
at_same fd a f = rw (==ℤ_refl fd) refl

pub at_other :
    {A : Type 0} (fd : ℤ) (a : A) (f : ℤ → A) (m : ℤ) → (m ==ℤ fd) ≡ false → at fd a f m ≡ f m
at_other fd a f m e = rw e refl

-- Each socket has a port of its own, on 127.0.0.1.
abbrev pub number : ℤ → ℕ
number (pos n) = n
number (negsuc n) = 0

abbrev pub name_of : ℤ → List ℕ
name_of fd = 2 ∷ 0 ∷ 200 ∷ number fd ∷ 127 ∷ 0 ∷ 0 ∷ 1 ∷ 0 ∷ 0 ∷ 0 ∷ 0 ∷ 0 ∷ 0 ∷ 0 ∷ 0 ∷ []

abbrev pub meet : List Cell → ℕ → Option (List ℕ × Option ℕ) → Option (List ℕ × Option ℕ)
meet cells c none = none
meet cells c (some (name, none)) =
    if same cells name then some (name, some c) else some (name, none)
meet cells c (some (name, some waiting)) = some (name, some waiting)

abbrev pub waiting : Option (List ℕ × Option ℕ) → Option ℕ
waiting none = none
waiting (some (name, c)) = c

abbrev pub served : Option (List ℕ × Option ℕ) → Option (List ℕ × Option ℕ)
served none = none
served (some (name, c)) = some (name, none)

abbrev pub cells_of : Option (List Cell) → ℕ → List Cell
cells_of none n = []
cells_of (some cells) n = take n cells

abbrev pub sends : Option ℕ → List ℕ → (ℕ → List ℕ) → ℕ → List ℕ
sends none bytes sent c = sent c
sends (some connection) bytes sent c = if c == connection then sent c ++ bytes else sent c

abbrev pub reads : Option ℕ → ℕ → (ℕ → List ℕ) → ℕ → List ℕ
reads none n sent c = sent c
reads (some connection) n sent c = if c == connection then drop n (sent c) else sent c

abbrev pub input_of : Option ℕ → (ℕ → List ℕ) → List ℕ
input_of none sent = []
input_of (some connection) sent = sent connection

abbrev pub hosted : Kernel Host
hosted = record {
  errno = λ w. 24;
  socket = λ domain type protocol w. (
    free w.live room 0,
    record w {
      live = taken w.live;
      new = at (free w.live room 0) true w.new;
      servers = at (free w.live room 0) none w.servers;
    },
  );
  close = λ fd w. (
    pos 0,
    record w {
      live = λ n. w.live n && not (pos n ==ℤ fd);
      new = at fd false w.new;
      bound = at fd none w.bound;
      servers = at fd none w.servers;
      connected = at fd none w.connected;
      accepted = at fd none w.accepted;
    },
  );
  bind = λ fd buffer n w. (
    if w.new fd then pos 0 else minus_one,
    record w {
      bound = at fd (if w.new fd then some (name_of fd) else none) w.bound;
      new = at fd false w.new;
    },
  );
  connect = λ fd buffer n w. (
    if w.new fd then pos 0 else minus_one,
    record w {
      new = at fd false w.new;
      connected = at fd (if w.new fd then some w.next else none) w.connected;
      servers =
          λ m. if w.new fd then meet (cells_of buffer n) w.next (w.servers m) else w.servers m;
      sent = λ c. if c == w.next then [] else w.sent c;
      next = suc w.next;
    },
  );
  listen = λ fd backlog w. (
    elim (w.bound fd) [ none ↦ minus_one | some name ↦ pos 0 ],
    record w {
      servers = at fd (elim (w.bound fd) [ none ↦ none | some name ↦ some (name, none) ]) w.servers;
    },
  );
  accept = λ fd buffer n w. elim (waiting (w.servers fd)) [
    | none ↦ (fill [] minus_one buffer n, w)
    | some c ↦ (
      fill (name_of fd) (free w.live room 0) buffer n,
      record w {
        live = taken w.live;
        accepted = at (free w.live room 0) (some c) w.accepted;
        servers = at fd (served (w.servers fd)) w.servers;
      },
    )
  ];
  getsockname = λ fd buffer n w. (
    elim (w.servers fd) [
      | none ↦ fill [] minus_one buffer n
      | some (name, c) ↦ fill name (pos 0) buffer n
    ],
    w,
  );
  read = λ fd buffer n w. (
    elim (w.accepted fd) [ none ↦ minus_one | some c ↦ pos (length (take n (w.sent c))) ],
    splice buffer (map byte (take n (input_of (w.accepted fd) w.sent))),
    record w { sent = reads (w.accepted fd) n w.sent },
  );
  write = λ fd bytes n w. (
    elim (w.connected fd) [ none ↦ minus_one | some c ↦ pos (length (take n bytes)) ],
    record w { sent = sends (w.connected fd) (map code (take n bytes)) w.sent },
  );
}

pub accept_fresh :
    (fd : ℤ) (buffer : Option (List Cell)) (n : ℕ) (w : Host)
    → is_open w.live (hosted.accept fd buffer n w).0.result ≡ false
accept_fresh fd buffer n w = elim (Option-cases (waiting (w.servers fd))) [
  | inl e ↦ rw (hosted, e) refl
  | inr (c, e) ↦ rw (hosted, e) (fresh w.live)
]

pub accept_opens :
    (fd : ℤ) (buffer : Option (List Cell)) (n : ℕ) (w : Host) (m : ℤ)
    → let (filled, w') = hosted.accept fd buffer n w in
      is_open w'.live m ≡ (is_open w.live m || (m ==ℤ filled.result && not (m ==ℤ minus_one)))
accept_opens fd buffer n w m = elim (Option-cases (waiting (w.servers fd))) [
  | inl e ↦ rw (hosted, e) (ground arith)
  | inr (c, e) ↦ rw (hosted, e) (opens w.live m)
]

abbrev pub table : Descriptors hosted
table = record {
  is_open = λ w. is_open w.live;
  minus_one_closed = λ w. refl;
  socket_fresh = λ domain type protocol w. fresh w.live;
  socket_opens = λ domain type protocol w m. opens w.live m;
  accept_fresh = accept_fresh;
  accept_opens = accept_opens;
  close_closes = λ fd w m. closes fd w.live m;
  bind_keeps = λ fd buffer n w m. refl;
  connect_keeps = λ fd buffer n w m. refl;
  listen_keeps = λ fd backlog w m. refl;
  getsockname_keeps = λ fd buffer n w m. refl;
  read_keeps = λ fd buffer n w m. refl;
  write_keeps = λ fd bytes n w m. refl;
}

abbrev pub host_limits : Limits Host
host_limits = record {
  getrlimit = λ w. ((pos 0, room), w);
  fcntl = λ fd w. ((limits.fcntl fd w.live).0, w);
}

abbrev pub limited : IsLimited table host_limits
limited = record {
  limit = room;
  counted = omega arith;
  rlimit = λ w. refl;
  rlimit_keeps = λ w m. refl;
  tells = λ n w. tells n w.live;
  in_range = λ w. in_range w.live;
  keeps = λ fd w m. refl;
}
