-- ===== src/Tests/System.antt =====
-- The constants of Linux on x86-64, and a simulated kernel that has the behaviour which the theorems
-- ask for.
use sydn.Common.{
  ℕ, suc, ap, sym, take-all, length-eq_zero, take-length-take, drop-length-take, ◌+◌, ◌*◌, ◌/◌, ◌%◌,
  ◌<◌, ◌^◌, ◌≡◌, refl, inr, Bool, true, false, not, ◌&&◌, ◌||◌, Option, List, [], ◌∷◌, ◌++◌, map,
  arith, ltb, ◌==◌, length, take, drop, splice, length-take, length-splice, ℤ, pos, negsuc,
  minus_one, ◌==ℤ◌, Cell, byte,
}
use mathlib.Core.Option
use sydn.Posix.Platform.{Platform, IsSound, RejectsText}
use sydn.Posix.Kernel.{Kernel, Filled}
use sydn.Posix.Laws.{Descriptors, SocketName, Transfers, AcceptErrors, PeerName, Stream}

abbrev pub linux : Platform
linux = record {
  sizeof_sockaddr = 16;
  sizeof_sockaddr_in = 16;
  sizeof_sockaddr_un = 110;
  sin_port = 2;
  sin_addr = 4;
  sun_path = 2;
  sizeof_sun_path = 108;
  af_unspec = 0;
  af_inet = 2;
  af_inet6 = 10;
  af_unix = 1;
  sock_stream = 1;
  function_not_supported = 38;
  operation_would_block = 11;
  resource_unavailable_try_again = 11;
  htons = λ v. v % 256 * 256 + v / 256 % 256;
  ntohs = λ v. v % 256 * 256 + v / 256 % 256;
  inet_pton = λ family text dst. (pos 0, dst);
  inet_addrstrlen = 16;
  inet_ntop = λ family src n dst. dst;
  getnameinfo = λ bytes n. (pos 0, [], []);
  gai_strerror = λ n. [];
}

pub linux-IsSound : IsSound linux
linux-IsSound = omega arith

pub linux-RejectsText : RejectsText linux
linux-RejectsText = record { keeps = λ family text dst e. refl }

-- Descriptors are handed out in order; `live` says which of those below `next` are open. There is
-- one stream, from which `read` takes and to which `write` adds.
pub record World : Type 0 where
  pub next : ℕ
  pub live : ℕ → Bool
  pub input : List ℕ
  pub output : List Cell

abbrev pub start : World
start = record { next = 3; live = λ n. true; input = 104 ∷ 105 ∷ []; output = [] }

abbrev pub opened : World → World
opened w = record w { next = suc w.next; live = λ n. n == w.next || w.live n }

abbrev pub fill : List ℕ → ℤ → Option (List Cell) → ℕ → Filled
fill name result buffer n = record {
  result = result;
  buffer = Option.map (λ bytes. splice bytes (map byte (take n name))) buffer;
  length = length name;
}

-- Every socket has the name `name`, and so has every peer.
abbrev pub simulated : List ℕ → Kernel World
simulated name = record {
  errno = λ w. 11;
  socket = λ domain type protocol w. (pos w.next, opened w);
  close = λ fd w. (pos 0, record w { live = λ n. w.live n && not (pos n ==ℤ fd) });
  bind = λ fd buffer n w. (pos 0, w);
  connect = λ fd buffer n w. (pos 0, w);
  listen = λ fd backlog w. (pos 0, w);
  accept = λ fd buffer n w. (fill name (pos w.next) buffer n, opened w);
  getsockname = λ fd buffer n w. (fill name (pos 0) buffer n, w);
  read = λ fd buffer n w. (
    pos (length (take n w.input)),
    splice buffer (map byte (take n w.input)),
    record w { input = drop n w.input },
  );
  write =
      λ fd bytes n w. (pos (length (take n bytes)), record w { output = w.output ++ take n bytes });
}

abbrev pub is_open : World → ℤ → Bool
is_open w (pos n) = ltb n w.next && w.live n
is_open w (negsuc n) = false

pub opens :
    (w : World) (m : ℤ)
    → is_open (opened w) m ≡ (is_open w m || (m ==ℤ pos w.next && not (m ==ℤ minus_one)))
unfolding ◌==ℤ◌
opens w (pos m) = ground arith
opens w (negsuc m) = refl

pub fresh : (w : World) → is_open w (pos w.next) ≡ false
fresh w = ground arith

pub closes :
    (fd : ℤ) (w : World) (m : ℤ)
    → is_open (record w { live = λ n. w.live n && not (pos n ==ℤ fd) }) m
      ≡ (is_open w m && not (m ==ℤ fd))
closes fd w (pos m) = ground arith
closes fd w (negsuc m) = refl

abbrev pub descriptors : (name : List ℕ) → Descriptors (simulated name)
descriptors name = record {
  is_open = is_open;
  minus_one_closed = λ w. refl;
  socket_fresh = λ domain type protocol w. fresh w;
  socket_opens = λ domain type protocol w m. opens w m;
  accept_fresh = λ fd buffer n w. fresh w;
  accept_opens = λ fd buffer n w m. opens w m;
  close_closes = closes;
  bind_keeps = λ fd buffer n w m. refl;
  connect_keeps = λ fd buffer n w m. refl;
  listen_keeps = λ fd backlog w m. refl;
  getsockname_keeps = λ fd buffer n w m. refl;
  read_keeps = λ fd buffer n w m. refl;
  write_keeps = λ fd bytes n w m. refl;
}

abbrev pub socket_name :
    (name : List ℕ) (fd : ℤ) → length name < 2 ^ 32 → SocketName (simulated name) fd
socket_name name fd h = record {
  name = λ w. name;
  socklen = λ w. h;
  in_room =
      λ b n w. (splice b (map byte (take n name)), refl, length-splice b (map byte (take n name)));
  keeps = λ b n w. refl;
  reports = λ b n w e. refl;
  copies = λ b n w e. refl;
}

abbrev pub peer_name : (name : List ℕ) (fd : ℤ) → PeerName (simulated name) fd
peer_name name fd = record {
  peer = λ w. name;
  peer_reports = λ b n w e. refl;
  peer_copies = λ b n w e. refl;
}

pub transfers : (name : List ℕ) (fd : ℤ) → Transfers (simulated name) fd
transfers name fd = record {
  read_count = λ b w.
      inr (length (take (length b) w.input), refl, omega (arith, length-take (length b) w.input));
  read_errno = λ b w e. ground arith;
  read_room = λ b w. length-splice b (map byte (take (length b) w.input));
  write_count =
      λ b w. inr (length (take (length b) b), refl, omega (arith, length-take (length b) b));
  write_errno = λ b w e. ground arith;
}

pub accept_errors : (name : List ℕ) (fd : ℤ) → AcceptErrors (simulated name) fd
accept_errors name fd = record { accept_errno = λ b n w e. ground arith }

abbrev pub stream_of : (name : List ℕ) (fd : ℤ) → Stream (simulated name) fd
stream_of name fd = record {
  input = λ w. w.input;
  output = λ w. w.output;
  chunk = λ b w. length (take (length b) w.input);
  chunk_room = λ b w. omega (arith, length-take (length b) w.input);
  chunk_input = λ b w. omega (arith, length-take (length b) w.input);
  chunk_end = λ b w room e. length-eq_zero w.input (omega (arith, length-take (length b) w.input));
  reads = λ b w. refl;
  read_buffer =
      λ b w. ap (λ bytes. splice b (map byte bytes)) (sym (take-length-take (length b) w.input));
  read_input = λ b w. sym (drop-length-take (length b) w.input);
  read_output = λ b w. refl;
  writes = λ b w. ap (λ bytes. pos (length bytes)) (take-all (length b) b (omega arith));
  write_output = λ b w. ap (λ bytes. w.output ++ bytes) (take-all (length b) b (omega arith));
  write_input = λ b w. refl;
}
