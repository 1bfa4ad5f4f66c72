-- ===== src/Tests/Single.antt =====
-- A system with room for one descriptor, and what the test of the destructor finds there.
use sydn.Common.{
  ℕ, ◌<◌, [], ◌∷◌, ◌≡◌, refl, Bool, true, false, not, ◌&&◌, ◌||◌, if◌then◌else◌, arith, ℤ, pos,
  negsuc, minus_one, ◌==ℤ◌, ==ℤ_iff,
}
use sydn.Posix.Kernel.{Kernel}
use sydn.Posix.Laws.{Descriptors}
use sydn.Posix.Returns.{Returns}
use sydn.Drivers.Usage.{Limits, destruction}
use sydn.Drivers.Usage.Counts.{IsLimited}
use sydn.Drivers.Usage.Destruction.{destruction_lem}
use sydn.Tests.System.{linux, linux-IsSound, linux-RejectsText, fill}

-- The state is whether the descriptor 0 is open.
abbrev given : Bool → ℤ
given w = if w then minus_one else pos 0

abbrev is_open : Bool → ℤ → Bool
is_open w m = w && (m ==ℤ pos 0)

abbrev single : Kernel Bool
single = record {
  errno = λ w. 24;
  socket = λ domain type protocol w. (given w, true);
  close = λ fd w. (pos 0, w && not (fd ==ℤ pos 0));
  bind = λ fd buffer n w. (pos 0, w);
  connect = λ fd buffer n w. (pos 0, w);
  listen = λ fd backlog w. (pos 0, w);
  accept = λ fd buffer n w. (fill (0 ∷ []) (given w) buffer n, true);
  getsockname = λ fd buffer n w. (fill (0 ∷ []) (pos 0) buffer n, w);
  read = λ fd buffer n w. (minus_one, buffer, w);
  write = λ fd bytes n w. (minus_one, w);
}

fresh : (w : Bool) → is_open w (given w) ≡ false
unfolding ◌==ℤ◌
fresh true = refl
fresh false = refl

opens :
    (w : Bool) (m : ℤ) → is_open true m ≡ (is_open w m || (m ==ℤ given w && not (m ==ℤ minus_one)))
unfolding ◌==ℤ◌
opens true (pos m) = ground arith
opens true (negsuc m) = ground arith
opens false (pos m) = ground arith
opens false (negsuc m) = ground arith

closes :
    (fd : ℤ) (w : Bool) (m : ℤ)
    → is_open (w && not (fd ==ℤ pos 0)) m ≡ (is_open w m && not (m ==ℤ fd))
unfolding ◌==ℤ◌
closes fd false m = refl
closes (pos n) true (pos m) = ground arith
closes (pos n) true (negsuc m) = ground arith
closes (negsuc n) true (pos m) = ground arith
closes (negsuc n) true (negsuc m) = ground arith

closed : (w : Bool) → is_open w minus_one ≡ false
unfolding ◌==ℤ◌
closed true = refl
closed false = refl

abbrev table : Descriptors single
table = record {
  is_open = is_open;
  minus_one_closed = closed;
  socket_fresh = λ domain type protocol w. fresh w;
  socket_opens = λ domain type protocol w m. opens w m;
  accept_fresh = λ fd buffer n w. fresh w;
  accept_opens = λ fd buffer n w m. opens w m;
  close_closes = closes;
  bind_keeps = λ fd buffer n w m. refl;
  connect_keeps = λ fd buffer n w m. refl;
  listen_keeps = λ fd backlog w m. refl;
  getsockname_keeps = λ fd buffer n w m. refl;
  read_keeps = λ fd buffer n w m. refl;
  write_keeps = λ fd bytes n w m. refl;
}

abbrev limits : Limits Bool
limits = record {
  getrlimit = λ w. ((pos 0, 1), w);
  fcntl = λ fd w. (if is_open w fd then pos 0 else minus_one, w);
}

tells : (n : ℕ) (w : Bool) → ((limits.fcntl (pos n) w).0 ==ℤ minus_one) ≡ not (is_open w (pos n))
unfolding ◌==ℤ◌
tells n w = ground arith

in_range : (w : Bool) (m : ℤ) → is_open w m ≡ true → (n : ℕ) × (m ≡ pos n) × (n < 1)
in_range true m e = (0, (==ℤ_iff m (pos 0)).0 e, omega arith)
in_range false m e = absurd (cc e)

limited : IsLimited table limits
limited = record {
  limit = 1;
  counted = omega arith;
  rlimit = λ w. refl;
  rlimit_keeps = λ w m. refl;
  tells = tells;
  in_range = in_range;
  keeps = λ fd w m. refl;
}

destruction_lem_example :
    Returns
      (λ expected w'.
        (expected.released ≡ true)
        × (expected.good ≡ true → expected.in_use ≡ true)
        × ((m : ℤ) → is_open w' m ≡ is_open false m))
      (destruction linux single limits false)
destruction_lem_example =
    destruction_lem table limits limited linux linux-IsSound linux-RejectsText
      (λ domain type protocol w e. omega arith) false
