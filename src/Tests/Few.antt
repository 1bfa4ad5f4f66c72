-- ===== src/Tests/Few.antt =====
-- A system with room for four descriptors, which hands out the first that is free.
use sydn.Common.{
  ℕ, zero, suc, ◌+◌, ◌≤◌, ◌<◌, [], ◌∷◌, ◌≡◌, refl, ap, ◌⊎◌, inl, inr, Bool, true, false, not, ◌&&◌,
  ◌||◌, if◌then◌else◌, ltb, arith, ℤ, pos, negsuc, minus_one, ◌==◌, ◌==ℤ◌, bit, Bool-cases,
}
use sydn.Posix.Kernel.{Kernel}
use sydn.Posix.Laws.{Descriptors}
use sydn.Drivers.Usage.{Limits}
use sydn.Drivers.Usage.Counts.{IsLimited, how_many}
use sydn.Tests.System.{fill}

abbrev pub room : ℕ
room = 4

-- The state tells which of the descriptors below the limit are open.
abbrev pub Table : Type 0
Table = ℕ → Bool

-- The first of that many descriptors from `i` on that is free.
abbrev pub free : Table → ℕ → ℕ → ℤ
free live zero i = minus_one
free live (suc left) i = if live i then free live left (suc i) else pos i

abbrev pub taken : Table → Table
taken live n = pos n ==ℤ free live room 0 || live n

abbrev pub is_open : Table → ℤ → Bool
is_open live (pos n) = ltb n room && live n
is_open live (negsuc n) = false

abbrev pub few : Kernel Table
few = record {
  errno = λ w. 24;
  socket = λ domain type protocol w. (free w room 0, taken w);
  close = λ fd w. (pos 0, λ n. w n && not (pos n ==ℤ fd));
  bind = λ fd buffer n w. (pos 0, w);
  connect = λ fd buffer n w. (pos 0, w);
  listen = λ fd backlog w. (pos 0, w);
  accept = λ fd buffer n w. (fill (2 ∷ 0 ∷ []) (free w room 0) buffer n, taken w);
  getsockname = λ fd buffer n w. (fill (2 ∷ 0 ∷ []) (pos 0) buffer n, w);
  read = λ fd buffer n w. (minus_one, buffer, w);
  write = λ fd bytes n w. (minus_one, w);
}

pub free_lem :
    (live : Table) (left i : ℕ)
    → ((free live left i ≡ minus_one) × ((n : ℕ) → i ≤ n → n < i + left → live n ≡ true))
      ⊎ ((n : ℕ) × (free live left i ≡ pos n) × (n < i + left) × (live n ≡ false))
free_lem live zero i = inl (refl, λ n least below. absurd (omega arith))
free_lem live (suc left) i = elim (Bool-cases (live i)) [
  | inr e ↦ inr (i, rw e refl, omega arith, e)
  | inl e ↦ elim (free_lem live left (suc i)) [
    | inl (none_left, all) ↦ inl (
      rw e none_left,
      λ n least below. elim (Bool-cases (n == i)) [
        | inl same ↦ ground (arith, same, e)
        | inr other ↦ all n (ground (arith, other)) (omega arith)
      ],
    )
    | inr (n, found, below, is_free) ↦ inr (n, rw e found, omega arith, is_free)
  ]
]

pub fresh : (w : Table) → is_open w (free w room 0) ≡ false
fresh w = elim (free_lem w room 0) [
  | inl (e, _) ↦ rw e refl
  | inr (n, e, _, is_free) ↦ rw e (ground (arith, is_free))
]

pub opens :
    (w : Table) (m : ℤ)
    → is_open (taken w) m ≡ (is_open w m || (m ==ℤ free w room 0 && not (m ==ℤ minus_one)))
unfolding ◌==ℤ◌
opens w (negsuc m) = elim (free_lem w room 0) [
  | inl (e, _) ↦ rw e (ground arith)
  | inr (n, e, _, _) ↦ rw e refl
]
opens w (pos m) = elim (free_lem w room 0) [
  | inl (e, _) ↦ rw e (ground arith)
  | inr (n, e, below, _) ↦ rw e (ground (arith, below))
]

pub closes :
    (fd : ℤ) (w : Table) (m : ℤ)
    → is_open (λ n. w n && not (pos n ==ℤ fd)) m ≡ (is_open w m && not (m ==ℤ fd))
closes fd w (pos m) = ground arith
closes fd w (negsuc m) = refl

abbrev pub table : Descriptors few
table = record {
  is_open = is_open;
  minus_one_closed = λ w. refl;
  socket_fresh = λ domain type protocol w. fresh w;
  socket_opens = λ domain type protocol w m. opens w m;
  accept_fresh = λ fd buffer n w. fresh w;
  accept_opens = λ fd buffer n w m. opens w m;
  close_closes = closes;
  bind_keeps = λ fd buffer n w m. refl;
  connect_keeps = λ fd buffer n w m. refl;
  listen_keeps = λ fd backlog w m. refl;
  getsockname_keeps = λ fd buffer n w m. refl;
  read_keeps = λ fd buffer n w m. refl;
  write_keeps = λ fd bytes n w m. refl;
}

abbrev pub limits : Limits Table
limits = record {
  getrlimit = λ w. ((pos 0, room), w);
  fcntl = λ fd w. (if is_open w fd then pos 0 else minus_one, w);
}

pub tells :
    (n : ℕ) (w : Table) → ((limits.fcntl (pos n) w).0 ==ℤ minus_one) ≡ not (is_open w (pos n))
unfolding ◌==ℤ◌
tells n w = ground arith

pub in_range : (w : Table) (m : ℤ) → is_open w m ≡ true → (n : ℕ) × (m ≡ pos n) × (n < room)
in_range w (pos n) e = (n, refl, ground (arith, e))
in_range w (negsuc n) e = absurd (cc e)

abbrev pub limited : IsLimited table limits
limited = record {
  limit = room;
  counted = omega arith;
  rlimit = λ w. refl;
  rlimit_keeps = λ w m. refl;
  tells = tells;
  in_range = in_range;
  keeps = λ fd w m. refl;
}

-- With fewer in use than there can be, one is free.
pub works : (w : Table) → how_many (is_open w) room 0 < room → (free w room 0 ==ℤ minus_one) ≡ false
unfolding ◌==ℤ◌
works w less = elim (free_lem w room 0) [
  | inl (e, all) ↦ absurd (
      omega (
        arith,
        ap bit (all 0 (omega arith) (omega arith)),
        ap bit (all 1 (omega arith) (omega arith)),
        ap bit (all 2 (omega arith) (omega arith)),
        ap bit (all 3 (omega arith) (omega arith)),
      ))
  | inr (n, e, _, _) ↦ rw e refl
]
