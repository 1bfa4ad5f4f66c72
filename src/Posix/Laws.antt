-- ===== src/Posix/Laws.antt =====
-- The documented behaviour of the system calls on which theorems rest. Each record holds what one
-- group of theorems needs, with the part of the system's state that it speaks of.
use sydn.Common.{
  ℕ, [], drop, ◌++◌, ◌≤◌, ◌<◌, ◌^◌, ◌≡◌, ◌≢◌, ◌⊎◌, Bool, true, false, not, ◌&&◌, ◌||◌, Option, some,
  List, map, ℤ, pos, minus_one, ◌==ℤ◌, Cell, byte, length, take, splice,
}
use sydn.Posix.Kernel.{Kernel}

-- The table of open descriptors. -1 is no descriptor; `socket` and `accept` return -1 or a
-- descriptor that was free, and open that one; `close` frees its argument; nothing else changes it.
pub record Descriptors {W : Type 0} (k : Kernel W) : Type 0 where
  pub is_open : W → ℤ → Bool
  pub minus_one_closed : (w : W) → is_open w minus_one ≡ false
  pub socket_fresh : (d t n : ℕ) (w : W) → is_open w (k.socket d t n w).0 ≡ false
  pub socket_opens :
      (d t n : ℕ) (w : W) (m : ℤ)
      → is_open (k.socket d t n w).1 m
        ≡ (is_open w m || (m ==ℤ (k.socket d t n w).0 && not (m ==ℤ minus_one)))
  pub accept_fresh :
      (fd : ℤ) (b : Option (List Cell)) (n : ℕ) (w : W)
      → is_open w (k.accept fd b n w).0.result ≡ false
  pub accept_opens :
      (fd : ℤ) (b : Option (List Cell)) (n : ℕ) (w : W) (m : ℤ)
      → is_open (k.accept fd b n w).1 m
        ≡ (is_open w m || (m ==ℤ (k.accept fd b n w).0.result && not (m ==ℤ minus_one)))
  pub close_closes :
      (fd : ℤ) (w : W) (m : ℤ) → is_open (k.close fd w).1 m ≡ (is_open w m && not (m ==ℤ fd))
  pub bind_keeps :
      (fd : ℤ) (b : Option (List Cell)) (n : ℕ) (w : W) (m : ℤ)
      → is_open (k.bind fd b n w).1 m ≡ is_open w m
  pub connect_keeps :
      (fd : ℤ) (b : Option (List Cell)) (n : ℕ) (w : W) (m : ℤ)
      → is_open (k.connect fd b n w).1 m ≡ is_open w m
  pub listen_keeps : (fd : ℤ) (n : ℕ) (w : W) (m : ℤ) → is_open (k.listen fd n w).1 m ≡ is_open w m
  pub getsockname_keeps :
      (fd : ℤ) (b : Option (List Cell)) (n : ℕ) (w : W) (m : ℤ)
      → is_open (k.getsockname fd b n w).1 m ≡ is_open w m
  pub read_keeps :
      (fd : ℤ) (b : List Cell) (n : ℕ) (w : W) (m : ℤ) → is_open (k.read fd b n w).2 m ≡ is_open w m
  pub write_keeps :
      (fd : ℤ) (b : List Cell) (n : ℕ) (w : W) (m : ℤ)
      → is_open (k.write fd b n w).1 m ≡ is_open w m

-- `getsockname` on the descriptor `fd`: a call that does not fail copies as much of the name as the
-- length allows and reports the name's full length. No call writes outside the buffer or changes
-- the name.
pub record SocketName {W : Type 0} (k : Kernel W) (fd : ℤ) : Type 0 where
  pub name : W → List ℕ
  pub socklen : (w : W) → length (name w) < 2 ^ 32
  pub in_room :
      (b : List Cell) (n : ℕ) (w : W)
      → (b' : List Cell) × ((k.getsockname fd (some b) n w).0.buffer ≡ some b')
        × (length b' ≡ length b)
  pub keeps : (b : Option (List Cell)) (n : ℕ) (w : W) → name (k.getsockname fd b n w).1 ≡ name w
  pub reports :
      (b : Option (List Cell)) (n : ℕ) (w : W)
      → ((k.getsockname fd b n w).0.result ==ℤ minus_one) ≡ false
      → (k.getsockname fd b n w).0.length ≡ length (name w)
  pub copies :
      (b : List Cell) (n : ℕ) (w : W)
      → ((k.getsockname fd (some b) n w).0.result ==ℤ minus_one) ≡ false
      → (k.getsockname fd (some b) n w).0.buffer ≡ some (splice b (map byte (take n (name w))))

-- `read` and `write` on the descriptor `fd`, with a whole buffer of less than 2^31 bytes: a call
-- returns -1 and sets `errno`, or the number of bytes, at most as many as there is room for. `read`
-- does not write outside the buffer.
pub record Transfers {W : Type 0} (k : Kernel W) (fd : ℤ) : Type 0 where
  pub read_count :
      (b : List Cell) (w : W)
      → ((k.read fd b (length b) w).0 ≡ minus_one)
        ⊎ ((m : ℕ) × ((k.read fd b (length b) w).0 ≡ pos m) × (m ≤ length b))
  pub read_errno :
      (b : List Cell) (w : W)
      → (k.read fd b (length b) w).0 ≡ minus_one
      → k.errno (k.read fd b (length b) w).2 ≢ 0
  pub read_room : (b : List Cell) (w : W) → length (k.read fd b (length b) w).1 ≡ length b
  pub write_count :
      (b : List Cell) (w : W)
      → ((k.write fd b (length b) w).0 ≡ minus_one)
        ⊎ ((m : ℕ) × ((k.write fd b (length b) w).0 ≡ pos m) × (m ≤ length b))
  pub write_errno :
      (b : List Cell) (w : W)
      → (k.write fd b (length b) w).0 ≡ minus_one
      → k.errno (k.write fd b (length b) w).1 ≢ 0

-- A failed `accept` on the descriptor `fd` sets `errno`.
pub record AcceptErrors {W : Type 0} (k : Kernel W) (fd : ℤ) : Type 0 where
  pub accept_errno :
      (b : Option (List Cell)) (n : ℕ) (w : W)
      → ((k.accept fd b n w).0.result ==ℤ minus_one) ≡ true
      → k.errno (k.accept fd b n w).1 ≢ 0

-- A call of `accept` on the descriptor `fd` with a buffer, that does not fail, copies as much of the
-- peer's address as the length allows and reports its full length.
pub record PeerName {W : Type 0} (k : Kernel W) (fd : ℤ) : Type 0 where
  pub peer : W → List ℕ
  pub peer_reports :
      (b : List Cell) (n : ℕ) (w : W)
      → ((k.accept fd (some b) n w).0.result ==ℤ minus_one) ≡ false
      → (k.accept fd (some b) n w).0.length ≡ length (peer w)
  pub peer_copies :
      (b : List Cell) (n : ℕ) (w : W)
      → ((k.accept fd (some b) n w).0.result ==ℤ minus_one) ≡ false
      → (k.accept fd (some b) n w).0.buffer ≡ some (splice b (map byte (take n (peer w))))

-- A connection on the descriptor `fd` that does not fail, and whose writes take all the data. `read`
-- returns the next bytes of the input, as many as the system chooses and none only at its end.
pub record Stream {W : Type 0} (k : Kernel W) (fd : ℤ) : Type 0 where
  pub input : W → List ℕ
  pub output : W → List Cell
  pub chunk : List Cell → W → ℕ
  pub chunk_room : (b : List Cell) (w : W) → chunk b w ≤ length b
  pub chunk_input : (b : List Cell) (w : W) → chunk b w ≤ length (input w)
  pub chunk_end : (b : List Cell) (w : W) → 0 < length b → chunk b w ≡ 0 → input w ≡ []
  pub reads : (b : List Cell) (w : W) → (k.read fd b (length b) w).0 ≡ pos (chunk b w)
  pub read_buffer :
      (b : List Cell) (w : W)
      → (k.read fd b (length b) w).1 ≡ splice b (map byte (take (chunk b w) (input w)))
  pub read_input :
      (b : List Cell) (w : W) → input (k.read fd b (length b) w).2 ≡ drop (chunk b w) (input w)
  pub read_output : (b : List Cell) (w : W) → output (k.read fd b (length b) w).2 ≡ output w
  pub writes : (b : List Cell) (w : W) → (k.write fd b (length b) w).0 ≡ pos (length b)
  pub write_output : (b : List Cell) (w : W) → output (k.write fd b (length b) w).1 ≡ output w ++ b
  pub write_input : (b : List Cell) (w : W) → input (k.write fd b (length b) w).1 ≡ input w
