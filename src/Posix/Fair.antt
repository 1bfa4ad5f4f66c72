-- ===== src/Posix/Fair.antt =====
-- The documented behaviour of `read` and `write` on a connection that may block and may transfer a
-- part of what was asked for.
use sydn.Common.{
  ℕ, ◌≤◌, ◌<◌, ◌≡◌, ◌⊎◌, Bool, true, List, ◌++◌, map, ℤ, pos, minus_one, Cell, byte, length, take,
  drop, splice,
}
use sydn.Posix.Platform.{Platform}
use sydn.Posix.Kernel.{Kernel}

module _ (p : Platform) {W : Type 0} (k : Kernel W) where
  -- The call that leaves `w` failed because it would have blocked.
  abbrev pub WouldBlock : ℤ → W → Type 0
  WouldBlock result w =
      (result ≡ minus_one)
      × ((k.errno w ≡ p.operation_would_block) ⊎ (k.errno w ≡ p.resource_unavailable_try_again))

  -- What the descriptor `fd` reads: the bytes that its peer sent and it has not read. While there are
  -- any, no `read` fails but those that would have blocked, at most `patience` more, and a call
  -- transfers at least one byte.
  pub record FairInput (fd : ℤ) : Type 0 where
    pub input : W → List ℕ
    pub patience : W → ℕ
    pub reads :
        (b : List Cell) (w : W)
        → 0 < length b
        → 0 < length (input w)
        → let (r, b', w') = k.read fd b (length b) w in
          (WouldBlock r w' × (b' ≡ b) × (input w' ≡ input w) × (patience w' < patience w))
          ⊎ ((n : ℕ) × (r ≡ pos n)
              × (0 < n)
              × (n ≤ length b)
              × (n ≤ length (input w))
              × (b' ≡ splice b (map byte (take n (input w))))
              × (input w' ≡ drop n (input w))
              × (patience w' ≤ patience w))

  -- What the descriptor `fd` has written, while the connection `stands`: no `write` fails but those that
  -- would have blocked, at most `patience` more, and a call transfers at least one byte.
  pub record FairOutput (fd : ℤ) : Type 0 where
    pub stands : W → Bool
    pub output : W → List Cell
    pub patience : W → ℕ
    pub writes :
        (b : List Cell) (w : W)
        → 0 < length b
        → stands w ≡ true
        → let (r, w') = k.write fd b (length b) w in
          (stands w' ≡ true)
          × ((WouldBlock r w' × (output w' ≡ output w) × (patience w' < patience w))
              ⊎ ((n : ℕ) × (r ≡ pos n)
                  × (0 < n)
                  × (n ≤ length b)
                  × (output w' ≡ output w ++ take n b)
                  × (patience w' ≤ patience w)))
