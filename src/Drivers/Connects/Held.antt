-- ===== src/Drivers/Connects/Held.antt =====
-- Descriptors that are open in addition to those of an earlier state, and how many they are.
use sydn.Common.{
  ℕ, zero, suc, ◌+◌, ◌≤◌, ◌<◌, ◌≡◌, refl, ap, sym, ◌∙◌, Bool, true, false, not, ◌&&◌, ◌||◌, ℤ, pos,
  minus_one, ◌==ℤ◌, ==ℤ_iff, Bool-cases, bit, inl, inr, arith,
}
use mathlib.Core.Path.{subst}
use sydn.Posix.Kernel.{Kernel}
use sydn.Posix.Laws.{Descriptors}
use sydn.Drivers.Usage.{Limits}
use sydn.Drivers.Usage.Counts.{IsLimited, how_many}

-- The sum over that many numbers from `i` on.
abbrev pub total : (ℤ → ℕ) → ℕ → ℕ → ℕ
total f zero i = 0
total f (suc left) i = f (pos i) + total f left (suc i)

pub total-ext :
    (f g : ℤ → ℕ) (left i : ℕ) → ((n : ℕ) → f (pos n) ≡ g (pos n)) → total f left i ≡ total g left i
total-ext f g zero i h = refl
total-ext f g (suc left) i h = omega (arith, h i, total-ext f g left (suc i) h)

pub total_add :
    (f g : ℤ → ℕ) (left i : ℕ) → total (λ m. f m + g m) left i ≡ total f left i + total g left i
total_add f g zero i = refl
total_add f g (suc left) i = omega (arith, total_add f g left (suc i))

pub total_none : (f : ℤ → ℕ) (left i : ℕ) → ((n : ℕ) → i ≤ n → f (pos n) ≡ 0) → total f left i ≡ 0
total_none f zero i h = refl
total_none f (suc left) i h =
    omega (arith, h i (omega arith), total_none f left (suc i) λ n le. h n (omega arith))

pub how_many-total :
    (test : ℤ → Bool) (left i : ℕ) → how_many test left i ≡ total (λ m. bit (test m)) left i
how_many-total test zero i = refl
how_many-total test (suc left) i = omega (arith, how_many-total test left (suc i))

-- A number that is in the range is counted once.
total_one : (n left i : ℕ) → i ≤ n → n < i + left → total (λ m. bit (m ==ℤ pos n)) left i ≡ 1
unfolding ◌==ℤ◌
total_one n zero i least below = absurd (omega arith)
total_one n (suc left) i least below = elim (Bool-cases (pos i ==ℤ pos n)) [
  | inl e ↦
      omega (
        arith,
        ap bit e,
        total_none (λ m. bit (m ==ℤ pos n)) left (suc i) λ j le. ground (arith, e),
      )
  | inr e ↦ omega (arith, ap bit e, total_one n left (suc i) (ground (arith, e)) (omega arith))
]

module _ {W : Type 0} {k : Kernel W} (d : Descriptors k) (l : Limits W)
    (limited : IsLimited d l) where
  -- How many descriptors are in use.
  abbrev pub used : W → ℕ
  used w = how_many (d.is_open w) limited.limit 0

  -- The open descriptors are those of a state and some more, which are counted as often as they occur.
  abbrev pub Adds : W → (ℤ → ℕ) → W → Type 0
  Adds w more w' = (m : ℤ) → bit (d.is_open w' m) ≡ bit (d.is_open w m) + more m

  pub used-Adds :
      (w w' : W) (more : ℤ → ℕ) → Adds w more w' → used w' ≡ used w + total more limited.limit 0
  used-Adds w w' more h =
      how_many-total (d.is_open w') limited.limit 0
      ∙ total-ext (λ m. bit (d.is_open w' m)) (λ m. bit (d.is_open w m) + more m) limited.limit 0
          (λ n. h (pos n))
      ∙ total_add (λ m. bit (d.is_open w m)) more limited.limit 0
      ∙ ap (λ n. n + total more limited.limit 0)
          (sym (how_many-total (d.is_open w) limited.limit 0))

  -- An open descriptor is one.
  pub total_open :
      (w : W) (fd : ℤ) → d.is_open w fd ≡ true → total (λ m. bit (m ==ℤ fd)) limited.limit 0 ≡ 1
  total_open w fd o =
      let (n, is_pos, below) = limited.in_range w fd o in
      subst (λ fd'. total (λ m. bit (m ==ℤ fd')) limited.limit 0 ≡ 1) (sym is_pos)
        (total_one n limited.limit 0 (omega arith) (omega arith))

  -- A descriptor that was opened is held, and one that is closed no longer.
  pub Adds-opened :
      (w w' w'' : W) (more : ℤ → ℕ) (fd : ℤ)
      → Adds w more w'
      → d.is_open w' fd ≡ false
      → ((m : ℤ) → d.is_open w'' m ≡ (d.is_open w' m || (m ==ℤ fd && not (m ==ℤ minus_one))))
      → (fd ==ℤ minus_one) ≡ false
      → Adds w (λ m. more m + bit (m ==ℤ fd)) w''
  Adds-opened w w' w'' more fd h fresh opens given m =
      ground (arith, h m, opens m, fresh, given, ==ℤ_iff m fd)

  pub Adds-closed :
      (w w' w'' : W) (more : ℤ → ℕ) (fd : ℤ)
      → Adds w (λ m. more m + bit (m ==ℤ fd)) w'
      → ((m : ℤ) → d.is_open w'' m ≡ (d.is_open w' m && not (m ==ℤ fd)))
      → Adds w more w''
  Adds-closed w w' w'' more fd h closes m = ground (arith, h m, closes m)
