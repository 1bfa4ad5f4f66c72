-- ===== src/Drivers/Transfers/Rounds.antt =====
-- What a round of `readAll` and one of `writeAll` have in common.
use sydn.Common.{ℕ, ◌+◌, ◌%◌, ◌^◌, ◌<◌, ◌≡◌, inl, inr, arith, ◌==◌, Bool-cases, ==_refl, ℤ}
use sydn.Posix.Platform.{Platform}
use sydn.Posix.Kernel.{Kernel}
use sydn.Posix.Fair.{WouldBlock}
use sydn.Posix.Returns.{Returns}
use sydn.Drivers.Transfers.{size_difference, retry}

pub counted : (l a n : ℕ) → l ≡ a + n → a + n < 2 ^ 31 → l ≡ (a + n) % 2 ^ 64
counted l a n h small = omega arith

pub difference : (a b : ℕ) → a + b < 2 ^ 31 → size_difference (a + b) a ≡ b
difference a b h = omega arith

module _ (p : Platform) {W : Type 0} (k : Kernel W) where
  -- The retry after a call that would have blocked is made.
  pub retry-WouldBlock :
      {A : Type 0} (result : ℤ) (w : W) (P : A → W → Type 0) (again : W → _)
      → WouldBlock p k result w
      → Returns P (again w)
      → Returns P (retry p k again w)
  retry-WouldBlock result w P again (_, e) done = elim e [
    | inl e ↦ rw (e, ==_refl p.operation_would_block) done
    | inr e ↦ elim (Bool-cases (p.resource_unavailable_try_again == p.operation_would_block)) [
      | inl same ↦ rw (e, same) done
      | inr other ↦ rw (e, other, ==_refl p.resource_unavailable_try_again) done
    ]
  ]
