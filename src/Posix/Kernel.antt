-- ===== src/Posix/Kernel.antt =====
-- The system calls that sydn makes, over the state `W` of the system, and the monad in which the
-- program's functions call them.
use sydn.Common.{ℕ, Option, none, some, List, ℤ, Cell, Bool, if◌then◌else◌}

-- What a call that fills an address buffer leaves: its result, the buffer and the length.
pub record Filled : Type 0 where
  pub result : ℤ
  pub buffer : Option (List Cell)
  pub length : ℕ

-- A buffer is the memory that the pointer points to, `none` for a null pointer.
pub record Kernel (W : Type 0) : Type 0 where
  pub errno : W → ℕ
  pub socket : ℕ → ℕ → ℕ → W → ℤ × W
  pub close : ℤ → W → ℤ × W
  pub bind : ℤ → Option (List Cell) → ℕ → W → ℤ × W
  pub connect : ℤ → Option (List Cell) → ℕ → W → ℤ × W
  pub listen : ℤ → ℕ → W → ℤ × W
  pub accept : ℤ → Option (List Cell) → ℕ → W → Filled × W
  pub getsockname : ℤ → Option (List Cell) → ℕ → W → Filled × W
  -- `read(fd, buffer, count)`: the result and the buffer's new content.
  pub read : ℤ → List Cell → ℕ → W → ℤ × List Cell × W
  pub write : ℤ → List Cell → ℕ → W → ℤ × W

-- `none` is a run that a failed assertion or an undefined operation stops.
abbrev pub M : Type 0 → Type 0 → Type 0
M W A = W → Option (A × W)

module _ {W : Type 0} where
  abbrev pub pure : {A : Type 0} → A → M W A
  pure a w = some (a, w)

  infixl 5 ◌>>=◌ ◌>>◌
  abbrev pub ◌>>=◌ : {A B : Type 0} → M W A → (A → M W B) → M W B
  ◌>>=◌ m f w = elim (m w) [ none ↦ none | some (a, w') ↦ f a w' ]

  abbrev pub ◌>>◌ : {A B : Type 0} → M W A → M W B → M W B
  m >> k = m >>= λ _. k

  -- A system call.
  abbrev pub call : {A : Type 0} → (W → A × W) → M W A
  call c w = some (c w)

  -- A value that may be undefined.
  abbrev pub defined : {A : Type 0} → Option A → M W A
  defined o w = elim o [ none ↦ none | some a ↦ some (a, w) ]

  -- `if (test) { action }` for an action on an object.
  abbrev pub when : {A : Type 0} → Bool → M W A → A → M W A
  when test action a = if test then action else pure a
