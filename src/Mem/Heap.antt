-- ===== src/Mem/Heap.antt =====
-- The free store of a C++ program, as `new char[n]` and `delete[]` use it. It belongs to the language
-- and not to the repository. A run is `none` if it releases or reads a block that is not live.
use sydn.Common.{
  ℕ, suc, Option, none, some, List, replicate, ◌==◌, if◌then◌else◌, Cell, unspecified,
}
use mathlib.Core.Option
use sydn.Posix.Kernel.{M}

-- `next` is the number that the next block gets; `block` gives the content of a live block.
pub record Heap : Type 0 where
  pub next : ℕ
  pub block : ℕ → Option (List Cell)

abbrev pub update : (ℕ → Option (List Cell)) → ℕ → Option (List Cell) → ℕ → Option (List Cell)
update f p b q = if q == p then b else f q

-- The characters of a new block have no value.
abbrev pub allocate : ℕ → M Heap ℕ
allocate n h = some (
  h.next,
  record { next = suc h.next; block = update h.block h.next (some (replicate n unspecified)) },
)

abbrev pub release : ℕ → M Heap (Unit {0})
release p h = Option.map (λ _. (tt, record h { block = update h.block p none })) (h.block p)

abbrev pub load : ℕ → M Heap (List Cell)
load p h = Option.map (λ bytes. (bytes, h)) (h.block p)

abbrev pub store : ℕ → List Cell → M Heap (Unit {0})
store p bytes h =
    Option.map (λ _. (tt, record h { block = update h.block p (some bytes) })) (h.block p)
