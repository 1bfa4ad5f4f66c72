-- ===== src/Tests/Heaps.antt =====
-- Arrays on the free store at concrete inputs.
use sydn.Common.{ℕ, ◌≡◌, refl, none, some, [], ◌∷◌, replicate, arith, byte, List}
use sydn.Posix.Returns.{Returns}
use sydn.Mem.Sdo.{Sdo}
use sydn.Mem.Heap.{Heap}
use sydn.Mem.Object.{Object}
use sydn.Mem.Object.Pairs.{HoldsBoth}
use sydn.Mem.Object.Programs.{
  Op, resized, reserved, copied, moved, exchange, filled, self_copied, steps, steps_sdo, live,
}
use sydn.Mem.Object.Life.{live_lem, steps_refine}

abbrev no_blocks : Heap
no_blocks = record { next = 0; block = λ p. none }

-- The first array grows into a block, the other copies it and takes the block over.
abbrev program : List Op
program =
    resized 20
    ∷ filled (byte 1 ∷ byte 2 ∷ [])
    ∷ self_copied
    ∷ reserved 30
    ∷ exchange
    ∷ copied
    ∷ moved
    ∷ []

live_lem_example : Returns (λ _ h'. (p : ℕ) → h'.block p ≡ none) (live 8 3 9 program no_blocks)
live_lem_example = live_lem 8 3 9 program no_blocks λ p le. refl

-- An array without a block, of eight zero characters.
abbrev small_object : Object
small_object = record { d_capacity = 8; d_size = 8; d_data = replicate 8 (byte 0); d_ptr = 0 }

abbrev small_array : Sdo
small_array = record { d_capacity = 8; d_size = 8; d_data = replicate 8 (byte 0); d_ptr = [] }

small_arrays : HoldsBoth 8 no_blocks (λ p. none) small_object small_object small_array small_array
small_arrays = record {
  first = record {
    same = record { capacity = refl; size = refl; inline = refl };
    blocks = λ p. refl;
    apart = λ big. refl;
    fresh = λ p le. refl;
  };
  other = record { capacity = refl; size = refl; inline = refl };
  apart = λ big. refl;
  valid = omega arith;
  other_valid = omega arith;
}

steps_refine_example :
    Returns
      (λ r h'.
        (a : Sdo) × (b : Sdo) × (steps_sdo 8 program small_array small_array ≡ some (a, b))
        × HoldsBoth 8 h' (λ p. none) r.0 r.1 a b)
      (steps 8 program small_object small_object no_blocks)
steps_refine_example =
    steps_refine 8 program no_blocks (λ p. none) small_object small_object small_array small_array
      small_arrays
