-- ===== src/Tests/Arrays.antt =====
-- The tests of the arrays find what they expect, on every heap.
use sydn.Common.{arith, ◌≡◌, refl, Bool, true, false, List, [], ◌∷◌}
use sydn.Mem.Heap.{Heap}
use sydn.Mem.Object.{make, resize, reserve, destroy}
use sydn.Posix.Kernel.{M}
use sydn.Posix.Returns.{Returns}
use sydn.Drivers.Sdo as ArrayTests

abbrev pub all : List Bool → Bool
all [] = true
all (true ∷ found) = all found
all (false ∷ found) = false

-- The test ends, and each of its expectations is met.
abbrev pub Passes : {W : Type 0} → M W (List Bool) → W → Type 0
Passes test w = Returns (λ found _. all found ≡ true) (test w)

default_construction-Passes : (h : Heap) → Passes ArrayTests.default_construction h
unfolding ArrayTests.default_construction make resize destroy
default_construction-Passes h = refl

construct_with_size-Passes : (h : Heap) → Passes ArrayTests.construct_with_size h
unfolding ArrayTests.construct_with_size make resize destroy
construct_with_size-Passes h = refl

resize_plus_one-Passes : (h : Heap) → Passes ArrayTests.resize_plus_one h
unfolding ArrayTests.resize_plus_one make resize reserve destroy
resize_plus_one-Passes h = ground arith

resize_minus_one-Passes : (h : Heap) → Passes ArrayTests.resize_minus_one h
unfolding ArrayTests.resize_minus_one make resize destroy
resize_minus_one-Passes h = refl

reserve_plus_one-Passes : (h : Heap) → Passes ArrayTests.reserve_plus_one h
unfolding ArrayTests.reserve_plus_one make resize reserve destroy
reserve_plus_one-Passes h = ground arith

reserve_minus_one-Passes : (h : Heap) → Passes ArrayTests.reserve_minus_one h
unfolding ArrayTests.reserve_minus_one make resize reserve destroy
reserve_minus_one-Passes h = refl

no_realloc-Passes : (h : Heap) → Passes ArrayTests.no_realloc_when_resize_smaller_than_min_size h
unfolding ArrayTests.no_realloc_when_resize_smaller_than_min_size make resize destroy
no_realloc-Passes h = refl
