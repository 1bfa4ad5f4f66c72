-- ===== src/Drivers/Sdo.antt =====
-- The tests of src/syd/mem/mem_sdo.t.cpp, on the free store: what each of them expects.
use sydn.Common.{
  ℕ, Bool, true, false, Option, none, some, List, [], ◌∷◌, ltb, leb, ◌==◌, if◌then◌else◌,
}
use sydn.Posix.Kernel.{M, pure, ◌>>=◌, ◌>>◌}
use sydn.Mem.Heap.{Heap}
use sydn.Mem.Object.{Object, make, resize, reserve, destroy}

abbrev s : ℕ
s = 16

-- The pointer that `data()` returns: to the object itself, or to a block.
abbrev data_pointer : Object → Option ℕ
data_pointer o = if leb o.d_capacity s then none else some o.d_ptr

abbrev same_pointer : Option ℕ → Option ℕ → Bool
same_pointer none none = true
same_pointer (some a) (some b) = a == b
same_pointer none (some b) = false
same_pointer (some a) none = false

-- A test of an array of that size: what it does with it, and what it then expects. At its end the array
-- is destroyed.
abbrev on_array : ℕ → (Object → M Heap Object) → (Object → Object → List Bool) → M Heap (List Bool)
on_array size action expects = do
  before ← make s size
  obj ← action before
  destroy s obj
  pure (expects before obj)

unfoldable pub default_construction : M Heap (List Bool)
default_construction = on_array 0 pure λ _ obj. (s == obj.d_capacity) ∷ (0 == obj.d_size) ∷ []

unfoldable pub construct_with_size : M Heap (List Bool)
construct_with_size = on_array s pure λ _ obj. (s == obj.d_capacity) ∷ (s == obj.d_size) ∷ []

unfoldable pub resize_plus_one : M Heap (List Bool)
resize_plus_one =
    on_array s (λ obj. resize s obj 17) λ _ obj. ltb s obj.d_capacity ∷ (17 == obj.d_size) ∷ []

unfoldable pub resize_minus_one : M Heap (List Bool)
resize_minus_one =
    on_array s (λ obj. resize s obj 15) λ _ obj. (s == obj.d_capacity) ∷ (15 == obj.d_size) ∷ []

unfoldable pub reserve_plus_one : M Heap (List Bool)
reserve_plus_one =
    on_array s (λ obj. reserve s obj 17) λ _ obj. leb 17 obj.d_capacity ∷ (s == obj.d_size) ∷ []

unfoldable pub reserve_minus_one : M Heap (List Bool)
reserve_minus_one =
    on_array s (λ obj. reserve s obj 15) λ _ obj. leb 15 obj.d_capacity ∷ (s == obj.d_size) ∷ []

unfoldable pub no_realloc_when_resize_smaller_than_min_size : M Heap (List Bool)
no_realloc_when_resize_smaller_than_min_size =
    on_array s (λ obj. resize s obj 15)
      λ before obj. same_pointer (data_pointer before) (data_pointer obj) ∷ []
