-- ===== src/Mem/Object.antt =====
-- `syd::mem::sdo` of src/syd/mem/mem_sdo.h with its pointer: the same operations as in Mem/Sdo, but
-- on the free store, with the destructor. `d_ptr` is the number of the block that the member `d_ptr`
-- points to, and means nothing while the array has none.
pub mod Refines
pub mod Pairs
pub mod Writes
pub mod Programs
pub mod Life
use sydn.Common.{
  ℕ, none, List, take, replicate, splice, ltb, leb, ◌==◌, if◌then◌else◌, Cell, byte, unspecified,
}
use sydn.Posix.Kernel.{M, pure, ◌>>=◌, ◌>>◌}
use sydn.Mem.Sdo.{sizeof_pointer}
use sydn.Mem.Heap.{Heap, allocate, release, load, store}

pub record Object : Type 0 where
  pub d_capacity : ℕ
  pub d_size : ℕ
  pub d_data : List Cell
  pub d_ptr : ℕ

unfoldable pub swap_members : Object → Object → Object × Object
swap_members o other = (
  record {
    d_capacity = other.d_capacity;
    d_size = other.d_size;
    d_data = splice o.d_data (take sizeof_pointer other.d_data);
    d_ptr = other.d_ptr;
  },
  record {
    d_capacity = o.d_capacity;
    d_size = o.d_size;
    d_data = splice other.d_data (take sizeof_pointer o.d_data);
    d_ptr = o.d_ptr;
  },
)

module _ (small_size : ℕ) where
  abbrev pub initial : Object
  initial = record {
    d_capacity = small_size;
    d_size = 0;
    d_data = replicate small_size (byte 0);
    d_ptr = 0;
  }

  -- The destructor.
  unfoldable pub destroy : Object → M Heap (Unit {0})
  destroy o = if ltb small_size o.d_capacity then release o.d_ptr else pure tt

  unfoldable pub reserve : Object → ℕ → M Heap Object
  unfolding destroy
  reserve o capacity = if leb capacity o.d_capacity then pure o else (do
    destroy o
    ptr ← allocate capacity
    pure (record {
      d_capacity = capacity;
      d_size = o.d_size;
      d_data = splice o.d_data (replicate sizeof_pointer unspecified);
      d_ptr = ptr;
    }))

  unfoldable pub resize : Object → ℕ → M Heap Object
  resize o size =
      let t = record o { d_size = size } in
      if leb t.d_size t.d_capacity then pure t else reserve t size

  -- The characters that the pointer which `data()` returns points to.
  unfoldable pub data_of : Object → M Heap (List Cell)
  data_of o = if leb o.d_capacity small_size then pure o.d_data else load o.d_ptr

  -- A write through that pointer.
  unfoldable pub with_data : Object → List Cell → M Heap Object
  with_data o bytes =
      if leb o.d_capacity small_size
      then pure (record o { d_data = bytes })
      else (do store o.d_ptr bytes; pure o)

  unfoldable pub copy_assign : Object → Object → M Heap Object
  copy_assign o other = do
    t ← resize o other.d_size
    from ← data_of other
    to ← data_of t
    with_data t (splice to (take t.d_size from))

  unfoldable pub move_assign : Object → Object → M Heap (Object × Object)
  move_assign o other =
      if leb small_size other.d_capacity
      then (if other.d_capacity == small_size
          then (do t ← copy_assign o other; pure (t, other))
          else pure (swap_members o other))
      else λ h. none

  -- `sdo(size)`.
  unfoldable pub make : ℕ → M Heap Object
  make size = resize initial size
