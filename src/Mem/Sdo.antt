-- ===== src/Mem/Sdo.antt =====
-- `syd::mem::sdo<_smallSize>` of src/syd/mem/mem_sdo.h: the state of the array and its operations.
-- An operation on `*this` returns the new array. `small_size` is the template's parameter
-- `_smallSize`. A block of the free store is owned by one array only, so it stands in the array:
-- `d_ptr` is the content of the block that the member `d_ptr` points to, and means nothing while
-- the array has none (`d_capacity` is `_smallSize`). `d_data` is the union's array of characters;
-- the bytes of the pointer lie over its first ones, so that to write `d_ptr` makes them unspecified.
pub mod Invariant
pub mod Contents
use sydn.Common.{
  ℕ, Bool, true, false, List, [], Option, none, some, length, take, replicate, splice, ltb, leb,
  ◌==◌, if◌then◌else◌, Cell, byte, unspecified,
}

pub record Sdo : Type 0 where
  pub d_capacity : ℕ
  pub d_size : ℕ
  pub d_data : List Cell
  pub d_ptr : List Cell

-- `sizeof(char *)`.
abbrev pub sizeof_pointer : ℕ
sizeof_pointer = 8

-- `d_ptr = new char[n]`: the new block has no values, and the pointer covers part of `d_data`.
unfoldable pub assign_ptr : Sdo → List Cell → Sdo
assign_ptr s block = record s {
  d_data = splice s.d_data (replicate sizeof_pointer unspecified);
  d_ptr = block;
}

-- `std::swap` of the three members. To swap `d_ptr` swaps the bytes of the union that hold it.
unfoldable pub swap_members : Sdo → Sdo → Sdo × Sdo
swap_members s other = (
  record {
    d_capacity = other.d_capacity;
    d_size = other.d_size;
    d_data = splice s.d_data (take sizeof_pointer other.d_data);
    d_ptr = other.d_ptr;
  },
  record {
    d_capacity = s.d_capacity;
    d_size = s.d_size;
    d_data = splice other.d_data (take sizeof_pointer s.d_data);
    d_ptr = s.d_ptr;
  },
)

module _ (small_size : ℕ) where
  -- The members as their initialisers leave them, before a constructor's body.
  unfoldable pub initial : Sdo
  initial = record {
    d_capacity = small_size;
    d_size = 0;
    d_data = replicate small_size (byte 0);
    d_ptr = [];
  }

  unfoldable pub data_of : Sdo → List Cell
  data_of s = if leb s.d_capacity small_size then s.d_data else s.d_ptr

  -- What a write through the pointer that `data()` returns leaves: `bytes` are all that it points to.
  unfoldable pub with_data : Sdo → List Cell → Sdo
  with_data s bytes =
      if leb s.d_capacity small_size
      then record s { d_data = bytes }
      else record s { d_ptr = bytes }

  -- The old block, if there is one, is deleted: nothing of it is kept.
  unfoldable pub reserve : Sdo → ℕ → Sdo
  unfolding assign_ptr
  reserve s capacity =
      if leb capacity s.d_capacity
      then s
      else assign_ptr (record s { d_capacity = capacity }) (replicate capacity unspecified)

  unfoldable pub resize : Sdo → ℕ → Sdo
  unfolding reserve
  resize s size =
      let t = record s { d_size = size } in if leb t.d_size t.d_capacity then t else reserve t size

  -- `operator=(sdo const &other)`, with `std::copy` of `d_size` characters.
  unfoldable pub copy_assign : Sdo → Sdo → Sdo
  copy_assign s other =
      let t = resize s other.d_size in
      with_data t (splice (data_of t) (take t.d_size (data_of other)))

  -- `operator=(sdo &&other)`: the new array and what is left of `other`; `none` if the assertion
  -- fails.
  unfoldable pub move_assign : Sdo → Sdo → Option (Sdo × Sdo)
  move_assign s other =
      if leb small_size other.d_capacity
      then (if other.d_capacity == small_size
          then some (copy_assign s other, other)
          else some (swap_members s other))
      else none

  -- The constructors.
  unfoldable pub make : ℕ → Sdo
  make size = resize initial size

  unfoldable pub copy : Sdo → Sdo
  copy other = copy_assign initial other

  unfoldable pub move : Sdo → Option (Sdo × Sdo)
  move other = move_assign initial other
