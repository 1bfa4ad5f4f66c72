-- ===== src/Mem/Sdo/Invariant.antt =====
-- The representation invariant of `sdo`, kept by every constructor and operation.
use sydn.Common.{
  ℕ, ◌≤◌, ◌<◌, ◌≡◌, ◌∙◌, max, List, arith, length, replicate, take, Cell, byte, unspecified,
  length-replicate, length-splice,
}
use sydn.Mem.Sdo.{
  Sdo, sizeof_pointer, initial, data_of, with_data, reserve, resize, copy_assign, swap_members,
}

module _ (small_size : ℕ) where
  -- The capacity is at least the small size, the size fits it, and the storage that the capacity
  -- selects has exactly as many characters as the capacity says.
  pub record IsValid (s : Sdo) : Type 0 where
    pub least : small_size ≤ s.d_capacity
    pub fits : s.d_size ≤ s.d_capacity
    pub inline : length s.d_data ≡ small_size
    pub block : small_size < s.d_capacity → length s.d_ptr ≡ s.d_capacity

  pub length-data_of : (s : Sdo) → IsValid s → length (data_of small_size s) ≡ s.d_capacity
  unfolding data_of
  length-data_of s v = ground arith

  pub initial-IsValid : IsValid (initial small_size)
  unfolding initial
  initial-IsValid = ground (arith, length-replicate small_size (byte 0))

  pub with_data-IsValid :
      (s : Sdo) (bytes : List Cell)
      → IsValid s
      → length bytes ≡ s.d_capacity
      → IsValid (with_data small_size s bytes)
  unfolding with_data
  with_data-IsValid s bytes v h = ground arith

  pub reserve-IsValid : (s : Sdo) (n : ℕ) → IsValid s → IsValid (reserve small_size s n)
  unfolding reserve
  reserve-IsValid s n v = ground (
    arith,
    length-replicate n unspecified,
    length-splice s.d_data (replicate sizeof_pointer unspecified),
  )

  pub resize-IsValid : (s : Sdo) (n : ℕ) → IsValid s → IsValid (resize small_size s n)
  unfolding resize
  resize-IsValid s n v = ground (
    arith,
    length-replicate n unspecified,
    length-splice s.d_data (replicate sizeof_pointer unspecified),
  )

  pub capacity-with_data :
      (s : Sdo) (bytes : List Cell) → (with_data small_size s bytes).d_capacity ≡ s.d_capacity
  unfolding with_data
  capacity-with_data s bytes = ground arith

  pub size-with_data :
      (s : Sdo) (bytes : List Cell) → (with_data small_size s bytes).d_size ≡ s.d_size
  unfolding with_data
  size-with_data s bytes = ground arith

  pub data_of-with_data :
      (s : Sdo) (bytes : List Cell) → data_of small_size (with_data small_size s bytes) ≡ bytes
  unfolding with_data data_of
  data_of-with_data s bytes = ground arith

  pub size-resize : (s : Sdo) (n : ℕ) → (resize small_size s n).d_size ≡ n
  unfolding resize
  size-resize s n = ground arith

  pub capacity-resize : (s : Sdo) (n : ℕ) → (resize small_size s n).d_capacity ≡ max s.d_capacity n
  unfolding resize
  capacity-resize s n = ground arith

  pub copy_assign-IsValid :
      (s other : Sdo) → IsValid s → IsValid other → IsValid (copy_assign small_size s other)
  unfolding copy_assign
  copy_assign-IsValid s other v w =
      let t = resize small_size s other.d_size in
      let tv = resize-IsValid s other.d_size v in
      with_data-IsValid t _ tv (
        omega (
          arith,
          length-data_of t tv,
          length-splice (data_of small_size t) (take t.d_size (data_of small_size other)),
        ))

  pub capacity-copy_assign :
      (s other : Sdo) → (copy_assign small_size s other).d_capacity ≡ max s.d_capacity other.d_size
  unfolding copy_assign
  capacity-copy_assign s other =
      capacity-with_data (resize small_size s other.d_size) _ ∙ capacity-resize s other.d_size

  pub swap_members-IsValid :
      (s other : Sdo)
      → IsValid s
      → IsValid other
      → IsValid (swap_members s other).0 × IsValid (swap_members s other).1
  unfolding swap_members
  swap_members-IsValid s other v w = ground (
    arith,
    length-splice s.d_data (take sizeof_pointer other.d_data),
    length-splice other.d_data (take sizeof_pointer s.d_data),
  )
