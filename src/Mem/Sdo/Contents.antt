-- ===== src/Mem/Sdo/Contents.antt =====
-- What the operations of `sdo` do to the characters that it holds.
use sydn.Common.{
  ℕ, ◌≤◌, ◌<◌, ◌≡◌, refl, ap, ap₂, ◌∙◌, max, some, List, arith, length, replicate, splice, take,
  Cell, unspecified, ◌==◌, ==_iff, Bool-cases, inl, inr, le→leb, take-splice, length-take,
  splice-take_self, take-replicate,
}
use sydn.Mem.Sdo.{Sdo, data_of, with_data, reserve, resize, copy_assign, swap_members, move_assign}
use sydn.Mem.Sdo.Invariant.{
  IsValid, length-data_of, reserve-IsValid, resize-IsValid, size-with_data, data_of-with_data,
  size-resize, capacity-resize, copy_assign-IsValid, swap_members-IsValid, capacity-copy_assign,
}

module _ (small_size : ℕ) where
  -- The abstract view: the characters that the array holds.
  abbrev pub contents : Sdo → List Cell
  contents s = take s.d_size (data_of small_size s)

  pub data_of-resize_fits :
      (s : Sdo) (n : ℕ)
      → n ≤ s.d_capacity
      → data_of small_size (resize small_size s n) ≡ data_of small_size s
  unfolding resize data_of
  data_of-resize_fits s n h = ground arith

  pub data_of-resize_grows :
      (s : Sdo) (n : ℕ)
      → IsValid small_size s
      → s.d_capacity < n
      → data_of small_size (resize small_size s n) ≡ replicate n unspecified
  unfolding resize data_of
  data_of-resize_grows s n v h = ground arith

  -- Within the capacity a resize changes the size alone; beyond it the array moves to a block of
  -- exactly that many characters, none of which has a value. The array stays valid.
  pub resize_lem :
      (s : Sdo) (n : ℕ)
      → IsValid small_size s
      → IsValid small_size (resize small_size s n)
        × ((resize small_size s n).d_size ≡ n)
        × ((resize small_size s n).d_capacity ≡ max s.d_capacity n)
        × (n ≤ s.d_capacity → data_of small_size (resize small_size s n) ≡ data_of small_size s)
        × (s.d_capacity < n → contents (resize small_size s n) ≡ replicate n unspecified)
  resize_lem s n v = (
    resize-IsValid small_size s n v,
    size-resize small_size s n,
    capacity-resize small_size s n,
    data_of-resize_fits s n,
    λ h.
        ap₂ take (size-resize small_size s n) (data_of-resize_grows s n v h)
        ∙ take-replicate n n unspecified (omega arith),
  )

  data_of-reserve_grows :
      (s : Sdo) (n : ℕ)
      → IsValid small_size s
      → s.d_capacity < n
      → data_of small_size (reserve small_size s n) ≡ replicate n unspecified
  unfolding reserve data_of
  data_of-reserve_grows s n v h = ground arith

  reserve_fits : (s : Sdo) (n : ℕ) → n ≤ s.d_capacity → reserve small_size s n ≡ s
  unfolding reserve
  reserve_fits s n h = ground arith

  size-reserve : (s : Sdo) (n : ℕ) → (reserve small_size s n).d_size ≡ s.d_size
  unfolding reserve
  size-reserve s n = ground arith

  capacity-reserve : (s : Sdo) (n : ℕ) → (reserve small_size s n).d_capacity ≡ max s.d_capacity n
  unfolding reserve
  capacity-reserve s n = ground arith

  -- A reserve keeps the size. Within the capacity it changes nothing; beyond it the array has the
  -- wanted capacity and none of its characters has a value any more. The array stays valid.
  pub reserve_lem :
      (s : Sdo) (n : ℕ)
      → IsValid small_size s
      → IsValid small_size (reserve small_size s n)
        × ((reserve small_size s n).d_size ≡ s.d_size)
        × ((reserve small_size s n).d_capacity ≡ max s.d_capacity n)
        × (n ≤ s.d_capacity → reserve small_size s n ≡ s)
        × (s.d_capacity < n → contents (reserve small_size s n) ≡ replicate s.d_size unspecified)
  reserve_lem s n v = (
    reserve-IsValid small_size s n v,
    size-reserve s n,
    capacity-reserve s n,
    reserve_fits s n,
    λ h.
        ap₂ take (size-reserve s n) (data_of-reserve_grows s n v h)
        ∙ take-replicate s.d_size n unspecified (omega (arith, v.fits)),
  )

  pub length-contents : (s : Sdo) → IsValid small_size s → length (contents s) ≡ s.d_size
  length-contents s v =
      omega (arith, length-take s.d_size (data_of small_size s), length-data_of small_size s v)

  contents-with_data :
      (s : Sdo) (bytes : List Cell) → contents (with_data small_size s bytes) ≡ take s.d_size bytes
  contents-with_data s bytes =
      ap₂ take (size-with_data small_size s bytes) (data_of-with_data small_size s bytes)

  -- A copy holds the characters of the original.
  pub contents-copy_assign :
      (s other : Sdo)
      → IsValid small_size s
      → IsValid small_size other
      → contents (copy_assign small_size s other) ≡ contents other
  unfolding copy_assign
  contents-copy_assign s other v w =
      let t = resize small_size s other.d_size in
      let size = size-resize small_size s other.d_size in
      let written = splice (data_of small_size t) (take t.d_size (data_of small_size other)) in
      contents-with_data t written
      ∙ ap (λ n. take n (splice (data_of small_size t) (take n (data_of small_size other)))) size
      ∙ take-splice other.d_size (data_of small_size t) (contents other) (length-contents other w) (
          omega (
            arith,
            length-data_of small_size t (resize-IsValid small_size s other.d_size v),
            capacity-resize small_size s other.d_size,
          ))

  resize_self : (s : Sdo) → IsValid small_size s → resize small_size s s.d_size ≡ s
  unfolding resize
  resize_self s v = ground arith

  with_data_self : (s : Sdo) → with_data small_size s (data_of small_size s) ≡ s
  unfolding with_data data_of
  with_data_self s = ground arith

  -- To assign an array to itself changes nothing.
  pub copy_assign_self : (s : Sdo) → IsValid small_size s → copy_assign small_size s s ≡ s
  unfolding copy_assign
  copy_assign_self s v =
      rw (resize_self s v, splice-take_self s.d_size (data_of small_size s)) (with_data_self s)

  contents-swap_members :
      (s other : Sdo)
      → IsValid small_size other
      → small_size < other.d_capacity
      → contents (swap_members s other).0 ≡ contents other
  unfolding swap_members data_of
  contents-swap_members s other w h = ground arith

  -- A move never fails its assertion. The target holds what the source held, and has its capacity
  -- if that was a block. From a source without a block nothing is allocated: the
  -- target keeps its capacity, and the source is as it was.
  pub move_assign_lem :
      (s other : Sdo)
      → IsValid small_size s
      → IsValid small_size other
      → (t : Sdo) × (u : Sdo) × (move_assign small_size s other ≡ some (t, u))
        × IsValid small_size t
        × IsValid small_size u
        × (contents t ≡ contents other)
        × (small_size < other.d_capacity → t.d_capacity ≡ other.d_capacity)
        × (other.d_capacity ≡ small_size → (t.d_capacity ≡ s.d_capacity) × (u ≡ other))
  unfolding move_assign swap_members
  move_assign_lem s other v w = elim (Bool-cases (other.d_capacity == small_size)) [
    | inl e ↦ (
      copy_assign small_size s other,
      other,
      rw (le→leb _ _ w.least, e),
      copy_assign-IsValid small_size s other v w,
      w,
      contents-copy_assign s other v w,
      λ h. absurd (omega (arith, (==_iff other.d_capacity small_size).0 e)),
      λ h. (omega (arith, capacity-copy_assign small_size s other, v.least, w.fits), refl),
    )
    | inr e ↦ (
      (swap_members s other).0,
      (swap_members s other).1,
      rw (le→leb _ _ w.least, e),
      (swap_members-IsValid small_size s other v w).0,
      (swap_members-IsValid small_size s other v w).1,
      contents-swap_members s other w (ground arith),
      λ h. refl,
      λ h. ground arith,
    )
  ]
