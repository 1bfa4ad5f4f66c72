-- ===== src/Tests/Memory.antt =====
-- `sdo` at concrete inputs.
use sydn.Common.{◌≡◌, refl, [], ◌∷◌, Option, some, replicate, arith, byte, unspecified, ◌≤◌, ◌<◌}
use sydn.Mem.Sdo
use sydn.Mem.Sdo.{Sdo}
use sydn.Mem.Sdo.Invariant.{IsValid}
use sydn.Mem.Sdo.Contents

-- An array of two characters, in the small buffer of eight.
abbrev two : Sdo
two = record {
  d_capacity = 8;
  d_size = 2;
  d_data = byte 7 ∷ byte 9 ∷ replicate 6 (byte 0);
  d_ptr = [];
}

-- An array of ten characters, in a block.
abbrev ten : Sdo
ten = record {
  d_capacity = 10;
  d_size = 10;
  d_data = replicate 8 unspecified;
  d_ptr = replicate 10 (byte 5);
}

two-IsValid : IsValid 8 two
two-IsValid = omega arith

ten-IsValid : IsValid 8 ten
ten-IsValid = omega arith

resize_lem_example :
    IsValid 8 (Sdo.resize 8 two 20)
    × ((Sdo.resize 8 two 20).d_size ≡ 20)
    × ((Sdo.resize 8 two 20).d_capacity ≡ 20)
    × (20 ≤ 8 → Sdo.data_of 8 (Sdo.resize 8 two 20) ≡ Sdo.data_of 8 two)
    × (8 < 20 → Contents.contents 8 (Sdo.resize 8 two 20) ≡ replicate 20 unspecified)
resize_lem_example = Contents.resize_lem 8 two 20 two-IsValid

copy_assign_example : Contents.contents 8 (Sdo.copy_assign 8 two ten) ≡ replicate 10 (byte 5)
unfolding Sdo.data_of
copy_assign_example = Contents.contents-copy_assign 8 two ten two-IsValid ten-IsValid

move_assign_example :
    (t : Sdo) × (u : Sdo) × (Sdo.move_assign 8 two ten ≡ some (t, u))
    × IsValid 8 t
    × IsValid 8 u
    × (Contents.contents 8 t ≡ Contents.contents 8 ten)
    × (8 < 10 → t.d_capacity ≡ 10)
    × (ten.d_capacity ≡ 8 → (t.d_capacity ≡ 8) × (u ≡ ten))
move_assign_example = Contents.move_assign_lem 8 two ten two-IsValid ten-IsValid

-- What was in the small buffer when the two swapped comes to the source's buffer, as far as the
-- pointer's bytes reach.
swapped : Option (Sdo × Sdo)
swapped = Sdo.move_assign 8 two ten

swapped_test :
    swapped
    ≡ some (record ten { d_data = replicate 8 unspecified }, record two { d_data = two.d_data })
unfolding swapped Sdo.move_assign Sdo.swap_members
swapped_test = refl
