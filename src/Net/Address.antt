-- ===== src/Net/Address.antt =====
-- `syd::net::address` of src/syd/net/address.h and address.cpp.
pub mod Contents
pub mod Family
use sydn.Common.{ℕ, Bool, not, ◌||◌, Option, none, some, List, leb, ◌==◌, if◌then◌else◌, Cell}
use mathlib.Core.Option
use sydn.Mem.Sdo
use sydn.Mem.Sdo.{Sdo}
use sydn.Posix.Platform.{Platform}
use sydn.Net.Bytes.{get16}

pub record Address : Type 0 where
  pub d_data : Sdo

abbrev pub c_sdo_size : ℕ
c_sdo_size = 32

-- The default constructor.
unfoldable pub empty : Address
empty = record { d_data = Sdo.make c_sdo_size 0 }

abbrev pub size : Address → ℕ
size a = a.d_data.d_size

abbrev pub capacity : Address → ℕ
capacity a = a.d_data.d_capacity

unfoldable pub reserve : Address → ℕ → Address
reserve a n = record { d_data = Sdo.reserve c_sdo_size a.d_data n }

unfoldable pub clear : Address → Address
clear a = record { d_data = Sdo.resize c_sdo_size a.d_data 0 }

-- The memory behind the pointer that `native()` returns; `none` is the null pointer.
unfoldable pub native : Address → Option (List Cell)
native a = if not (size a == 0) then some (Sdo.data_of c_sdo_size a.d_data) else none

-- A write through that pointer; a null pointer is not written.
unfoldable pub with_native : Address → Option (List Cell) → Address
with_native a none = a
with_native a (some bytes) = record { d_data = Sdo.with_data c_sdo_size a.d_data bytes }

-- A change of what `native()` points to; `none`: it is the null pointer.
unfoldable pub update : Address → (List Cell → List Cell) → Option Address
unfolding native with_native
update a f = Option.map (λ bytes. with_native a (some (f bytes))) (native a)

-- The implicit copy assignment.
unfoldable pub assign : Address → Address → Address
assign a other = record { d_data = Sdo.copy_assign c_sdo_size a.d_data other.d_data }

-- The implicit move assignment: the new address and what is left of the other one.
unfoldable pub move_assign : Address → Address → Option (Address × Address)
move_assign a other =
    Option.map (λ r. (record { d_data = r.0 }, record { d_data = r.1 }))
      (Sdo.move_assign c_sdo_size a.d_data other.d_data)

module _ (p : Platform) where
  -- `none`: the assertion fails.
  unfoldable pub resize : Address → ℕ → Option Address
  resize a n =
      if n == 0 || leb p.sizeof_sockaddr n
      then some (record { d_data = Sdo.resize c_sdo_size a.d_data n })
      else none

  -- `none`: the bytes of `sa_family` have no value.
  unfoldable pub family : Address → Option ℕ
  family a =
      if not (size a == 0) then get16 0 (Sdo.data_of c_sdo_size a.d_data) else some p.af_unspec

  -- `operator==(nullptr)` and `operator!=(nullptr)`, as they are written.
  unfoldable pub eq_null : Address → Option Bool
  eq_null a = Option.map (λ f. not (f == p.af_unspec)) (family a)

  unfoldable pub ne_null : Address → Option Bool
  ne_null a = Option.map (λ f. not (f == p.af_unspec)) (family a)
