-- ===== src/Net/Address/Contents.antt =====
-- The bytes that an address holds, under its operations.
use sydn.Common.{
  ℕ, ◌≤◌, ◌≡◌, ◌≢◌, ap, ◌∙◌, ◌⊎◌, some, List, arith, length, take, splice, take-splice, ap₂, Cell,
}
use sydn.Mem.Sdo
use sydn.Mem.Sdo.Invariant
use sydn.Mem.Sdo.Contents as Characters
use sydn.Posix.Platform.{Platform}
use sydn.Net.Address.{
  Address, c_sdo_size, size, capacity, empty, native, with_native, update, resize, move_assign,
}

abbrev pub IsValid : Address → Type 0
IsValid a = Invariant.IsValid c_sdo_size a.d_data

-- The bytes `[native(), native() + size())`.
abbrev pub contents : Address → List Cell
contents a = Characters.contents c_sdo_size a.d_data

-- All the memory behind the address.
abbrev pub memory : Address → List Cell
memory a = Sdo.data_of c_sdo_size a.d_data

pub native_of_ne_zero : (a : Address) → size a ≢ 0 → native a ≡ some (memory a)
unfolding native
native_of_ne_zero a h = ground arith

pub empty-IsValid : IsValid empty × (size empty ≡ 0) × (capacity empty ≡ c_sdo_size)
unfolding empty Sdo.make Sdo.initial
empty-IsValid = (
  Invariant.resize-IsValid c_sdo_size (Sdo.initial c_sdo_size) 0
      (Invariant.initial-IsValid c_sdo_size),
  Invariant.size-resize c_sdo_size (Sdo.initial c_sdo_size) 0,
  Invariant.capacity-resize c_sdo_size (Sdo.initial c_sdo_size) 0,
)

-- The sizes that `resize` accepts.
abbrev pub IsSize : Platform → ℕ → Type 0
IsSize p n = (n ≡ 0) ⊎ (p.sizeof_sockaddr ≤ n)

abbrev pub resized : Address → ℕ → Address
resized a n = record { d_data = Sdo.resize c_sdo_size a.d_data n }

pub resize-IsSize :
    (p : Platform) (a : Address) (n : ℕ) → IsSize p n → resize p a n ≡ some (resized a n)
unfolding resize
resize-IsSize p a n h = ground arith

-- What a write of all the memory behind a non-null pointer changes.
pub written_lem :
    (a : Address) (bytes : List Cell)
    → IsValid a
    → length bytes ≡ capacity a
    → IsValid (with_native a (some bytes))
      × (size (with_native a (some bytes)) ≡ size a)
      × (capacity (with_native a (some bytes)) ≡ capacity a)
      × (memory (with_native a (some bytes)) ≡ bytes)
unfolding with_native
written_lem a bytes v h = (
  Invariant.with_data-IsValid c_sdo_size a.d_data bytes v h,
  Invariant.size-with_data c_sdo_size a.d_data bytes,
  Invariant.capacity-with_data c_sdo_size a.d_data bytes,
  Invariant.data_of-with_data c_sdo_size a.d_data bytes,
)

-- A move from a default constructed address leaves an address of size 0.
pub move_assign-empty :
    (a : Address)
    → IsValid a
    → (b : Address) × (r : Address) × (move_assign a empty ≡ some (b, r)) × IsValid b × (size b ≡ 0)
unfolding move_assign
move_assign-empty a v =
    let (t, u, e, tv, uv, c, _, _) =
      Characters.move_assign_lem c_sdo_size a.d_data empty.d_data v empty-IsValid.0 in
    (
      record { d_data = t },
      record { d_data = u },
      rw e,
      tv,
      omega (
        arith,
        Characters.length-contents c_sdo_size t tv,
        Characters.length-contents c_sdo_size empty.d_data empty-IsValid.0,
        ap length c,
        empty-IsValid.1,
      ),
    )

-- An address whose memory begins with some bytes, cut to their number, holds them.
pub resized-contents :
    (a : Address) (len : ℕ) (bytes before : List Cell)
    → memory a ≡ splice before bytes
    → length bytes ≡ len
    → len ≤ capacity a
    → len ≤ length before
    → contents (resized a len) ≡ bytes
resized-contents a len bytes before m h fits room =
    ap₂ take (Invariant.size-resize c_sdo_size a.d_data len)
      (Characters.data_of-resize_fits c_sdo_size a.d_data len fits ∙ m)
    ∙ take-splice len before bytes h room

-- A change that keeps the length of the memory, on an address that is not empty.
pub update_lem :
    (a : Address) (f : List Cell → List Cell)
    → IsValid a
    → size a ≢ 0
    → length (f (memory a)) ≡ length (memory a)
    → (b : Address) × (update a f ≡ some b)
      × IsValid b
      × (size b ≡ size a)
      × (capacity b ≡ capacity a)
      × (memory b ≡ f (memory a))
unfolding update
update_lem a f v given h =
    let (valid, s, c, m) =
      written_lem a (f (memory a)) v (h ∙ Invariant.length-data_of c_sdo_size a.d_data v) in
    (with_native a (some (f (memory a))), rw (native_of_ne_zero a given), valid, s, c, m)
