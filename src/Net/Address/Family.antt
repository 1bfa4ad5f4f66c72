-- ===== src/Net/Address/Family.antt =====
-- The family of an address, and the first steps of the constructors of `ipv4_address` and
-- `unix_address`: resize, then store the family.
use sydn.Common.{
  ℕ, ◌≤◌, ◌<◌, ◌^◌, ◌≡◌, ◌≢◌, refl, ap, ◌∙◌, max, some, arith, replicate, byte, unspecified, inr,
}
use sydn.Mem.Sdo
use sydn.Mem.Sdo.Invariant
use sydn.Mem.Sdo.Contents as Characters
use sydn.Posix.Platform.{Platform}
use sydn.Net.Bytes.{get16, set16, get16-set16, length-set16}
use sydn.Net.Address.{Address, c_sdo_size, size, capacity, empty, update, resize, family}
use sydn.Net.Address.Contents.{IsValid, memory, update_lem, empty-IsValid, resized, resize-IsSize}

pub family_lem : (p : Platform) (a : Address) → size a ≢ 0 → family p a ≡ get16 0 (memory a)
unfolding family
family_lem p a h = ground arith

memory-empty : memory empty ≡ replicate c_sdo_size (byte 0)
unfolding empty Sdo.make Sdo.initial Sdo.resize Sdo.data_of
memory-empty = refl

pub resized-empty-IsValid : (n : ℕ) → IsValid (resized empty n)
resized-empty-IsValid n = Invariant.resize-IsValid c_sdo_size empty.d_data n empty-IsValid.0

capacity-resized : (n : ℕ) → capacity (resized empty n) ≡ max c_sdo_size n
capacity-resized n =
    omega (arith, Invariant.capacity-resize c_sdo_size empty.d_data n, empty-IsValid.2)

pub memory_small :
    (n : ℕ) → n ≤ c_sdo_size → memory (resized empty n) ≡ replicate c_sdo_size (byte 0)
memory_small n h =
    Characters.data_of-resize_fits c_sdo_size empty.d_data n (omega (arith, empty-IsValid.2))
    ∙ memory-empty

pub memory_large : (n : ℕ) → c_sdo_size < n → memory (resized empty n) ≡ replicate n unspecified
memory_large n h =
    Characters.data_of-resize_grows c_sdo_size empty.d_data n empty-IsValid.0
      (omega (arith, empty-IsValid.2))

-- An address of `n` bytes of the family `f`, made from an empty one.
pub labelled :
    (p : Platform) (n f : ℕ)
    → 2 ≤ n
    → p.sizeof_sockaddr ≤ n
    → f < 2 ^ 16
    → (b : Address) × (resize p empty n ≡ some (resized empty n))
      × (update (resized empty n) (set16 0 f) ≡ some b)
      × IsValid b
      × (size b ≡ n)
      × (capacity b ≡ max c_sdo_size n)
      × (memory b ≡ set16 0 f (memory (resized empty n)))
      × (get16 0 (memory b) ≡ some f)
labelled p n f two least small =
    let first = resized empty n in
    let valid = resized-empty-IsValid n in
    let size_eq = Invariant.size-resize c_sdo_size empty.d_data n in
    let (b, e, v, s, c, m) =
      update_lem first (set16 0 f) valid (omega (arith, size_eq))
        (length-set16 0 f (memory first)) in
    (
      b,
      resize-IsSize p empty n (inr least),
      e,
      v,
      s ∙ size_eq,
      c ∙ capacity-resized n,
      m,
      ap (get16 0) m
          ∙ get16-set16 0 f (memory first)
              (omega
                (arith, Invariant.length-data_of c_sdo_size first.d_data valid, capacity-resized n))
              small,
    )
