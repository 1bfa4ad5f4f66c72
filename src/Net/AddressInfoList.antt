-- ===== src/Net/AddressInfoList.antt =====
-- `syd::net::address_info_list` and its iterator, of src/syd/net/address_info_list.h. A pointer to an
-- `addrinfo` is the number of a node, or `none` for a null pointer. The nodes are made by
-- `getaddrinfo`: the field `ai_next` is a parameter. The sharing of the
-- nodes is not part of the model.
pub mod Visits
pub mod Info
use sydn.Common.{ℕ, Bool, true, false, not, Option, none, some, ◌==◌}
use mathlib.Core.Option

abbrev pub Pointer : Type 0
Pointer = Option ℕ

abbrev pub same : Pointer → Pointer → Bool
same none none = true
same none (some b) = false
same (some a) none = false
same (some a) (some b) = a == b

pub record AddressInfoList : Type 0 where
  pub d_list : Pointer

pub record ConstIterator : Type 0 where
  pub d_list : Pointer
  pub d_element : Pointer

pub record AddressInfo : Type 0 where
  pub d_list : Pointer
  pub d_element : Pointer

abbrev pub begin : AddressInfoList → ConstIterator
begin l = record { d_list = l.d_list; d_element = l.d_list }

abbrev pub end : AddressInfoList → ConstIterator
end l = record { d_list = l.d_list; d_element = none }

unfoldable pub equal : ConstIterator → ConstIterator → Bool
equal i other = same i.d_element other.d_element

unfoldable pub unequal : ConstIterator → ConstIterator → Bool
unequal i other = not (same i.d_element other.d_element)

unfoldable pub deref : ConstIterator → AddressInfo
deref i = record { d_list = i.d_list; d_element = i.d_element }

module _ (ai_next : ℕ → Pointer) where
  -- `operator++()`; `none` for a read through a null pointer.
  unfoldable pub advance : ConstIterator → Option ConstIterator
  advance i = elim i.d_element [ none ↦ none | some e ↦ some (record i { d_element = ai_next e }) ]

  -- `operator++(int)`: what it returns, and the iterator that it is called on.
  unfoldable pub post_advance : ConstIterator → Option (ConstIterator × ConstIterator)
  unfolding advance
  post_advance i = Option.map (λ iter. (iter, i)) (advance i)
