-- ===== src/Net/AddressFamily.antt =====
-- `address_family` of src/syd/net/address.h, and its comparison with an `int`.
use sydn.Common.{ℕ, Bool, not, ◌==◌}
use sydn.Posix.Platform.{Platform}

pub data AddressFamily : Type 0 where
  unspecified_family : AddressFamily
  ipv4 : AddressFamily
  ipv6 : AddressFamily
  unix : AddressFamily

module _ (p : Platform) where
  abbrev pub to_int : AddressFamily → ℕ
  to_int unspecified_family = p.af_unspec
  to_int ipv4 = p.af_inet
  to_int ipv6 = p.af_inet6
  to_int unix = p.af_unix

  abbrev pub family_eq_int : AddressFamily → ℕ → Bool
  family_eq_int lhs rhs = to_int lhs == rhs

  abbrev pub int_eq_family : ℕ → AddressFamily → Bool
  int_eq_family lhs rhs = lhs == to_int rhs

  abbrev pub family_ne_int : AddressFamily → ℕ → Bool
  family_ne_int lhs rhs = not (to_int lhs == rhs)

  abbrev pub int_ne_family : ℕ → AddressFamily → Bool
  int_ne_family lhs rhs = not (lhs == to_int rhs)
