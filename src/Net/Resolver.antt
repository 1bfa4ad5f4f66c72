-- ===== src/Net/Resolver.antt =====
-- `syd::net::resolver` of src/syd/net/resolver.cpp. `lookup` is what its future computes: the
-- arguments are copied when it is made.
use sydn.Common.{ℕ, none, List, ℤ}
use sydn.Posix.Kernel.{M, pure, ◌>>=◌, call}
use sydn.Net.AddressInfoList.{Pointer, AddressInfoList}

-- The fields of `addrinfo` that are set for the search; the others are 0.
pub record Hints : Type 0 where
  pub ai_family : ℕ
  pub ai_socktype : ℕ
  pub ai_flags : ℕ

-- `getaddrinfo(node, service, hints, &list)`: the result, and what it leaves in `list`; and the flags
-- `AI_ADDRCONFIG | AI_V4MAPPED`.
pub record NameService (W : Type 0) : Type 0 where
  pub addrconfig_v4mapped : ℕ
  pub getaddrinfo : List ℕ → List ℕ → Hints → Pointer → W → (ℤ × Pointer) × W

module _ {W : Type 0} (n : NameService W) where
  -- An error of `getaddrinfo` is ignored.
  unfoldable pub lookup : ℕ → ℕ → List ℕ → List ℕ → M W AddressInfoList
  lookup family type node service = do
    (res, list) ← call (
        n.getaddrinfo node service
          (record { ai_family = family; ai_socktype = type; ai_flags = n.addrconfig_v4mapped })
          none)
    pure (record { d_list = list })
