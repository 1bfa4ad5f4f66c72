-- ===== src/Drivers/Addresses/Ipv4.antt =====
-- The tests of src/syd/net/ipv4_address.t.cpp.
use sydn.Common.{ℕ, Bool, not, List, [], ◌∷◌, ◌==◌}
use sydn.Posix.Platform.{Platform}
use sydn.Posix.Kernel.{M, pure, ◌>>=◌, defined}
use sydn.Net.Address.{Address}
use sydn.Net.AddressFamily
use sydn.Net.Ipv4Address
use sydn.Net.Print.{codes}
use sydn.Drivers.Addresses.{same_string, expect_family, printed}

module _ (p : Platform) {W : Type 0} where
  abbrev expect_address : Address → List ℕ → M W Bool
  expect_address address text = do
    found ← defined (Ipv4Address.address p address)
    pure (same_string found text)

  abbrev expect_port : Address → ℕ → M W Bool
  expect_port address n = do found ← defined (Ipv4Address.port p address); pure (found == n)

  -- What the tests of the constructors expect of an address.
  abbrev expect_all : Address → List ℕ → ℕ → M W (List Bool)
  expect_all address text n = do
    family ← expect_family p address AddressFamily.ipv4
    same ← expect_address address text
    port ← expect_port address n
    pure (family ∷ same ∷ port ∷ [])

  unfoldable pub default_constructor : M W (List Bool)
  default_constructor = do
    address ← defined (Ipv4Address.make_any p)
    expect_all address (codes "0.0.0.0") 0

  unfoldable pub constructor_valid : M W (List Bool)
  constructor_valid = do
    address ← defined (Ipv4Address.make p (codes "10.0.0.1") 12345)
    expect_all address (codes "10.0.0.1") 12345

  unfoldable pub constructor_invalid : M W (List Bool)
  constructor_invalid = do
    address ← defined (Ipv4Address.make p (codes "hello") 12345)
    expect_all address (codes "0.0.0.0") 12345

  unfoldable pub set_address_valid : M W (List Bool)
  set_address_valid = do
    address ← defined (Ipv4Address.make p (codes "10.0.0.1") 0)
    (result, address') ← defined (Ipv4Address.set_address p address (codes "10.0.1.1"))
    same ← expect_address address' (codes "10.0.1.1")
    pure (result ∷ same ∷ [])

  unfoldable pub set_address_invalid : M W (List Bool)
  set_address_invalid = do
    address ← defined (Ipv4Address.make p (codes "10.0.0.1") 0)
    (result, address') ← defined (Ipv4Address.set_address p address (codes "hello"))
    same ← expect_address address' (codes "10.0.0.1")
    pure (not result ∷ same ∷ [])

  unfoldable pub set_port : M W (List Bool)
  set_port = do
    address ← defined (Ipv4Address.make p (codes "10.0.0.1") 0)
    address' ← defined (Ipv4Address.set_port p address 12345)
    port ← expect_port address' 12345
    pure (port ∷ [])

  unfoldable pub print : M W (List Bool)
  print = do
    address ← defined (Ipv4Address.make p (codes "10.0.0.1") 12345)
    found ← printed p address (codes "10.0.0.1:12345")
    pure (found ∷ [])
