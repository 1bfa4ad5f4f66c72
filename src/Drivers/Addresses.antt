-- ===== src/Drivers/Addresses.antt =====
-- The tests of src/syd/net/address.t.cpp, ipv4_address.t.cpp and unix_address.t.cpp: what each of them
-- expects. A run is `none` if an assertion fails or the C++ is undefined.
pub mod Ipv4
pub mod Unix
use sydn.Common.{
  ℕ, Bool, true, false, not, Option, none, some, List, [], ◌∷◌, length, leb, ◌==◌, ◌==ℤ◌, pos, ◌&&◌,
  if◌then◌else◌,
}
use sydn.Posix.Platform.{Platform}
use sydn.Posix.Kernel.{M, pure, ◌>>=◌, ◌>>◌, defined}
use sydn.Net.Bytes.{set16}
use sydn.Net.Address
use sydn.Net.Address.{Address}
use sydn.Net.AddressFamily.{AddressFamily, int_eq_family, int_ne_family}
use sydn.Net.Ipv4Address
use sydn.Net.Print.{codes, print}

-- Whether two texts are the same.
abbrev pub same_string : List ℕ → List ℕ → Bool
same_string [] [] = true
same_string (x ∷ xs) (y ∷ ys) = x == y && same_string xs ys
same_string [] (y ∷ ys) = false
same_string (x ∷ xs) [] = false

module _ (p : Platform) {W : Type 0} where
  -- `EXPECT_EQ(address.family(), family)`.
  abbrev pub expect_family : Address → AddressFamily → M W Bool
  expect_family address family = do
    found ← defined (Address.family p address)
    pure (int_eq_family p found family)

  -- What `address` prints.
  abbrev pub printed : Address → List ℕ → M W Bool
  printed address text = do found ← defined (print p [] address); pure (same_string found text)

  unfoldable pub default_construction : M W (List Bool)
  default_construction = do
    let address = Address.empty
    unspecified ← expect_family address AddressFamily.unspecified_family
    pure (
        (Address.size address == 0)
        ∷ unspecified
        ∷ elim (Address.native address) [ none ↦ true | some bytes ↦ false ]
        ∷ [])

  unfoldable pub resize : M W (List Bool)
  resize = do
    address ← defined (Address.resize p Address.empty 32)
    unspecified ← expect_family address AddressFamily.unspecified_family
    pure ((Address.size address == 32) ∷ unspecified ∷ [])

  unfoldable pub reserve : M W (List Bool)
  reserve = pure (leb 32 (Address.capacity (Address.reserve Address.empty 32)) ∷ [])

  -- The writes through a `sockaddr_in` pointer into an address of that size.
  abbrev pub natively : M W Address
  natively = do
    address ← defined (Address.resize p Address.empty p.sizeof_sockaddr_in)
    labelled ← defined (Address.update address (set16 0 p.af_inet))
    defined (Ipv4Address.set_port p labelled 12345)

  unfoldable pub clear : M W (List Bool)
  clear = do
    address ← natively
    family ← defined (Address.family p address)
    cleared ← expect_family (Address.clear address) AddressFamily.unspecified_family
    pure (int_ne_family p family AddressFamily.unspecified_family ∷ cleared ∷ [])

  unfoldable pub set_address_natively : M W (List Bool)
  set_address_natively = do
    address ← natively
    (result, address') ← defined (Ipv4Address.set_address p address (codes "127.0.0.1"))
    family ← expect_family address' AddressFamily.ipv4
    pure (result ∷ (Address.size address' == p.sizeof_sockaddr_in) ∷ family ∷ [])

  unfoldable pub print_unspecified : M W (List Bool)
  print_unspecified = do
    address ← defined (Address.resize p Address.empty 32)
    found ← printed address (codes "Unspecified address")
    pure (found ∷ [])

  unfoldable pub print_unknown : M W (List Bool)
  print_unknown = do
    address ← defined (Address.resize p Address.empty 32)
    labelled ← defined (Address.update address (set16 0 192))
    found ← printed labelled (codes "Unknown address family: 192")
    pure (found ∷ [])
