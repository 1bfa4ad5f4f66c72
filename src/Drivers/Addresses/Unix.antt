-- ===== src/Drivers/Addresses/Unix.antt =====
-- The tests of src/syd/net/unix_address.t.cpp.
use sydn.Common.{ℕ, Bool, not, List, [], ◌∷◌, ◌++◌, replicate}
use sydn.Posix.Platform.{Platform}
use sydn.Posix.Kernel.{M, pure, ◌>>=◌, defined}
use sydn.Net.Address.{Address}
use sydn.Net.AddressFamily
use sydn.Net.UnixAddress
use sydn.Net.Print.{codes}
use sydn.Drivers.Addresses.{same_string, expect_family, printed}

module _ (p : Platform) {W : Type 0} where
  abbrev expect_path : Address → List ℕ → M W Bool
  expect_path address text = do
    found ← defined (UnixAddress.path p address)
    pure (same_string found text)

  unfoldable pub construction : M W (List Bool)
  construction = do
    address ← defined (UnixAddress.make p (codes "/tmp/test"))
    family ← expect_family p address AddressFamily.unix
    same ← expect_path address (codes "/tmp/test")
    pure (family ∷ same ∷ [])

  unfoldable pub set_path_valid : M W (List Bool)
  set_path_valid = do
    address ← defined (UnixAddress.make p (codes "/tmp/test"))
    (result, address') ← defined (UnixAddress.set_path p address (codes "/usr/tmp/test"))
    same ← expect_path address' (codes "/usr/tmp/test")
    pure (result ∷ same ∷ [])

  unfoldable pub set_path_invalid : M W (List Bool)
  set_path_invalid = do
    address ← defined (UnixAddress.make p (codes "/tmp/test"))
    (result, address') ←
        defined (UnixAddress.set_path p address (codes "/" ++ replicate p.sizeof_sun_path 97))
    pure (not result ∷ [])

  unfoldable pub print : M W (List Bool)
  print = do
    address ← defined (UnixAddress.make p (codes "/tmp/test"))
    found ← printed p address (codes "unix:/tmp/test")
    pure (found ∷ [])
