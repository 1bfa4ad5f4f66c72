-- ===== src/Tests/Units.antt =====
-- The tests of the addresses find what they expect, on a system that knows three addresses.
use sydn.Common.{
  Option, none, some, ℕ, refl, List, [], ◌∷◌, ◌++◌, ◌==ℤ◌, if◌then◌else◌, Cell, byte, splice, pos,
  ℤ,
}
use sydn.Mem.Sdo
use sydn.Posix.Platform.{Platform}
use sydn.Net.Bytes.{get16, set16, load16, bytes16}
use sydn.Net.Address
use sydn.Net.Ipv4Address
use sydn.Net.Ipv4Address.{numeric_host, strnlen}
use sydn.Net.UnixAddress
use sydn.Net.UnixAddress.{c_string, strncpy}
use sydn.Net.Print
use sydn.Net.Print.{codes, decimal, digits}
use sydn.Drivers.Addresses
use sydn.Drivers.Addresses.{same_string}
use sydn.Drivers.Addresses.Ipv4 as Ipv4Tests
use sydn.Drivers.Addresses.Unix as UnixTests
use sydn.Tests.System.{linux}
use sydn.Tests.Texts.{dotted}
use sydn.Tests.Arrays.{Passes}

-- The bytes of the address that a text stands for.
abbrev known : List ℕ → ℤ × List Cell
known text =
    if same_string text (codes "10.0.0.1")
    then (pos 1, byte 10 ∷ byte 0 ∷ byte 0 ∷ byte 1 ∷ [])
    else if same_string text (codes "10.0.1.1")
    then (pos 1, byte 10 ∷ byte 0 ∷ byte 1 ∷ byte 1 ∷ [])
    else if same_string text (codes "127.0.0.1")
    then (pos 1, byte 127 ∷ byte 0 ∷ byte 0 ∷ byte 1 ∷ [])
    else (pos 0, [])

abbrev knowing : Platform
knowing = record linux {
  inet_pton = λ family text dst. ((known text).0, splice dst (known text).1);
  inet_ntop = λ family src n dst. splice dst (dotted src ++ 0 ∷ []);
}

address-Passes : Passes (Addresses.default_construction knowing) tt
unfolding Addresses.default_construction Address.family Address.native Address.empty Sdo.make
    Sdo.initial Sdo.resize
address-Passes = refl

address_resize-Passes : Passes (Addresses.resize knowing) tt
unfolding Addresses.resize Address.family Address.native Address.empty Address.resize Sdo.make
    Sdo.initial Sdo.resize Sdo.data_of get16 load16
address_resize-Passes = refl

address_clear-Passes : Passes (Addresses.clear knowing) tt
unfolding Addresses.clear Address.clear Address.family Address.native Address.with_native
    Address.update Address.empty Address.resize Sdo.make Sdo.initial Sdo.resize Sdo.data_of
    Sdo.with_data get16 set16 load16 bytes16 Ipv4Address.set_port
address_clear-Passes = refl

set_address_natively-Passes : Passes (Addresses.set_address_natively knowing) tt
unfolding Addresses.set_address_natively Address.family Address.native Address.with_native
    Address.update Address.empty Address.resize Sdo.make Sdo.initial Sdo.resize Sdo.data_of
    Sdo.with_data get16 set16 load16 bytes16 Ipv4Address.set_port Ipv4Address.set_address
    Ipv4Address.pton ◌==ℤ◌
set_address_natively-Passes = refl

print_unknown-Passes : Passes (Addresses.print_unknown knowing) tt
unfolding Addresses.print_unknown Address.family Address.native Address.with_native Address.update
    Address.empty Address.resize Sdo.make Sdo.initial Sdo.resize Sdo.data_of Sdo.with_data get16
    set16 load16 bytes16 Print.print Print.print_unknown digits
print_unknown-Passes = refl

print_unspecified-Passes : Passes (Addresses.print_unspecified knowing) tt
unfolding Addresses.print_unspecified Address.family Address.native Address.empty Address.resize
    Sdo.make Sdo.initial Sdo.resize Sdo.data_of get16 load16 Print.print Print.print_unspec
print_unspecified-Passes = refl

address_reserve-Passes : Passes (Addresses.reserve knowing) tt
unfolding Addresses.reserve Address.reserve Address.empty Sdo.make Sdo.initial Sdo.resize
    Sdo.reserve
address_reserve-Passes = refl

constructor_valid-Passes : Passes (Ipv4Tests.constructor_valid knowing) tt
unfolding Ipv4Tests.constructor_valid Address.family Address.native Address.with_native
    Address.update Address.empty Address.resize Sdo.make Sdo.initial Sdo.resize Sdo.data_of
    Sdo.with_data get16 set16 load16 bytes16 Ipv4Address.make Ipv4Address.set_port
    Ipv4Address.set_address Ipv4Address.pton Ipv4Address.address Ipv4Address.port numeric_host
    strnlen digits ◌==ℤ◌
constructor_valid-Passes = refl

default_constructor-Passes : Passes (Ipv4Tests.default_constructor knowing) tt
unfolding Ipv4Tests.default_constructor Address.family Address.native Address.with_native
    Address.update Address.empty Address.resize Sdo.make Sdo.initial Sdo.resize Sdo.data_of
    Sdo.with_data get16 set16 load16 bytes16 Ipv4Address.make_any Ipv4Address.address
    Ipv4Address.port numeric_host strnlen digits ◌==ℤ◌
default_constructor-Passes = refl

constructor_invalid-Passes : Passes (Ipv4Tests.constructor_invalid knowing) tt
unfolding Ipv4Tests.constructor_invalid Address.family Address.native Address.with_native
    Address.update Address.empty Address.resize Sdo.make Sdo.initial Sdo.resize Sdo.data_of
    Sdo.with_data get16 set16 load16 bytes16 Ipv4Address.make Ipv4Address.set_port
    Ipv4Address.set_address Ipv4Address.pton Ipv4Address.address Ipv4Address.port numeric_host
    strnlen digits ◌==ℤ◌
constructor_invalid-Passes = refl

set_address_valid-Passes : Passes (Ipv4Tests.set_address_valid knowing) tt
unfolding Ipv4Tests.set_address_valid Address.native Address.with_native Address.update
    Address.empty Address.resize Sdo.make Sdo.initial Sdo.resize Sdo.data_of Sdo.with_data get16
    set16 load16 bytes16 Ipv4Address.make Ipv4Address.set_port Ipv4Address.set_address
    Ipv4Address.pton Ipv4Address.address numeric_host strnlen digits ◌==ℤ◌
set_address_valid-Passes = refl

set_address_invalid-Passes : Passes (Ipv4Tests.set_address_invalid knowing) tt
unfolding Ipv4Tests.set_address_invalid Address.native Address.with_native Address.update
    Address.empty Address.resize Sdo.make Sdo.initial Sdo.resize Sdo.data_of Sdo.with_data get16
    set16 load16 bytes16 Ipv4Address.make Ipv4Address.set_port Ipv4Address.set_address
    Ipv4Address.pton Ipv4Address.address numeric_host strnlen digits ◌==ℤ◌
set_address_invalid-Passes = refl

set_port-Passes : Passes (Ipv4Tests.set_port knowing) tt
unfolding Ipv4Tests.set_port Address.native Address.with_native Address.update Address.empty
    Address.resize Sdo.make Sdo.initial Sdo.resize Sdo.data_of Sdo.with_data get16 set16 load16
    bytes16 Ipv4Address.make Ipv4Address.set_port Ipv4Address.set_address Ipv4Address.pton
    Ipv4Address.port ◌==ℤ◌
set_port-Passes = refl

construction-Passes : Passes (UnixTests.construction knowing) tt
unfolding UnixTests.construction Address.family Address.native Address.with_native Address.update
    Address.empty Address.resize Sdo.make Sdo.initial Sdo.resize Sdo.reserve Sdo.assign_ptr
    Sdo.data_of Sdo.with_data get16 set16 load16 bytes16 UnixAddress.make UnixAddress.set_path
    UnixAddress.path c_string strncpy
construction-Passes = refl

set_path_valid-Passes : Passes (UnixTests.set_path_valid knowing) tt
unfolding UnixTests.set_path_valid Address.native Address.with_native Address.update Address.empty
    Address.resize Sdo.make Sdo.initial Sdo.resize Sdo.reserve Sdo.assign_ptr Sdo.data_of
    Sdo.with_data set16 bytes16 UnixAddress.make UnixAddress.set_path UnixAddress.path c_string
    strncpy
set_path_valid-Passes = refl

set_path_invalid-Passes : Passes (UnixTests.set_path_invalid knowing) tt
unfolding UnixTests.set_path_invalid Address.native Address.with_native Address.update Address.empty
    Address.resize Sdo.make Sdo.initial Sdo.resize Sdo.reserve Sdo.assign_ptr Sdo.data_of
    Sdo.with_data set16 bytes16 UnixAddress.make UnixAddress.set_path strncpy
set_path_invalid-Passes = refl

print_unix-Passes : Passes (UnixTests.print knowing) tt
unfolding UnixTests.print Address.family Address.native Address.with_native Address.update
    Address.empty Address.resize Sdo.make Sdo.initial Sdo.resize Sdo.reserve Sdo.assign_ptr
    Sdo.data_of Sdo.with_data get16 set16 load16 bytes16 UnixAddress.make UnixAddress.set_path
    c_string strncpy Print.print Print.print_unix
print_unix-Passes = refl

-- The numeric names of an address, as `getnameinfo` gives them.
abbrev name_of : List Cell → Option ℕ → ℤ × List ℕ × List ℕ
name_of bytes none = (pos 1, [], [])
name_of bytes (some n) = (pos 0, numeric_host knowing 2 bytes, decimal (linux.ntohs n))

abbrev naming : Platform
naming = record knowing {
  getnameinfo =
      λ given n. elim given [ none ↦ (pos 1, [], []) | some bytes ↦ name_of bytes (get16 2 bytes) ];
}

print-Passes : Passes (Ipv4Tests.print naming) tt
unfolding Ipv4Tests.print Address.family Address.native Address.with_native Address.update
    Address.empty Address.resize Sdo.make Sdo.initial Sdo.resize Sdo.data_of Sdo.with_data get16
    set16 load16 bytes16 Ipv4Address.make Ipv4Address.set_port Ipv4Address.set_address
    Ipv4Address.pton numeric_host strnlen digits Print.print Print.print_inet ◌==ℤ◌
print-Passes = refl
