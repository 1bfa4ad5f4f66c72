-- ===== src/Tests/Texts.antt =====
-- The texts of addresses at concrete inputs.
use sydn.Common.{
  drop, ℕ, ◌≡◌, ◌≤◌, refl, ap, none, some, Option, List, [], ◌∷◌, ◌++◌, length, arith, splice,
  length-splice, ◌==ℤ◌, replicate, byte, Cell, pos, ℤ,
}
use sydn.Posix.Platform.{Platform, IsSound}
use sydn.Mem.Sdo
use sydn.Net.Bytes.{get16, load16}
use sydn.Net.Address
use sydn.Net.Address.{Address}
use sydn.Net.Ipv4Address.{numeric_host, strnlen, address, port}
use sydn.Net.Ipv4Address.Fields.{IsIpv4}
use sydn.Net.Ipv4Address.Text.{IsCanonical}
use sydn.Net.Print.{codes, decimal, digits, print}
use sydn.Net.Print.Results.{NamesNumerically, until_zero, print_ipv4}
use sydn.Tests.System.{linux}

-- Four bytes in decimal, with dots between them.
abbrev pub dotted : List Cell → List ℕ
dotted (byte a ∷ byte b ∷ byte c ∷ byte d ∷ bytes) =
    decimal a ++ codes "." ++ decimal b ++ codes "." ++ decimal c ++ codes "." ++ decimal d
dotted bytes = []

-- A system on which every text is the address 127.0.0.1.
abbrev local_host : Platform
local_host = record linux {
  inet_pton = λ family text dst. (pos 1, splice dst (byte 127 ∷ byte 0 ∷ byte 0 ∷ byte 1 ∷ []));
  inet_ntop = λ family src n dst. splice dst (dotted src ++ 0 ∷ []);
}

-- The numeric names of an address with this port.
abbrev name_of : List Cell → Option ℕ → ℤ × List ℕ × List ℕ
name_of bytes none = (pos 1, [], [])
name_of bytes (some n) = (
  pos 0,
  until_zero (splice (replicate 16 0) (dotted (drop 4 bytes) ++ 0 ∷ [])),
  decimal (linux.ntohs n),
)

-- With the names that its addresses have.
abbrev naming : Platform
naming = record local_host {
  getnameinfo =
      λ given n. elim given [ none ↦ (pos 1, [], []) | some bytes ↦ name_of bytes (get16 2 bytes) ];
}

naming-IsSound : IsSound naming
naming-IsSound = omega arith

written_back :
    (dst : List Cell)
    → 4 ≤ length dst
    → splice
        (replicate 16 0)
        (dotted (splice dst (byte 127 ∷ byte 0 ∷ byte 0 ∷ byte 1 ∷ [])) ++ 0 ∷ [])
      ≡ codes "127.0.0.1" ++ 0 ∷ replicate 6 0
unfolding digits
written_back (a ∷ b ∷ c ∷ d ∷ rest) h = refl
written_back [] h = absurd (omega arith)
written_back (a ∷ []) h = absurd (omega arith)
written_back (a ∷ b ∷ []) h = absurd (omega arith)
written_back (a ∷ b ∷ c ∷ []) h = absurd (omega arith)

canonical : IsCanonical naming (codes "127.0.0.1")
unfolding ◌==ℤ◌
canonical = record {
  nonzero = omega arith;
  short = omega arith;
  accepted = λ dst. refl;
  in_room = λ dst. length-splice dst _;
  rest = replicate 6 0;
  written = written_back;
}

-- 0.0.0.0:80 as a `sockaddr_in`.
abbrev web : Address
web = record {
  d_data = record {
    d_capacity = 32;
    d_size = 16;
    d_data = byte 2 ∷ byte 0 ∷ byte 0 ∷ byte 80 ∷ replicate 28 (byte 0);
    d_ptr = [];
  };
}

web-IsIpv4 : IsIpv4 naming naming-IsSound web
unfolding get16 load16 Sdo.data_of
web-IsIpv4 = record { valid = omega arith; whole = refl; family = refl }

names : NamesNumerically naming
names = record {
  named = λ bytes n family stored. ap (name_of bytes) stored;
  in_room = λ src. length-splice (replicate 16 0) (dotted src ++ 0 ∷ []);
}

web-address : address naming web ≡ some (codes "0.0.0.0")
unfolding address numeric_host strnlen get16 load16 Sdo.data_of Address.native digits
web-address = refl

web-port : port naming web ≡ some 80
unfolding port get16 load16 Sdo.data_of Address.native
web-port = refl

print_ipv4_example : print naming [] web ≡ some (codes "0.0.0.0:80")
unfolding digits
print_ipv4_example =
    print_ipv4 naming naming-IsSound [] (codes "0.0.0.0") 80 web names web-IsIpv4 web-address
      web-port
