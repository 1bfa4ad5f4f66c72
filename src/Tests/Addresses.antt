-- ===== src/Tests/Addresses.antt =====
-- Addresses at concrete inputs.
use sydn.Common.{
  ℕ, ◌≡◌, ◌≤◌, ◌==ℤ◌, pos, Cell, refl, true, false, List, [], ◌∷◌, some, replicate, arith, byte,
  unspecified,
}
use sydn.Net.Address
use sydn.Net.Address.{Address}
use sydn.Net.UnixAddress
use sydn.Net.UnixAddress.Path.{IsUnix, set_path_lem}
use sydn.Net.Ipv4Address
use sydn.Net.Ipv4Address.Fields.{IsIpv4, set_port_lem, set_address_lem, make-IsIpv4}
use sydn.Net.Bytes.{get16, set16, load16}
use sydn.Mem.Sdo
use sydn.Net.Address.Contents.{memory}
use sydn.Tests.System.{linux, linux-IsSound, linux-RejectsText}

-- An address of 110 bytes, as large as a `sockaddr_un`.
abbrev local : Address
local = record {
  d_data = record {
    d_capacity = 110;
    d_size = 110;
    d_data = replicate 32 unspecified;
    d_ptr = byte 1 ∷ replicate 109 (byte 0);
  };
}

abbrev tmp : List ℕ
tmp = 116 ∷ 109 ∷ 112 ∷ []

local-IsUnix : IsUnix linux linux-IsSound local
local-IsUnix = record { valid = omega arith; whole = refl }

set_path_lem_example :
    (b : Address) × (UnixAddress.set_path linux local tmp ≡ some (true, b))
    × IsUnix linux linux-IsSound b
    × (Address.family linux b ≡ Address.family linux local)
    × (UnixAddress.path linux b ≡ some tmp)
set_path_lem_example =
    (set_path_lem linux linux-IsSound local tmp local-IsUnix (omega arith)).0 (omega arith)

-- A path of one character more than the field has room for.
abbrev long : List ℕ
long = replicate 109 47

-- 0.0.0.0:0 as a `sockaddr_in`.
abbrev any : Address
any = record {
  d_data = record {
    d_capacity = 32;
    d_size = 16;
    d_data = byte 2 ∷ replicate 31 (byte 0);
    d_ptr = [];
  };
}

any-IsIpv4 : IsIpv4 linux linux-IsSound any
unfolding get16 load16 Sdo.data_of
any-IsIpv4 = record { valid = omega arith; whole = refl; family = refl }

set_port_lem_example :
    (b : Address) × (Ipv4Address.set_port linux any 80 ≡ some b)
    × IsIpv4 linux linux-IsSound b
    × (Ipv4Address.port linux b ≡ some 80)
    × (memory b ≡ set16 2 20480 (memory any))
set_port_lem_example = set_port_lem linux linux-IsSound any 80 any-IsIpv4

set_address_lem_example :
    (b : Address) × (Ipv4Address.set_address linux any (49 ∷ []) ≡ some (false, b))
    × IsIpv4 linux linux-IsSound b
    × (Ipv4Address.port linux b ≡ Ipv4Address.port linux any)
    × (false ≡ false → memory b ≡ memory any)
unfolding Ipv4Address.pton ◌==ℤ◌
set_address_lem_example =
    set_address_lem linux linux-IsSound any (49 ∷ []) linux-RejectsText any-IsIpv4

make-IsIpv4_example :
    (a : Address) × (Ipv4Address.make linux (49 ∷ []) 65616 ≡ some a)
    × IsIpv4 linux linux-IsSound a
    × (Address.family linux a ≡ some 2)
    × (Ipv4Address.port linux a ≡ some 80)
    × (((bytes : List Cell) → ((Ipv4Address.pton linux 2 (49 ∷ []) bytes).0 ==ℤ pos 1) ≡ false)
        → 16 ≤ 32
        → memory a ≡ set16 2 20480 (set16 0 2 (replicate 32 (byte 0))))
make-IsIpv4_example = make-IsIpv4 linux linux-IsSound (49 ∷ []) 65616 linux-RejectsText
