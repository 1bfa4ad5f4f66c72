-- ===== src/Posix/Platform.antt =====
-- The constants of the system headers, the layout of `sockaddr` and its relatives, and the C
-- library's pure functions.
use sydn.Common.{ℕ, false, pos, ◌==ℤ◌, ◌+◌, ◌^◌, ◌≤◌, ◌<◌, ◌≡◌, ◌≢◌, Option, List, ℤ, Cell}

-- Sizes and offsets are in bytes. `sa_family` is the first field of each address, two bytes wide,
-- with the low byte first.
pub record Platform : Type 0 where
  pub sizeof_sockaddr : ℕ
  pub sizeof_sockaddr_in : ℕ
  pub sizeof_sockaddr_un : ℕ
  pub sin_port : ℕ
  pub sin_addr : ℕ
  pub sun_path : ℕ
  pub sizeof_sun_path : ℕ
  pub af_unspec : ℕ
  pub af_inet : ℕ
  pub af_inet6 : ℕ
  pub af_unix : ℕ
  pub sock_stream : ℕ
  pub function_not_supported : ℕ
  pub operation_would_block : ℕ
  pub resource_unavailable_try_again : ℕ
  pub htons : ℕ → ℕ
  pub ntohs : ℕ → ℕ
  -- `inet_pton(family, text, dst)`: the result, and what it leaves at `dst`.
  pub inet_pton : ℕ → List ℕ → List Cell → ℤ × List Cell
  pub inet_addrstrlen : ℕ
  -- `inet_ntop(family, src, dst, size)`: the characters that it leaves at `dst`.
  pub inet_ntop : ℕ → List Cell → ℕ → List ℕ → List ℕ
  -- `getnameinfo` for a numeric host and a numeric service: the result, the host and the service.
  pub getnameinfo : Option (List Cell) → ℕ → ℤ × List ℕ × List ℕ
  pub gai_strerror : ℤ → List ℕ

-- The structures contain `sa_family`, their other fields lie behind it and inside them, no field
-- overlaps another, and the error numbers are not 0. `ntohs`
-- undoes `htons`.
pub record IsSound (p : Platform) : Type 0 where
  pub family_in_sockaddr : 2 ≤ p.sizeof_sockaddr
  pub sockaddr_in_extends : p.sizeof_sockaddr ≤ p.sizeof_sockaddr_in
  pub sockaddr_un_extends : p.sizeof_sockaddr ≤ p.sizeof_sockaddr_un
  pub port_after_family : 2 ≤ p.sin_port
  pub addr_after_port : p.sin_port + 2 ≤ p.sin_addr
  pub addr_inside : p.sin_addr + 4 ≤ p.sizeof_sockaddr_in
  pub path_after_family : 2 ≤ p.sun_path
  pub path_inside : p.sun_path + p.sizeof_sun_path ≤ p.sizeof_sockaddr_un
  pub inet_in_range : p.af_inet < 2 ^ 16
  pub unix_in_range : p.af_unix < 2 ^ 16
  pub inet_ne_unspec : p.af_inet ≢ p.af_unspec
  pub unix_ne_unspec : p.af_unix ≢ p.af_unspec
  pub would_block_ne_zero : p.operation_would_block ≢ 0
  pub try_again_ne_zero : p.resource_unavailable_try_again ≢ 0
  pub not_supported_ne_zero : p.function_not_supported ≢ 0
  pub htons_in_range : (v : ℕ) → p.htons v < 2 ^ 16
  pub ntohs-htons : (v : ℕ) → v < 2 ^ 16 → p.ntohs (p.htons v) ≡ v

-- `inet_pton` reports a text that is no address by a result other than 1, and then leaves the
-- destination alone.
pub record RejectsText (p : Platform) : Type 0 where
  pub keeps :
      (family : ℕ) (text : List ℕ) (dst : List Cell)
      → ((p.inet_pton family text dst).0 ==ℤ pos 1) ≡ false
      → (p.inet_pton family text dst).1 ≡ dst
