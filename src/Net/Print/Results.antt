-- ===== src/Net/Print/Results.antt =====
-- What is printed for the addresses that the constructors make.
use sydn.Common.{
  ne→test, ==_refl, Option-cases, inl, inr, ℕ, ◌<◌, ◌≡◌, ◌≢◌, sym, ap, ◌∙◌, none, some, List, ◌++◌,
  length, zero, suc, refl, [], ◌∷◌, ◌≤◌, ◌==◌, if◌then◌else◌, take, drop, replicate, Bool-cases,
  arith, ◌==ℤ◌, pos, Option, Cell,
}
use mathlib.Core.Option
use sydn.Posix.Platform.{Platform, IsSound}
use sydn.Net.Bytes.{get16}
use sydn.Net.Address
use sydn.Net.Address.{Address}
use sydn.Net.Address.Contents.{memory, native_of_ne_zero}
use sydn.Net.Address.Family.{family_lem}
use sydn.Net.UnixAddress
use sydn.Net.UnixAddress.Path as UnixPath
use sydn.Net.UnixAddress.Path.{IsText, IsUnix, path_lem}
use sydn.Net.UnixAddress.Make.{make_lem}
use sydn.Net.Ipv4Address
use sydn.Net.Ipv4Address.{numeric_host, strnlen}
use sydn.Net.Ipv4Address.Fields as Ipv4Fields
use sydn.Net.Ipv4Address.Fields.{IsIpv4, port_lem}
use sydn.Net.Ipv4Address.Text.{address_lem}
use sydn.Net.Print.{codes, decimal, reading, print, print_inet, print_unix, print_unknown}

-- The family numbers are different, as on every system.
pub record FamiliesDiffer (p : Platform) : Type 0 where
  pub unix_ne_inet : p.af_unix ≢ p.af_inet
  pub unix_ne_inet6 : p.af_unix ≢ p.af_inet6

-- The string that a zero byte ends.
abbrev pub until_zero : List ℕ → List ℕ
until_zero [] = []
until_zero (c ∷ text) = if c == 0 then [] else c ∷ until_zero text

-- `getnameinfo` with numeric flags on an IPv4 address: the host as `inet_ntop` writes it of the bytes at
-- `sin_addr`, and the port in decimal. `inet_ntop` does not write outside its buffer.
pub record NamesNumerically (p : Platform) : Type 0 where
  pub named :
      (bytes : List Cell) (port : ℕ)
      → get16 0 bytes ≡ some p.af_inet
      → get16 p.sin_port bytes ≡ some port
      → p.getnameinfo (some bytes) p.sizeof_sockaddr_in ≡ (
        pos 0,
        until_zero (
            p.inet_ntop p.af_inet
              (drop p.sin_addr bytes)
              p.inet_addrstrlen
              (replicate p.inet_addrstrlen 0)),
        decimal (p.ntohs port),
      )
  pub in_room :
      (src : List Cell)
      → length (p.inet_ntop p.af_inet src p.inet_addrstrlen (replicate p.inet_addrstrlen 0))
        ≡ p.inet_addrstrlen

reading_lem :
    (a : Address)
    → Address.size a ≢ 0
    → (f : List Cell → Option (List ℕ)) → reading a f ≡ f (memory a)
reading_lem a given f = cc (
    ap (λ o. elim o as (λ _. Option (List ℕ)) [ none ↦ none | some b ↦ f b ])
      (native_of_ne_zero a given))

take-strnlen :
    (n : ℕ) (text : List ℕ) → length text ≤ n → take (strnlen n text) text ≡ until_zero text
unfolding strnlen
take-strnlen zero [] h = refl
take-strnlen zero (c ∷ text) h = absurd (omega arith)
take-strnlen (suc n) [] h = refl
take-strnlen (suc n) (c ∷ text) h = elim (Bool-cases (c == 0)) [
  | inl e ↦ rw e refl
  | inr e ↦ rw e (ap (◌∷◌ c) (take-strnlen n text (omega arith)))
]

module _ (p : Platform) (sound : IsSound p) where
  numeric_host_lem :
      (names : NamesNumerically p) (bytes : List Cell)
      → numeric_host p p.af_inet bytes
        ≡ until_zero (
            p.inet_ntop p.af_inet
              (drop p.sin_addr bytes)
              p.inet_addrstrlen
              (replicate p.inet_addrstrlen 0))
  unfolding numeric_host
  numeric_host_lem names bytes =
      take-strnlen p.inet_addrstrlen _ (omega (arith, names.in_room (drop p.sin_addr bytes)))

  -- A Unix address prints as its path, and an unreadable path does not print.
  print_of_unix :
      (stream : List ℕ) (a : Address)
      → FamiliesDiffer p
      → IsUnix p sound a
      → Address.family p a ≡ some p.af_unix
      → print p stream a
        ≡ Option.map (λ path. stream ++ codes "unix:" ++ path) (UnixAddress.path p a)
  unfolding print print_unix
  print_of_unix stream a differ u f = rw (
    print,
    f,
    ne→test _ _ sound.unix_ne_unspec,
    ne→test _ _ differ.unix_ne_inet,
    ne→test _ _ differ.unix_ne_inet6,
    ==_refl,
    reading_lem a (UnixPath.given p sound a u),
    path_lem p sound a u,
  )

  -- A Unix address made of a path without zero bytes that is shorter than the field prints as the
  -- path behind "unix:".
  pub print-make_unix :
      (stream text : List ℕ)
      → FamiliesDiffer p
      → IsText text
      → length text < p.sizeof_sun_path
      → (a : Address) × (UnixAddress.make p text ≡ some a)
        × (print p stream a ≡ some (stream ++ codes "unix:" ++ text))
  print-make_unix stream text differ t shorter =
      let (a, e, u, family, read, _, _) = make_lem p sound text t in
      (
        a,
        e,
        print_of_unix stream a differ u family
            ∙ ap (Option.map (λ path. stream ++ codes "unix:" ++ path)) (read shorter),
      )

  -- An IPv4 address prints as its address and its port in decimal, with a colon between them. Required:
  -- `getnameinfo` gives the host as `inet_ntop` writes it of the bytes at `sin_addr`, and the port in
  -- decimal, and `inet_ntop` does not write outside its buffer.
  pub print_ipv4 :
      (stream host : List ℕ) (n : ℕ) (a : Address)
      → NamesNumerically p
      → IsIpv4 p sound a
      → Ipv4Address.address p a ≡ some host
      → Ipv4Address.port p a ≡ some n
      → print p stream a ≡ some (stream ++ host ++ codes ":" ++ decimal n)
  unfolding print print_inet ◌==ℤ◌
  print_ipv4 stream host n a names v h port =
      let read = sym (port_lem p sound a v) ∙ port in
      elim (Option-cases (get16 p.sin_port (memory a))) [
        | inl missing ↦ cc (missing, read)
        | inr (stored, found) ↦
            let same_host : numeric_host p p.af_inet (memory a) ≡ host =
              cc (address_lem p sound a v, h) in
            let named_host = sym (numeric_host_lem names (memory a)) ∙ same_host in
            let same_port : p.ntohs stored ≡ n = cc (found, read) in
            let named =
              ap (p.getnameinfo (some (memory a))) v.whole
              ∙ names.named (memory a) stored v.family found in
            rw (
              print,
              family_lem p a (Ipv4Fields.given p sound a v),
              v.family,
              ne→test _ _ sound.inet_ne_unspec,
              ==_refl,
              native_of_ne_zero a (Ipv4Fields.given p sound a v),
              named,
              named_host,
              same_port,
            )
      ]

  -- An address of a family that has no printer prints the family's number.
  pub print_other :
      (stream : List ℕ) (family : ℕ) (a : Address)
      → Address.size a ≢ 0
      → Address.family p a ≡ some family
      → family ≢ p.af_unspec
      → family ≢ p.af_inet
      → family ≢ p.af_inet6
      → family ≢ p.af_unix
      → print p stream a ≡ some (stream ++ codes "Unknown address family: " ++ decimal family)
  unfolding print print_unknown
  print_other stream family a given f h₁ h₂ h₃ h₄ = rw (
    print,
    f,
    ne→test _ _ h₁,
    ne→test _ _ h₂,
    ne→test _ _ h₃,
    ne→test _ _ h₄,
    reading_lem a given,
    sym (family_lem p a given) ∙ f,
  )
