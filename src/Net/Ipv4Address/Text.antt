-- ===== src/Net/Ipv4Address/Text.antt =====
-- The address of an `ipv4_address` as a text: what `set_address` stores, `address` returns.
use sydn.Common.{
  ℕ, zero, suc, ◌≤◌, ◌<◌, ◌≡◌, refl, ap, ◌∙◌, true, some, List, [], ◌∷◌, ◌++◌, arith, length, drop,
  replicate, splice_at, splice, Cell, pos, ◌==ℤ◌, drop-splice_at, length-drop, take-append,
}
use sydn.Posix.Platform.{Platform, IsSound}
use sydn.Net.Address.{Address}
use sydn.Net.Address.Contents.{memory, native_of_ne_zero}
use sydn.Net.UnixAddress.Path.{IsText}
use sydn.Net.Ipv4Address.{strnlen, numeric_host, address, set_address, pton, port}
use sydn.Net.Ipv4Address.Fields.{IsIpv4, given, room, address_stored}

strnlen-text :
    (n : ℕ) (text rest : List ℕ)
    → IsText text
    → length text < n
    → strnlen n (text ++ 0 ∷ rest) ≡ length text
unfolding strnlen
strnlen-text zero text rest t h = absurd (omega arith)
strnlen-text (suc n) [] rest t h = refl
strnlen-text (suc n) (c ∷ text) rest t h = ground (arith, strnlen-text n text rest t.1)

-- A splice of as many values as there are.
splice-whole {ℓ} : {A : Type ℓ} (xs ys : List A) → length ys ≡ length xs → splice xs ys ≡ ys
splice-whole [] [] h = refl
splice-whole [] (y ∷ ys) h = absurd (omega arith)
splice-whole (x ∷ xs) [] h = absurd (omega arith)
splice-whole (x ∷ xs) (y ∷ ys) h = ap (◌∷◌ y) (splice-whole xs ys (omega arith))

-- The text is an IPv4 address as `inet_ntop` writes it: `inet_pton` accepts it, and `inet_ntop` makes
-- it again of the bytes that this leaves, with a zero byte behind it.
pub record IsCanonical (p : Platform) (text : List ℕ) : Type 0 where
  pub nonzero : IsText text
  pub short : length text < p.inet_addrstrlen
  pub accepted : (dst : List Cell) → ((p.inet_pton p.af_inet text dst).0 ==ℤ pos 1) ≡ true
  pub in_room : (dst : List Cell) → length (p.inet_pton p.af_inet text dst).1 ≡ length dst
  pub rest : List ℕ
  pub written :
      (dst : List Cell)
      → 4 ≤ length dst
      → p.inet_ntop p.af_inet
          (p.inet_pton p.af_inet text dst).1
          p.inet_addrstrlen
          (replicate p.inet_addrstrlen 0)
        ≡ text ++ 0 ∷ rest

module _ (p : Platform) (sound : IsSound p) where
  pub address_lem :
      (a : Address) → IsIpv4 p sound a → address p a ≡ some (numeric_host p p.af_inet (memory a))
  unfolding address
  address_lem a v = rw (address, native_of_ne_zero a (given p sound a v), v.family)

  numeric_host-written :
      (a : Address) (text : List ℕ)
      → IsCanonical p text
      → IsIpv4 p sound a
      → numeric_host p p.af_inet
          (splice_at p.sin_addr (memory a) (pton p p.af_inet text (memory a)).1)
        ≡ text
  unfolding numeric_host pton
  numeric_host-written a text c v =
      let dst = drop p.sin_addr (memory a) in
      let made = (p.inet_pton p.af_inet text dst).1 in
      rw
        (
          drop-splice_at p.sin_addr (memory a) made,
          splice-whole dst made (c.in_room dst),
          c.written dst (
              omega
                (arith, length-drop p.sin_addr (memory a), room p sound a v, sound.addr_inside)),
          strnlen-text p.inet_addrstrlen text c.rest c.nonzero c.short,
        )
        (take-append text (0 ∷ c.rest))

  -- For an address in the form that `inet_ntop` writes: `set_address` returns true, `address` then
  -- returns the text, and the family and the port are as they were.
  pub address-set_address :
      (a : Address) (text : List ℕ)
      → IsCanonical p text
      → IsIpv4 p sound a
      → (b : Address) × (set_address p a text ≡ some (true, b))
        × IsIpv4 p sound b
        × (address p b ≡ some text)
        × (port p b ≡ port p a)
  unfolding pton
  address-set_address a text c v =
      let (b, e, ipv4, same, m) = address_stored p sound a text v in
      (
        b,
        e ∙ ap (λ accepted. some (accepted, b)) (c.accepted (drop p.sin_addr (memory a))),
        ipv4,
        address_lem b ipv4
            ∙ ap (λ bytes. some (numeric_host p p.af_inet bytes)) m
            ∙ ap some (numeric_host-written a text c v),
        same,
      )
