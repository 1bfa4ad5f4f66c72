-- ===== src/Net/Ipv4Address/Fields.antt =====
-- The fields of an `ipv4_address`: each is read back, and to set one keeps the others.
use sydn.Common.{
  ℕ, ◌%◌, ◌≤◌, ◌^◌, ◌≡◌, ◌≢◌, refl, sym, ap, ◌∙◌, true, false, inr, ne→test, some, List, arith,
  length, length-drop, drop, drop-splice_at, splice, replicate, splice_at, Cell, byte, pos, ◌==ℤ◌,
  length-splice_at, splice_at-drop_self,
}
use mathlib.Core.Option
use sydn.Mem.Sdo.Invariant
use sydn.Posix.Platform.{Platform, IsSound, RejectsText}
use sydn.Net.Bytes.{get16, set16, get16-set16, get16-splice_at, get16-set16_before, length-set16}
use sydn.Net.Address
use sydn.Net.Address.{Address}
use sydn.Net.Address.Contents.{IsSize, IsValid, memory, update_lem, native_of_ne_zero}
use sydn.Net.Address.Family.{family_lem, labelled, memory_small}
use sydn.Net.Ipv4Address.{set_port, port, pton, set_address, make}

module _ (p : Platform) (sound : IsSound p) where
  -- An address as the constructors leave it: of the size of a `sockaddr_in`, and of its family.
  pub record IsIpv4 (a : Address) : Type 0 where
    pub valid : IsValid a
    pub whole : Address.size a ≡ p.sizeof_sockaddr_in
    pub family : get16 0 (memory a) ≡ some p.af_inet

  pub given : (a : Address) → IsIpv4 a → Address.size a ≢ 0
  given a v = omega (arith, v.whole, sound.sockaddr_in_extends, sound.family_in_sockaddr)

  pub room : (a : Address) → IsIpv4 a → p.sizeof_sockaddr_in ≤ length (memory a)
  room a v =
      omega
        (arith, v.whole, v.valid.fits, Invariant.length-data_of Address.c_sdo_size a.d_data v.valid)

  pub port_lem :
      (a : Address) → IsIpv4 a → port p a ≡ Option.map p.ntohs (get16 p.sin_port (memory a))
  unfolding port
  port_lem a v = rw (native_of_ne_zero a (given a v), port)

  -- `set_port` keeps the family and all memory but the port's, and `port` then returns the number
  -- modulo 2^16.
  pub set_port_lem :
      (a : Address) (n : ℕ)
      → IsIpv4 a
      → (b : Address) × (set_port p a n ≡ some b)
        × IsIpv4 b
        × (port p b ≡ some (n % 2 ^ 16))
        × (memory b ≡ set16 p.sin_port (p.htons (n % 2 ^ 16)) (memory a))
  unfolding set_port
  set_port_lem a n v =
      let stored = p.htons (n % 2 ^ 16) in
      let (b, e, valid, s, c, m) =
        update_lem a (set16 p.sin_port stored) v.valid (given a v)
          (length-set16 p.sin_port stored (memory a)) in
      let ipv4 : IsIpv4 b = record {
        valid = valid;
        whole = s ∙ v.whole;
        family =
            ap (get16 0) m
            ∙ get16-set16_before 0 p.sin_port stored (memory a) sound.port_after_family
            ∙ v.family;
      } in
      (
        b,
        e,
        ipv4,
        port_lem b ipv4
            ∙ ap (λ bytes. Option.map p.ntohs (get16 p.sin_port bytes)) m
            ∙ ap (Option.map p.ntohs) (
                get16-set16 p.sin_port stored (memory a)
                  (omega (arith, room a v, sound.addr_after_port, sound.addr_inside))
                  (sound.htons_in_range (n % 2 ^ 16)))
            ∙ ap some (sound.ntohs-htons (n % 2 ^ 16) (omega arith)),
        m,
      )

  -- `set_address` stores what `inet_pton` leaves, and keeps the family and the port.
  pub address_stored :
      (a : Address) (text : List ℕ)
      → IsIpv4 a
      → let made = pton p p.af_inet text (memory a) in
        (b : Address) × (set_address p a text ≡ some (made.0 ==ℤ pos 1, b))
        × IsIpv4 b
        × (port p b ≡ port p a)
        × (memory b ≡ splice_at p.sin_addr (memory a) made.1)
  unfolding set_address pton
  address_stored a text v =
      let stored = (pton p p.af_inet text (memory a)).1 in
      let (b, e, valid, s, c, m) =
        update_lem a (λ old. splice_at p.sin_addr old stored) v.valid (given a v)
          (length-splice_at p.sin_addr (memory a) stored) in
      let ipv4 : IsIpv4 b = record {
        valid = valid;
        whole = s ∙ v.whole;
        family =
            ap (get16 0) m
            ∙ get16-splice_at 0 p.sin_addr (memory a) stored
                (omega (arith, sound.port_after_family, sound.addr_after_port))
            ∙ v.family;
      } in
      (
        b,
        rw (set_address, native_of_ne_zero a (given a v), v.family, e),
        ipv4,
        port_lem b ipv4
            ∙ ap (λ bytes. Option.map p.ntohs (get16 p.sin_port bytes)) m
            ∙ ap (Option.map p.ntohs)
                (get16-splice_at p.sin_port p.sin_addr (memory a) stored sound.addr_after_port)
            ∙ sym (port_lem a v),
        m,
      )

  -- `set_address` reports whether `inet_pton` accepts the text, and keeps the family and the port.
  -- A text that `inet_pton` rejects changes nothing in the memory.
  pub set_address_lem :
      (a : Address) (text : List ℕ)
      → RejectsText p
      → IsIpv4 a
      → let result = ((pton p p.af_inet text (memory a)).0 ==ℤ pos 1) in
        (b : Address) × (set_address p a text ≡ some (result, b))
        × IsIpv4 b
        × (port p b ≡ port p a)
        × (result ≡ false → memory b ≡ memory a)
  unfolding pton
  set_address_lem a text rejects v =
      let (b, e, ipv4, same, m) = address_stored a text v in
      (
        b,
        e,
        ipv4,
        same,
        λ no_address.
            m
            ∙ ap (splice_at p.sin_addr (memory a))
                (rejects.keeps p.af_inet text (drop p.sin_addr (memory a)) no_address)
            ∙ splice_at-drop_self p.sin_addr (memory a),
      )

  -- The constructor makes an address for every text and port: of the family `AF_INET`, with the port
  -- modulo 2^16. After a text that `inet_pton` rejects, if the structure fits the small buffer, the
  -- memory is all zero but for the family and the port: the address is 0.0.0.0.
  pub make-IsIpv4 :
      (text : List ℕ) (n : ℕ)
      → RejectsText p
      → (a : Address) × (make p text n ≡ some a)
        × IsIpv4 a
        × (Address.family p a ≡ some p.af_inet)
        × (port p a ≡ some (n % 2 ^ 16))
        × (((bytes : List Cell) → ((pton p p.af_inet text bytes).0 ==ℤ pos 1) ≡ false)
            → p.sizeof_sockaddr_in ≤ Address.c_sdo_size
            → memory a
              ≡ set16 p.sin_port
                  (p.htons (n % 2 ^ 16))
                  (set16 0 p.af_inet (replicate Address.c_sdo_size (byte 0))))
  unfolding make
  make-IsIpv4 text n rejects =
      let (b, r, e, v, s, _, m, f) =
        labelled p p.sizeof_sockaddr_in p.af_inet
          (omega (arith, sound.family_in_sockaddr, sound.sockaddr_in_extends))
          sound.sockaddr_in_extends sound.inet_in_range in
      let (c, ported, ipv4, number, cm) =
        set_port_lem b n (record { valid = v; whole = s; family = f }) in
      let (a, addressed, last, same, am) = set_address_lem c text rejects ipv4 in
      (
        a,
        rw (make, r, e, ported, addressed),
        last,
        family_lem p a (given a last) ∙ last.family,
        same ∙ number,
        λ no_address small.
            am (no_address (memory c))
            ∙ cm
            ∙ ap (set16 p.sin_port (p.htons (n % 2 ^ 16)))
                (m ∙ ap (set16 0 p.af_inet) (memory_small p.sizeof_sockaddr_in small)),
      )

  -- Such an address can be given to a socket.
  pub IsIpv4-usable :
      (a : Address)
      → IsIpv4 a
      → (Address.ne_null p a ≡ some true)
        × (Address.family p a ≡ some p.af_inet)
        × (Address.native a ≡ some (memory a))
  unfolding Address.ne_null
  IsIpv4-usable a v =
      let family : Address.family p a ≡ some p.af_inet = family_lem p a (given a v) ∙ v.family in
      (
        rw (family, ne→test p.af_inet p.af_unspec sound.inet_ne_unspec) refl,
        family,
        native_of_ne_zero a (given a v),
      )

  -- The constructor's address can be given to a socket.
  pub make-usable :
      (text : List ℕ) (n : ℕ)
      → RejectsText p
      → (a : Address) × (make p text n ≡ some a)
        × (Address.ne_null p a ≡ some true)
        × (Address.family p a ≡ some p.af_inet)
        × IsSize p (Address.size a)
  make-usable text n rejects =
      let (a, made, v, _, _, _) = make-IsIpv4 text n rejects in
      let (given, family, _) = IsIpv4-usable a v in
      (a, made, given, family, inr (omega (arith, v.whole, sound.sockaddr_in_extends)))

  -- The constructor's address, with the port, and with what `inet_pton` leaves at `sin_addr`.
  pub make-stored :
      (text : List ℕ) (n : ℕ)
      → (a : Address) × (make p text n ≡ some a)
        × IsIpv4 a
        × (port p a ≡ some (n % 2 ^ 16))
        × ((dst : List Cell) × (4 ≤ length dst)
            × (drop p.sin_addr (memory a) ≡ splice dst (p.inet_pton p.af_inet text dst).1))
  unfolding make pton
  make-stored text n =
      let (b, r, e, v, s, _, m, f) =
        labelled p p.sizeof_sockaddr_in p.af_inet
          (omega (arith, sound.family_in_sockaddr, sound.sockaddr_in_extends))
          sound.sockaddr_in_extends sound.inet_in_range in
      let (c, ported, ipv4, number, _) =
        set_port_lem b n (record { valid = v; whole = s; family = f }) in
      let (a, addressed, last, same, am) = address_stored c text ipv4 in
      let dst = drop p.sin_addr (memory c) in
      (
        a,
        rw (make, r, e, ported, addressed),
        last,
        same ∙ number,
        (
          dst,
          omega (arith, length-drop p.sin_addr (memory c), room c ipv4, sound.addr_inside),
          ap (drop p.sin_addr) am
              ∙ drop-splice_at p.sin_addr (memory c) (p.inet_pton p.af_inet text dst).1,
        ),
      )
