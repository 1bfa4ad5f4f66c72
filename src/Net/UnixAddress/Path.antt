-- ===== src/Net/UnixAddress/Path.antt =====
-- The round trip of a path through a `unix_address`, and where it fails.
use sydn.Common.{
  ℕ, zero, suc, ◌+◌, ◌≤◌, ◌<◌, ◌≡◌, ◌≢◌, refl, sym, ap, ◌∙◌, true, false, none, some, List, [], ◌∷◌,
  arith, length, drop, splice, splice_at, le→leb, lt→ltb, ge→ltb, Cell, drop-splice_at, length-drop,
  length-splice_at,
}
use sydn.Mem.Sdo.Invariant
use sydn.Posix.Platform.{Platform, IsSound}
use sydn.Net.Address
use sydn.Net.Address.{Address}
use sydn.Net.Address.Contents.{IsValid, memory, update_lem, native_of_ne_zero}
use sydn.Net.Address.Family.{family_lem}
use sydn.Net.Bytes.{get16, get16-splice_at}
use sydn.Net.UnixAddress.{strncpy, c_string, set_path, path}

-- A text without a zero byte.
abbrev pub IsText : List ℕ → Type 0
IsText [] = Unit {0}
IsText (c ∷ cs) = (c ≢ 0) × IsText cs

c_string-strncpy :
    (n : ℕ) (text : List ℕ) (before : List Cell)
    → IsText text
    → length text < n
    → n ≤ length before
    → c_string (splice before (strncpy n text)) ≡ some text
unfolding c_string strncpy
c_string-strncpy zero text before t lt le = absurd (omega arith)
c_string-strncpy (suc n) text [] t lt le = absurd (omega arith)
c_string-strncpy (suc n) [] (x ∷ before) t lt le = refl
c_string-strncpy (suc n) (c ∷ text) (x ∷ before) t lt le =
    ground (arith, c_string-strncpy n text before t.1)

-- A text that fills the field leaves no room for the zero: the reader goes on behind it.
c_string-strncpy_full :
    (text : List ℕ) (before : List Cell)
    → IsText text
    → length before ≡ length text
    → c_string (splice before (strncpy (length text) text)) ≡ none
unfolding c_string strncpy
c_string-strncpy_full [] [] t e = refl
c_string-strncpy_full [] (x ∷ before) t e = absurd (omega arith)
c_string-strncpy_full (c ∷ text) [] t e = absurd (omega arith)
c_string-strncpy_full (c ∷ text) (x ∷ before) t e =
    ground (arith, c_string-strncpy_full text before t.1)

module _ (p : Platform) (sound : IsSound p) where
  -- An address as the constructor and `set_path` leave it.
  pub record IsUnix (a : Address) : Type 0 where
    pub valid : IsValid a
    pub whole : Address.size a ≡ p.sizeof_sockaddr_un

  pub given : (a : Address) → IsUnix a → Address.size a ≢ 0
  given a u = omega (arith, u.whole, sound.sockaddr_un_extends, sound.family_in_sockaddr)

  pub path_lem : (a : Address) → IsUnix a → path p a ≡ c_string (drop p.sun_path (memory a))
  unfolding path
  path_lem a u = rw (
    le→leb p.sizeof_sockaddr_un (Address.size a) (omega (arith, u.whole)),
    native_of_ne_zero a (given a u),
  )

  -- What `set_path` makes of a path that it accepts.
  pub accepted :
      (a : Address) (text : List ℕ)
      → IsUnix a
      → length text ≤ p.sizeof_sun_path
      → (b : Address) × (set_path p a text ≡ some (true, b))
        × IsUnix b
        × (Address.capacity b ≡ Address.capacity a)
        × (Address.family p b ≡ Address.family p a)
        × (path p b
            ≡ c_string (splice (drop p.sun_path (memory a)) (strncpy p.sizeof_sun_path text)))
  unfolding set_path
  accepted a text u fits =
      let new = strncpy p.sizeof_sun_path text in
      let (b, e, v, s, c, m) =
        update_lem a (λ bytes. splice_at p.sun_path bytes new) u.valid (given a u)
          (length-splice_at p.sun_path (memory a) new) in
      let unix : IsUnix b = record { valid = v; whole = s ∙ u.whole } in
      (
        b,
        rw (ge→ltb _ _ fits, e),
        unix,
        c,
        family_lem p b (given b unix)
            ∙ ap (get16 0) m
            ∙ get16-splice_at 0 p.sun_path (memory a) new sound.path_after_family
            ∙ sym (family_lem p a (given a u)),
        path_lem b unix
            ∙ ap (λ bytes. c_string (drop p.sun_path bytes)) m
            ∙ ap c_string (drop-splice_at p.sun_path (memory a) new),
      )

  room : (a : Address) → IsUnix a → p.sizeof_sun_path ≤ length (drop p.sun_path (memory a))
  room a u = omega (
    arith,
    length-drop p.sun_path (memory a),
    Invariant.length-data_of Address.c_sdo_size a.d_data u.valid,
    sound.path_inside,
    u.whole,
    u.valid.fits,
  )

  -- `set_path` on every length of a path without zero bytes. Shorter than the field: it returns true,
  -- keeps the family, and `path` returns the path. Longer: it returns false and the address is as it was. Exactly as
  -- long as the field, in an address whose memory ends with the field: it returns true, and `path`
  -- reads past the memory.
  pub set_path_lem :
      (a : Address) (text : List ℕ)
      → IsUnix a
      → IsText text
      → (length text < p.sizeof_sun_path
          → (b : Address) × (set_path p a text ≡ some (true, b))
            × IsUnix b
            × (Address.family p b ≡ Address.family p a)
            × (path p b ≡ some text))
        × (p.sizeof_sun_path < length text → set_path p a text ≡ some (false, a))
        × (length text ≡ p.sizeof_sun_path
            → Address.capacity a ≡ p.sun_path + p.sizeof_sun_path
            → (b : Address) × (set_path p a text ≡ some (true, b)) × IsUnix b × (path p b ≡ none))
  unfolding set_path
  set_path_lem a text u t = (
    λ shorter.
        let (b, e, unix, c, family, r) = accepted a text u (omega arith) in
        (b, e, unix, family, r ∙ c_string-strncpy p.sizeof_sun_path text _ t shorter (room a u)),
    λ longer. rw (lt→ltb _ _ longer),
    λ same ends.
        let (b, e, unix, c, family, r) = accepted a text u (omega arith) in
        (
          b,
          e,
          unix,
          r
              ∙ (rw (← same) (
                  c_string-strncpy_full text (drop p.sun_path (memory a)) t (
                    omega (
                      arith,
                      length-drop p.sun_path (memory a),
                      Invariant.length-data_of Address.c_sdo_size a.d_data u.valid,
                    )))),
        ),
  )
