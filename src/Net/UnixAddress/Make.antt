-- ===== src/Net/UnixAddress/Make.antt =====
-- The constructor of `unix_address`.
use sydn.Common.{
  ℕ, zero, suc, ◌+◌, ltb, ltb→lt, ltb→ge, Bool-cases, inl, inr, ◌≤◌, ◌<◌, ◌≡◌, refl, ap, ◌∙◌, none,
  some, List, arith, length, drop, replicate, unspecified, splice-nil,
}
use sydn.Posix.Platform.{Platform, IsSound}
use sydn.Net.Bytes.{set16}
use sydn.Net.Address
use sydn.Net.Address.{Address}
use sydn.Net.Address.Family.{family_lem, memory_large, labelled}
use sydn.Net.UnixAddress.{c_string, make, path}
use sydn.Net.UnixAddress.Path.{IsText, IsUnix, accepted, given, path_lem, set_path_lem}

c_string-unspecified : (n len : ℕ) → c_string (drop n (replicate len unspecified)) ≡ none
unfolding c_string
c_string-unspecified zero zero = refl
c_string-unspecified zero (suc len) = refl
c_string-unspecified (suc n) zero = refl
c_string-unspecified (suc n) (suc len) = c_string-unspecified n len

-- To set the family gives no value to the bytes behind it.
c_string-set16 :
    (n len v : ℕ) → 2 ≤ n → c_string (drop n (set16 0 v (replicate len unspecified))) ≡ none
unfolding set16 c_string
c_string-set16 zero len v h = absurd (omega arith)
c_string-set16 (suc zero) len v h = absurd (omega arith)
c_string-set16 (suc (suc n)) zero v h = refl
c_string-set16 (suc (suc n)) (suc zero) v h = refl
c_string-set16 (suc (suc n)) (suc (suc len)) v h =
    ap (λ bytes. c_string (drop n bytes)) (splice-nil (replicate len unspecified))
    ∙ c_string-unspecified n len

module _ (p : Platform) (sound : IsSound p) where
  pub make_lem :
      (text : List ℕ)
      → IsText text
      → (a : Address) × (make p text ≡ some a)
        × IsUnix p sound a
        × (Address.family p a ≡ some p.af_unix)
        × (length text < p.sizeof_sun_path → path p a ≡ some text)
        × (p.sizeof_sun_path < length text
            → Address.c_sdo_size < p.sizeof_sockaddr_un
            → path p a ≡ none)
        × (length text ≡ p.sizeof_sun_path
            → Address.c_sdo_size < p.sizeof_sockaddr_un
            → p.sizeof_sockaddr_un ≡ p.sun_path + p.sizeof_sun_path
            → path p a ≡ none)
  unfolding make
  make_lem text t =
      let (b, r, e, v, s, c, m, f) =
        labelled p p.sizeof_sockaddr_un p.af_unix
          (omega (arith, sound.family_in_sockaddr, sound.sockaddr_un_extends))
          sound.sockaddr_un_extends sound.unix_in_range in
      let unix : IsUnix p sound b = record { valid = v; whole = s } in
      let label = family_lem p b (given p sound b unix) ∙ f in
      elim (Bool-cases (ltb p.sizeof_sun_path (length text))) [
        | inl over ↦
            let longer : p.sizeof_sun_path < length text = ltb→lt _ _ over in
            (
              b,
              rw (make, r, e, (set_path_lem p sound b text unix t).1 longer),
              unix,
              label,
              λ shorter. absurd (omega arith),
              λ _ large.
                  path_lem p sound b unix
                  ∙ ap (λ bytes. c_string (drop p.sun_path bytes))
                      (m ∙ ap (set16 0 p.af_unix) (memory_large p.sizeof_sockaddr_un large))
                  ∙ c_string-set16 p.sun_path p.sizeof_sockaddr_un p.af_unix
                      sound.path_after_family,
              λ same. absurd (omega arith),
            )
        | inr under ↦
            let fits : length text ≤ p.sizeof_sun_path = ltb→ge _ _ under in
            let (a, stored, u, _, family, _) = accepted p sound b text unix fits in
            (
              a,
              rw (make, r, e, stored),
              u,
              family ∙ label,
              λ shorter.
                  let (a', stored', _, _, read) = (set_path_lem p sound b text unix t).0 shorter in
                  cc (stored, stored', read),
              λ longer. absurd (omega arith),
              λ same large ends.
                  let (a', stored', _, read) =
                    (set_path_lem p sound b text unix t).2 same (omega (arith, c, large, ends)) in
                  cc (stored, stored', read),
            )
      ]
