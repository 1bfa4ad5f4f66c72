-- ===== src/Drivers/Calls/Agree.antt =====
-- The drivers' `read` and `write` against the reader and the writer, and what `compareAddress` means.
use sydn.Common.{
  ℕ, zero, suc, min, ◌≤◌, ◌≡◌, refl, ap₂, Bool, true, false, some, List, [], ◌∷◌, length, map, take,
  ◌==◌, ==_refl, ==_iff, ◌==ℤ◌, minus_one, narrow, is_nonneg, Cell, byte, Bool-cases, inl, inr,
  arith,
}
use mathlib.Core.Option
use sydn.Posix.Platform.{Platform}
use sydn.Posix.Kernel.{Kernel}
use sydn.Net.Address
use sydn.Net.Address.{Address}
use sydn.Net.ConnectedSocket.{ConnectedSocket, ErrorCondition}
use sydn.Net.ConnectedReader
use sydn.Net.ConnectedReader.{ConnectedReader}
use sydn.Drivers.Calls.{read, memcmp_eq, compare_address}

-- What a driver sees of a reader and its buffer.
abbrev reported :
    {W : Type 0} → (ConnectedReader × List Cell) × W → (ErrorCondition × ℕ × List Cell) × W
reported ((reader, buffer), w) =
    ((ConnectedReader.error reader, ConnectedReader.last_bytes reader, buffer), w)

-- Whatever the reader reported before, the driver's `read` makes the call that `connected_reader::read`
-- makes, and comes to the error, the number and the buffer that the reader then reports.
pub read_agrees :
    {W : Type 0} (k : Kernel W) (socket : ConnectedSocket) (reader : ConnectedReader)
    (buffer : List Cell) (w : W)
    → read k socket buffer w ≡ Option.map reported (ConnectedReader.read k socket reader buffer w)
unfolding read ConnectedReader.read
read_agrees k socket reader buffer w =
    let res = narrow (k.read socket.d_fd buffer (length buffer) w).0 in
    elim (Bool-cases (res ==ℤ minus_one)) [
      | inl e ↦ rw e refl
      | inr e ↦ elim (Bool-cases (is_nonneg res)) [
        | inl n ↦ rw (e, n) refl
        | inr n ↦ rw (e, n) refl
      ]
    ]

-- `memcmp` on bytes with values tells whether they are equal.
memcmp_eq_lem :
    (n : ℕ) (xs ys : List ℕ)
    → n ≤ length xs
    → n ≤ length ys
    → (same : Bool) × (memcmp_eq n (map byte xs) (map byte ys) ≡ some same)
      × (same ≡ true → take n xs ≡ take n ys)
      × (take n xs ≡ take n ys → same ≡ true)
unfolding memcmp_eq
memcmp_eq_lem zero xs ys h h' = (true, refl, λ _. refl, λ _. refl)
memcmp_eq_lem (suc n) [] ys h h' = absurd (omega arith)
memcmp_eq_lem (suc n) (x ∷ xs) [] h h' = absurd (omega arith)
memcmp_eq_lem (suc n) (x ∷ xs) (y ∷ ys) h h' =
    let (same, e, to, from) = memcmp_eq_lem n xs ys (omega arith) (omega arith) in
    elim (Bool-cases (x == y)) [
      | inl q ↦ rw q (same, e, λ t. ap₂ ◌∷◌ ((==_iff x y).0 q) (to t), λ t. from (cc t))
      | inr q ↦ rw q (false, refl, λ t. absurd (cc t), λ t. absurd (cc (t, q, ==_refl x)))
    ]

-- Two addresses that are not null, with a value in each of their bytes: `compareAddress` tells whether
-- their families are the same and they agree as far as the shorter one goes.
pub compare_address_lem :
    (p : Platform) (a b : Address) (xs ys : List ℕ) (f g : ℕ)
    → Address.native a ≡ some (map byte xs)
    → Address.native b ≡ some (map byte ys)
    → Address.family p a ≡ some f
    → Address.family p b ≡ some g
    → Address.size a ≤ length xs
    → Address.size b ≤ length ys
    → let n = min (Address.size a) (Address.size b) in
      (same : Bool) × (compare_address p a b ≡ some same)
      × (same ≡ true → (f ≡ g) × (take n xs ≡ take n ys))
      × (f ≡ g → take n xs ≡ take n ys → same ≡ true)
unfolding compare_address
compare_address_lem p a b xs ys f g na nb fa fb ha hb =
    let (same, e, to, from) =
      memcmp_eq_lem (min (Address.size a) (Address.size b)) xs ys (omega arith) (omega arith) in
    elim (Bool-cases (f == g)) [
      | inl q ↦
          rw (compare_address, fa, fb, q, na, nb)
            (same, e, λ t. ((==_iff f g).0 q, to t), λ _ t. from t)
      | inr q ↦
          rw (compare_address, fa, fb, q)
            (false, refl, λ t. absurd (cc t), λ same t. absurd (cc (same, q, ==_refl f)))
    ]
