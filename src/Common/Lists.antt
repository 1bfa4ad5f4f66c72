-- ===== src/Common/Lists.antt =====
-- Lists measured and indexed by native numbers, under the library's names, and the overwriting of
-- a prefix, by which writes through a pointer are modelled.
use Prim.Native.Nat.{ℕ, zero, suc, ◌+◌, ◌-◌, ◌≤◌, min}
use mathlib.Core.Path.{◌≡◌, refl, ap}
use mathlib.Core.List.{List, [], ◌∷◌, ◌++◌, map}
use native.Mathlib.Omega.{arith}

module _ {ℓ} {A : Type ℓ} where
  abbrev pub length : List A → ℕ
  length [] = 0
  length (x ∷ xs) = suc (length xs)

  abbrev pub take : ℕ → List A → List A
  take zero xs = []
  take (suc n) [] = []
  take (suc n) (x ∷ xs) = x ∷ take n xs

  abbrev pub drop : ℕ → List A → List A
  drop zero xs = xs
  drop (suc n) [] = []
  drop (suc n) (x ∷ xs) = drop n xs

  abbrev pub replicate : ℕ → A → List A
  replicate zero a = []
  replicate (suc n) a = a ∷ replicate n a

  -- The first elements of the first list are replaced by the second list, as far as there is room.
  abbrev pub splice : List A → List A → List A
  splice [] ys = []
  splice (x ∷ xs) [] = x ∷ xs
  splice (x ∷ xs) (y ∷ ys) = y ∷ splice xs ys

  -- The same, from an index on.
  abbrev pub splice_at : ℕ → List A → List A → List A
  splice_at zero xs ys = splice xs ys
  splice_at (suc n) [] ys = []
  splice_at (suc n) (x ∷ xs) ys = x ∷ splice_at n xs ys

module _ {ℓ} {A : Type ℓ} where
  pub length-append : (xs ys : List A) → length (xs ++ ys) ≡ length xs + length ys
  length-append [] ys = omega arith
  length-append (x ∷ xs) ys = omega (arith, length-append xs ys)

  pub length-take : (n : ℕ) (xs : List A) → length (take n xs) ≡ min n (length xs)
  length-take zero xs = omega arith
  length-take (suc n) [] = omega arith
  length-take (suc n) (x ∷ xs) = omega (arith, length-take n xs)

  pub length-drop : (n : ℕ) (xs : List A) → length (drop n xs) ≡ length xs - n
  length-drop zero xs = omega arith
  length-drop (suc n) [] = omega arith
  length-drop (suc n) (x ∷ xs) = omega (arith, length-drop n xs)

  pub length-replicate : (n : ℕ) (a : A) → length (replicate n a) ≡ n
  length-replicate zero a = refl
  length-replicate (suc n) a = ap suc (length-replicate n a)

  pub length-map {κ} : {B : Type κ} (f : A → B) (xs : List A) → length (map f xs) ≡ length xs
  length-map f [] = refl
  length-map f (x ∷ xs) = ap suc (length-map f xs)

  pub length-splice : (xs ys : List A) → length (splice xs ys) ≡ length xs
  length-splice [] ys = refl
  length-splice (x ∷ xs) [] = refl
  length-splice (x ∷ xs) (y ∷ ys) = ap suc (length-splice xs ys)

  pub length-splice_at : (n : ℕ) (xs ys : List A) → length (splice_at n xs ys) ≡ length xs
  length-splice_at zero xs ys = length-splice xs ys
  length-splice_at (suc n) [] ys = refl
  length-splice_at (suc n) (x ∷ xs) ys = ap suc (length-splice_at n xs ys)

  pub take-all : (n : ℕ) (xs : List A) → length xs ≤ n → take n xs ≡ xs
  take-all zero [] h = refl
  take-all zero (x ∷ xs) h = absurd (omega arith)
  take-all (suc n) [] h = refl
  take-all (suc n) (x ∷ xs) h = ap (◌∷◌ x) (take-all n xs (omega arith))

  -- What was written is read back.
  pub take-splice :
      (n : ℕ) (xs ys : List A) → length ys ≡ n → n ≤ length xs → take n (splice xs ys) ≡ ys
  take-splice zero xs [] e h = refl
  take-splice zero xs (y ∷ ys) e h = absurd (omega arith)
  take-splice (suc n) [] ys e h = absurd (omega arith)
  take-splice (suc n) (x ∷ xs) [] e h = absurd (omega arith)
  take-splice (suc n) (x ∷ xs) (y ∷ ys) e h =
      ap (◌∷◌ y) (take-splice n xs ys (omega arith) (omega arith))

  -- Writing back what is there changes nothing.
  pub splice-take_self : (n : ℕ) (xs : List A) → splice xs (take n xs) ≡ xs
  splice-take_self zero [] = refl
  splice-take_self zero (x ∷ xs) = refl
  splice-take_self (suc n) [] = refl
  splice-take_self (suc n) (x ∷ xs) = ap (◌∷◌ x) (splice-take_self n xs)

  pub take-append : (xs ys : List A) → take (length xs) (xs ++ ys) ≡ xs
  take-append [] ys = refl
  take-append (x ∷ xs) ys = ap (◌∷◌ x) (take-append xs ys)

  pub length-eq_zero : (xs : List A) → length xs ≡ 0 → xs ≡ []
  length-eq_zero [] e = refl
  length-eq_zero (x ∷ xs) e = absurd (omega arith)

  pub take-length-take : (n : ℕ) (xs : List A) → take (length (take n xs)) xs ≡ take n xs
  take-length-take zero xs = refl
  take-length-take (suc n) [] = refl
  take-length-take (suc n) (x ∷ xs) = ap (◌∷◌ x) (take-length-take n xs)

  pub drop-length-take : (n : ℕ) (xs : List A) → drop (length (take n xs)) xs ≡ drop n xs
  drop-length-take zero xs = refl
  drop-length-take (suc n) [] = refl
  drop-length-take (suc n) (x ∷ xs) = drop-length-take n xs

  pub take-append-drop : (n : ℕ) (xs : List A) → take n xs ++ drop n xs ≡ xs
  take-append-drop zero xs = refl
  take-append-drop (suc n) [] = refl
  take-append-drop (suc n) (x ∷ xs) = ap (◌∷◌ x) (take-append-drop n xs)

  pub take-replicate : (n m : ℕ) (a : A) → n ≤ m → take n (replicate m a) ≡ replicate n a
  take-replicate zero m a h = refl
  take-replicate (suc n) zero a h = absurd (omega arith)
  take-replicate (suc n) (suc m) a h = ap (◌∷◌ a) (take-replicate n m a (omega arith))

  pub drop-splice_at : (n : ℕ) (xs ys : List A) → drop n (splice_at n xs ys) ≡ splice (drop n xs) ys
  drop-splice_at zero xs ys = refl
  drop-splice_at (suc n) [] ys = refl
  drop-splice_at (suc n) (x ∷ xs) ys = drop-splice_at n xs ys

  pub splice-nil : (xs : List A) → splice xs [] ≡ xs
  splice-nil [] = refl
  splice-nil (x ∷ xs) = refl

  pub splice_self : (xs : List A) → splice xs xs ≡ xs
  splice_self [] = refl
  splice_self (x ∷ xs) = ap (◌∷◌ x) (splice_self xs)

  -- Writing back what is there, from an index on, changes nothing.
  pub splice_at-drop_self : (n : ℕ) (xs : List A) → splice_at n xs (drop n xs) ≡ xs
  splice_at-drop_self zero xs = splice_self xs
  splice_at-drop_self (suc n) [] = refl
  splice_at-drop_self (suc n) (x ∷ xs) = ap (◌∷◌ x) (splice_at-drop_self n xs)

  pub drop-append : (xs ys : List A) → drop (length xs) (xs ++ ys) ≡ ys
  drop-append [] ys = refl
  drop-append (x ∷ xs) ys = drop-append xs ys

  pub splice-append :
      (xs ys : List A) → length ys ≤ length xs → splice xs ys ≡ ys ++ drop (length ys) xs
  splice-append [] [] h = refl
  splice-append (x ∷ xs) [] h = refl
  splice-append [] (y ∷ ys) h = absurd (omega arith)
  splice-append (x ∷ xs) (y ∷ ys) h = ap (◌∷◌ y) (splice-append xs ys (omega arith))

  pub take-append-take-drop :
      (n m l : ℕ) (xs : List A) → n + m ≡ l → take n xs ++ take m (drop n xs) ≡ take l xs
  take-append-take-drop zero m l xs h = ap (λ i. take i xs) (omega arith)
  take-append-take-drop (suc n) m zero xs h = absurd (omega arith)
  take-append-take-drop (suc n) zero (suc l) [] h = refl
  take-append-take-drop (suc n) (suc m) (suc l) [] h = refl
  take-append-take-drop (suc n) m (suc l) (x ∷ xs) h =
      ap (◌∷◌ x) (take-append-take-drop n m l xs (omega arith))

  pub drop-drop : (n m l : ℕ) (xs : List A) → n + m ≡ l → drop m (drop n xs) ≡ drop l xs
  drop-drop zero m l xs h = ap (λ i. drop i xs) (omega arith)
  drop-drop (suc n) m zero xs h = absurd (omega arith)
  drop-drop (suc n) zero (suc l) [] h = refl
  drop-drop (suc n) (suc m) (suc l) [] h = refl
  drop-drop (suc n) m (suc l) (x ∷ xs) h = drop-drop n m l xs (omega arith)
