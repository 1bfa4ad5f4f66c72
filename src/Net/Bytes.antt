-- ===== src/Net/Bytes.antt =====
-- Fields of C structures in memory: an unsigned 16-bit integer, with the low byte first.
use sydn.Common.{
  ℕ, zero, suc, ◌+◌, ◌*◌, ◌/◌, ◌%◌, ◌^◌, ◌<◌, ◌≤◌, ◌≡◌, refl, ap, List, [], ◌∷◌, Option, none, some,
  arith, length, map, take, drop, splice_at, splice, length-splice_at, Cell, byte, unspecified,
}

-- `none`: a byte has no value, or lies outside.
unfoldable pub load16 : List Cell → Option ℕ
load16 [] = none
load16 (unspecified ∷ bytes) = none
load16 (byte a ∷ []) = none
load16 (byte a ∷ unspecified ∷ bytes) = none
load16 (byte a ∷ byte b ∷ bytes) = some (a + 256 * b)

unfoldable pub bytes16 : ℕ → List Cell
bytes16 v = byte (v % 256) ∷ byte (v / 256 % 256) ∷ []

-- The field at an offset.
unfoldable pub get16 : ℕ → List Cell → Option ℕ
unfolding load16
get16 offset bytes = load16 (drop offset bytes)

unfoldable pub set16 : ℕ → ℕ → List Cell → List Cell
unfolding bytes16
set16 offset v bytes = splice_at offset bytes (bytes16 v)

load16-splice :
    (v : ℕ) (bytes : List Cell)
    → 2 ≤ length bytes
    → v < 2 ^ 16
    → load16 (splice bytes (bytes16 v)) ≡ some v
unfolding load16 bytes16
load16-splice v [] h lt = absurd (omega arith)
load16-splice v (a ∷ []) h lt = absurd (omega arith)
load16-splice v (a ∷ b ∷ bytes) h lt = ap some (omega arith)

-- What is stored is loaded.
pub get16-set16 :
    (offset v : ℕ) (bytes : List Cell)
    → offset + 2 ≤ length bytes
    → v < 2 ^ 16
    → get16 offset (set16 offset v bytes) ≡ some v
unfolding get16 set16
get16-set16 zero v bytes h lt = load16-splice v bytes (omega arith) lt
get16-set16 (suc offset) v [] h lt = absurd (omega arith)
get16-set16 (suc offset) v (a ∷ bytes) h lt = get16-set16 offset v bytes (omega arith) lt

load16-drop-splice_at :
    (n : ℕ) (bytes ys : List Cell) → 2 ≤ n → load16 (splice_at n bytes ys) ≡ load16 bytes
unfolding load16
load16-drop-splice_at zero bytes ys h = absurd (omega arith)
load16-drop-splice_at (suc zero) bytes ys h = absurd (omega arith)
load16-drop-splice_at (suc (suc n)) [] ys h = refl
load16-drop-splice_at (suc (suc n)) (unspecified ∷ bytes) ys h = refl
load16-drop-splice_at (suc (suc n)) (byte a ∷ []) ys h = refl
load16-drop-splice_at (suc (suc n)) (byte a ∷ unspecified ∷ bytes) ys h = refl
load16-drop-splice_at (suc (suc n)) (byte a ∷ byte b ∷ bytes) ys h = refl

-- A write behind the field does not change it.
pub get16-splice_at :
    (offset n : ℕ) (bytes ys : List Cell)
    → offset + 2 ≤ n
    → get16 offset (splice_at n bytes ys) ≡ get16 offset bytes
unfolding get16
get16-splice_at zero n bytes ys h = load16-drop-splice_at n bytes ys (omega arith)
get16-splice_at (suc offset) zero bytes ys h = absurd (omega arith)
get16-splice_at (suc offset) (suc n) [] ys h = refl
get16-splice_at (suc offset) (suc n) (a ∷ bytes) ys h =
    get16-splice_at offset n bytes ys (omega arith)

pub length-set16 : (offset v : ℕ) (bytes : List Cell) → length (set16 offset v bytes) ≡ length bytes
unfolding set16
length-set16 offset v bytes = length-splice_at offset bytes (bytes16 v)

-- To store a field behind another does not change the other.
pub get16-set16_before :
    (offset n v : ℕ) (bytes : List Cell)
    → offset + 2 ≤ n
    → get16 offset (set16 n v bytes) ≡ get16 offset bytes
unfolding set16
get16-set16_before offset n v bytes h = get16-splice_at offset n bytes (bytes16 v) h

-- A field that lies before the end of a part of the memory.
pub get16-take : (n : ℕ) (bytes : List Cell) → 2 ≤ n → get16 0 (take n bytes) ≡ get16 0 bytes
unfolding get16 load16
get16-take zero bytes h = absurd (omega arith)
get16-take (suc zero) bytes h = absurd (omega arith)
get16-take (suc (suc n)) [] h = refl
get16-take (suc (suc n)) (unspecified ∷ bytes) h = refl
get16-take (suc (suc n)) (byte a ∷ []) h = refl
get16-take (suc (suc n)) (byte a ∷ unspecified ∷ bytes) h = refl
get16-take (suc (suc n)) (byte a ∷ byte b ∷ bytes) h = refl

-- A field that has a value has one after bytes were written over the memory.
pub get16-splice :
    (bytes : List Cell) (ys : List ℕ) (v : ℕ)
    → get16 0 bytes ≡ some v
    → (v' : ℕ) × (get16 0 (splice bytes (map byte ys)) ≡ some v')
unfolding get16 load16
get16-splice [] ys v h = absurd (cc h)
get16-splice (unspecified ∷ bytes) ys v h = absurd (cc h)
get16-splice (byte a ∷ []) ys v h = absurd (cc h)
get16-splice (byte a ∷ unspecified ∷ bytes) ys v h = absurd (cc h)
get16-splice (byte a ∷ byte b ∷ bytes) [] v h = (v, h)
get16-splice (byte a ∷ byte b ∷ bytes) (x ∷ []) v h = (x + 256 * b, refl)
get16-splice (byte a ∷ byte b ∷ bytes) (x ∷ y ∷ ys) v h = (x + 256 * y, refl)
