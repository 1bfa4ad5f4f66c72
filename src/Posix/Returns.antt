-- ===== src/Posix/Returns.antt =====
-- Total correctness of a run: it returns, and what it returns has the property.
use sydn.Common.{◌≡◌, refl, sym, ◌∙◌, Option, none, some}
use mathlib.Core.Option
use sydn.Posix.Kernel.{M, ◌>>=◌}

abbrev pub Returns : {W A : Type 0} → (A → W → Type 0) → Option (A × W) → Type 0
Returns P none = ⊥
Returns P (some (a, w)) = P a w

pub Returns->>= :
    {W A B : Type 0} (P : A → W → Type 0) (Q : B → W → Type 0) (m : M W A) (f : A → M W B) (w : W)
    → Returns P (m w)
    → ((a : A) (w' : W) → P a w' → Returns Q (f a w'))
    → Returns Q ((m >>= f) w)
Returns->>= P Q m f w h then_ = bind (m w) h
  where
    bind : (r : Option _) → Returns P r → Returns Q (elim r [ none ↦ none | some (a, w') ↦ f a w' ])
    bind none h = h
    bind (some (a, w')) h = then_ a w' h

pub Returns-mono :
    {W A : Type 0} (P Q : A → W → Type 0) (r : Option (A × W))
    → Returns P r
    → ((a : A) (w : W) → P a w → Q a w)
    → Returns Q r
Returns-mono P Q none h f = h
Returns-mono P Q (some (a, w)) h f = f a w h

-- Partial correctness: what a run returns has the property, if it returns.
abbrev pub IfReturns : {W A : Type 0} → (A → W → Type 0) → Option (A × W) → Type 0
IfReturns P none = Unit
IfReturns P (some (a, w)) = P a w

pub IfReturns->>= :
    {W A B : Type 0} (Q : B → W → Type 0) (m : M W A) (f : A → M W B) (w : W)
    → ((a : A) (w' : W) → IfReturns Q (f a w'))
    → IfReturns Q ((m >>= f) w)
IfReturns->>= {W} {A} {B} Q m f w then_ = bind (m w)
  where
    bind : (r : Option (A × W)) → IfReturns Q (elim r [ none ↦ none | some (a, w') ↦ f a w' ])
    bind none = tt
    bind (some (a, w')) = then_ a w'

pub IfReturns-eq :
    {W A : Type 0} (P : A → W → Type 0) {r : Option (A × W)} {a : A} {w : W}
    → IfReturns P r
    → r ≡ some (a, w)
    → P a w
IfReturns-eq P h e = rw e at h

-- With what the first part is known to leave.
pub IfReturns-then :
    {W A B : Type 0} (P : A → W → Type 0) (Q : B → W → Type 0) (m : M W A) (f : A → M W B) (w : W)
    → IfReturns P (m w)
    → ((a : A) (w' : W) → P a w' → IfReturns Q (f a w'))
    → IfReturns Q ((m >>= f) w)
IfReturns-then {W} {A} {B} P Q m f w h then_ = bind (m w) h
  where
    bind :
        (r : Option (A × W))
        → IfReturns P r
        → IfReturns Q (elim r [ none ↦ none | some (a, w') ↦ f a w' ])
    bind none h = tt
    bind (some (a, w')) h = then_ a w' h

pub Returns-IfReturns :
    {W A : Type 0} (P : A → W → Type 0) (r : Option (A × W)) → Returns P r → IfReturns P r
Returns-IfReturns P none h = tt
Returns-IfReturns P (some (a, w)) h = h

pub IfReturns-map :
    {W A B : Type 0} (P : B → W → Type 0) (f : A × W → B × W) (r : Option (A × W))
    → IfReturns (λ a w. P (f (a, w)).0 (f (a, w)).1) r
    → IfReturns P (Option.map f r)
IfReturns-map P f none h = tt
IfReturns-map P f (some (a, w)) h = h

pub IfReturns-mono :
    {W A : Type 0} (P Q : A → W → Type 0) (r : Option (A × W))
    → IfReturns P r
    → ((a : A) (w : W) → P a w → Q a w)
    → IfReturns Q r
IfReturns-mono P Q none h f = tt
IfReturns-mono P Q (some (a, w)) h f = f a w h

pub Returns-map :
    {W A B : Type 0} (P : B → W → Type 0) (f : A × W → B × W) (r : Option (A × W))
    → Returns (λ a w. P (f (a, w)).0 (f (a, w)).1) r
    → Returns P (Option.map f r)
Returns-map P f none h = h
Returns-map P f (some (a, w)) h = h

pub Returns-both :
    {W A : Type 0} (P Q : A → W → Type 0) (r : Option (A × W))
    → Returns P r
    → IfReturns Q r
    → Returns (λ a w. P a w × Q a w) r
Returns-both P Q none h g = h
Returns-both P Q (some (a, w)) h g = (h, g)

-- Two ways to go on that agree.
pub >>=-ext :
    {W A B : Type 0} (m : M W A) (f g : A → M W B) (w : W)
    → ((a : A) (w' : W) → f a w' ≡ g a w')
    → (m >>= f) w ≡ (m >>= g) w
>>=-ext {W} {A} {B} m f g w h = go (m w)
  where
    go :
        (r : Option (A × W))
        → elim r [ none ↦ none | some (a, w') ↦ f a w' ]
          ≡ elim r [ none ↦ none | some (a, w') ↦ g a w' ]
    go none = refl
    go (some (a, w')) = h a w'

-- To go on from a mapped result.
pub >>=-map :
    {W A C B : Type 0} (m : M W A) (n : M W C) (read : A × W → C × W) (f : A → M W B)
    (g : C → M W B) (w : W)
    → n w ≡ Option.map read (m w)
    → ((a : A) (w' : W) → f a w' ≡ g (read (a, w')).0 (read (a, w')).1)
    → (n >>= g) w ≡ (m >>= f) w
>>=-map {W} {A} {C} {B} m n read f g w e h = rw (◌>>=◌, e) (go (m w))
  where
    go :
        (r : Option (A × W))
        → elim (Option.map read r) [ none ↦ none | some (c, w') ↦ g c w' ]
          ≡ elim r [ none ↦ none | some (a, w') ↦ f a w' ]
    go none = refl
    go (some (a, w')) = sym (h a w')

pub >>=-both :
    {W A B : Type 0} (m n : M W A) (f g : A → M W B) (w : W)
    → m w ≡ n w
    → ((a : A) (w' : W) → f a w' ≡ g a w')
    → (m >>= f) w ≡ (n >>= g) w
>>=-both m n f g w e h = >>=-ext m f g w h ∙ rw (◌>>=◌, e) refl
