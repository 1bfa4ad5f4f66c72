-- ===== src/Drivers/Usage/Counts.antt =====
-- `countFileDescriptorsInUse` counts the open descriptors.
use sydn.Common.{
  ltb, ℕ, zero, suc, ◌+◌, ◌^◌, ◌≤◌, ◌<◌, ◌≡◌, refl, ap, ◌∙◌, Bool, true, not, lt→ltb, ℤ, pos,
  minus_one, ◌==ℤ◌, ==ℤ_refl, Bool-cases, bit, inl, inr, arith,
}
use sydn.Posix.Kernel.{Kernel}
use sydn.Posix.Laws.{Descriptors}
use sydn.Posix.Returns.{Returns, Returns-mono, IfReturns}
use sydn.Drivers.Usage.{Limits, count_loop, count_in_use}

-- Below the limit, which an `int` can count to, `fcntl` tells which descriptors are open; no call of
-- these two opens or closes one. Every open descriptor is below the limit.
pub record IsLimited {W : Type 0} {k : Kernel W} (d : Descriptors k) (l : Limits W) : Type 0 where
  pub limit : ℕ
  pub counted : limit < 2 ^ 31
  pub rlimit : (w : W) → (l.getrlimit w).0 ≡ (pos 0, limit)
  pub rlimit_keeps : (w : W) (m : ℤ) → d.is_open (l.getrlimit w).1 m ≡ d.is_open w m
  pub tells : (n : ℕ) (w : W) → ((l.fcntl (pos n) w).0 ==ℤ minus_one) ≡ not (d.is_open w (pos n))
  pub in_range : (w : W) (m : ℤ) → d.is_open w m ≡ true → (n : ℕ) × (m ≡ pos n) × (n < limit)
  pub keeps : (fd : ℤ) (w : W) (m : ℤ) → d.is_open (l.fcntl fd w).1 m ≡ d.is_open w m

-- How many of that many numbers from `i` on satisfy a test.
abbrev pub how_many : (ℤ → Bool) → ℕ → ℕ → ℕ
how_many test zero i = 0
how_many test (suc left) i = bit (test (pos i)) + how_many test left (suc i)

pub how_many-ext :
    (f g : ℤ → Bool) (left i : ℕ) → ((m : ℤ) → f m ≡ g m) → how_many f left i ≡ how_many g left i
how_many-ext f g zero i h = refl
how_many-ext f g (suc left) i h = omega (arith, ap bit (h (pos i)), how_many-ext f g left (suc i) h)

how_many-sum :
    (f g h : ℤ → Bool) (left i : ℕ)
    → ((n : ℕ) → bit (g (pos n)) ≡ bit (f (pos n)) + bit (h (pos n)))
    → how_many g left i ≡ how_many f left i + how_many h left i
how_many-sum f g h zero i e = omega arith
how_many-sum f g h (suc left) i e = omega (arith, e i, how_many-sum f g h left (suc i) e)

how_many_self : (n left i : ℕ) → i ≤ n → n < i + left → 0 < how_many (λ m. m ==ℤ pos n) left i
unfolding ◌==ℤ◌
how_many_self n zero i least below = absurd (omega arith)
how_many_self n (suc left) i least below = elim (Bool-cases (pos i ==ℤ pos n)) [
  | inl e ↦ omega (arith, ap bit e)
  | inr e ↦ omega (arith, how_many_self n left (suc i) (ground (arith, e)) (omega arith))
]

-- A descriptor more below the limit is counted.
pub how_many-gain :
    (f g : ℤ → Bool) (n left : ℕ)
    → ((i : ℕ) → bit (g (pos i)) ≡ bit (f (pos i)) + bit (pos i ==ℤ pos n))
    → n < left
    → how_many f left 0 < how_many g left 0
how_many-gain f g n left e below = omega (
  arith,
  how_many-sum f g (λ m. m ==ℤ pos n) left 0 e,
  how_many_self n left 0 (omega arith) (omega arith),
)

how_many_most : (test : ℤ → Bool) (left i : ℕ) → how_many test left i ≤ left
how_many_most test zero i = omega arith
how_many_most test (suc left) i = elim (Bool-cases (test (pos i))) [
  | inl e ↦ omega (arith, ap bit e, how_many_most test left (suc i))
  | inr e ↦ omega (arith, ap bit e, how_many_most test left (suc i))
]

-- What `fcntl` and `getrlimit` keep, the count keeps.
module _ {W : Type 0} (k : Kernel W) (l : Limits W) (P : W → Type 0)
    (fcntl_keeps : (fd : ℤ) (w : W) → P w → P (l.fcntl fd w).1)
    (getrlimit_keeps : (w : W) → P w → P (l.getrlimit w).1) where
  count_loop_keeps :
      (left i count : ℕ) (w : W) → P w → IfReturns (λ _ w'. P w') (count_loop k l left i count w)
  unfolding count_loop
  count_loop_keeps zero i count w h = h
  count_loop_keeps (suc left) i count w h =
      let w₁ = (l.fcntl (pos i) w).1 in
      elim (Bool-cases (ltb (suc i) (2 ^ 31))) [
        | inl e ↦ rw e (count_loop_keeps left (suc i) _ w₁ (fcntl_keeps (pos i) w h))
        | inr e ↦ rw e tt
      ]

  pub count_in_use_keeps : (w : W) → P w → IfReturns (λ _ w'. P w') (count_in_use k l w)
  unfolding count_in_use
  count_in_use_keeps w h =
      let ((res, most), w₁) = l.getrlimit w in
      elim (Bool-cases (res ==ℤ pos 0)) [
        | inl e ↦ rw e (count_loop_keeps most 0 0 w₁ (getrlimit_keeps w h))
        | inr e ↦ rw e tt
      ]

module _ {W : Type 0} {k : Kernel W} (d : Descriptors k) (l : Limits W)
    (limited : IsLimited d l) where
  count_loop_lem :
      (left i count : ℕ) (w : W)
      → i + left < 2 ^ 31
      → Returns
          (λ n w'.
            (n ≡ count + how_many (d.is_open w) left i)
            × ((m : ℤ) → d.is_open w' m ≡ d.is_open w m))
          (count_loop k l left i count w)
  unfolding count_loop
  count_loop_lem zero i count w h = (omega arith, λ m. refl)
  count_loop_lem (suc left) i count w h =
      let w₁ = (l.fcntl (pos i) w).1 in
      let kept = limited.keeps (pos i) w in
      let fits = lt→ltb (suc i) (2 ^ 31) (omega arith) in
      let go : (more : ℕ)
          → Returns
              (λ n w'.
                (n ≡ count + (more + how_many (d.is_open w) left (suc i)))
                × ((m : ℤ) → d.is_open w' m ≡ d.is_open w m))
              (count_loop k l left (suc i) (count + more) w₁) =
        λ more.
          Returns-mono
            (λ n w'.
              (n ≡ count + more + how_many (d.is_open w₁) left (suc i))
              × ((m : ℤ) → d.is_open w' m ≡ d.is_open w₁ m))
            _ (count_loop k l left (suc i) (count + more) w₁)
            (count_loop_lem left (suc i) (count + more) w₁ (omega arith))
            λ n w' (e, h). (
              omega (arith, e, how_many-ext (d.is_open w₁) (d.is_open w) left (suc i) kept),
              λ m. h m ∙ kept m,
            ) in
      elim (Bool-cases (d.is_open w (pos i))) [
        | inl e ↦ rw (fits, limited.tells i w, e) (go 1)
        | inr e ↦ rw (fits, limited.tells i w, e) (go 0)
      ]

  -- The count is the number of open descriptors below the limit, and the count changes none of them.
  pub count_in_use_lem :
      (w : W)
      → Returns
          (λ n w'.
            (n ≡ how_many (d.is_open w) limited.limit 0)
            × ((m : ℤ) → d.is_open w' m ≡ d.is_open w m))
          (count_in_use k l w)
  unfolding count_in_use
  count_in_use_lem w =
      let w₁ = (l.getrlimit w).1 in
      let kept = limited.rlimit_keeps w in
      rw (limited.rlimit w, ==ℤ_refl (pos 0))
        (Returns-mono
          (λ n w'.
            (n ≡ 0 + how_many (d.is_open w₁) limited.limit 0)
            × ((m : ℤ) → d.is_open w' m ≡ d.is_open w₁ m))
          _ (count_loop k l limited.limit 0 0 w₁)
          (count_loop_lem limited.limit 0 0 w₁ (omega (arith, limited.counted)))
          λ n w' (e, h). (
            omega (arith, e, how_many-ext (d.is_open w₁) (d.is_open w) limited.limit 0 kept),
            λ m. h m ∙ kept m,
          ))

  -- The count ends, is the number of the open descriptors, is at most the limit, which is below 2^31,
  -- and changes none of them.
  pub count_in_use_bounded :
      (w : W)
      → Returns
          (λ n w'.
            (n ≡ how_many (d.is_open w) limited.limit 0)
            × (n ≤ limited.limit)
            × (n < 2 ^ 31)
            × ((m : ℤ) → d.is_open w' m ≡ d.is_open w m))
          (count_in_use k l w)
  count_in_use_bounded w =
      let most = how_many_most (d.is_open w) limited.limit 0 in
      Returns-mono
        (λ n w'.
          (n ≡ how_many (d.is_open w) limited.limit 0) × ((m : ℤ) → d.is_open w' m ≡ d.is_open w m))
        _ (count_in_use k l w) (count_in_use_lem w)
        λ n w' (e, same). (e, omega (arith, e, most), omega (arith, e, most, limited.counted), same)
