-- ===== src/Drivers/Transfers/Reads.antt =====
-- What `readAll` does on a connection that may block and transfer parts.
use sydn.Common.{
  ℕ, zero, suc, ◌+◌, ◌^◌, ◌≤◌, ◌<◌, ◌≡◌, refl, sym, ap, ◌∙◌, inl, inr, List, [], ◌∷◌, ◌++◌, map,
  append_assoc, arith, length, take, drop, splice, replicate, length-append, length-take,
  length-map, length-drop, length-replicate, length-eq_zero, take-append, drop-append,
  splice-append, take-append-take-drop, drop-drop, ◌==◌, Bool-cases, narrow-pos, narrow-minus_one,
  is_nonneg, to_size, Cell, byte, unspecified, ℤ,
}
use mathlib.Core.Path.{subst}
use sydn.Posix.Platform.{Platform}
use sydn.Posix.Kernel.{Kernel}
use sydn.Posix.Fair.{FairInput}
use sydn.Posix.Returns.{Returns, Returns-mono}
use sydn.Drivers.Transfers.{read_loop, read_all}
use sydn.Drivers.Transfers.Rounds.{counted, difference, retry-WouldBlock}

map-append : (xs ys : List ℕ) → map byte (xs ++ ys) ≡ map byte xs ++ map byte ys
map-append [] ys = refl
map-append (x ∷ xs) ys = ap (◌∷◌ (byte x)) (map-append xs ys)

module _ (p : Platform) {W : Type 0} (k : Kernel W) {fd : ℤ} (s : FairInput p k fd) where
  abbrev Read : ℕ → List Cell → W → List Cell → W → Type 0
  Read left before w buffer w' =
      (buffer ≡ before ++ map byte (take left (s.input w))) × (s.input w' ≡ drop left (s.input w))

  -- The bytes that a call has read, and what is left of the buffer.
  got : List Cell → ℕ → W → List Cell
  got before n w = before ++ map byte (take n (s.input w))

  length-got :
      (before : List Cell) (n : ℕ) (w : W)
      → n ≤ length (s.input w)
      → length (got before n w) ≡ length before + n
  unfolding got
  length-got before n w h = omega (
    arith,
    length-append before (map byte (take n (s.input w))),
    length-map byte (take n (s.input w)),
    length-take n (s.input w),
  )

  got-splice :
      (before rest : List Cell) (n : ℕ) (w : W)
      → n ≤ length rest
      → n ≤ length (s.input w)
      → before ++ splice rest (map byte (take n (s.input w))) ≡ got before n w ++ drop n rest
  unfolding got
  got-splice before rest n w fits room =
      let xs = map byte (take n (s.input w)) in
      let len : length xs ≡ n =
        omega (arith, length-map byte (take n (s.input w)), length-take n (s.input w)) in
      ap (◌++◌ before)
        (splice-append rest xs (omega (arith, len)) ∙ ap (λ i. xs ++ drop i rest) len)
      ∙ sym (append_assoc before xs (drop n rest))

  got-got :
      (before : List Cell) (n m l : ℕ) (w w' : W)
      → n + m ≡ l
      → s.input w' ≡ drop n (s.input w)
      → got before n w ++ map byte (take m (s.input w')) ≡ before ++ map byte (take l (s.input w))
  unfolding got
  got-got before n m l w w' h input =
      ap (λ i. (before ++ map byte (take n (s.input w))) ++ map byte (take m i)) input
      ∙ append_assoc before (map byte (take n (s.input w))) _
      ∙ ap (◌++◌ before) (
          sym (map-append (take n (s.input w)) _)
          ∙ ap (map byte) (take-append-take-drop n m l (s.input w) h))

  read_loop_lem :
      (fuel size : ℕ) (before rest : List Cell) (w : W)
      → length before + length rest ≡ size
      → size < 2 ^ 31
      → length rest ≤ length (s.input w)
      → length rest + s.patience w < fuel
      → Returns
          (Read (length rest) before w)
          (read_loop p k fuel fd size (length before) (before ++ rest) w)
  unfolding read_loop is_nonneg to_size
  read_loop_lem zero size before rest w total small there enough = absurd (omega arith)
  read_loop_lem (suc fuel) size before rest w total small there enough =
      elim (Bool-cases (length before == size)) [
        | inl e ↦ rw (e, length-eq_zero rest (ground (arith, total))) (refl, refl)
        | inr e ↦
            let there' : 0 < length rest = ground arith in
            elim (s.reads rest w there' (omega arith)) [
              | inl (blocked, same, input, less) ↦
                  rw
                    (
                      e,
                      drop-append before rest,
                      take-append before rest,
                      sym total,
                      difference (length before) (length rest) (omega arith),
                      blocked.0,
                      narrow-minus_one,
                    )
                    (rw same (
                      retry-WouldBlock p k _ _ (Read (length rest) before w) _ blocked (
                        Returns-mono (Read (length rest) before _) (Read (length rest) before w) _
                          (read_loop_lem fuel (length before + length rest) before rest _ refl
                            (omega arith) (rw input (omega arith)) (omega arith))
                          λ b w'' h. (
                            h.0 ∙ ap (λ i. before ++ map byte (take (length rest) i)) input,
                            h.1 ∙ ap (drop (length rest)) input,
                          ))))
              | inr (n, result, positive, fits, room, filled, input, less) ↦
                  rw
                    (
                      e,
                      drop-append before rest,
                      take-append before rest,
                      sym total,
                      difference (length before) (length rest) (omega arith),
                      result,
                      narrow-pos n (omega arith),
                    )
                    (rw
                      (
                        filled,
                        got-splice before rest n w fits room,
                        sym (counted _ _ _ (length-got before n w room) (omega arith)),
                      )
                      (Returns-mono (Read (length (drop n rest)) (got before n w) _)
                        (Read (length rest) before w) _
                        (read_loop_lem fuel (length before + length rest) (got before n w)
                          (drop n rest) _
                          (omega (arith, length-got before n w room, length-drop n rest))
                          (omega arith)
                          (rw input (omega (arith, length-drop n rest, length-drop n (s.input w))))
                          (omega (arith, length-drop n rest)))
                        λ b w'' h. (
                          h.0
                              ∙ got-got before n (length (drop n rest)) (length rest) w _
                                  (omega (arith, length-drop n rest)) input,
                          h.1
                              ∙ ap (drop (length (drop n rest))) input
                              ∙ drop-drop n (length (drop n rest)) (length rest) (s.input w)
                                  (omega (arith, length-drop n rest)),
                        )))
            ]
      ]

  -- `readAll` ends, with exactly the bytes that were asked for, and takes no more of the input. The
  -- peer sends that many, they are less than 2^31, and there is room for a round per byte and one per
  -- call that would have blocked.
  pub read_all_lem :
      (fuel size : ℕ) (w : W)
      → size < 2 ^ 31
      → size ≤ length (s.input w)
      → size + s.patience w < fuel
      → Returns
          (λ bytes w'.
            (bytes ≡ map byte (take size (s.input w))) × (s.input w' ≡ drop size (s.input w)))
          (read_all p k fuel fd size w)
  unfolding read_all
  read_all_lem fuel size w small there enough =
      let len = length-replicate size unspecified in
      subst
        (λ i.
          Returns
            (λ bytes w'.
              (bytes ≡ map byte (take i (s.input w))) × (s.input w' ≡ drop i (s.input w)))
            (read_all p k fuel fd size w))
        len
        (read_loop_lem fuel size [] (replicate size unspecified) w (omega (arith, len)) small
          (omega (arith, len)) (omega (arith, len)))
