-- ===== src/Drivers/Transfers/Writes.antt =====
-- What `writeAll` does on a connection that may block and transfer parts.
use sydn.Common.{
  true, ℕ, zero, suc, ◌+◌, ◌^◌, ◌≤◌, ◌<◌, ◌≡◌, sym, ap, ◌∙◌, inl, inr, List, [], ◌++◌, append-nil,
  append_assoc, arith, length, take, drop, length-append, length-take, length-drop, length-eq_zero,
  take-append-drop, drop-append, ◌==◌, Bool-cases, narrow-pos, narrow-minus_one, is_nonneg, to_size,
  Cell, ℤ,
}
use sydn.Posix.Platform.{Platform}
use sydn.Posix.Kernel.{Kernel}
use sydn.Posix.Fair.{FairOutput}
use sydn.Posix.Returns.{Returns, Returns-mono}
use sydn.Drivers.Transfers.{write_loop, write_all}
use sydn.Drivers.Transfers.Rounds.{counted, difference, retry-WouldBlock}

whole : (before rest : List Cell) (n : ℕ) → before ++ rest ≡ (before ++ take n rest) ++ drop n rest
whole before rest n =
    ap (◌++◌ before) (sym (take-append-drop n rest))
    ∙ sym (append_assoc before (take n rest) (drop n rest))

sent :
    (before rest : List Cell) (n : ℕ)
    → n ≤ length rest
    → length (before ++ take n rest) ≡ length before + n
sent before rest n fits = omega (arith, length-append before (take n rest), length-take n rest)

module _ (p : Platform) {W : Type 0} (k : Kernel W) {fd : ℤ} (s : FairOutput p k fd) where
  write_loop_lem :
      (fuel : ℕ) (before rest : List Cell) (w : W)
      → s.stands w ≡ true
      → length before + length rest < 2 ^ 31
      → length rest + s.patience w < fuel
      → Returns
          (λ _ w'. s.output w' ≡ s.output w ++ rest)
          (write_loop p k fuel fd (before ++ rest) (length before) w)
  unfolding write_loop is_nonneg to_size
  write_loop_lem zero before rest w up small enough = absurd (omega arith)
  write_loop_lem (suc fuel) before rest w up small enough =
      let total = length-append before rest in
      elim (Bool-cases (length before == length (before ++ rest))) [
        | inl e ↦
            rw (e, length-eq_zero rest (ground (arith, total))) (sym (append-nil (s.output w)))
        | inr e ↦
            let (up', outcome) = s.writes rest w (ground (arith, total)) up in
            elim outcome [
              | inl (blocked, output, less) ↦
                  rw
                    (
                      e,
                      drop-append before rest,
                      total,
                      difference (length before) (length rest) small,
                      blocked.0,
                      narrow-minus_one,
                    )
                    (retry-WouldBlock p k _ _ (λ _ w'. s.output w' ≡ s.output w ++ rest) _ blocked
                      (Returns-mono (λ _ w'. s.output w' ≡ s.output _ ++ rest)
                        (λ _ w'. s.output w' ≡ s.output w ++ rest) _
                        (write_loop_lem fuel before rest _ up' small (omega arith))
                        λ _ w'' h. h ∙ ap (λ i. i ++ rest) output))
              | inr (n, result, positive, fits, output, less) ↦
                  rw
                    (
                      e,
                      drop-append before rest,
                      total,
                      difference (length before) (length rest) small,
                      result,
                      narrow-pos n (omega arith),
                    )
                    (rw
                      (
                        whole before rest n,
                        sym (counted _ _ _ (sent before rest n fits) (omega arith)),
                      )
                      (Returns-mono (λ _ w'. s.output w' ≡ s.output _ ++ drop n rest)
                        (λ _ w'. s.output w' ≡ s.output w ++ rest) _
                        (write_loop_lem fuel (before ++ take n rest) (drop n rest) _ up'
                          (omega (arith, sent before rest n fits, length-drop n rest))
                          (omega (arith, length-drop n rest)))
                        λ _ w'' h.
                          h
                          ∙ ap (λ i. i ++ drop n rest) output
                          ∙ append_assoc (s.output w) (take n rest) (drop n rest)
                          ∙ ap (◌++◌ (s.output w)) (take-append-drop n rest)))
            ]
      ]

  -- `writeAll` ends, and has written the whole text, once and in order. The connection stands,
  -- the text is shorter than 2^31, and there is room for a round per byte and one per call that would have blocked.
  pub write_all_lem :
      (fuel : ℕ) (str : List Cell) (w : W)
      → s.stands w ≡ true
      → length str < 2 ^ 31
      → length str + s.patience w < fuel
      → Returns (λ _ w'. s.output w' ≡ s.output w ++ str) (write_all p k fuel fd str w)
  unfolding write_all
  write_all_lem fuel str w up small enough = write_loop_lem fuel [] str w up (omega arith) enough
