-- ===== src/Tests/Drivers.antt =====
-- The helpers of the test drivers at concrete inputs, over the simulated kernel.
use sydn.Common.{
  ℕ, ◌≡◌, refl, sym, ap, true, not, ◌&&◌, inr, [], ◌∷◌, ◌++◌, List, map, take, splice, length,
  length-take, replicate, arith, byte, ℤ, pos, ◌==ℤ◌, take-length-take, drop-length-take,
}
use sydn.Posix.Fair.{FairInput, FairOutput}
use sydn.Posix.Returns.{Returns}
use sydn.Drivers.Servers.{expect_string, write_string}
use sydn.Drivers.Servers.Close.{expect_string_lem, write_string_lem}
use sydn.Tests.System.{linux, start, simulated, descriptors, is_open}
use sydn.Tests.Sockets.{kernel}

-- The simulated connection never blocks.
abbrev fair_input : (name : List ℕ) (fd : ℤ) → FairInput linux (simulated name) fd
fair_input name fd = record {
  input = λ w. w.input;
  patience = λ w. 0;
  reads = λ b w room there. inr (
    length (take (length b) w.input),
    refl,
    omega (arith, length-take (length b) w.input),
    omega (arith, length-take (length b) w.input),
    omega (arith, length-take (length b) w.input),
    ap (λ bytes. splice b (map byte bytes)) (sym (take-length-take (length b) w.input)),
    sym (drop-length-take (length b) w.input),
    omega arith,
  );
}

abbrev fair_output : (name : List ℕ) (fd : ℤ) → FairOutput linux (simulated name) fd
fair_output name fd = record {
  stands = λ w. true;
  output = λ w. w.output;
  patience = λ w. 0;
  writes = λ b w room up. (
    refl,
    inr (
      length (take (length b) b),
      refl,
      omega (arith, length-take (length b) b),
      omega (arith, length-take (length b) b),
      ap (λ bytes. w.output ++ bytes) (sym (take-length-take (length b) b)),
      omega arith,
    ),
  );
}

-- A listening descriptor, which is open.
abbrev listening : ℤ
listening = pos 0

expect_string_lem_example :
    Returns
      (λ found w'.
        (found ≡ true) × ((m : ℤ) → is_open w' m ≡ (is_open start m && not (m ==ℤ listening))))
      (expect_string linux kernel 3 (104 ∷ 105 ∷ []) listening start)
unfolding ◌==ℤ◌
expect_string_lem_example =
    expect_string_lem (descriptors (replicate 40 7)) linux 3 (104 ∷ 105 ∷ []) listening start
      (fair_input (replicate 40 7) (pos 3)) refl (omega arith) refl (omega arith)

write_string_lem_example :
    Returns
      (λ _ w'.
        (w'.output ≡ byte 1 ∷ byte 2 ∷ [])
        × ((m : ℤ) → is_open w' m ≡ (is_open start m && not (m ==ℤ listening))))
      (write_string linux kernel 3 (1 ∷ 2 ∷ []) listening start)
unfolding ◌==ℤ◌
write_string_lem_example =
    write_string_lem (descriptors (replicate 40 7)) linux 3 (1 ∷ 2 ∷ []) listening start
      (fair_output (replicate 40 7) (pos 3)) (λ w'. refl) refl refl (omega arith) (omega arith)
