-- ===== src/Drivers/Servers/Close.antt =====
-- What the servers' futures do with their connection and their descriptors.
use sydn.Common.{
  ℕ, zero, suc, ◌+◌, ◌<◌, ◌^◌, ◌≡◌, refl, ap, ◌∙◌, true, false, not, ◌&&◌, ◌||◌, none, some, List,
  [], ◌∷◌, ◌++◌, length, length-map, length-take, map, take, drop, ◌==◌, ==_refl, ℤ, minus_one,
  ◌==ℤ◌, ==ℤ_iff, narrow, is_nonneg, Cell, byte, Bool-cases, inl, inr, arith,
}
use sydn.Posix.Platform.{Platform}
use sydn.Posix.Kernel.{Kernel, M}
use sydn.Posix.Laws.{Descriptors}
use sydn.Posix.Fair.{FairInput, FairOutput}
use sydn.Posix.Returns.{IfReturns, IfReturns-mono, Returns, Returns->>=, Returns-both}
use sydn.Drivers.Calls.{memcmp_eq}
use sydn.Drivers.Transfers.{size_difference, retry, read_loop, read_all, write_loop, write_all}
use sydn.Drivers.Transfers.Reads.{read_all_lem}
use sydn.Drivers.Transfers.Writes.{write_all_lem}
use sydn.Drivers.Servers.{same_text, expect_string, write_string}

memcmp_eq_self :
    (xs : List ℕ) → memcmp_eq (length (map byte xs)) (map byte xs) (map byte xs) ≡ some true
unfolding memcmp_eq
memcmp_eq_self [] = refl
memcmp_eq_self (x ∷ xs) = rw (==_refl x) (memcmp_eq_self xs)

same_text_self : (xs : List ℕ) → same_text (map byte xs) (map byte xs) ≡ some true
unfolding same_text
same_text_self xs = rw (==_refl (length (map byte xs))) (memcmp_eq_self xs)

module _ {W : Type 0} {k : Kernel W} (d : Descriptors k) (p : Platform) where
  abbrev Keeps : W → W → Type 0
  Keeps w w' = (m : ℤ) → d.is_open w' m ≡ d.is_open w m

  retry-Keeps :
      {A : Type 0} (again : M W A) (w : W)
      → IfReturns (λ _ w'. Keeps w w') (again w)
      → IfReturns (λ _ w'. Keeps w w') (retry p k again w)
  retry-Keeps again w h =
      elim (Bool-cases
        (k.errno w == p.operation_would_block || k.errno w == p.resource_unavailable_try_again)) [
          | inl e ↦ rw e h
          | inr e ↦ rw e tt
        ]

  read_loop-Keeps :
      (fuel : ℕ) (fd : ℤ) (size count : ℕ) (buffer : List Cell) (w : W)
      → IfReturns (λ _ w'. Keeps w w') (read_loop p k fuel fd size count buffer w)
  unfolding read_loop
  read_loop-Keeps zero fd size count buffer w = tt
  read_loop-Keeps (suc fuel) fd size count buffer w =
      let read = k.read fd (drop count buffer) (size_difference size count) w in
      let keeps = d.read_keeps fd (drop count buffer) (size_difference size count) w in
      elim (Bool-cases (count == size)) [
        | inl e ↦ rw e λ m. refl
        | inr e ↦ elim (Bool-cases (is_nonneg (narrow read.0))) [
          | inl n ↦
              rw (e, n)
                (IfReturns-mono (λ _ w'. Keeps read.2 w') (λ _ w'. Keeps w w') _
                  (read_loop-Keeps fuel fd size _ (take count buffer ++ read.1) read.2)
                  λ _ w' h m. h m ∙ keeps m)
          | inr n ↦
              rw (e, n)
                (IfReturns-mono (λ _ w'. Keeps read.2 w') (λ _ w'. Keeps w w') _
                  (retry-Keeps (read_loop p k fuel fd size count (take count buffer ++ read.1))
                    read.2
                    (read_loop-Keeps fuel fd size count (take count buffer ++ read.1) read.2))
                  λ _ w' h m. h m ∙ keeps m)
        ]
      ]

  write_loop-Keeps :
      (fuel : ℕ) (fd : ℤ) (str : List Cell) (count : ℕ) (w : W)
      → IfReturns (λ _ w'. Keeps w w') (write_loop p k fuel fd str count w)
  unfolding write_loop
  write_loop-Keeps zero fd str count w = tt
  write_loop-Keeps (suc fuel) fd str count w =
      let written = k.write fd (drop count str) (size_difference (length str) count) w in
      let keeps = d.write_keeps fd (drop count str) (size_difference (length str) count) w in
      elim (Bool-cases (count == length str)) [
        | inl e ↦ rw e λ m. refl
        | inr e ↦ elim (Bool-cases (is_nonneg (narrow written.0))) [
          | inl n ↦
              rw (e, n)
                (IfReturns-mono (λ _ w'. Keeps written.1 w') (λ _ w'. Keeps w w') _
                  (write_loop-Keeps fuel fd str _ written.1) λ _ w' h m. h m ∙ keeps m)
          | inr n ↦
              rw (e, n)
                (IfReturns-mono (λ _ w'. Keeps written.1 w') (λ _ w'. Keeps w w') _
                  (retry-Keeps (write_loop p k fuel fd str count) written.1
                    (write_loop-Keeps fuel fd str count written.1))
                  λ _ w' h m. h m ∙ keeps m)
        ]
      ]

  -- A descriptor that was accepted at `w`, with the listening one closed, is closed: what is left.
  finished :
      (server : ℤ) (w w' : W)
      → Keeps (k.close server (k.accept server none 0 w).1).1 w'
      → (m : ℤ)
      → d.is_open (k.close (k.accept server none 0 w).0.result w').1 m
        ≡ (d.is_open w m && not (m ==ℤ server))
  finished server w w' keeps m =
      let fd = (k.accept server none 0 w).0.result in
      let fresh : (m ==ℤ fd) ≡ true → d.is_open w m ≡ false =
        λ e. ap (d.is_open w) ((==ℤ_iff m fd).0 e) ∙ d.accept_fresh server none 0 w in
      ground (
        arith,
        d.close_closes fd w' m,
        keeps m,
        d.close_closes server (k.accept server none 0 w).1 m,
        d.accept_opens server none 0 w m,
        fresh,
      )

  -- A server that expects a text of less than 2^31 bytes ends and has found it, when its accept does
  -- not fail and what the peer sends begins with the text; it has then closed its own descriptor and the
  -- connection's, and every other descriptor is open if it was. No read on the connection fails while
  -- there is input, but those that would have blocked, and there is room for a round per byte and one per
  -- such read.
  pub expect_string_lem :
      (fuel : ℕ) (text : List ℕ) (server : ℤ) (w : W)
      → let accepted = k.accept server none 0 w in
        (s : FairInput p k accepted.0.result)
        → (accepted.0.result ==ℤ minus_one) ≡ false
        → length text < 2 ^ 31
        → take (length text) (s.input (k.close server accepted.1).1) ≡ text
        → length text + s.patience (k.close server accepted.1).1 < fuel
        → Returns
            (λ found w'.
              (found ≡ true) × ((m : ℤ) → d.is_open w' m ≡ (d.is_open w m && not (m ==ℤ server))))
            (expect_string p k fuel text server w)
  unfolding expect_string read_all
  expect_string_lem fuel text server w s good small sends enough =
      let fd = (k.accept server none 0 w).0.result in
      let w₂ = (k.close server (k.accept server none 0 w).1).1 in
      rw good (
        Returns->>=
          (λ bytes w'.
            ((bytes ≡ map byte (take (length text) (s.input w₂)))
              × (s.input w' ≡ drop (length text) (s.input w₂)))
            × Keeps w₂ w')
          (λ found w'.
            (found ≡ true) × ((m : ℤ) → d.is_open w' m ≡ (d.is_open w m && not (m ==ℤ server))))
          (read_all p k fuel fd (length text)) _ w₂
          (Returns-both _ (λ _ w'. Keeps w₂ w') (read_all p k fuel fd (length text) w₂)
            (read_all_lem p k s fuel (length text) w₂ small
              (omega (arith, ap length sends, length-take (length text) (s.input w₂))) enough)
            (read_loop-Keeps fuel fd (length text) 0 _ w₂))
          λ bytes w' ((read, left), kept).
            let same : bytes ≡ map byte text = read ∙ ap (map byte) sends in
            rw (same, same_text_self text) (refl, finished server w w' kept))

  -- A server that writes a text of less than 2^31 bytes ends and has written it, once and in order, when
  -- its accept does not fail; it has then closed its own descriptor and the connection's, and every other
  -- descriptor is open if it was. The connection stands, while it does no write on it fails but those that
  -- would have blocked, to close it keeps what was written to it, and there is room for a round per byte
  -- and one per such write.
  pub write_string_lem :
      (fuel : ℕ) (text : List ℕ) (server : ℤ) (w : W)
      → let accepted = k.accept server none 0 w in
        (s : FairOutput p k accepted.0.result)
        → ((w' : W) → s.output (k.close accepted.0.result w').1 ≡ s.output w')
        → (accepted.0.result ==ℤ minus_one) ≡ false
        → s.stands (k.close server accepted.1).1 ≡ true
        → length text < 2 ^ 31
        → length text + s.patience (k.close server accepted.1).1 < fuel
        → Returns
            (λ _ w'.
              (s.output w' ≡ s.output (k.close server accepted.1).1 ++ map byte text)
              × ((m : ℤ) → d.is_open w' m ≡ (d.is_open w m && not (m ==ℤ server))))
            (write_string p k fuel text server w)
  unfolding write_string write_all
  write_string_lem fuel text server w s delivers good up small enough =
      let fd = (k.accept server none 0 w).0.result in
      let w₂ = (k.close server (k.accept server none 0 w).1).1 in
      let str = map byte text in
      let len = length-map byte text in
      rw good (
        Returns->>= (λ _ w'. (s.output w' ≡ s.output w₂ ++ str) × Keeps w₂ w')
          (λ _ w'.
            (s.output w' ≡ s.output w₂ ++ str)
            × ((m : ℤ) → d.is_open w' m ≡ (d.is_open w m && not (m ==ℤ server))))
          (write_all p k fuel fd str) _ w₂
          (Returns-both _ (λ _ w'. Keeps w₂ w') (write_all p k fuel fd str w₂)
            (write_all_lem p k s fuel str w₂ up (omega (arith, len)) (omega (arith, len)))
            (write_loop-Keeps fuel fd str 0 w₂))
          λ _ w' (wrote, kept). (delivers w' ∙ wrote, finished server w w' kept))
