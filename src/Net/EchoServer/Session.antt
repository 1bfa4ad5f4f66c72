-- ===== src/Net/EchoServer/Session.antt =====
-- A session of the echo server sends back what it receives.
use sydn.Common.{
  Option, ℕ, zero, suc, some, ◌≤◌, ◌<◌, ◌≡◌, sym, ap, ap₂, ◌∙◌, not, List, [], ◌++◌, map, arith,
  length, take, drop, replicate, splice, ◌==◌, Cell, byte, unspecified, ◌==ℤ◌, is_nonneg, to_size,
  narrow-pos, if◌then◌else◌, take-splice, take-append-drop, length-take, length-drop, length-map,
  length-splice, length-replicate, append_assoc, append-nil, Bool-cases, inl, inr,
}
use mathlib.Core.List.{map-append}
use sydn.Posix.Platform.{Platform, IsSound}
use sydn.Posix.Kernel.{Kernel, pure, ◌>>=◌}
use sydn.Posix.Laws.{Stream}
use sydn.Posix.Returns.{Returns, Returns-mono}
use sydn.Net.ConnectedSocket.{ConnectedSocket, no_error}
use sydn.Net.ConnectedReader
use sydn.Net.ConnectedReader.{ConnectedReader}
use sydn.Net.ConnectedReader.Results as ReaderResults
use sydn.Net.ConnectedWriter
use sydn.Net.ConnectedWriter.{ConnectedWriter}
use sydn.Net.ConnectedWriter.Results as WriterResults
use sydn.Net.EchoServer.{buffer_size, loop, run}

module _ (p : Platform) (sound : IsSound p) {W : Type 0} (k : Kernel W) (s : ConnectedSocket)
    (t : Stream k s.d_fd) where
  -- What one round writes.
  piece : List Cell → W → List Cell
  piece b w = map byte (take (t.chunk b w) (t.input w))

  length-piece : (b : List Cell) (w : W) → length (piece b w) ≡ t.chunk b w
  unfolding piece
  length-piece b w = omega (
    arith,
    length-map byte (take (t.chunk b w) (t.input w)),
    length-take (t.chunk b w) (t.input w),
    t.chunk_input b w,
  )

  read_round :
      (r : ConnectedReader) (b : List Cell) (w : W)
      → length b ≡ buffer_size
      → ConnectedReader.read k s r b w
        ≡ some (
          (record { d_last_error = no_error; d_last_bytes = t.chunk b w }, splice b (piece b w)),
          (k.read s.d_fd b (length b) w).2,
        )
  unfolding ConnectedReader.read piece ◌==ℤ◌ is_nonneg to_size
  read_round r b w h =
      rw
        (t.reads b w, t.read_buffer b w, narrow-pos (t.chunk b w) (omega (arith, t.chunk_room b w)))

  write_round :
      (r : ConnectedWriter) (b : List Cell) (w : W)
      → length b ≤ buffer_size
      → ConnectedWriter.write k s r b w
        ≡ some (
          record { d_last_error = no_error; d_last_bytes = length b },
          (k.write s.d_fd b (length b) w).1,
        )
  unfolding ConnectedWriter.write ◌==ℤ◌ to_size
  write_round r b w h = rw (t.writes b w, narrow-pos (length b) (omega arith))

  after_read : List Cell → W → W
  after_read b w = (k.read s.d_fd b (length b) w).2

  after_round : List Cell → W → W
  after_round b w = (k.write s.d_fd (piece b w) (length (piece b w)) (after_read b w)).1

  input-after_round :
      (b : List Cell) (w : W) → t.input (after_round b w) ≡ drop (t.chunk b w) (t.input w)
  unfolding after_round after_read
  input-after_round b w =
      t.write_input (piece b w) (k.read s.d_fd b (length b) w).2 ∙ t.read_input b w

  output-after_round :
      (b : List Cell) (w : W) → t.output (after_round b w) ≡ t.output w ++ piece b w
  unfolding after_round after_read
  output-after_round b w =
      t.write_output (piece b w) (k.read s.d_fd b (length b) w).2
      ∙ ap (λ bytes. bytes ++ piece b w) (t.read_output b w)

  -- One round: it reads a chunk, writes it, and goes on unless the chunk was empty.
  loop_step :
      (fuel : ℕ) (r : ConnectedReader) (wr : ConnectedWriter) (b : List Cell) (w : W)
      → length b ≡ buffer_size
      → loop p k s (suc fuel) r wr b w
        ≡ (if not (length (piece b w) == 0)
              then loop p k s fuel
                  (record { d_last_error = no_error; d_last_bytes = t.chunk b w })
                  (record { d_last_error = no_error; d_last_bytes = length (piece b w) })
                  (splice b (piece b w))
              else pure tt)
            (after_round b w)
  unfolding loop after_round after_read
  loop_step fuel r wr b w h = rw (
    loop,
    ◌>>=◌,
    read_round r b w h,
    ReaderResults.okay_lem p sound,
    take-splice (t.chunk b w) b (piece b w) (length-piece b w) (t.chunk_room b w),
    write_round wr (piece b w) (after_read b w) (omega (arith, length-piece b w, t.chunk_room b w)),
    WriterResults.okay_lem p sound,
  )

  -- A chunk and the input after it.
  piece-append :
      (b : List Cell) (w : W)
      → piece b w ++ map byte (drop (t.chunk b w) (t.input w)) ≡ map byte (t.input w)
  unfolding piece
  piece-append b w =
      sym (map-append byte (take (t.chunk b w) (t.input w)) (drop (t.chunk b w) (t.input w)))
      ∙ ap (map byte) (take-append-drop (t.chunk b w) (t.input w))

  -- What a run of the loop comes to.
  Echoes : W → Option (Unit {0} × W) → Type 0
  Echoes w = Returns λ _ w'. (t.output w' ≡ t.output w ++ map byte (t.input w)) × (t.input w' ≡ [])

  echoed_end :
      (b : List Cell) (w : W)
      → length b ≡ buffer_size
      → t.chunk b w ≡ 0
      → Echoes w (some (tt, after_round b w))
  unfolding Echoes
  echoed_end b w h e =
      let empty = t.chunk_end b w (omega arith) e in
      let left : drop (t.chunk b w) (t.input w) ≡ [] = ap₂ drop e empty in
      (
        output-after_round b w
            ∙ ap (λ bytes. t.output w ++ bytes)
                (sym (append-nil (piece b w))
                  ∙ ap (λ rest. piece b w ++ map byte rest) (sym left)
                  ∙ piece-append b w),
        input-after_round b w ∙ left,
      )

  echoed_more :
      (b : List Cell) (w : W) (r : Option (Unit {0} × W)) → Echoes (after_round b w) r → Echoes w r
  unfolding Echoes
  echoed_more b w r h =
      Returns-mono
        (λ _ w'.
          (t.output w' ≡ t.output (after_round b w) ++ map byte (t.input (after_round b w)))
          × (t.input w' ≡ []))
        (λ _ w'. (t.output w' ≡ t.output w ++ map byte (t.input w)) × (t.input w' ≡ [])) r h
        λ _ w' (output, input). (
          output
              ∙ ap₂ (λ old bytes. old ++ map byte bytes) (output-after_round b w)
                  (input-after_round b w)
              ∙ append_assoc (t.output w) (piece b w) (map byte (drop (t.chunk b w) (t.input w)))
              ∙ ap (λ bytes. t.output w ++ bytes) (piece-append b w),
          input,
        )

  loop_lem :
      (fuel : ℕ) (r : ConnectedReader) (wr : ConnectedWriter) (b : List Cell) (w : W)
      → length b ≡ buffer_size
      → length (t.input w) < fuel
      → Echoes w (loop p k s fuel r wr b w)
  loop_lem zero r wr b w h enough = absurd (omega arith)
  loop_lem (suc fuel) r wr b w h enough =
      rw (loop_step fuel r wr b w h) (elim (Bool-cases (length (piece b w) == 0)) [
        | inl e ↦ rw e (echoed_end b w h (ground (arith, length-piece b w)))
        | inr e ↦ rw e (
            echoed_more b w _ (
              loop_lem fuel _ _ (splice b (piece b w)) (after_round b w)
                (length-splice b (piece b w) ∙ h)
                (ground (
                  arith,
                  length-piece b w,
                  t.chunk_input b w,
                  ap length (input-after_round b w),
                  length-drop (t.chunk b w) (t.input w),
                ))))
      ])

  -- Enough fuel, and a session ends, has written what there was to read and nothing else, in order, and
  -- has left nothing unread. The stream returns nothing only at its end, and a write takes all it is
  -- given.
  pub run_lem :
      (fuel : ℕ) (w : W)
      → length (t.input w) < fuel
      → Returns
          (λ _ w'. (t.output w' ≡ t.output w ++ map byte (t.input w)) × (t.input w' ≡ []))
          (run p k s fuel w)
  unfolding run Echoes
  run_lem fuel w enough =
      loop_lem fuel ConnectedReader.initial ConnectedWriter.initial
        (replicate buffer_size unspecified) w (length-replicate buffer_size unspecified) enough
