-- ===== src/Net/ConnectedReader/Results.antt =====
-- What a reader reports of a read.
use sydn.Common.{
  ◌≤◌, ◌<◌, ◌^◌, ◌≡◌, refl, ◌⊎◌, inl, inr, true, false, List, length, arith, ◌==◌, pos, minus_one,
  ◌==ℤ◌, narrow-pos, narrow-minus_one, is_nonneg, to_size, Cell,
}
use sydn.Posix.Platform.{Platform, IsSound}
use sydn.Posix.Kernel.{Kernel}
use sydn.Posix.Laws.{Transfers}
use sydn.Posix.Returns.{Returns}
use sydn.Net.ConnectedSocket.{ConnectedSocket, no_error}
use sydn.Net.ConnectedReader.{ConnectedReader, read, okay, would_have_blocked}

module _ (p : Platform) (sound : IsSound p) where
  -- The test for an operation that would have blocked adds nothing to the test for an error.
  pub okay_lem : (r : ConnectedReader) → okay p r ≡ (r.d_last_error == no_error)
  unfolding okay would_have_blocked
  okay_lem r = ground (arith, sound.would_block_ne_zero, sound.try_again_ne_zero)

  module _ {W : Type 0} (k : Kernel W) (s : ConnectedSocket) (t : Transfers k s.d_fd) where
    -- Whatever the reader reported before, and whichever way the call goes: no assertion fails, the
    -- buffer keeps its length, and either the call returned a number of bytes, at most that of the
    -- buffer, which the reader reports, with no error and as okay; or it failed, and the reader is
    -- not okay, reports the system's error and no bytes. The buffer has less than 2^31 bytes.
    pub read_lem :
        (r : ConnectedReader) (buffer : List Cell) (w : W)
        → length buffer < 2 ^ 31
        → let called = k.read s.d_fd buffer (length buffer) w in
          Returns
            (λ out w'.
              (length out.1 ≡ length buffer)
              × (((called.0 ≡ pos out.0.d_last_bytes)
                    × (out.0.d_last_bytes ≤ length buffer)
                    × (out.0.d_last_error ≡ no_error)
                    × (okay p out.0 ≡ true))
                  ⊎ ((called.0 ≡ minus_one)
                      × (out.0.d_last_bytes ≡ 0)
                      × (out.0.d_last_error ≡ k.errno w')
                      × (okay p out.0 ≡ false))))
            (read k s r buffer w)
    unfolding read ◌==ℤ◌ is_nonneg to_size
    read_lem r buffer w h = elim (t.read_count buffer w) [
      | inl e ↦
          rw (e, narrow-minus_one)
            (
              t.read_room buffer w,
              inr (refl, refl, refl, rw okay_lem (ground (arith, t.read_errno buffer w e))),
            )
      | inr (m, e, le) ↦
          rw (e, narrow-pos m (omega arith))
            (t.read_room buffer w, inl (refl, le, refl, rw okay_lem))
    ]
