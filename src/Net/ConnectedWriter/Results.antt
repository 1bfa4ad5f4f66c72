-- ===== src/Net/ConnectedWriter/Results.antt =====
-- What a writer reports of a write.
use sydn.Common.{
  ◌≤◌, ◌<◌, ◌^◌, ◌≡◌, refl, ◌⊎◌, inl, inr, true, false, List, length, arith, ◌==◌, pos, minus_one,
  ◌==ℤ◌, narrow-pos, narrow-minus_one, to_size, Cell,
}
use sydn.Posix.Platform.{Platform, IsSound}
use sydn.Posix.Kernel.{Kernel}
use sydn.Posix.Laws.{Transfers}
use sydn.Posix.Returns.{Returns}
use sydn.Net.ConnectedSocket.{ConnectedSocket, no_error}
use sydn.Net.ConnectedWriter.{ConnectedWriter, write, okay, would_have_blocked}

module _ (p : Platform) (sound : IsSound p) where
  -- The test for an operation that would have blocked adds nothing to the test for an error.
  pub okay_lem : (r : ConnectedWriter) → okay p r ≡ (r.d_last_error == no_error)
  unfolding okay would_have_blocked
  okay_lem r = ground (arith, sound.would_block_ne_zero, sound.try_again_ne_zero)

  module _ {W : Type 0} (k : Kernel W) (s : ConnectedSocket) (t : Transfers k s.d_fd) where
    -- Whatever the writer reported before, and whichever way the call goes: either the call returned
    -- a number of bytes, at most that of the data, which the writer reports, with no error and as
    -- okay; or it failed, and the writer is not okay, reports the system's error and no bytes. The
    -- data has less than 2^31 bytes.
    pub write_lem :
        (r : ConnectedWriter) (bytes : List Cell) (w : W)
        → length bytes < 2 ^ 31
        → let called = k.write s.d_fd bytes (length bytes) w in
          Returns
            (λ out w'.
              ((called.0 ≡ pos out.d_last_bytes)
                × (out.d_last_bytes ≤ length bytes)
                × (out.d_last_error ≡ no_error)
                × (okay p out ≡ true))
              ⊎ ((called.0 ≡ minus_one)
                  × (out.d_last_bytes ≡ 0)
                  × (out.d_last_error ≡ k.errno w')
                  × (okay p out ≡ false)))
            (write k s r bytes w)
    unfolding write ◌==ℤ◌ to_size
    write_lem r bytes w h = elim (t.write_count bytes w) [
      | inl e ↦
          rw (e, narrow-minus_one)
            (inr (refl, refl, refl, rw okay_lem (ground (arith, t.write_errno bytes w e))))
      | inr (m, e, le) ↦ rw (e, narrow-pos m (omega arith)) (inl (refl, le, refl, rw okay_lem))
    ]
