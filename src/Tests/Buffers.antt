-- ===== src/Tests/Buffers.antt =====
-- The life of a socket buffer over the simulated kernel.
use sydn.Common.{narrow, is_nonneg, to_size, ◌≡◌, refl, ℤ, ◌∷◌, [], byte, ◌==ℤ◌, pos, replicate}
use sydn.Mem.Sdo
use sydn.Net.Bytes.{get16, load16}
use sydn.Posix.Returns.{Returns}
use sydn.Net.Address
use sydn.Net.ConnectedSocket.{stream, no_error}
use sydn.Net.PosixSocketBuffer
use sydn.Net.PosixSocketBuffer.{posix, base}
use sydn.Net.SocketBuffer
use sydn.Net.SocketBuffer.Life.{Reach, Step, Reach-destroy}
use sydn.Tests.System.{linux, World, start, descriptors, opened}
use sydn.Tests.Sockets.{inet, kernel}

-- What is left after a connection and a write of one byte.
abbrev wrote : World
wrote = record (opened start) { output = byte 7 ∷ [] }

connect_step :
    Step linux kernel
      (posix PosixSocketBuffer.initial)
      start
      (posix (record { d_fd = pos 3 }))
      (opened start)
unfolding SocketBuffer.connect PosixSocketBuffer.connect PosixSocketBuffer.close_own
    PosixSocketBuffer.bind_and_connect PosixSocketBuffer.connect_to Address.family Address.ne_null
    get16 load16 Sdo.data_of ◌==ℤ◌
connect_step = Step.connected stream inet inet no_error refl

write_step :
    Step linux kernel
      (posix (record { d_fd = pos 3 }))
      (opened start)
      (posix (record { d_fd = pos 3 }))
      wrote
unfolding SocketBuffer.write PosixSocketBuffer.write ◌==ℤ◌ narrow is_nonneg to_size
write_step = Step.written (byte 7 ∷ []) (no_error, 1) refl

Reach-destroy_example :
    Returns
      (λ _ w''.
        (m : ℤ)
        → (descriptors (replicate 40 7)).is_open w'' m
          ≡ (descriptors (replicate 40 7)).is_open start m)
      (SocketBuffer.destroy linux kernel (posix (record { d_fd = pos 3 })) wrote)
Reach-destroy_example =
    Reach-destroy (descriptors (replicate 40 7)) linux (posix (record { d_fd = pos 3 })) start wrote
      (Reach.next (Reach.next Reach.here connect_step) write_step)
