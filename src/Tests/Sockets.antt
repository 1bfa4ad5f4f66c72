-- ===== src/Tests/Sockets.antt =====
-- Sockets at concrete inputs, over the simulated kernel.
use sydn.Common.{
  ◌≡◌, ◌≢◌, refl, ◌≤◌, ◌<◌, ◌⊎◌, inr, true, false, [], ◌∷◌, some, map, replicate, length, arith,
  byte, unspecified, pos, minus_one, ◌==ℤ◌,
}
use mathlib.Core.Option
use sydn.Net.Bytes.{get16, load16}
use sydn.Mem.Sdo
use sydn.Posix.Kernel.{Kernel}
use sydn.Posix.Returns.{Returns}
use sydn.Net.Address
use sydn.Net.Address.{Address}
use sydn.Net.Address.Contents.{IsValid, contents, resized}
use sydn.Net.ConnectedSocket
use sydn.Net.ConnectedSocket.{ConnectedSocket, stream, no_error}
use sydn.Net.ConnectedSocket.Descriptors.{Accounts, connect-Accounts, import-Accounts}
use sydn.Net.ConnectedSocket.LocalAddress.{address_of, local_address_agrees, local_address_named}
use sydn.Net.ConnectedReader
use sydn.Net.ConnectedReader.Results.{read_lem}
use sydn.Net.ConnectedWriter
use sydn.Net.ConnectedWriter.Results.{write_lem}
use sydn.Net.EchoServer
use sydn.Net.EchoServer.Session.{run_lem}
use sydn.Net.ListenSocket
use sydn.Net.ListenSocket.{ListenSocket}
use sydn.Net.PosixSocketBuffer
use sydn.Net.PosixSocketBuffer.{PosixSocketBuffer, posix}
use sydn.Net.PosixSocketBuffer.LocalAddress.{Failed, Outcome, local_address_lem}
use sydn.Net.PosixSocketBuffer.Accept.{accept_from_lem}
use sydn.Net.PosixSocketBuffer.Descriptors.{as_posix, connect_agrees, listen_leaks}
use sydn.Tests.System.{
  linux, linux-IsSound, World, start, simulated, descriptors, opened, opens, socket_name, peer_name,
  transfers, stream_of,
}

-- 0.0.0.0:0 as a `sockaddr_in`.
abbrev pub inet : Address
inet = record {
  d_data = record {
    d_capacity = 32;
    d_size = 16;
    d_data = byte 2 ∷ replicate 31 (byte 0);
    d_ptr = [];
  };
}

abbrev pub kernel : Kernel World
kernel = simulated (replicate 40 7)

pub inet-family : Address.family linux inet ≡ some 2
unfolding Address.family get16 load16 Sdo.data_of
inet-family = refl

pub inet-ne_null : Address.ne_null linux inet ≡ some true
unfolding Address.ne_null Address.family get16 load16 Sdo.data_of
inet-ne_null = refl

connect-Accounts_example :
    Returns
      (λ r w'. Accounts (descriptors (replicate 40 7)) minus_one start r.1.d_fd w')
      (ConnectedSocket.connect linux kernel ConnectedSocket.initial stream inet inet start)
connect-Accounts_example =
    connect-Accounts (descriptors (replicate 40 7)) linux ConnectedSocket.initial stream inet inet 2
      true start inet-family inet-ne_null

import-Accounts_example :
    Returns
      (λ s' w''.
        Accounts (descriptors (replicate 40 7)) (pos 0) start s'.d_fd w'' × (s'.d_fd ≡ pos 3))
      (ConnectedSocket.import kernel (record { d_fd = pos 0 }) (pos 3) (opened start))
import-Accounts_example =
    import-Accounts (descriptors (replicate 40 7)) (record { d_fd = pos 0 }) (pos 3) start
      (opened start) (λ _. refl) (record { fresh = refl; opens = opens start })

connect_agrees_example :
    PosixSocketBuffer.connect linux kernel PosixSocketBuffer.initial stream inet inet start
    ≡ Option.map as_posix
        (ConnectedSocket.connect linux kernel ConnectedSocket.initial stream inet inet start)
connect_agrees_example = connect_agrees linux kernel ConnectedSocket.initial stream inet inet start

listen_leaks_example :
    Returns
      (λ r w'. ((descriptors (replicate 40 7)).is_open w' (pos 0) ≡ true) × (r.1.d_fd ≢ pos 0))
      (PosixSocketBuffer.listen linux kernel (record { d_fd = pos 0 }) stream inet start)
listen_leaks_example =
    listen_leaks (descriptors (replicate 40 7)) linux (record { d_fd = pos 0 }) stream inet 2 start
      refl inet-ne_null inet-family

read_lem_example :
    Returns
      (λ out w'.
        (length out.1 ≡ 4)
        × (((pos 2 ≡ pos out.0.d_last_bytes)
              × (out.0.d_last_bytes ≤ 4)
              × (out.0.d_last_error ≡ no_error)
              × (ConnectedReader.okay linux out.0 ≡ true))
            ⊎ ((pos 2 ≡ minus_one)
                × (out.0.d_last_bytes ≡ 0)
                × (out.0.d_last_error ≡ 11)
                × (ConnectedReader.okay linux out.0 ≡ false))))
      (ConnectedReader.read kernel ConnectedSocket.initial ConnectedReader.initial
        (replicate 4 unspecified)
        start)
read_lem_example =
    read_lem linux linux-IsSound kernel ConnectedSocket.initial
      (transfers (replicate 40 7) minus_one) ConnectedReader.initial (replicate 4 unspecified) start
      (omega arith)

write_lem_example :
    Returns
      (λ out w'.
        ((pos 3 ≡ pos out.d_last_bytes)
          × (out.d_last_bytes ≤ 3)
          × (out.d_last_error ≡ no_error)
          × (ConnectedWriter.okay linux out ≡ true))
        ⊎ ((pos 3 ≡ minus_one)
            × (out.d_last_bytes ≡ 0)
            × (out.d_last_error ≡ 11)
            × (ConnectedWriter.okay linux out ≡ false)))
      (ConnectedWriter.write kernel ConnectedSocket.initial ConnectedWriter.initial
        (replicate 3 (byte 1))
        start)
write_lem_example =
    write_lem linux linux-IsSound kernel ConnectedSocket.initial
      (transfers (replicate 40 7) minus_one) ConnectedWriter.initial (replicate 3 (byte 1)) start
      (omega arith)

-- A name of 40 bytes does not fit the small buffer of 32.
local_address_lem_example :
    Returns
      (Outcome linux kernel PosixSocketBuffer.initial
        (socket_name (replicate 40 7) minus_one (omega arith))
        (replicate 40 7))
      (PosixSocketBuffer.local_address linux kernel 2 PosixSocketBuffer.initial inet start)
local_address_lem_example =
    local_address_lem linux kernel PosixSocketBuffer.initial
      (socket_name (replicate 40 7) minus_one (omega arith)) 0 inet start linux-IsSound
      (omega arith) (omega arith) (omega arith) (inr (omega arith))

local_address_agrees_example :
    ConnectedSocket.local_address linux kernel 2 ConnectedSocket.initial start
    ≡ Option.map address_of (
        PosixSocketBuffer.local_address linux kernel 2 PosixSocketBuffer.initial Address.empty
          start)
local_address_agrees_example = local_address_agrees linux kernel 2 ConnectedSocket.initial start

local_address_named_example :
    Returns
      (λ a w'.
        IsValid a
        × ((contents a ≡ map byte (replicate 40 7))
            ⊎ (Failed linux kernel PosixSocketBuffer.initial
                  (socket_name (replicate 40 7) minus_one (omega arith))
                  w'
                × (Address.size a ≡ 0))))
      (ConnectedSocket.local_address linux kernel 2 ConnectedSocket.initial start)
local_address_named_example =
    local_address_named linux kernel ConnectedSocket.initial
      (socket_name (replicate 40 7) minus_one (omega arith)) 0 start linux-IsSound (omega arith)
      (inr (omega arith))

-- A peer with a short address.
accept_from_lem_example :
    Returns
      (λ r w'.
        (r.0 ≡ no_error)
        × ((peer : PosixSocketBuffer) × (r.1 ≡ posix peer)
            × (PosixSocketBuffer.import
                  (simulated (replicate 20 7))
                  PosixSocketBuffer.initial
                  (pos 3)
                  (opened start)
                ≡ some (peer, w')))
        × (20 ≤ Address.capacity (resized inet 16) → contents r.2 ≡ map byte (replicate 20 7))
        × (Address.capacity (resized inet 16) < 20 → contents r.2 ≡ replicate 20 unspecified))
      (PosixSocketBuffer.accept_from linux
        (simulated (replicate 20 7))
        PosixSocketBuffer.initial
        (posix PosixSocketBuffer.initial)
        inet
        start)
unfolding ◌==ℤ◌
accept_from_lem_example =
    accept_from_lem linux (simulated (replicate 20 7)) PosixSocketBuffer.initial
      (peer_name (replicate 20 7) minus_one) PosixSocketBuffer.initial inet start linux-IsSound
      (omega arith) (omega arith) (omega arith) (inr (omega arith)) refl

-- A listening socket whose last accept would have blocked.
abbrev blocked : ListenSocket
blocked = record { d_last_error = 11; d_local_address = inet; d_fd = pos 0 }

run_lem_example :
    Returns
      (λ _ w'. (w'.output ≡ byte 104 ∷ byte 105 ∷ []) × (w'.input ≡ []))
      (EchoServer.run linux kernel ConnectedSocket.initial 3 start)
run_lem_example =
    run_lem linux linux-IsSound kernel ConnectedSocket.initial
      (stream_of (replicate 40 7) minus_one) 3 start (omega arith)
