-- ===== src/Net/SocketBuffer.antt =====
-- The virtual functions of `syd::net::socket_buffer` of src/syd/net/socket_buffer.h: what a call
-- through a reference to the base class does, by the dynamic type of the object.
pub mod Descriptors
pub mod Calls
pub mod Life
use sydn.Common.{ℕ, List, ℤ, minus_one, Cell}
use sydn.Posix.Platform.{Platform}
use sydn.Posix.Kernel.{Kernel, M, pure, ◌>>=◌}
use sydn.Net.Address.{Address}
use sydn.Net.ConnectedSocket.{SocketType, ErrorCondition}
use sydn.Net.PosixSocketBuffer
use sydn.Net.PosixSocketBuffer.{SocketBuffer, base, posix}

-- The descriptor that an object has; the base class has none.
abbrev pub descriptor : SocketBuffer → ℤ
descriptor base = minus_one
descriptor (posix s) = s.d_fd

module _ (p : Platform) {W : Type 0} (k : Kernel W) where
  unfoldable pub connect :
      SocketBuffer → SocketType → Address → Address → M W (ErrorCondition × SocketBuffer)
  connect base type remote local = pure (p.function_not_supported, base)
  connect (posix s) type remote local = do
    (e, s') ← PosixSocketBuffer.connect p k s type remote local
    pure (e, posix s')

  unfoldable pub listen : SocketBuffer → SocketType → Address → M W (ErrorCondition × SocketBuffer)
  listen base type local = pure (p.function_not_supported, base)
  listen (posix s) type local = do
    (e, s') ← PosixSocketBuffer.listen p k s type local
    pure (e, posix s')

  -- The error, and the new state of `socket`, another object than the one that is called.
  unfoldable pub accept : SocketBuffer → SocketBuffer → M W (ErrorCondition × SocketBuffer)
  accept base socket = pure (p.function_not_supported, socket)
  accept (posix s) socket = PosixSocketBuffer.accept p k s socket

  unfoldable pub accept_from :
      SocketBuffer → SocketBuffer → Address → M W (ErrorCondition × SocketBuffer × Address)
  accept_from base socket address = pure (p.function_not_supported, socket, address)
  accept_from (posix s) socket address = PosixSocketBuffer.accept_from p k s socket address

  unfoldable pub write : SocketBuffer → List Cell → M W (ErrorCondition × ℕ)
  write base bytes = pure (p.function_not_supported, 0)
  write (posix s) bytes = PosixSocketBuffer.write k s bytes

  unfoldable pub read : SocketBuffer → List Cell → M W (ErrorCondition × ℕ × List Cell)
  read base buffer = pure (p.function_not_supported, 0, buffer)
  read (posix s) buffer = PosixSocketBuffer.read k s buffer

  -- On the fuel of the loop of `posix_socket_buffer::local_address`.
  unfoldable pub local_address : ℕ → SocketBuffer → Address → M W (ErrorCondition × Address)
  local_address fuel base address = pure (p.function_not_supported, address)
  local_address fuel (posix s) address = PosixSocketBuffer.local_address p k fuel s address

  -- No class overrides it.
  unfoldable pub remote_address : SocketBuffer → Address → M W (ErrorCondition × Address)
  remote_address s address = pure (p.function_not_supported, address)

  -- The destructor of the dynamic type.
  unfoldable pub destroy : SocketBuffer → M W SocketBuffer
  destroy base = pure base
  destroy (posix s) = do s' ← PosixSocketBuffer.close_own k s; pure (posix s')
