-- ===== src/Net/PosixSocketBuffer.antt =====
-- `syd::net::posix_socket_buffer` of src/syd/net/posix_socket_buffer.h and posix_socket_buffer.cpp.
pub mod LocalAddress
pub mod Accept
pub mod Descriptors
use sydn.Common.{
  ℕ, suc, zero, ◌%◌, ◌^◌, Bool, true, false, not, Option, none, some, List, length, ltb,
  if◌then◌else◌, ℤ, minus_one, ◌==ℤ◌, narrow, is_nonneg, to_size, Cell,
}
use sydn.Posix.Platform.{Platform}
use sydn.Posix.Kernel.{Kernel, M, pure, ◌>>=◌, ◌>>◌, call, defined, when}
use sydn.Net.Address
use sydn.Net.Address.{Address}
use sydn.Net.ConnectedSocket.{SocketType, to_int, ErrorCondition, no_error, last_error}

pub record PosixSocketBuffer : Type 0 where
  pub d_fd : ℤ

-- An object of class `socket_buffer`, by its dynamic type.
pub data SocketBuffer : Type 0 where
  base : SocketBuffer
  posix : PosixSocketBuffer → SocketBuffer

-- `dynamic_cast<posix_socket_buffer *>`.
abbrev pub as_posix : SocketBuffer → Option PosixSocketBuffer
as_posix base = none
as_posix (posix s) = some s

abbrev pub initial : PosixSocketBuffer
initial = record { d_fd = minus_one }

abbrev pub c_listen_backlog : ℕ
c_listen_backlog = 128

-- `socklen_t` is an unsigned integer of 32 bits.
abbrev pub to_socklen : ℕ → ℕ
to_socklen n = n % 2 ^ 32

module _ {W : Type 0} (k : Kernel W) where
  -- A failed `assert`.
  abbrev pub assert : Bool → M W (Unit {0})
  assert b = if b then pure tt else λ w. none

  -- The destructor, and the first step of `connect`.
  unfoldable pub close_own : PosixSocketBuffer → M W PosixSocketBuffer
  close_own s =
      when (not (s.d_fd ==ℤ minus_one))
        (do call (k.close s.d_fd); pure (record { d_fd = minus_one })) s

  unfoldable pub import : PosixSocketBuffer → ℤ → M W PosixSocketBuffer
  unfolding close_own
  import s fd = do s' ← close_own s; pure (record s' { d_fd = fd })

  -- The result of `::write` and `::read` is narrowed to an `int`.
  unfoldable pub write : PosixSocketBuffer → List Cell → M W (ErrorCondition × ℕ)
  write s bytes = do
    r ← call (k.write s.d_fd bytes (length bytes))
    let res = narrow r
    if res ==ℤ minus_one
        then (do e ← last_error k; pure (e, 0))
        else (do assert (is_nonneg res); pure (no_error, to_size res))

  -- The error, the number of bytes, and the buffer's new content.
  unfoldable pub read : PosixSocketBuffer → List Cell → M W (ErrorCondition × ℕ × List Cell)
  read s buffer = do
    (r, buffer') ←
        λ w. (let (r, b, w') = k.read s.d_fd buffer (length buffer) w in some ((r, b), w'))
    let res = narrow r
    if res ==ℤ minus_one
        then (do e ← last_error k; pure (e, 0, buffer'))
        else (do assert (is_nonneg res); pure (no_error, to_size res, buffer'))

module _ (p : Platform) {W : Type 0} (k : Kernel W) where
  -- `::connect` and what follows it.
  unfoldable pub connect_to : PosixSocketBuffer → Address → M W (ErrorCondition × PosixSocketBuffer)
  connect_to s remote = do
    res ← call (k.connect s.d_fd (Address.native remote) (Address.size remote))
    if res ==ℤ minus_one then (do e ← last_error k; pure (e, s)) else pure (no_error, s)

  -- `::bind`, if there is a local address, and what follows it.
  unfoldable pub bind_and_connect :
      PosixSocketBuffer → Address → Address → M W (ErrorCondition × PosixSocketBuffer)
  unfolding connect_to
  bind_and_connect s remote local = do
    bound ← defined (Address.ne_null p local)
    if bound
        then (do
          res ← call (k.bind s.d_fd (Address.native local) (Address.size local))
          if res ==ℤ minus_one then (do e ← last_error k; pure (e, s)) else connect_to s remote)
        else connect_to s remote

  unfoldable pub connect :
      PosixSocketBuffer → SocketType → Address → Address → M W (ErrorCondition × PosixSocketBuffer)
  unfolding close_own bind_and_connect
  connect s type remote local = do
    s' ← close_own k s
    domain ← defined (Address.family p remote)
    fd ← call (k.socket domain (to_int p type) 0)
    if fd ==ℤ minus_one
        then (do e ← last_error k; pure (e, record s' { d_fd = fd }))
        else bind_and_connect (record s' { d_fd = fd }) remote local

  -- `::bind`, `::listen` and what follows them.
  unfoldable pub bind_and_listen :
      PosixSocketBuffer → Address → M W (ErrorCondition × PosixSocketBuffer)
  bind_and_listen s local = do
    bound ← call (k.bind s.d_fd (Address.native local) (Address.size local))
    if bound ==ℤ minus_one then (do e ← last_error k; pure (e, s)) else (do
      res ← call (k.listen s.d_fd c_listen_backlog)
      if res ==ℤ minus_one then (do e ← last_error k; pure (e, s)) else pure (no_error, s))

  unfoldable pub listen :
      PosixSocketBuffer → SocketType → Address → M W (ErrorCondition × PosixSocketBuffer)
  unfolding bind_and_listen
  listen s type local = do
    given ← defined (Address.ne_null p local)
    assert k given
    domain ← defined (Address.family p local)
    fd ← call (k.socket domain (to_int p type) 0)
    if fd ==ℤ minus_one
        then (do e ← last_error k; pure (e, record s { d_fd = fd }))
        else bind_and_listen (record s { d_fd = fd }) local

  -- `accept(socket)`: the error and the new state of `socket`.
  unfoldable pub accept : PosixSocketBuffer → SocketBuffer → M W (ErrorCondition × SocketBuffer)
  accept s socket = do
    peer ← defined (as_posix socket)
    filled ← call (k.accept s.d_fd none 0)
    if filled.result ==ℤ minus_one
        then (do e ← last_error k; pure (e, socket))
        else (do peer' ← import k peer filled.result; pure (no_error, posix peer'))

  -- The retry of `accept(socket, address)`, when the address did not fit.
  unfoldable pub refill : PosixSocketBuffer → Address → ℕ → M W Address
  refill s address len =
      when (ltb (Address.capacity address) len)
        (do
          filled ← call (k.getsockname s.d_fd (Address.native address) len)
          let address' = Address.with_native address filled.buffer
          pure (if filled.result ==ℤ minus_one then Address.clear address' else address'))
        address

  -- `accept(socket, address)`: the error, the new state of `socket` and the new `address`.
  unfoldable pub accept_from :
      PosixSocketBuffer → SocketBuffer → Address → M W (ErrorCondition × SocketBuffer × Address)
  accept_from s socket address = do
    peer ← defined (as_posix socket)
    address₁ ← defined (Address.resize p address p.sizeof_sockaddr)
    let len = to_socklen (Address.capacity address₁)
    filled ← call (k.accept s.d_fd (Address.native address₁) len)
    let address₂ = Address.with_native address₁ filled.buffer
    if filled.result ==ℤ minus_one then (do e ← last_error k; pure (e, socket, address₂)) else (do
      peer' ← import k peer filled.result
      address₃ ← defined (Address.resize p address₂ filled.length)
      address₄ ← refill s address₃ filled.length
      pure (no_error, posix peer', address₄))

  -- The loop of `local_address`, on fuel; `none` when the fuel runs out.
  unfoldable pub local_address_loop :
      ℕ → PosixSocketBuffer → Address → M W (ErrorCondition × Address)
  local_address_loop zero s address = λ w. none
  local_address_loop (suc fuel) s address = do
    let len = to_socklen (Address.capacity address)
    filled ← call (k.getsockname s.d_fd (Address.native address) len)
    let filled_address = Address.with_native address filled.buffer
    if filled.result ==ℤ minus_one
        then (do
          (cleared, _) ← defined (Address.move_assign filled_address Address.empty)
          e ← last_error k
          pure (e, cleared))
        else (do
          let again = ltb (Address.capacity filled_address) filled.length
          address' ← defined (Address.resize p filled_address filled.length)
          let rest = local_address_loop fuel s address' in
              if again then rest else pure (no_error, address'))

  unfoldable pub local_address : ℕ → PosixSocketBuffer → Address → M W (ErrorCondition × Address)
  unfolding local_address_loop
  local_address fuel s address = do
    address' ← defined (Address.resize p address p.sizeof_sockaddr)
    local_address_loop fuel s address'
