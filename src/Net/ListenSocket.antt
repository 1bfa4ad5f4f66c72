-- ===== src/Net/ListenSocket.antt =====
-- `syd::net::listen_socket` of src/syd/net/listen_socket.h and listen_socket.cpp.
pub mod Errors
pub mod Construction
pub mod Descriptors
use sydn.Common.{
  ℕ, Bool, true, false, not, ◌&&◌, ◌||◌, List, Option, none, ltb, ◌==◌, if◌then◌else◌, ℤ, minus_one,
  ◌==ℤ◌, some,
}
use sydn.Posix.Platform.{Platform}
use sydn.Posix.Kernel.{Kernel, M, pure, ◌>>=◌, ◌>>◌, call, defined, when}
use sydn.Net.Address
use sydn.Net.Address.{Address}
use sydn.Net.ConnectedSocket
use sydn.Net.ConnectedSocket.{
  ConnectedSocket, SocketType, to_int, ErrorCondition, no_error, last_error,
}
use sydn.Net.PosixSocketBuffer.{assert, to_socklen}

pub record ListenSocket : Type 0 where
  pub d_last_error : ErrorCondition
  pub d_local_address : Address
  pub d_fd : ℤ

abbrev pub c_listen_backlog : ℕ
c_listen_backlog = 128

-- The members as their initialisers leave them, before the constructor's body.
unfoldable pub initial : ListenSocket
initial = record { d_last_error = no_error; d_local_address = Address.empty; d_fd = minus_one }

module _ {W : Type 0} (k : Kernel W) where
  unfoldable pub check_result : ListenSocket → ℤ → M W (Bool × ListenSocket)
  check_result s result_code =
      if result_code ==ℤ minus_one
      then (do e ← last_error k; pure (false, record s { d_last_error = e }))
      else pure (true, s)

  -- `check_result`, with the early return of the constructor.
  abbrev pub checked : ListenSocket → ℤ → (ListenSocket → M W ListenSocket) → M W ListenSocket
  checked s result_code rest = do
    (okay, s') ← check_result s result_code
    if okay then rest s' else pure s'

  unfoldable pub close_own : ListenSocket → M W ListenSocket
  close_own s = when (not (s.d_fd ==ℤ minus_one)) (do call (k.close s.d_fd); pure s) s

  -- `accept(socket)`: the new state of the listening socket and of `socket`.
  unfoldable pub accept : ListenSocket → ConnectedSocket → M W (ListenSocket × ConnectedSocket)
  accept s socket = do
    filled ← call (k.accept s.d_fd none 0)
    if filled.result ==ℤ minus_one
        then (do e ← last_error k; pure (record s { d_last_error = e }, socket))
        else (do socket' ← ConnectedSocket.import k socket filled.result; pure (s, socket'))

  -- The retry of `accept(socket, address)`, when the address did not fit.
  unfoldable pub refill : ListenSocket → Address → ℕ → M W Address
  refill s address len =
      when (ltb (Address.capacity address) len)
        (do
          filled ← call (k.getsockname s.d_fd (Address.native address) len)
          let address' = Address.with_native address filled.buffer
          pure (if filled.result ==ℤ minus_one then Address.clear address' else address'))
        address

module _ (p : Platform) {W : Type 0} (k : Kernel W) where
  -- `getsockname` of the constructor.
  unfoldable pub read_local_address : ListenSocket → Address → M W ListenSocket
  read_local_address s local = do
    address ← defined (Address.resize p s.d_local_address (Address.size local))
    filled ←
        call (k.getsockname s.d_fd (Address.native address) (to_socklen (Address.capacity address)))
    checked k (record s { d_local_address = Address.with_native address filled.buffer })
        filled.result pure

  -- The constructor.
  unfoldable pub make : SocketType → Address → M W ListenSocket
  make type local = do
    given ← defined (Address.ne_null p local)
    assert k given
    domain ← defined (Address.family p local)
    fd ← call (k.socket domain (to_int p type) 0)
    checked k (record initial { d_fd = fd }) fd
        λ s. (do
          bound ← call (k.bind s.d_fd (Address.native local) (Address.size local))
          checked k s bound λ s'. (do
            res ← call (k.listen s'.d_fd c_listen_backlog)
            checked k s' res λ s''. read_local_address s'' local))

  -- `accept(socket, address)`: the listening socket, `socket` and `address`.
  unfoldable pub accept_from :
      ListenSocket → ConnectedSocket → Address → M W (ListenSocket × ConnectedSocket × Address)
  accept_from s socket address = do
    address₁ ← defined (Address.resize p address (Address.size s.d_local_address))
    let len = to_socklen (Address.capacity address₁)
    filled ← call (k.accept s.d_fd (Address.native address₁) len)
    let address₂ = Address.with_native address₁ filled.buffer
    if filled.result ==ℤ minus_one
        then (do e ← last_error k; pure (record s { d_last_error = e }, socket, address₂))
        else (do
          socket' ← ConnectedSocket.import k socket filled.result
          address₃ ← defined (Address.resize p address₂ filled.length)
          address₄ ← refill k s address₃ filled.length
          pure (s, socket', address₄))

module _ (p : Platform) where
  unfoldable pub would_have_blocked : ListenSocket → Bool
  would_have_blocked s =
      s.d_last_error == p.operation_would_block
      || s.d_last_error == p.resource_unavailable_try_again

  unfoldable pub okay : ListenSocket → Bool
  okay s = s.d_last_error == no_error && not (would_have_blocked s)

  -- `operator bool`.
  abbrev pub to_bool : ListenSocket → Bool
  to_bool s = okay s

abbrev pub local_address : ListenSocket → Address
local_address s = s.d_local_address

abbrev pub error : ListenSocket → ErrorCondition
error s = s.d_last_error
