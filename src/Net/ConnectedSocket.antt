-- ===== src/Net/ConnectedSocket.antt =====
-- `syd::net::connected_socket` of src/syd/net/connected_socket.h and connected_socket.cpp.
pub mod Descriptors
pub mod LocalAddress
use sydn.Common.{
  ℕ, suc, zero, ◌%◌, ◌^◌, Bool, not, Option, none, some, List, ltb, if◌then◌else◌, ℤ, minus_one,
  ◌==ℤ◌,
}
use sydn.Posix.Platform.{Platform}
use sydn.Posix.Kernel.{Kernel, M, pure, ◌>>=◌, ◌>>◌, call, defined, when}
use sydn.Net.Address
use sydn.Net.Address.{Address}

-- `enum class type` of src/syd/net/socket.h.
pub data SocketType : Type 0 where
  stream : SocketType

unfoldable pub to_int : Platform → SocketType → ℕ
to_int p stream = p.sock_stream

-- `std::error_condition` of the generic category, by its value; 0 is no error.
abbrev pub ErrorCondition : Type 0
ErrorCondition = ℕ

abbrev pub no_error : ErrorCondition
no_error = 0

pub record ConnectedSocket : Type 0 where
  pub d_fd : ℤ

abbrev pub initial : ConnectedSocket
initial = record { d_fd = minus_one }

module _ {W : Type 0} (k : Kernel W) where
  -- `std::generic_category().default_error_condition(errno)`.
  abbrev pub last_error : M W ErrorCondition
  last_error w = some (k.errno w, w)

  -- `if (-1 != d_fd) { close(d_fd); d_fd = -1; }`: the destructor, and the first step of `connect`.
  unfoldable pub close_own : ConnectedSocket → M W ConnectedSocket
  close_own s =
      when (not (s.d_fd ==ℤ minus_one))
        (do call (k.close s.d_fd); pure (record { d_fd = minus_one })) s

  unfoldable pub import : ConnectedSocket → ℤ → M W ConnectedSocket
  import s fd = do
    when (not (s.d_fd ==ℤ minus_one)) (do call (k.close s.d_fd); pure s) s
    pure (record { d_fd = fd })

module _ (p : Platform) {W : Type 0} (k : Kernel W) where
  -- `::connect` and what follows it.
  unfoldable pub connect_to : ConnectedSocket → Address → M W (ErrorCondition × ConnectedSocket)
  connect_to s remote = do
    res ← call (k.connect s.d_fd (Address.native remote) (Address.size remote))
    if res ==ℤ minus_one then (do e ← last_error k; pure (e, s)) else pure (no_error, s)

  -- `::bind`, if there is a local address, and what follows it.
  unfoldable pub bind_and_connect :
      ConnectedSocket → Address → Address → M W (ErrorCondition × ConnectedSocket)
  unfolding connect_to
  bind_and_connect s remote local = do
    bound ← defined (Address.ne_null p local)
    if bound
        then (do
          res ← call (k.bind s.d_fd (Address.native local) (Address.size local))
          if res ==ℤ minus_one then (do e ← last_error k; pure (e, s)) else connect_to s remote)
        else connect_to s remote

  unfoldable pub connect :
      ConnectedSocket → SocketType → Address → Address → M W (ErrorCondition × ConnectedSocket)
  unfolding close_own bind_and_connect
  connect s type remote local = do
    s' ← close_own k s
    domain ← defined (Address.family p remote)
    fd ← call (k.socket domain (to_int p type) 0)
    if fd ==ℤ minus_one
        then (do e ← last_error k; pure (e, record s' { d_fd = fd }))
        else bind_and_connect (record s' { d_fd = fd }) remote local

  -- The loop of `local_address`, on fuel; `none` when the fuel runs out.
  unfoldable pub local_address_loop : ℕ → ConnectedSocket → Address → M W Address
  local_address_loop zero s address = λ w. none
  local_address_loop (suc fuel) s address = do
    let len = Address.capacity address % 2 ^ 32
    filled ← call (k.getsockname s.d_fd (Address.native address) len)
    let filled_address = Address.with_native address filled.buffer
    if filled.result ==ℤ minus_one
        then (do
          (cleared, _) ← defined (Address.move_assign filled_address Address.empty)
          pure cleared)
        else (do
          let again = ltb (Address.capacity filled_address) filled.length
          address' ← defined (Address.resize p filled_address filled.length)
          let rest = local_address_loop fuel s address' in if again then rest else pure address')

  unfoldable pub local_address : ℕ → ConnectedSocket → M W Address
  unfolding local_address_loop
  local_address fuel s = do
    address' ← defined (Address.resize p Address.empty p.sizeof_sockaddr)
    local_address_loop fuel s address'

abbrev pub native_handle : ConnectedSocket → ℤ
native_handle s = s.d_fd
