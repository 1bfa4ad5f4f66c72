-- ===== src/Drivers/Usage.antt =====
-- `countFileDescriptorsInUse` and the test `Destruction` of src/syd/net/listen_socket.t.cpp.
pub mod Counts
pub mod Destruction
use sydn.Common.{
  ℕ, zero, suc, ◌+◌, ◌^◌, Bool, not, none, ltb, ◌==◌, if◌then◌else◌, ℤ, pos, minus_one, ◌==ℤ◌,
}
use sydn.Posix.Platform.{Platform}
use sydn.Posix.Kernel.{Kernel, M, pure, ◌>>=◌, ◌>>◌, call, defined}
use sydn.Net.Address
use sydn.Net.ConnectedSocket.{stream}
use sydn.Net.Ipv4Address
use sydn.Net.ListenSocket
use sydn.Net.ListenSocket.{ListenSocket}
use sydn.Net.PosixSocketBuffer.{assert}
use sydn.Net.Print.{codes}

-- `getrlimit(RLIMIT_NOFILE, &limit)`, its result and `rlim_max`, and `fcntl(fd, F_GETFD)`.
pub record Limits (W : Type 0) : Type 0 where
  pub getrlimit : W → (ℤ × ℕ) × W
  pub fcntl : ℤ → W → ℤ × W

module _ {W : Type 0} (k : Kernel W) (l : Limits W) where
  -- The loop from `i` on, with that many values of `i` left; `none`: `++i` overflows.
  unfoldable pub count_loop : ℕ → ℕ → ℕ → M W ℕ
  count_loop zero i count = pure count
  count_loop (suc left) i count = do
    r ← call (l.fcntl (pos i))
    let rest = count_loop left (suc i) (count + (if not (r ==ℤ minus_one) then 1 else 0))
    if ltb (suc i) (2 ^ 31) then rest else λ w. none

  unfoldable pub count_in_use : M W ℕ
  count_in_use = do
    (res, rlim_max) ← call l.getrlimit
    assert k (res ==ℤ pos 0)
    count_loop rlim_max 0 0

-- What the test expects: the socket is good, it uses a descriptor, and none is used after it.
pub record Expectations : Type 0 where
  pub good : Bool
  pub in_use : Bool
  pub released : Bool

module _ (p : Platform) {W : Type 0} (k : Kernel W) (l : Limits W) where
  unfoldable pub destruction : M W Expectations
  destruction = do
    fd_count ← count_in_use k l
    local_address ← defined (Ipv4Address.make p (codes "0.0.0.0") 0)
    socket ← ListenSocket.make p k stream local_address
    within ← count_in_use k l
    ListenSocket.close_own k socket
    after ← count_in_use k l
    pure (record {
      good = ListenSocket.to_bool p socket;
      in_use = ltb fd_count within;
      released = after == fd_count;
    })
