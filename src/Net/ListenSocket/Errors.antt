-- ===== src/Net/ListenSocket/Errors.antt =====
-- The error state of a listening socket over its life, and the descriptors that it opens.
use sydn.Common.{◌≡◌, ◌≢◌, ◌⊎◌, some}
use sydn.Posix.Platform.{Platform}
use sydn.Posix.Kernel.{Kernel}
use sydn.Posix.Laws.{Descriptors}
use sydn.Posix.Returns.{Returns}
use sydn.Net.Address
use sydn.Net.Address.{Address}
use sydn.Net.ConnectedSocket
use sydn.Net.ConnectedSocket.{ConnectedSocket, no_error}
use sydn.Net.ListenSocket.{ListenSocket, accept, accept_from}

module _ (p : Platform) {W : Type 0} (k : Kernel W) where
  -- One call of `accept`, of either form, that returns.
  pub data Step (s : ListenSocket) (w : W) (s' : ListenSocket) (w' : W) : Type 0 where
    plain :
        (socket socket' : ConnectedSocket)
        → accept k s socket w ≡ some ((s', socket'), w')
        → Step s w s' w'
    with_address :
        (socket socket' : ConnectedSocket) (address address' : Address)
        → accept_from p k s socket address w ≡ some ((s', socket', address'), w')
        → Step s w s' w'

  -- Any number of calls, with anything in between that the system does.
  pub data Reach (s : ListenSocket) (w : W) : ListenSocket → W → Type 0 where
    here : Reach s w s w
    elapse : {s' : ListenSocket} {w' : W} (w'' : W) → Reach s w s' w' → Reach s w s' w''
    next :
        {s' s'' : ListenSocket} {w' w'' : W}
        → Reach s w s' w'
        → Step s' w' s'' w''
        → Reach s w s'' w''

  -- What a call may change of the listening socket: the last error, to one that is not 0.
  abbrev pub Keeps : ListenSocket → ListenSocket → Type 0
  Keeps s s' =
      (s'.d_fd ≡ s.d_fd)
      × (s'.d_local_address ≡ s.d_local_address)
      × ((s'.d_last_error ≡ s.d_last_error) ⊎ (s'.d_last_error ≢ no_error))
