-- ===== src/Tests/Server.antt =====
-- Listening sockets and the accept loop of the echo server at concrete inputs, over the simulated
-- kernel.
use sydn.Common.{
  bit, ◌+◌, ◌≡◌, refl, inr, true, false, [], ◌∷◌, some, splice, unspecified, replicate, arith, byte,
  ℤ, pos, ◌==ℤ◌,
}
use sydn.Posix.Kernel.{◌>>=◌}
use sydn.Posix.Returns.{Returns}
use sydn.Mem.Sdo
use sydn.Net.Bytes.{get16, set16, load16}
use sydn.Net.Address
use sydn.Net.Address.{Address}
use sydn.Net.ConnectedSocket
use sydn.Net.ConnectedSocket.{stream}
use sydn.Net.Ipv4Address
use sydn.Net.ListenSocket
use sydn.Net.ListenSocket.{ListenSocket}
use sydn.Net.ListenSocket.Descriptors.{make-close_own}
use sydn.Net.EchoServer.Server
use sydn.Net.EchoServer.Server.{Server, ClientSession, Reach, Step}
use sydn.Net.EchoServer.Server.Descriptors.{owned}
use sydn.Net.EchoServer.Server.Serving.{serve-Accounts}
use sydn.Tests.System.{linux, linux-IsSound, linux-RejectsText, start, descriptors, is_open, opened}
use sydn.Tests.Sockets.{inet, kernel, inet-family, inet-ne_null}

make-close_own_example :
    Returns
      (λ _ w'. (m : ℤ) → is_open w' m ≡ is_open start m)
      ((do s ← ListenSocket.make linux kernel stream inet; ListenSocket.close_own kernel s) start)
make-close_own_example =
    make-close_own (descriptors (replicate 40 7)) linux stream inet 2 start inet-ne_null inet-family
      (inr (omega arith))

-- The server in its loop: its socket is the first descriptor that was free.
abbrev echo_server : Server
echo_server = record {
  listen_socket = record {
    d_last_error = 0;
    d_local_address = record {
      d_data = record { d_capacity = 32; d_size = 16; d_data = replicate 32 (byte 7); d_ptr = [] };
    };
    d_fd = pos 3;
  };
  sessions = [];
}

echo_server-started :
    Server.start linux kernel start ≡ some (Server.serving echo_server, opened start)
unfolding Server.start Server.server_address ListenSocket.make ListenSocket.read_local_address
    ListenSocket.check_result ListenSocket.initial ListenSocket.okay ListenSocket.would_have_blocked
    Ipv4Address.make Ipv4Address.set_port Ipv4Address.set_address Ipv4Address.pton Address.empty
    Sdo.make Sdo.initial Sdo.with_data get16 set16 load16 Sdo.data_of Sdo.resize ◌==ℤ◌
    Address.family Address.ne_null Address.resize Address.update
echo_server-started = refl

-- It has accepted one connection, whose peer address does not fit the small buffer.
abbrev session : ClientSession
session = record {
  d_socket = record { d_fd = pos 4 };
  d_address = record {
    d_data = record {
      d_capacity = 40;
      d_size = 40;
      d_data = splice (replicate 32 (byte 7)) (replicate 8 unspecified);
      d_ptr = replicate 40 unspecified;
    };
  };
}

abbrev one_session : Server
one_session = record echo_server { sessions = session ∷ [] }

one_session-round :
    Server.round linux kernel echo_server (opened start) ≡ some (one_session, opened (opened start))
unfolding Server.round ListenSocket.accept_from ListenSocket.refill ConnectedSocket.import
    Address.resize Address.native Address.with_native Address.update Address.empty Sdo.make
    Sdo.initial Sdo.resize Sdo.reserve Sdo.with_data Sdo.data_of ◌==ℤ◌
one_session-round = refl

serve-Accounts_example : bit true ≡ bit false + bit (pos 4 ==ℤ pos 3) + owned (pos 4) (session ∷ [])
unfolding ◌==ℤ◌
serve-Accounts_example =
    serve-Accounts (descriptors (replicate 40 7)) linux linux-IsSound linux-RejectsText start
      (opened start) (opened (opened start)) echo_server one_session echo_server-started
      (Reach.next Reach.here (Step.accepted one_session-round)) (pos 4) refl
