-- ===== src/Tests/Exchanges.antt =====
-- The tests of the drivers that exchange a text or an address, at concrete inputs, over the simulated
-- kernel: what they find there.
use sydn.Common.{Option, [], ◌∷◌}
use mathlib.Core.Option
use sydn.Posix.Kernel.{Kernel}
use sydn.Drivers.Accepts
use sydn.Drivers.Connects
use sydn.Drivers.Exchanges
use sydn.Drivers.PosixBuffers
use sydn.Drivers.PosixBuffers.Listening
use sydn.Drivers.Readers
use sydn.Tests.System.{linux, World, start, simulated}

-- Every socket has the address 3.4.5.6:258.
abbrev kernel : Kernel World
kernel = simulated (2 ∷ 0 ∷ 1 ∷ 2 ∷ 3 ∷ 4 ∷ 5 ∷ 6 ∷ 0 ∷ 0 ∷ 0 ∷ 0 ∷ 0 ∷ 0 ∷ 0 ∷ 0 ∷ [])

-- The text waits in the stream.
abbrev sent : World
sent = record start { input = Exchanges.test_text }

abbrev written : Option Exchanges.Written
written = Option.map (λ r. r.0) (Exchanges.test_write_string linux kernel 20 sent)

abbrev received : Option Exchanges.Received
received = Option.map (λ r. r.0) (Exchanges.test_read_buffer linux kernel 20 sent)

abbrev reported : Option Connects.Reports
reported = Option.map (λ r. r.0) (Connects.construction linux kernel 1 3 sent)

abbrev buffer_reported : Option Connects.Reports
buffer_reported =
    Option.map (λ r. r.0) (PosixBuffers.construction_local_address linux kernel 1 3 sent)

abbrev accepted : Option Accepts.Accepted
accepted = Option.map (λ r. r.0) (Accepts.accept_with_address linux kernel 3 sent)

abbrev buffer_accepted : Option Accepts.Accepted
buffer_accepted = Option.map (λ r. r.0) (Listening.accept_with_address linux kernel 3 sent)

abbrev reader_received : Option Exchanges.Received
reader_received = Option.map (λ r. r.0) (Readers.test_read_vector linux kernel 20 sent)
