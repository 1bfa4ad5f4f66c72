-- ===== src/Tests/Working.antt =====
-- What the tests of the drivers find in the system whose sockets work as those of a host do.
use sydn.Common.{
  ◌⊎◌, ℕ, ◌≡◌, refl, sym, ap, ◌∙◌, inl, inr, Bool, true, false, ◌||◌, Option, none, some, [], ◌∷◌,
  ◌++◌, List, map, take, splice, length, ltb, ◌≤◌, if◌then◌else◌, length-take, length-map, take-all,
  take-splice, length-splice, take-length-take, drop-length-take, arith, byte, Cell, ℤ, pos, ◌==◌,
  ==_refl, ◌==ℤ◌, Option-cases,
}
use sydn.Posix.Platform.{Platform, IsSound}
use sydn.Posix.Fair.{FairInput}
use sydn.Posix.Returns.{Returns}
use sydn.Net.Bytes.{get16}
use sydn.Net.Print.{codes}
use sydn.Drivers.Connects.{destruction}
use sydn.Drivers.Connects.Destruction.{destruction_any_order}
use sydn.Drivers.Exchanges.{test_write_string, test_write_chars, test_write_span}
use sydn.Drivers.Exchanges.Writes
use sydn.Drivers.Exchanges.Writes.{test_writes_lem}
use sydn.Drivers.PosixBuffers.Listening.{destruction_listen}
use sydn.Drivers.PosixBuffers.Destruction.{destruction_listen_lem}
use sydn.Drivers.Connects.Sockets.{IsWorking}
use sydn.Tests.Few.{room, free, works}
use sydn.Tests.System.{linux}
use sydn.Tests.Hosts.{
  Host, code, codes_back, same, same_bytes, at_same, at_other, name_of, meet, input_of, hosted,
  table, host_limits, limited,
}

-- The bytes of the two texts that the tests give to `inet_pton`.
abbrev starts : List ℕ → Bool
starts [] = false
starts (c ∷ text) = c == 48

abbrev address_of : List ℕ → List ℕ
address_of text = if starts text then 0 ∷ 0 ∷ 0 ∷ 0 ∷ [] else 127 ∷ 0 ∷ 0 ∷ 1 ∷ []

abbrev on_host : Platform
on_host = record linux {
  inet_pton = λ family text dst. (pos 1, splice dst (map byte (address_of text)));
}

on_host-IsSound : IsSound on_host
on_host-IsSound = omega arith

abbrev is_local : List Cell → Bool
is_local cells =
    same (take 4 cells) (127 ∷ 0 ∷ 0 ∷ 1 ∷ []) || same (take 4 cells) (0 ∷ 0 ∷ 0 ∷ 0 ∷ [])

abbrev input_on : (fd : ℤ) → FairInput on_host hosted fd
input_on fd = record {
  input = λ w. input_of (w.accepted fd) w.sent;
  patience = λ w. 0;
  reads = λ b w room there. elim (Option-cases (w.accepted fd)) [
    | inl e ↦ absurd (omega (arith, ap (λ c. length (input_of c w.sent)) e))
    | inr (c, e) ↦
        rw (e, ==_refl c)
          (inr (
            length (take (length b) (w.sent c)),
            refl,
            omega
                (arith, length-take (length b) (w.sent c), ap (λ c. length (input_of c w.sent)) e),
            omega (arith, length-take (length b) (w.sent c)),
            omega (arith, length-take (length b) (w.sent c)),
            ap (λ bytes. splice b (map byte bytes)) (sym (take-length-take (length b) (w.sent c))),
            sym (drop-length-take (length b) (w.sent c)),
            omega arith,
          ))
  ];
}

meet_lem :
    (cells : List Cell) (c : ℕ) (name : List ℕ) (o : Option (List ℕ × Option ℕ))
    → o ≡ some (name, none)
    → cells ≡ map byte name
    → meet cells c o ≡ some (name, some c)
meet_lem cells c name o serves named = rw (serves, named, same_bytes name) refl

splice_twice : (xs ys : List Cell) → splice xs (splice xs ys) ≡ splice xs ys
splice_twice xs ys =
    sym (
      take-all (length xs) (splice xs (splice xs ys))
        (omega (arith, length-splice xs (splice xs ys))))
    ∙ take-splice (length xs) xs (splice xs ys) (length-splice xs ys) (omega arith)

local_host :
    (text : List ℕ) (dst : List Cell)
    → (text ≡ codes "127.0.0.1") ⊎ (text ≡ codes "0.0.0.0")
    → 4 ≤ length dst
    → is_local (splice dst (on_host.inet_pton on_host.af_inet text dst).1) ≡ true
local_host text dst (inl e) wide =
    rw
      (
        e,
        splice_twice dst (map byte (127 ∷ 0 ∷ 0 ∷ 1 ∷ [])),
        take-splice 4 dst (map byte (127 ∷ 0 ∷ 0 ∷ 1 ∷ [])) refl wide,
      )
      refl
local_host text dst (inr e) wide =
    rw
      (
        e,
        splice_twice dst (map byte (0 ∷ 0 ∷ 0 ∷ 0 ∷ [])),
        take-splice 4 dst (map byte (0 ∷ 0 ∷ 0 ∷ 0 ∷ [])) refl wide,
      )
      refl

working : IsWorking table host_limits limited on_host
unfolding ◌==ℤ◌ get16
working = record {
  fresh = λ w. w.new;
  bound = λ w. w.bound;
  server = λ w. w.servers;
  connected = λ w. w.connected;
  accepted = λ w. w.accepted;
  sent = λ w. w.sent;
  is_local = is_local;
  socklen = omega arith;
  host = local_host;
  socket_works = λ w less. (works w.live less, at_same (free w.live room 0) true w.new);
  bind_works = λ fd bytes w new inet any here.
      (rw new refl, (name_of fd, (refl, refl), at_same fd _ w.bound ∙ rw new refl));
  listen_works =
      λ fd n w name is_bound room. (rw is_bound refl, at_same fd _ w.servers ∙ rw is_bound refl);
  getsockname_works = λ fd bytes n w name c serves. rw serves (refl, refl);
  connect_works = λ fd other bytes n w name new serves named. (
    rw new refl,
    (
      w.next,
      at_same fd _ w.connected ∙ rw new refl,
      rw new (meet_lem (take n bytes) w.next name (w.servers other) serves named),
      rw (==_refl w.next) refl,
    ),
  );
  accept_works = λ fd b n w name c waits less.
      rw (hosted, waits)
        (works w.live less, at_same (free w.live room 0) (some c) w.accepted, refl);
  write_works = λ fd bytes w c connects small. (
    rw connects (
        ap (λ taken. pos (length taken))
          (take-all (length (map byte bytes)) (map byte bytes) (omega arith))
        ∙ ap pos (length-map byte bytes)),
    rw (connects, ==_refl c)
        (ap (λ taken. w.sent c ++ map code taken)
            (take-all (length (map byte bytes)) (map byte bytes) (omega arith))
          ∙ ap (λ sent. w.sent c ++ sent) (codes_back bytes)),
  );
  inputs = input_on;
  reads = λ fd w c accepts. ap (λ c. input_of c w.sent) accepts;
  socket_keeps =
      λ domain type protocol w m other. at_other (free w.live room 0) none w.servers m other;
  getsockname_keeps = λ fd b n w m. refl;
  write_keeps = λ fd b n w m. refl;
  close_keeps = λ fd w m other. at_other fd none w.servers m other;
  fcntl_keeps = λ fd w m. refl;
  getrlimit_keeps = λ w m. refl;
  close_sent = λ fd w c. refl;
  close_accepted = λ fd w m other. at_other fd none w.accepted m other;
}

-- One descriptor is open, and there is no server.
abbrev idle : Host
idle = record {
  live = λ n. n == 0;
  new = λ m. false;
  bound = λ m. none;
  servers = λ m. none;
  connected = λ m. none;
  accepted = λ m. none;
  sent = λ c. [];
  next = 0;
}

-- The thread makes two of its calls before the count.
destruction_any_order_example :
    Returns
      (λ expected w'.
        (expected.released ≡ true)
        × (expected.in_use ≡ ltb 2 3)
        × ((m : ℤ) → table.is_open w' m ≡ table.is_open idle m))
      (destruction on_host hosted host_limits 2 0 idle)
destruction_any_order_example =
    destruction_any_order table host_limits limited on_host working on_host-IsSound 2 0 idle
      (omega arith)

destruction_listen_lem_example :
    Returns
      (λ expected w'.
        (expected.good ≡ true)
        × (expected.in_use ≡ true)
        × (expected.released ≡ true)
        × ((m : ℤ) → table.is_open w' m ≡ table.is_open idle m))
      (destruction_listen on_host hosted host_limits idle)
destruction_listen_lem_example =
    destruction_listen_lem table host_limits limited on_host working on_host-IsSound idle
      (omega arith)

test_writes_lem_example :
    Returns
      (Writes.Passes table host_limits limited on_host working on_host-IsSound idle 14)
      (test_write_string on_host hosted 15 idle)
    × Returns
        (Writes.Passes table host_limits limited on_host working on_host-IsSound idle 15)
        (test_write_chars on_host hosted 15 idle)
    × Returns
        (Writes.Passes table host_limits limited on_host working on_host-IsSound idle 5)
        (test_write_span on_host hosted 15 idle)
unfolding working
test_writes_lem_example =
    test_writes_lem table host_limits limited on_host working on_host-IsSound 15 0 idle
      (omega arith) (λ fd w. omega arith) (omega arith)
