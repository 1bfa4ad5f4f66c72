-- ===== src/Drivers/Connects/Listening.antt =====
-- The listening descriptor and the address that `createListeningSocket` hands to a test.
use sydn.Common.{
  ℕ, none, refl, inl, drop, take-splice, take-all, length-map, ◌≤◌, ◌<◌, ◌≡◌, sym, ap, ◌∙◌, true,
  some, List, length, length-splice, splice, map, take, ℤ, ◌==ℤ◌, ==ℤ_refl, Cell, byte, bit, arith,
}
use sydn.Mem.Sdo.Invariant
use sydn.Mem.Sdo.Contents as Characters
use sydn.Posix.Platform.{Platform, IsSound}
use sydn.Posix.Kernel.{Kernel}
use sydn.Posix.Laws.{Descriptors}
use sydn.Posix.Returns.{Returns}
use sydn.Net.Address
use sydn.Net.Address.{Address}
use sydn.Net.Address.Contents.{
  IsValid, memory, contents, native_of_ne_zero, empty-IsValid, written_lem,
}
use sydn.Net.Address.Family.{family_lem}
use sydn.Net.Bytes.{get16, get16-take}
use sydn.Net.Ipv4Address.Fields.{room, make-stored, given, port_lem}
use sydn.Net.PosixSocketBuffer.{to_socklen}
use sydn.Net.Print.{codes}
use sydn.Drivers.Servers.{create_listening_socket}
use sydn.Drivers.Usage.{Limits}
use sydn.Drivers.Usage.Counts.{IsLimited}
use sydn.Drivers.Connects.Held.{used, Adds, Adds-opened}
use sydn.Drivers.Connects.Sockets.{IsWorking}

-- A copy of an address that holds the bytes of a name: it has the name's family, and can be connected to.
named-assign :
    (p : Platform) (a : Address) (name : List ℕ)
    → IsValid a
    → 2 ≤ Address.size a
    → contents a ≡ map byte name
    → get16 0 (map byte name) ≡ some p.af_inet
    → let copy = Address.assign Address.empty a in
      (Address.family p copy ≡ some p.af_inet)
      × (Address.native copy ≡ some (memory copy))
      × (take (Address.size copy) (memory copy) ≡ map byte name)
unfolding Address.assign
named-assign p a name valid two named f =
    let copy = Address.assign Address.empty a in
    let same : contents copy ≡ contents a =
      Characters.contents-copy_assign Address.c_sdo_size Address.empty.d_data a.d_data
        empty-IsValid.0 valid in
    let size : Address.size copy ≡ Address.size a =
      sym (
        Characters.length-contents Address.c_sdo_size copy.d_data (
          Invariant.copy_assign-IsValid Address.c_sdo_size Address.empty.d_data a.d_data
            empty-IsValid.0 valid))
      ∙ ap length same
      ∙ Characters.length-contents Address.c_sdo_size a.d_data valid in
    (
      family_lem p copy (omega (arith, size))
          ∙ sym (get16-take (Address.size copy) (memory copy) (omega (arith, size)))
          ∙ ap (get16 0) (same ∙ named)
          ∙ f,
      native_of_ne_zero copy (omega (arith, size)),
      same ∙ named,
    )

module _ {W : Type 0} {k : Kernel W} (d : Descriptors k) (l : Limits W) (limited : IsLimited d l)
    (p : Platform) (working : IsWorking d l limited p) (sound : IsSound p) where
  -- What a test gets: one more descriptor is open, which was free, a server for which no connection
  -- waits, and an address of the server's name.
  abbrev pub Listens : W → ℤ × Address → W → Type 0
  Listens w r w' =
      Adds d l limited w (λ m. bit (m ==ℤ r.0)) w'
      × (d.is_open w' r.0 ≡ true)
      × (Address.family p r.1 ≡ some p.af_inet)
      × ((name : List ℕ) × (working.server w' r.0 ≡ some (name, none))
          × ((bytes : List Cell) × (Address.native r.1 ≡ some bytes)
              × (take (Address.size r.1) bytes ≡ map byte name)))

  pub create_listening_socket-Listens :
      (w : W)
      → used d l limited w < limited.limit
      → Returns (Listens w) (create_listening_socket p k Address.empty w)
  unfolding create_listening_socket
  create_listening_socket-Listens w free =
      let new = k.socket p.af_inet p.sock_stream 0 w in
      let (opened, is_fresh) = working.socket_works w free in
      let (a, made, ipv4, port, (dst, wide, stored)) = make-stored p sound (codes "127.0.0.1") 0 in
      let native = native_of_ne_zero a (given p sound a ipv4) in
      let local : working.is_local (drop p.sin_addr (memory a)) ≡ true =
        ap working.is_local stored ∙ working.host (codes "127.0.0.1") dst (inl refl) wide in
      let bound = k.bind new.0 (some (memory a)) p.sizeof_sockaddr_in new.1 in
      let (binds, (name, (named_length, family), is_bound)) =
        working.bind_works new.0 (memory a) new.1 is_fresh ipv4.family
          (sym (port_lem p sound a ipv4) ∙ port ∙ ap some (omega arith)) local in
      let listening = k.listen new.0 1 bound.1 in
      let (listens, serves) = working.listen_works new.0 1 bound.1 name is_bound (omega arith) in
      let len = to_socklen p.sizeof_sockaddr_in in
      let whole : len ≡ p.sizeof_sockaddr_in = omega (arith, working.socklen) in
      let named = k.getsockname new.0 (some (memory a)) len listening.1 in
      let (answers, copied) =
        working.getsockname_works new.0 (memory a) len listening.1 name none serves in
      let bytes = splice (memory a) (map byte (take len name)) in
      let (valid, size, _, m) = written_lem a bytes ipv4.valid (
        length-splice (memory a) (map byte (take len name))
        ∙ Invariant.length-data_of Address.c_sdo_size a.d_data ipv4.valid) in
      let shorter : take len name ≡ name = take-all len name (omega (arith, named_length, whole)) in
      let same_length : length (map byte name) ≡ p.sizeof_sockaddr_in =
        length-map byte name ∙ named_length in
      let filled = Address.with_native a (some bytes) in
      let holds : contents filled ≡ map byte name =
        ap (take (Address.size filled)) m
        ∙ ap (λ n. take n bytes) (size ∙ ipv4.whole ∙ sym same_length)
        ∙ ap (λ xs. take (length (map byte name)) (splice (memory a) (map byte xs))) shorter
        ∙ take-splice (length (map byte name)) (memory a) (map byte name) refl
            (omega (arith, same_length, ipv4.whole, room p sound a ipv4)) in
      let (labelled, reached, same_name) =
        named-assign p filled name valid
          (omega (arith, size, ipv4.whole, sound.family_in_sockaddr, sound.sockaddr_in_extends))
          holds family in
      let keeps : (m : ℤ) → d.is_open named.1 m ≡ d.is_open new.1 m = λ m.
        d.getsockname_keeps new.0 (some (memory a)) len listening.1 m
        ∙ d.listen_keeps new.0 1 bound.1 m
        ∙ d.bind_keeps new.0 (some (memory a)) p.sizeof_sockaddr_in new.1 m in
      rw (opened, made, native, ipv4.whole, binds, listens, answers, copied)
        (
          λ m. omega (
            arith,
            Adds-opened d l limited w w named.1 (λ m. 0) new.0 (λ m. omega arith)
                (d.socket_fresh p.af_inet p.sock_stream 0 w)
                (λ m. keeps m ∙ d.socket_opens p.af_inet p.sock_stream 0 w m) opened m,
          ),
          keeps new.0
              ∙ (ground (
                arith,
                opened,
                d.socket_opens p.af_inet p.sock_stream 0 w new.0,
                ==ℤ_refl new.0,
              )),
          labelled,
          (
            name,
            working.getsockname_keeps new.0 (some (memory a)) len listening.1 new.0 ∙ serves,
            (memory (Address.assign Address.empty filled), reached, same_name),
          ),
        )
