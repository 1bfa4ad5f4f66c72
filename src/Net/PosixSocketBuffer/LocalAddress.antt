-- ===== src/Net/PosixSocketBuffer/LocalAddress.antt =====
-- `posix_socket_buffer::local_address`: its loop ends after two rounds at most, with the name.
use sydn.Common.{
  ℕ, suc, ◌≤◌, ◌<◌, ◌^◌, ◌≡◌, ◌≢◌, refl, ap, ◌∙◌, ◌⊎◌, inl, inr, true, false, Option, some, List,
  map, arith, length, take, splice, ltb, ltb→lt, ltb→ge, lt→ltb, ge→ltb, Cell, byte, minus_one,
  ◌==ℤ◌, if◌then◌else◌, Bool-cases, length-splice, length-map, take-all,
}
use sydn.Mem.Sdo.Invariant
use sydn.Posix.Platform.{Platform, IsSound}
use sydn.Posix.Kernel.{Kernel, Filled}
use sydn.Posix.Laws.{SocketName}
use sydn.Posix.Returns.{Returns}
use sydn.Net.Address
use sydn.Net.Address.{Address}
use sydn.Net.Address.Contents.{
  IsValid, contents, memory, native_of_ne_zero, IsSize, resized, resize-IsSize, written_lem,
  move_assign-empty, resized-contents,
}
use sydn.Net.ConnectedSocket.{ErrorCondition, no_error}
use sydn.Net.PosixSocketBuffer.{PosixSocketBuffer, to_socklen, local_address_loop, local_address}

module _ (p : Platform) {W : Type 0} (k : Kernel W) (s : PosixSocketBuffer)
    (n : SocketName k s.d_fd) where
  -- Some call of `getsockname` failed, and left the state `w`.
  abbrev pub Failed : W → Type 0
  Failed w =
      (b : Option (List Cell)) × (len : ℕ) × (w₀ : W) × (((k.getsockname s.d_fd b len w₀).0.result
          ==ℤ minus_one)
        ≡ true)
      × (w ≡ (k.getsockname s.d_fd b len w₀).1)

  -- The name, or the error of a call that failed and an address without a size.
  abbrev pub Outcome : List ℕ → ErrorCondition × Address → W → Type 0
  Outcome name r w' =
      IsValid r.1
      × (((r.0 ≡ no_error) × (contents r.1 ≡ map byte name))
          ⊎ (Failed w' × (r.0 ≡ k.errno w') × (Address.size r.1 ≡ 0)))

  -- What is to be known of the address at the head of the loop.
  pub record IsReady (a : Address) : Type 0 where
    pub valid : IsValid a
    pub given : Address.size a ≢ 0
    pub socklen : Address.capacity a < 2 ^ 32

  module _ (a : Address) (r : IsReady a) (w : W) where
    filled : Filled × W
    filled = k.getsockname s.d_fd (some (memory a)) (Address.capacity a) w

    socklen : to_socklen (Address.capacity a) ≡ Address.capacity a
    socklen = omega (arith, r.socklen)

    failing_round :
        (fuel : ℕ)
        → (filled.0.result ==ℤ minus_one) ≡ true
        → Returns (Outcome (n.name w)) (local_address_loop p k (suc fuel) s a w)
    unfolding filled local_address_loop
    failing_round fuel e =
        let (b, eb, lb) = n.in_room (memory a) (Address.capacity a) w in
        let room = lb ∙ Invariant.length-data_of Address.c_sdo_size a.d_data r.valid in
        let (cleared, rest, em, valid, zero_size) =
          move_assign-empty (Address.with_native a (some b)) (written_lem a b r.valid room).0 in
        rw (native_of_ne_zero a r.given, socklen, e, eb, em)
          (valid, inr ((some (memory a), Address.capacity a, w, e, refl), refl, zero_size))

    module _ (named : IsSize p (length (n.name w)))
        (e : (filled.0.result ==ℤ minus_one) ≡ false) where
      bytes : List Cell
      bytes = map byte (take (Address.capacity a) (n.name w))

      written : Address
      unfolding bytes
      written = Address.with_native a (some (splice (memory a) bytes))

      written_facts :
          IsValid written
          × (Address.size written ≡ Address.size a)
          × (Address.capacity written ≡ Address.capacity a)
          × (memory written ≡ splice (memory a) bytes)
      unfolding written
      written_facts = written_lem a (splice (memory a) bytes) r.valid (
          length-splice (memory a) bytes
          ∙ Invariant.length-data_of Address.c_sdo_size a.d_data r.valid)

      round :
          (fuel : ℕ)
          → local_address_loop p k (suc fuel) s a w ≡ (
              if ltb (Address.capacity a) (length (n.name w))
              then local_address_loop p k fuel s (resized written (length (n.name w))) filled.1
              else some ((no_error, resized written (length (n.name w))), filled.1))
      unfolding written filled local_address_loop
      round fuel = elim (Bool-cases (ltb (Address.capacity a) (length (n.name w)))) [
        | inl more ↦ rw (
          native_of_ne_zero a r.given,
          socklen,
          e,
          n.copies (memory a) (Address.capacity a) w e,
          n.reports (some (memory a)) (Address.capacity a) w e,
          resize-IsSize p written (length (n.name w)) named,
          written_facts.2,
          more,
        )
        | inr done ↦ rw (
          native_of_ne_zero a r.given,
          socklen,
          e,
          n.copies (memory a) (Address.capacity a) w e,
          n.reports (some (memory a)) (Address.capacity a) w e,
          resize-IsSize p written (length (n.name w)) named,
          written_facts.2,
          done,
        )
      ]

      last_round :
          (fuel : ℕ)
          → length (n.name w) ≤ Address.capacity a
          → Returns (Outcome (n.name w)) (local_address_loop p k (suc fuel) s a w)
      unfolding bytes
      last_round fuel fits =
          let len = length (n.name w) in
          let whole : bytes ≡ map byte (n.name w) =
            ap (map byte) (take-all (Address.capacity a) (n.name w) fits) in
          let (_, _, c, m) = written_facts in
          let room = Invariant.length-data_of Address.c_sdo_size a.d_data r.valid in
          rw (round fuel, ge→ltb _ _ fits)
            (
              Invariant.resize-IsValid Address.c_sdo_size written.d_data len written_facts.0,
              inl (
                refl,
                resized-contents written len (map byte (n.name w)) (memory a)
                    (m ∙ ap (splice (memory a)) whole) (length-map byte (n.name w))
                    (omega (arith, c)) (omega (arith, room)),
              ),
            )

      -- The address that the first round leaves when the name did not fit.
      grown-IsReady :
          Address.capacity a < length (n.name w) → IsReady (resized written (length (n.name w)))
      grown-IsReady more =
          let (v, _, c, _) = written_facts in
          let size = Invariant.size-resize Address.c_sdo_size written.d_data (length (n.name w)) in
          record {
            valid = Invariant.resize-IsValid Address.c_sdo_size written.d_data _ v;
            given = omega (arith, size);
            socklen = omega (
              arith,
              c,
              n.socklen w,
              Invariant.capacity-resize Address.c_sdo_size written.d_data (length (n.name w)),
            );
          }

  loop_fits :
      (fuel : ℕ) (a : Address) (w : W)
      → IsReady a
      → IsSize p (length (n.name w))
      → length (n.name w) ≤ Address.capacity a
      → Returns (Outcome (n.name w)) (local_address_loop p k (suc fuel) s a w)
  loop_fits fuel a w r named fits = elim (Bool-cases ((filled a r w).0.result ==ℤ minus_one)) [
    | inl e ↦ failing_round a r w fuel e
    | inr e ↦ last_round a r w named e fuel fits
  ]

  loop_grows :
      (fuel : ℕ) (a : Address) (w : W) (r : IsReady a) (named : IsSize p (length (n.name w)))
      → Address.capacity a < length (n.name w)
      → (e : ((filled a r w).0.result ==ℤ minus_one) ≡ false)
      → Returns (Outcome (n.name w)) (local_address_loop p k (suc (suc fuel)) s a w)
  unfolding filled
  loop_grows fuel a w r named more e =
      let len = length (n.name w) in
      let b = resized (written a r w named e) len in
      let same = n.keeps (some (memory a)) (Address.capacity a) w in
      let size = ap length same in
      rw (round a r w named e (suc fuel), lt→ltb _ _ more)
        (rw same at (
          loop_fits fuel b (filled a r w).1 (grown-IsReady a r w named e more) (rw same named) (
            omega (
              arith,
              size,
              Invariant.capacity-resize Address.c_sdo_size (written a r w named e).d_data len,
            ))))

  loop_lem :
      (fuel : ℕ) (a : Address) (w : W)
      → IsReady a
      → IsSize p (length (n.name w))
      → Returns (Outcome (n.name w)) (local_address_loop p k (suc (suc fuel)) s a w)
  loop_lem fuel a w r named = elim (Bool-cases (ltb (Address.capacity a) (length (n.name w)))) [
    | inl more ↦ elim (Bool-cases ((filled a r w).0.result ==ℤ minus_one)) [
      | inl e ↦ failing_round a r w (suc fuel) e
      | inr e ↦ loop_grows fuel a w r named (ltb→lt _ _ more) e
    ]
    | inr fits ↦ loop_fits (suc fuel) a w r named (ltb→ge _ _ fits)
  ]

  -- With room for two rounds the loop ends, no assertion fails, and `local_address` either returns
  -- no error and makes the address exactly the socket's name, or returns the error of a call of
  -- `getsockname` that failed and makes the size 0. The address is valid. It is required that the
  -- address was valid, that its capacity and `sizeof(sockaddr)` fit a `socklen_t`, and that the name
  -- is empty or at least as long as a `sockaddr`.
  pub local_address_lem :
      (fuel : ℕ) (a : Address) (w : W)
      → IsSound p
      → IsValid a
      → Address.capacity a < 2 ^ 32
      → p.sizeof_sockaddr < 2 ^ 32
      → IsSize p (length (n.name w))
      → Returns (Outcome (n.name w)) (local_address p k (suc (suc fuel)) s a w)
  unfolding local_address
  local_address_lem fuel a w sound v small socklen named =
      let size = p.sizeof_sockaddr in
      rw (resize-IsSize p a size (inr (omega arith))) (
        loop_lem fuel (resized a size) w
          (record {
            valid = Invariant.resize-IsValid Address.c_sdo_size a.d_data size v;
            given = omega (
              arith,
              sound.family_in_sockaddr,
              Invariant.size-resize Address.c_sdo_size a.d_data size,
            );
            socklen = omega (arith, Invariant.capacity-resize Address.c_sdo_size a.d_data size);
          })
          named)
