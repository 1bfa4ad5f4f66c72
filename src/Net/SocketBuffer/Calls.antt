-- ===== src/Net/SocketBuffer/Calls.antt =====
-- Calls on a socket buffer that open and close no descriptor.
use sydn.Common.{
  ℕ, zero, suc, ◌≡◌, refl, ◌∙◌, ltb, List, ℤ, minus_one, ◌==ℤ◌, Cell, narrow, is_nonneg, length,
  Bool-cases, Option-cases, inl, inr,
}
use sydn.Posix.Platform.{Platform}
use sydn.Posix.Kernel.{Kernel}
use sydn.Posix.Laws.{Descriptors}
use sydn.Posix.Returns.{IfReturns, IfReturns-mono}
use sydn.Net.Address
use sydn.Net.Address.{Address}
use sydn.Net.PosixSocketBuffer
use sydn.Net.PosixSocketBuffer.{PosixSocketBuffer, SocketBuffer, base, posix, to_socklen}
use sydn.Net.SocketBuffer.{write, read, local_address, remote_address}

module _ {W : Type 0} {k : Kernel W} (d : Descriptors k) (p : Platform) where
  -- The same descriptors are open.
  abbrev pub Keeps : W → W → Type 0
  Keeps w w' = (m : ℤ) → d.is_open w' m ≡ d.is_open w m

  pub write-Keeps :
      (b : SocketBuffer) (bytes : List Cell) (w : W)
      → IfReturns (λ r w'. Keeps w w') (write p k b bytes w)
  unfolding write PosixSocketBuffer.write
  write-Keeps base bytes w = λ m. refl
  write-Keeps (posix s) bytes w =
      let res = narrow (k.write s.d_fd bytes (length bytes) w).0 in
      let keeps = d.write_keeps s.d_fd bytes (length bytes) w in
      elim (Bool-cases (res ==ℤ minus_one)) [
        | inl e ↦ rw e keeps
        | inr e ↦ elim (Bool-cases (is_nonneg res)) [
          | inl n ↦ rw (e, n) keeps
          | inr n ↦ rw (e, n) tt
        ]
      ]

  pub read-Keeps :
      (b : SocketBuffer) (buffer : List Cell) (w : W)
      → IfReturns (λ r w'. Keeps w w') (read p k b buffer w)
  unfolding read PosixSocketBuffer.read
  read-Keeps base buffer w = λ m. refl
  read-Keeps (posix s) buffer w =
      let res = narrow (k.read s.d_fd buffer (length buffer) w).0 in
      let keeps = d.read_keeps s.d_fd buffer (length buffer) w in
      elim (Bool-cases (res ==ℤ minus_one)) [
        | inl e ↦ rw e keeps
        | inr e ↦ elim (Bool-cases (is_nonneg res)) [
          | inl n ↦ rw (e, n) keeps
          | inr n ↦ rw (e, n) tt
        ]
      ]

  loop-Keeps :
      (fuel : ℕ) (s : PosixSocketBuffer) (address : Address) (w : W)
      → IfReturns (λ r w'. Keeps w w') (PosixSocketBuffer.local_address_loop p k fuel s address w)
  unfolding PosixSocketBuffer.local_address_loop
  loop-Keeps zero s address w = tt
  loop-Keeps (suc fuel) s address w =
      let room = Address.native address in
      let len = to_socklen (Address.capacity address) in
      let called = k.getsockname s.d_fd room len w in
      let filled_address = Address.with_native address called.0.buffer in
      let keeps = d.getsockname_keeps s.d_fd room len w in
      elim (Bool-cases (called.0.result ==ℤ minus_one)) [
        | inl e ↦ elim (Option-cases (Address.move_assign filled_address Address.empty)) [
          | inl n ↦ rw (e, n) tt
          | inr (cleared, c) ↦ rw (e, c) keeps
        ]
        | inr e ↦ elim (Option-cases (Address.resize p filled_address called.0.length)) [
          | inl n ↦ rw (e, n) tt
          | inr (resized, r) ↦
              elim (Bool-cases (ltb (Address.capacity filled_address) called.0.length)) [
                | inl again ↦
                    rw (e, r, again)
                      (IfReturns-mono (λ _ w'. Keeps called.1 w') (λ _ w'. Keeps w w') _
                        (loop-Keeps fuel s resized called.1) λ _ w' h m. h m ∙ keeps m)
                | inr done ↦ rw (e, r, done) keeps
              ]
        ]
      ]

  pub local_address-Keeps :
      (fuel : ℕ) (b : SocketBuffer) (address : Address) (w : W)
      → IfReturns (λ r w'. Keeps w w') (local_address p k fuel b address w)
  unfolding local_address PosixSocketBuffer.local_address
  local_address-Keeps fuel base address w = λ m. refl
  local_address-Keeps fuel (posix s) address w =
      elim (Option-cases (Address.resize p address p.sizeof_sockaddr)) [
        | inl n ↦ rw n tt
        | inr (resized, r) ↦ rw r (loop-Keeps fuel s resized w)
      ]

  pub remote_address-Keeps :
      (b : SocketBuffer) (address : Address) (w : W)
      → IfReturns (λ r w'. Keeps w w') (remote_address p k b address w)
  unfolding remote_address
  remote_address-Keeps b address w = λ m. refl
