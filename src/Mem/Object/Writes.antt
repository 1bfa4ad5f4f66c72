-- ===== src/Mem/Object/Writes.antt =====
-- Writes through the pointer of an array on the heap, and its assignment to itself.
use sydn.Common.{
  ℕ, List, ◌≡◌, refl, ◌∙◌, true, take, splice, leb, le→leb, arith, Cell, length-splice,
}
use mathlib.Core.Path.{subst}
use sydn.Posix.Kernel.{M, ◌>>=◌}
use sydn.Posix.Returns.{Returns, Returns-mono}
use sydn.Mem.Sdo
use sydn.Mem.Sdo.{Sdo}
use sydn.Mem.Sdo.Invariant.{IsValid, with_data-IsValid, length-data_of}
use sydn.Mem.Heap.{Heap}
use sydn.Mem.Object.{Object, data_of, with_data, resize, copy_assign}
use sydn.Mem.Object.Refines.{Blocks, Holds, data_of_lem, with_data-Holds}
use sydn.Mem.Object.Pairs.{own_live}

module _ (small_size : ℕ) where
  -- The characters from the first on are written, as many as there are, and no more than the size.
  unfoldable pub fill : Object → List Cell → M Heap Object
  fill o chars = do
    to_bytes ← data_of small_size o
    with_data small_size o (splice to_bytes (take o.d_size chars))

  unfoldable pub fill_sdo : Sdo → List Cell → Sdo
  fill_sdo s chars =
      Sdo.with_data small_size s (splice (Sdo.data_of small_size s) (take s.d_size chars))

  pub fill_sdo-IsValid :
      (s : Sdo) (chars : List Cell) → IsValid small_size s → IsValid small_size (fill_sdo s chars)
  unfolding fill_sdo
  fill_sdo-IsValid s chars v = with_data-IsValid small_size s _ v (
      length-splice (Sdo.data_of small_size s) (take s.d_size chars)
      ∙ length-data_of small_size s v)

  pub fill-Holds :
      (h : Heap) (rest : Blocks) (o : Object) (s : Sdo) (chars : List Cell)
      → Holds small_size h rest o s
      → Returns (λ o' h'. Holds small_size h' rest o' (fill_sdo s chars)) (fill o chars h)
  unfolding fill fill_sdo
  fill-Holds h rest o s chars r =
      let to_bytes = λ (n : ℕ). splice (Sdo.data_of small_size s) (take n chars) in
      rw (◌>>=◌, data_of_lem small_size h o s r.same (own_live small_size h rest o s r))
        (Returns-mono
          (λ o' h'. Holds small_size h' rest o' (Sdo.with_data small_size s (to_bytes o.d_size)))
          (λ o' h'. Holds small_size h' rest o' (Sdo.with_data small_size s (to_bytes s.d_size)))
          (with_data small_size o (to_bytes o.d_size) h)
          (with_data-Holds small_size h rest o s (to_bytes o.d_size) r)
          λ o' h' done.
            subst (λ n. Holds small_size h' rest o' (Sdo.with_data small_size s (to_bytes n)))
              r.same.size done)

  -- The resize to the own size does nothing.
  resize_own :
      (h : Heap) (rest : Blocks) (o : Object) (s : Sdo)
      → IsValid small_size s
      → Holds small_size h rest o s
      → (leb o.d_size o.d_capacity) ≡ true
  resize_own h rest o s v r = le→leb _ _ (omega (arith, v.fits, r.same.size, r.same.capacity))

  self_sdo :
      (s : Sdo)
      → IsValid small_size s
      → Sdo.copy_assign small_size s s ≡ fill_sdo s (Sdo.data_of small_size s)
  unfolding Sdo.copy_assign Sdo.resize fill_sdo
  self_sdo s v = rw (le→leb s.d_size s.d_capacity v.fits) refl

  self_object :
      (h : Heap) (rest : Blocks) (o : Object) (s : Sdo)
      → IsValid small_size s
      → Holds small_size h rest o s
      → copy_assign small_size o o h ≡ fill o (Sdo.data_of small_size s) h
  unfolding copy_assign resize fill
  self_object h rest o s v r =
      let sized : Object = record o { d_size = o.d_size } in
      let live = own_live small_size h rest o s r in
      rw
        (
          resize_own h rest o s v r,
          ◌>>=◌,
          data_of_lem small_size h o s r.same live,
          data_of_lem small_size h sized s r.same live,
        )
        refl

  -- `*this = *this`: the object that is read is the one that was resized, and the resize does nothing.
  pub copy_assign_self-Holds :
      (h : Heap) (rest : Blocks) (o : Object) (s : Sdo)
      → IsValid small_size s
      → Holds small_size h rest o s
      → Returns
          (λ o' h'. Holds small_size h' rest o' (Sdo.copy_assign small_size s s))
          (copy_assign small_size o o h)
  copy_assign_self-Holds h rest o s v r =
      rw (self_object h rest o s v r, self_sdo s v)
        (fill-Holds h rest o s (Sdo.data_of small_size s) r)
