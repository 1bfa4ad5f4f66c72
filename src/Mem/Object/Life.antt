-- ===== src/Mem/Object/Life.antt =====
-- What whole programs over two arrays do with the free store.
use sydn.Common.{ℕ, ◌≤◌, ◌≡◌, refl, none, some, List, [], ◌∷◌, arith, Option, Cell}
use sydn.Posix.Kernel.{M, pure, ◌>>=◌, ◌>>◌}
use sydn.Posix.Returns.{Returns, Returns->>=, Returns-mono}
use sydn.Mem.Sdo
use sydn.Mem.Sdo.{Sdo}
use sydn.Mem.Sdo.Invariant.{
  IsValid, copy_assign-IsValid, initial-IsValid, reserve-IsValid, resize-IsValid,
}
use sydn.Mem.Heap.{Heap}
use sydn.Mem.Object.{Object, initial, destroy, reserve, resize, copy_assign, make}
use sydn.Mem.Object.Refines.{adding, Holds, destroy_lem, reserve-Holds, resize-Holds}
use sydn.Mem.Object.Writes.{fill, fill_sdo, fill_sdo-IsValid, fill-Holds, copy_assign_self-Holds}
use sydn.Mem.Object.Programs.{
  Op, resized, reserved, filled, copied, self_copied, moved, exchange, step, steps, live, step_sdo,
  steps_sdo,
}
use sydn.Mem.Object.Pairs.{
  HoldsBoth, exchange-HoldsBoth, copy_assign-HoldsBoth, move_assign-HoldsBoth,
}

module _ (small_size : ℕ) where
  -- The objects stand for what the same operation makes of the arrays.
  abbrev Refined : Option (Sdo × Sdo) → (ℕ → Option (List Cell)) → Object × Object → Heap → Type 0
  Refined result rest r h =
      (a : Sdo) × (b : Sdo) × (result ≡ some (a, b)) × HoldsBoth small_size h rest r.0 r.1 a b

  -- An operation on the first array alone.
  first_op :
      (h : Heap) (rest : ℕ → Option (List Cell)) (o u : Object) (s t s' : Sdo) (m : M Heap Object)
      → HoldsBoth small_size h rest o u s t
      → IsValid small_size s'
      → Returns (λ o' h'. Holds small_size h' (adding small_size u t rest) o' s') (m h)
      → Returns (Refined (some (s', t)) rest) ((do o' ← m; pure (o', u)) h)
  first_op h rest o u s t s' m r v done =
      Returns->>= (λ o' h'. Holds small_size h' (adding small_size u t rest) o' s') _ m _ h done
        λ o' h' held. (
          s',
          t,
          refl,
          record {
            first = held;
            other = r.other;
            apart = r.apart;
            valid = v;
            other_valid = r.other_valid;
          },
        )

  step_refines :
      (op : Op) (h : Heap) (rest : ℕ → Option (List Cell)) (o u : Object) (s t : Sdo)
      → HoldsBoth small_size h rest o u s t
      → Returns (Refined (step_sdo small_size op s t) rest) (step small_size op o u h)
  unfolding step step_sdo
  step_refines (resized n) h rest o u s t r =
      first_op h rest o u s t (Sdo.resize small_size s n) (resize small_size o n) r
        (resize-IsValid small_size s n r.valid)
        (resize-Holds small_size h (adding small_size u t rest) o s n r.valid.least r.first)
  step_refines (reserved n) h rest o u s t r =
      first_op h rest o u s t (Sdo.reserve small_size s n) (reserve small_size o n) r
        (reserve-IsValid small_size s n r.valid)
        (reserve-Holds small_size h (adding small_size u t rest) o s n r.valid.least r.first)
  step_refines (filled chars) h rest o u s t r =
      first_op h rest o u s t (fill_sdo small_size s chars) (fill small_size o chars) r
        (fill_sdo-IsValid small_size s chars r.valid)
        (fill-Holds small_size h (adding small_size u t rest) o s chars r.first)
  step_refines self_copied h rest o u s t r =
      first_op h rest o u s t (Sdo.copy_assign small_size s s) (copy_assign small_size o o) r
        (copy_assign-IsValid small_size s s r.valid r.valid)
        (copy_assign_self-Holds small_size h (adding small_size u t rest) o s r.valid r.first)
  step_refines copied h rest o u s t r =
      Returns->>= (λ o' h'. HoldsBoth small_size h' rest o' u (Sdo.copy_assign small_size s t) t) _
        (copy_assign small_size o u) _ h (copy_assign-HoldsBoth small_size h rest o u s t r)
        λ o' h' done. (Sdo.copy_assign small_size s t, t, refl, done)
  step_refines moved h rest o u s t r = move_assign-HoldsBoth small_size h rest o u s t r
  step_refines exchange h rest o u s t r = (t, s, refl, exchange-HoldsBoth small_size r)

  -- No operation reads or releases a block that is not live, or fails an assertion; the objects stand
  -- for what the same operations make of arrays that own their block by value; and no other block is
  -- touched, lost or shared.
  pub steps_refine :
      (ops : List Op) (h : Heap) (rest : ℕ → Option (List Cell)) (o u : Object) (s t : Sdo)
      → HoldsBoth small_size h rest o u s t
      → Returns
          (λ r h'.
            (a : Sdo) × (b : Sdo) × (steps_sdo small_size ops s t ≡ some (a, b))
            × HoldsBoth small_size h' rest r.0 r.1 a b)
          (steps small_size ops o u h)
  unfolding steps steps_sdo
  steps_refine [] h rest o u s t r = (s, t, refl, r)
  steps_refine (op ∷ ops) h rest o u s t r =
      Returns->>= (Refined (step_sdo small_size op s t) rest) _ (step small_size op o u) _ h
        (step_refines op h rest o u s t r)
        λ (o', u') h' (a, b, e, held). rw (steps_sdo, e) (steps_refine ops h' rest o' u' a b held)

  start-Holds :
      (h : Heap) (rest : ℕ → Option (List Cell))
      → ((p : ℕ) → h.block p ≡ rest p)
      → ((p : ℕ) → h.next ≤ p → h.block p ≡ none)
      → Holds small_size h rest (initial small_size) (Sdo.initial small_size)
  unfolding Sdo.initial
  start-Holds h rest same fresh = record {
    same = record { capacity = refl; size = refl; inline = refl };
    blocks = λ p. ground (arith, same p);
    apart = λ big. absurd (omega arith);
    fresh = fresh;
  }

  made-Holds :
      (n : ℕ) (h : Heap) (rest : ℕ → Option (List Cell))
      → ((p : ℕ) → h.block p ≡ rest p)
      → ((p : ℕ) → h.next ≤ p → h.block p ≡ none)
      → Returns (λ o h'. Holds small_size h' rest o (Sdo.make small_size n)) (make small_size n h)
  unfolding make Sdo.make
  made-Holds n h rest same fresh =
      resize-Holds small_size h rest (initial small_size) (Sdo.initial small_size) n
        (initial-IsValid small_size).least (start-Holds h rest same fresh)

  made-IsValid : (n : ℕ) → IsValid small_size (Sdo.make small_size n)
  unfolding Sdo.make
  made-IsValid n = resize-IsValid small_size (Sdo.initial small_size) n (initial-IsValid small_size)

  both_destroyed :
      (h : Heap) (rest : ℕ → Option (List Cell)) (o u : Object) (s t : Sdo)
      → HoldsBoth small_size h rest o u s t
      → Returns
          (λ _ h'. (p : ℕ) → h'.block p ≡ rest p)
          ((do destroy small_size o; destroy small_size u) h)
  both_destroyed h rest o u s t r =
      let frame = adding small_size u t rest in
      Returns->>=
        (λ _ h'. ((p : ℕ) → h'.block p ≡ frame p) × ((p : ℕ) → h'.next ≤ p → h'.block p ≡ none)) _
        (destroy small_size o) _ h (destroy_lem small_size h frame o s r.first)
        λ _ h' (left, fresh).
          Returns-mono
            (λ _ h''.
              ((p : ℕ) → h''.block p ≡ rest p) × ((p : ℕ) → h''.next ≤ p → h''.block p ≡ none))
            (λ _ h''. (p : ℕ) → h''.block p ≡ rest p) (destroy small_size u h')
            (destroy_lem small_size h' rest u t
              (record { same = r.other; blocks = left; apart = r.apart; fresh = fresh }))
            λ _ h'' done. done.0

  -- A program that makes two arrays, does any operations on them and destroys them never reads or
  -- releases a block that is not live and never fails an assertion, and leaves exactly the blocks
  -- that were live before it, with their contents. The heap gives out fresh blocks.
  pub live_lem :
      (n m : ℕ) (ops : List Op) (h : Heap)
      → ((p : ℕ) → h.next ≤ p → h.block p ≡ none)
      → Returns (λ _ h'. (p : ℕ) → h'.block p ≡ h.block p) (live small_size n m ops h)
  unfolding live
  live_lem n m ops h fresh =
      let s = Sdo.make small_size n in
      let t = Sdo.make small_size m in
      Returns->>= (λ o h'. Holds small_size h' h.block o s) _ (make small_size n) _ h
        (made-Holds n h h.block (λ p. refl) fresh)
        λ o h₁ one.
          let frame = adding small_size o s h.block in
          Returns->>= (λ u h'. Holds small_size h' frame u t) _ (make small_size m) _ h₁
            (made-Holds m h₁ frame one.blocks one.fresh)
            λ u h₂ two.
              Returns->>= (Refined (steps_sdo small_size ops s t) h.block) _
                (steps small_size ops o u) _ h₂
                (steps_refine ops h₂ h.block o u s t (
                  exchange-HoldsBoth small_size (record {
                    first = two;
                    other = one.same;
                    apart = one.apart;
                    valid = made-IsValid m;
                    other_valid = made-IsValid n;
                  })))
                λ (o', u') h₃ (a, b, e, held). both_destroyed h₃ h.block o' u' a b held
