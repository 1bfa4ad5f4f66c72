-- ===== src/Mem/Object/Pairs.antt =====
-- Two arrays on one heap: assignment by copy and by move.
use sydn.Common.{
  ℕ, ◌<◌, ◌≡◌, refl, ap, ap₂, ◌∙◌, true, none, some, arith, take, splice, leb, ◌==◌, ==_iff,
  Bool-cases, inl, inr, le→leb,
}
use mathlib.Core.Path.{subst}
use sydn.Posix.Kernel.{◌>>=◌}
use sydn.Posix.Returns.{Returns, Returns->>=, Returns-mono}
use sydn.Mem.Sdo
use sydn.Mem.Sdo.{Sdo}
use sydn.Mem.Sdo.Invariant.{IsValid, copy_assign-IsValid, swap_members-IsValid}
use sydn.Mem.Heap.{Heap}
use sydn.Mem.Object.{Object, resize, with_data, copy_assign, swap_members, move_assign}
use sydn.Mem.Object.Refines.{
  Blocks, adding, Same, Holds, resize-Holds, data_of_lem, with_data-Holds,
}

module _ (small_size : ℕ) where
  -- On the heap `h` the objects `o` and `u` stand for the arrays `s` and `t`, and beside their blocks
  -- exactly the blocks `rest` are live. No block is owned by both.
  pub record HoldsBoth (h : Heap) (rest : Blocks) (o u : Object) (s t : Sdo) : Type 0 where
    pub first : Holds small_size h (adding small_size u t rest) o s
    pub other : Same small_size u t
    pub apart : small_size < u.d_capacity → rest u.d_ptr ≡ none
    pub valid : IsValid small_size s
    pub other_valid : IsValid small_size t

  pub exchange-HoldsBoth :
      {h : Heap} {rest : Blocks} {o u : Object} {s t : Sdo}
      → HoldsBoth h rest o u s t
      → HoldsBoth h rest u o t s
  exchange-HoldsBoth {h} {rest} {o} {u} {s} {t} r = record {
    first = record {
      same = r.other;
      blocks =
          λ p. ground (arith, r.first.blocks p, r.first.apart, ==_iff p o.d_ptr, ==_iff p u.d_ptr);
      apart = λ big. ground (arith, r.apart big, r.first.apart, ==_iff u.d_ptr o.d_ptr);
      fresh = r.first.fresh;
    };
    other = r.first.same;
    apart = λ big. ground (arith, r.first.apart big);
    valid = r.other_valid;
    other_valid = r.valid;
  }

  -- The block of the other object is live.
  other_live :
      (h : Heap) (rest : Blocks) (o u : Object) (s t : Sdo)
      → Holds small_size h (adding small_size u t rest) o s
      → small_size < u.d_capacity
      → h.block u.d_ptr ≡ some t.d_ptr
  other_live h rest o u s t r big =
      ground (arith, r.blocks u.d_ptr, r.apart, ==_iff u.d_ptr o.d_ptr)

  pub own_live :
      (h : Heap) (rest : Blocks) (o : Object) (s : Sdo)
      → Holds small_size h rest o s
      → small_size < o.d_capacity
      → h.block o.d_ptr ≡ some s.d_ptr
  own_live h rest o s r big = ground (arith, r.blocks o.d_ptr)

  pub copy_assign-HoldsBoth :
      (h : Heap) (rest : Blocks) (o u : Object) (s t : Sdo)
      → HoldsBoth h rest o u s t
      → Returns
          (λ o' h'. HoldsBoth h' rest o' u (Sdo.copy_assign small_size s t) t)
          (copy_assign small_size o u h)
  unfolding copy_assign Sdo.copy_assign
  copy_assign-HoldsBoth h rest o u s t r =
      let frame = adding small_size u t rest in
      let resized = Sdo.resize small_size s t.d_size in
      Returns->>= (λ o' h'. Holds small_size h' frame o' resized) _ (resize small_size o u.d_size) _
        h (rw r.other.size (resize-Holds small_size h frame o s t.d_size r.valid.least r.first))
        λ o' h' sized.
          let to_bytes = λ (n : ℕ).
            splice (Sdo.data_of small_size resized) (take n (Sdo.data_of small_size t)) in
          rw
            (
              ◌>>=◌,
              data_of_lem small_size h' u t r.other (other_live h' rest o' u resized t sized),
              data_of_lem small_size h' o' resized sized.same (own_live h' frame o' resized sized),
            )
            (Returns-mono
              (λ o₂ h₂.
                Holds small_size h₂ frame o₂
                  (Sdo.with_data small_size resized (to_bytes o'.d_size)))
              (λ o₂ h₂. HoldsBoth h₂ rest o₂ u (Sdo.copy_assign small_size s t) t)
              (with_data small_size o' (to_bytes o'.d_size) h')
              (with_data-Holds small_size h' frame o' resized (to_bytes o'.d_size) sized)
              λ o₂ h₂ done. record {
                first =
                    subst
                      (λ n.
                        Holds small_size h₂ frame o₂
                          (Sdo.with_data small_size resized (to_bytes n)))
                      sized.same.size done;
                other = r.other;
                apart = r.apart;
                valid = copy_assign-IsValid small_size s t r.valid r.other_valid;
                other_valid = r.other_valid;
              })

  swap_members-HoldsBoth :
      (h : Heap) (rest : Blocks) (o u : Object) (s t : Sdo)
      → HoldsBoth h rest o u s t
      → HoldsBoth h rest
          (swap_members o u).0
          (swap_members o u).1
          (Sdo.swap_members s t).0
          (Sdo.swap_members s t).1
  unfolding swap_members Sdo.swap_members
  swap_members-HoldsBoth h rest o u s t r = record {
    first = record {
      same = record {
        capacity = r.other.capacity;
        size = r.other.size;
        inline = ap₂ splice r.first.same.inline (ap (take Sdo.sizeof_pointer) r.other.inline);
      };
      blocks =
          λ p. ground (arith, r.first.blocks p, r.first.apart, ==_iff p o.d_ptr, ==_iff p u.d_ptr);
      apart = λ big. ground (arith, r.apart big, r.first.apart, ==_iff u.d_ptr o.d_ptr);
      fresh = r.first.fresh;
    };
    other = record {
      capacity = r.first.same.capacity;
      size = r.first.same.size;
      inline = ap₂ splice r.other.inline (ap (take Sdo.sizeof_pointer) r.first.same.inline);
    };
    apart = λ big. ground (arith, r.first.apart big);
    valid = (swap_members-IsValid small_size s t r.valid r.other_valid).0;
    other_valid = (swap_members-IsValid small_size s t r.valid r.other_valid).1;
  }

  -- A move never fails its assertion, and swaps the owners of the blocks.
  pub move_assign-HoldsBoth :
      (h : Heap) (rest : Blocks) (o u : Object) (s t : Sdo)
      → HoldsBoth h rest o u s t
      → Returns
          (λ r' h'.
            (a : Sdo) × (b : Sdo) × (Sdo.move_assign small_size s t ≡ some (a, b))
            × HoldsBoth h' rest r'.0 r'.1 a b)
          (move_assign small_size o u h)
  unfolding move_assign Sdo.move_assign
  move_assign-HoldsBoth h rest o u s t r =
      let least : leb small_size t.d_capacity ≡ true = le→leb _ _ r.other_valid.least in
      let least' = ap (leb small_size) r.other.capacity ∙ least in
      let same = ap (λ c. c == small_size) r.other.capacity in
      elim (Bool-cases (t.d_capacity == small_size)) [
        | inl e ↦
            rw (least', same ∙ e, least, e)
              (Returns->>= (λ o' h'. HoldsBoth h' rest o' u (Sdo.copy_assign small_size s t) t) _
                (copy_assign small_size o u) _ h (copy_assign-HoldsBoth h rest o u s t r)
                λ o' h' done. (Sdo.copy_assign small_size s t, t, refl, done))
        | inr e ↦
            rw (least', same ∙ e, least, e)
              (
                (Sdo.swap_members s t).0,
                (Sdo.swap_members s t).1,
                refl,
                swap_members-HoldsBoth h rest o u s t r,
              )
      ]
