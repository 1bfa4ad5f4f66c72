-- ===== src/Mem/Object/Refines.antt =====
-- The arrays on the free store refine those that own their block by value.
use sydn.Common.{
  ℕ, ◌≤◌, ◌<◌, ◌≡◌, refl, sym, ap, ◌∙◌, ◌&&◌, Bool, true, false, Option, none, some, List, arith,
  replicate, splice, ltb, leb, ◌==◌, ==_iff, if◌then◌else◌, Cell, unspecified, Bool-cases, inl, inr,
}
use sydn.Posix.Kernel.{◌>>=◌, ◌>>◌}
use sydn.Posix.Returns.{Returns, Returns->>=}
use sydn.Mem.Sdo
use sydn.Mem.Sdo.{Sdo}
use sydn.Mem.Heap.{Heap}
use sydn.Mem.Object.{Object, destroy, reserve, resize, data_of, with_data}

-- The live blocks of a part of the heap.
abbrev pub Blocks : Type 0
Blocks = ℕ → Option (List Cell)

module _ (small_size : ℕ) where
  -- The object has a block, and it is `p`.
  abbrev pub owns : Object → ℕ → Bool
  owns o p = ltb small_size o.d_capacity && p == o.d_ptr

  -- The blocks `rest`, and the block of the object with the content that the array has.
  abbrev pub adding : Object → Sdo → Blocks → Blocks
  adding o s rest p = if owns o p then some s.d_ptr else rest p

  -- The members of the object are those of the array.
  pub record Same (o : Object) (s : Sdo) : Type 0 where
    pub capacity : o.d_capacity ≡ s.d_capacity
    pub size : o.d_size ≡ s.d_size
    pub inline : o.d_data ≡ s.d_data

  -- On the heap `h` the object stands for the array, and beside its block, if it has one, exactly the
  -- blocks `rest` are live.
  pub record Holds (h : Heap) (rest : Blocks) (o : Object) (s : Sdo) : Type 0 where
    pub same : Same o s
    pub blocks : (p : ℕ) → h.block p ≡ adding o s rest p
    pub apart : small_size < o.d_capacity → rest o.d_ptr ≡ none
    pub fresh : (p : ℕ) → h.next ≤ p → h.block p ≡ none

  pub destroy_lem :
      (h : Heap) (rest : Blocks) (o : Object) (s : Sdo)
      → Holds h rest o s
      → Returns
          (λ _ h'. ((p : ℕ) → h'.block p ≡ rest p) × ((p : ℕ) → h'.next ≤ p → h'.block p ≡ none))
          (destroy small_size o h)
  unfolding destroy
  destroy_lem h rest o s r = elim (Bool-cases (ltb small_size o.d_capacity)) [
    | inl e ↦
        let live : h.block o.d_ptr ≡ some s.d_ptr = ground (arith, r.blocks o.d_ptr) in
        rw (e, live)
          (
            λ p. ground (arith, r.blocks p, r.apart, ==_iff p o.d_ptr),
            λ p le. ground (arith, r.fresh p),
          )
    | inr e ↦ rw e (λ p. ground (arith, r.blocks p), λ p le. r.fresh p le)
  ]

  pub reserve-Holds :
      (h : Heap) (rest : Blocks) (o : Object) (s : Sdo) (n : ℕ)
      → small_size ≤ s.d_capacity
      → Holds h rest o s
      → Returns (λ o' h'. Holds h' rest o' (Sdo.reserve small_size s n)) (reserve small_size o n h)
  unfolding reserve Sdo.reserve
  reserve-Holds h rest o s n v r = elim (Bool-cases (leb n o.d_capacity)) [
    | inl e ↦
        let e' : leb n s.d_capacity ≡ true = ap (leb n) (sym r.same.capacity) ∙ e in rw (e, e') r
    | inr e ↦
        let e' : leb n s.d_capacity ≡ false = ap (leb n) (sym r.same.capacity) ∙ e in
        rw (e, e')
          (Returns->>=
            (λ _ h'. ((p : ℕ) → h'.block p ≡ rest p) × ((p : ℕ) → h'.next ≤ p → h'.block p ≡ none))
            _ (destroy small_size o) _ h (destroy_lem h rest o s r)
            λ _ h' (left, fresh). record {
              same = record {
                capacity = refl;
                size = r.same.size;
                inline =
                    ap (λ d. splice d (replicate Sdo.sizeof_pointer unspecified)) r.same.inline;
              };
              blocks = λ p. ground (arith, left p);
              apart = λ _. sym (left h'.next) ∙ fresh h'.next (omega arith);
              fresh = λ p le. ground (arith, fresh p);
            })
  ]

  resized-Holds :
      (h : Heap) (rest : Blocks) (o : Object) (s : Sdo) (n : ℕ)
      → Holds h rest o s
      → Holds h rest (record o { d_size = n }) (record s { d_size = n })
  resized-Holds h rest o s n r = record {
    same = record { capacity = r.same.capacity; size = refl; inline = r.same.inline };
    blocks = r.blocks;
    apart = r.apart;
    fresh = r.fresh;
  }

  -- To resize is to set the size and to reserve it.
  resize_sdo-eq-reserve :
      (s : Sdo) (n : ℕ)
      → Sdo.resize small_size s n ≡ Sdo.reserve small_size (record s { d_size = n }) n
  unfolding Sdo.resize
  resize_sdo-eq-reserve s n = ground arith

  resize-eq-reserve :
      (o : Object) (n : ℕ) (h : Heap)
      → resize small_size o n h ≡ reserve small_size (record o { d_size = n }) n h
  unfolding resize reserve
  resize-eq-reserve o n h = elim (Bool-cases (leb n o.d_capacity)) [ inl e ↦ rw e | inr e ↦ rw e ]

  pub resize-Holds :
      (h : Heap) (rest : Blocks) (o : Object) (s : Sdo) (n : ℕ)
      → small_size ≤ s.d_capacity
      → Holds h rest o s
      → Returns (λ o' h'. Holds h' rest o' (Sdo.resize small_size s n)) (resize small_size o n h)
  resize-Holds h rest o s n v r =
      rw (resize_sdo-eq-reserve s n, resize-eq-reserve o n h)
        (reserve-Holds h rest (record o { d_size = n }) (record s { d_size = n }) n v
          (resized-Holds h rest o s n r))

  -- What is read through the pointer of an object whose block is live.
  pub data_of_lem :
      (h : Heap) (o : Object) (s : Sdo)
      → Same o s
      → (small_size < o.d_capacity → h.block o.d_ptr ≡ some s.d_ptr)
      → data_of small_size o h ≡ some (Sdo.data_of small_size s, h)
  unfolding data_of Sdo.data_of
  data_of_lem h o s same live = ground (arith, same.capacity, same.inline)

  pub with_data-Holds :
      (h : Heap) (rest : Blocks) (o : Object) (s : Sdo) (bytes : List Cell)
      → Holds h rest o s
      → Returns
          (λ o' h'. Holds h' rest o' (Sdo.with_data small_size s bytes))
          (with_data small_size o bytes h)
  unfolding with_data Sdo.with_data
  with_data-Holds h rest o s bytes r = elim (Bool-cases (leb o.d_capacity small_size)) [
    | inl e ↦
        let e' : leb s.d_capacity small_size ≡ true =
          ap (λ c. leb c small_size) (sym r.same.capacity) ∙ e in
        rw (e, e')
          (record {
            same = record { capacity = r.same.capacity; size = r.same.size; inline = refl };
            blocks = λ p. ground (arith, r.blocks p);
            apart = r.apart;
            fresh = r.fresh;
          })
    | inr e ↦
        let e' : leb s.d_capacity small_size ≡ false =
          ap (λ c. leb c small_size) (sym r.same.capacity) ∙ e in
        let live : h.block o.d_ptr ≡ some s.d_ptr = ground (arith, r.blocks o.d_ptr) in
        rw (e, e', ◌>>◌, ◌>>=◌, live)
          (record {
            same = record {
              capacity = r.same.capacity;
              size = r.same.size;
              inline = r.same.inline;
            };
            blocks = λ p. ground (arith, r.blocks p, ==_iff p o.d_ptr);
            apart = r.apart;
            fresh = λ p le. ground (arith, r.fresh p le, r.fresh o.d_ptr);
          })
  ]
