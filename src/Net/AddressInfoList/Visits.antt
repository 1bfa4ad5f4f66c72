-- ===== src/Net/AddressInfoList/Visits.antt =====
-- What a loop over an `address_info_list` visits.
use sydn.Common.{
  ℕ, zero, suc, ◌≡◌, refl, ap, Option, none, some, List, [], ◌∷◌, map, length, replicate,
  if◌then◌else◌,
}
use mathlib.Core.Option
use sydn.Net.AddressInfoList.{
  Pointer, AddressInfoList, ConstIterator, AddressInfo, begin, end, unequal, deref, advance,
  post_advance,
}

-- What a loop comes to, with the objects that it has visited: a read through a null pointer, as many
-- rounds as there is fuel, or its end.
pub data Outcome : Type 0 where
  undefined : Outcome
  running : List AddressInfo → Outcome
  ended : List AddressInfo → Outcome

-- One more object is visited first.
abbrev pub visited : AddressInfo → Outcome → Outcome
visited info undefined = undefined
visited info (running infos) = running (info ∷ infos)
visited info (ended infos) = ended (info ∷ infos)

module _ (ai_next : ℕ → Pointer) where
  -- The nodes of the list that a pointer points to.
  pub data Chain : Pointer → List ℕ → Type 0 where
    nil : Chain none []
    cons : {e : ℕ} {es : List ℕ} → Chain (ai_next e) es → Chain (some e) (e ∷ es)

  -- `for (i = first; i != last; ++i)`, with the objects that `*i` gives, on fuel.
  abbrev pub visit : ℕ → ConstIterator → ConstIterator → Option (List AddressInfo)
  visit zero i last = none
  visit (suc fuel) i last =
      if unequal i last
      then (elim (advance ai_next i) [
        | none ↦ none
        | some next ↦ Option.map (◌∷◌ (deref i)) (visit fuel next last)
      ])
      else some []

  -- The same with `i++`.
  abbrev pub post_visit : ℕ → ConstIterator → ConstIterator → Outcome
  post_visit zero i last = running []
  post_visit (suc fuel) i last =
      if unequal i last
      then (elim (post_advance ai_next i) [
        | none ↦ undefined
        | some (_, next) ↦ visited (deref i) (post_visit fuel next last)
      ])
      else ended []

  visit_from :
      (l : AddressInfoList) (q : Pointer) (es : List ℕ)
      → Chain q es
      → visit (suc (length es)) (record { d_list = l.d_list; d_element = q }) (end l)
        ≡ some (map (λ e. record { d_list = l.d_list; d_element = some e }) es)
  unfolding unequal deref advance
  visit_from l _ _ nil = refl
  visit_from l _ _ (cons {e} {es} c) =
      ap (Option.map (◌∷◌ (record { d_list = l.d_list; d_element = some e }))) (visit_from l _ es c)

  -- A loop from `begin` to `end` that advances by `++i` ends, reads through no null pointer, and
  -- visits every node of the list once and in order.
  pub visit-begin :
      (l : AddressInfoList) (es : List ℕ)
      → Chain l.d_list es
      → visit (suc (length es)) (begin l) (end l)
        ≡ some (map (λ e. record { d_list = l.d_list; d_element = some e }) es)
  visit-begin l es c = visit_from l l.d_list es c

  post_visit_from :
      (l : AddressInfoList) (fuel : ℕ) (q : Pointer) (e : ℕ) (es : List ℕ)
      → Chain q (e ∷ es)
      → post_visit fuel (record { d_list = l.d_list; d_element = q }) (end l)
        ≡ running (replicate fuel (record { d_list = l.d_list; d_element = some e }))
  unfolding unequal deref advance post_advance
  post_visit_from l zero _ _ es (cons c) = refl
  post_visit_from l (suc fuel) _ e es (cons c) =
      ap (visited (record { d_list = l.d_list; d_element = some e }))
        (post_visit_from l fuel (some e) e es (cons c))

  -- A loop that advances by `i++` over a list that is not empty does not end: it reads through no null
  -- pointer, and after any number of rounds it has visited the first node that often and no other.
  pub post_visit-begin :
      (l : AddressInfoList) (e : ℕ) (es : List ℕ)
      → Chain l.d_list (e ∷ es)
      → (fuel : ℕ)
      → post_visit fuel (begin l) (end l)
        ≡ running (replicate fuel (record { d_list = l.d_list; d_element = some e }))
  post_visit-begin l e es c fuel = post_visit_from l fuel l.d_list e es c
