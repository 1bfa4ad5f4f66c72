-- ===== src/Mem/Object/Programs.antt =====
-- Programs over two arrays: construction, any operations, destruction.
use sydn.Common.{ℕ, none, some, List, [], ◌∷◌, Option, Cell}
use sydn.Posix.Kernel.{M, pure, ◌>>=◌, ◌>>◌}
use sydn.Mem.Sdo
use sydn.Mem.Sdo.{Sdo}
use sydn.Mem.Heap.{Heap}
use sydn.Mem.Object.{Object, destroy, reserve, resize, copy_assign, move_assign, make}
use sydn.Mem.Object.Writes.{fill, fill_sdo}

-- An operation on the first of two arrays: `filled` writes characters through its pointer, `copied` and
-- `moved` assign the other one to it, `self_copied` itself; `exchange` only says that the other is the first from now.
pub data Op : Type 0 where
  resized : ℕ → Op
  reserved : ℕ → Op
  filled : List Cell → Op
  copied : Op
  self_copied : Op
  moved : Op
  exchange : Op

module _ (small_size : ℕ) where
  unfoldable pub step : Op → Object → Object → M Heap (Object × Object)
  step (resized n) o u = do o' ← resize small_size o n; pure (o', u)
  step (reserved n) o u = do o' ← reserve small_size o n; pure (o', u)
  step (filled chars) o u = do o' ← fill small_size o chars; pure (o', u)
  step self_copied o u = do o' ← copy_assign small_size o o; pure (o', u)
  step copied o u = do o' ← copy_assign small_size o u; pure (o', u)
  step moved o u = move_assign small_size o u
  step exchange o u = pure (u, o)

  unfoldable pub steps : List Op → Object → Object → M Heap (Object × Object)
  unfolding step
  steps [] o u = pure (o, u)
  steps (op ∷ ops) o u = do (o', u') ← step op o u; steps ops o' u'

  -- Two arrays are made, the operations are done, and the arrays are destroyed.
  unfoldable pub live : ℕ → ℕ → List Op → M Heap (Unit {0})
  unfolding steps
  live n m ops = do
    o ← make small_size n
    u ← make small_size m
    (o', u') ← steps ops o u
    destroy small_size o'
    destroy small_size u'

  -- The same operations on arrays that own their block by value.
  unfoldable pub step_sdo : Op → Sdo → Sdo → Option (Sdo × Sdo)
  step_sdo (resized n) s t = some (Sdo.resize small_size s n, t)
  step_sdo (reserved n) s t = some (Sdo.reserve small_size s n, t)
  step_sdo (filled chars) s t = some (fill_sdo small_size s chars, t)
  step_sdo self_copied s t = some (Sdo.copy_assign small_size s s, t)
  step_sdo copied s t = some (Sdo.copy_assign small_size s t, t)
  step_sdo moved s t = Sdo.move_assign small_size s t
  step_sdo exchange s t = some (t, s)

  unfoldable pub steps_sdo : List Op → Sdo → Sdo → Option (Sdo × Sdo)
  unfolding step_sdo
  steps_sdo [] s t = some (s, t)
  steps_sdo (op ∷ ops) s t = elim (step_sdo op s t) [
    | none ↦ none
    | some (s', t') ↦ steps_sdo ops s' t'
  ]
