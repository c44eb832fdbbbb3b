-- ===== src/Emitter/Temps.antt =====
-- rane_emitter.hpp, `struct TempAnalysis`: the stack temps that a value and a procedure need.
-- The arena is a graph of indices, so the recursion takes fuel; `Values.Ordered` says when the
-- number of a node is fuel enough.
use rane_processing_language.Base.{ℕ, zero, suc, ◌+◌, ◌%◌, List, [], ◌∷◌, ltb, if◌then◌else◌}
use rane_processing_language.Base.Bytes.{u32_mod}
use rane_processing_language.Base.Result.{Result, ok, err, ◌>>=◌}
use rane_processing_language.Plan.{
  ValueId, ValueKind, ValueNode, ActionKind, Action, Block, ProcPlan,
}
use rane_processing_language.Emitter.{Fault, diverges, elem_at}

-- `(a > b ? a : b)`, and `std::max`.
abbrev pub larger : ℕ → ℕ → ℕ
larger a b = if ltb b a then a else b

module _ (depth : ValueId → Result Fault ℕ) where
  abbrev pub args_depth : ℕ → List ValueId → Result Fault ℕ
  args_depth m [] = ok m
  args_depth m (arg ∷ args) = do d ← depth arg; args_depth (if ltb m d then d else m) args

  abbrev pub pair_depth : ValueId → ValueId → Result Fault ℕ
  pair_depth a b = do da ← depth a; db ← depth b; ok ((larger da db + 1) % u32_mod)

  unfoldable pub node_depth : ValueKind → Result Fault ℕ
  node_depth (ValueKind.field_ref base field) = depth base
  node_depth (ValueKind.index_ref base index) = pair_depth base index
  node_depth (ValueKind.unary op a) = depth a
  node_depth (ValueKind.cast a to) = depth a
  node_depth (ValueKind.binary op a b) = pair_depth a b
  node_depth (ValueKind.compare op a b) = pair_depth a b
  node_depth (ValueKind.call callee args) = args_depth 0 args
  node_depth _ = ok 0

module _ (values : List ValueNode) where
  unfoldable pub temp_depth : ℕ → ValueId → Result Fault ℕ
  temp_depth zero v = err diverges
  temp_depth (suc fuel) v = do n ← elem_at values v; node_depth (temp_depth fuel) n.kind

  -- One round of the loop over the actions, on the maximum so far.
  unfoldable pub action_slots : ℕ → ℕ → ActionKind → Result Fault ℕ
  action_slots fuel m (ActionKind.eval expr) = do d ← temp_depth fuel expr; ok (larger d m)
  action_slots fuel m (ActionKind.assign target value) = do
    d ← temp_depth fuel value
    t ← temp_depth fuel target
    ok (larger t (larger d m))
  action_slots fuel m (ActionKind.cond_jump c if_false if_true) = do
    d ← temp_depth fuel c
    ok (larger d m)
  action_slots fuel m _ = ok m

  unfoldable pub actions_slots : ℕ → ℕ → List Action → Result Fault ℕ
  actions_slots fuel m [] = ok m
  actions_slots fuel m (a ∷ as') = do m' ← action_slots fuel m a.kind; actions_slots fuel m' as'

  unfoldable pub blocks_slots : ℕ → ℕ → List Block → Result Fault ℕ
  blocks_slots fuel m [] = ok m
  blocks_slots fuel m (b ∷ bs) = do m' ← actions_slots fuel m b.actions; blocks_slots fuel m' bs

  unfoldable pub proc_max_temp_slots : ℕ → ProcPlan → Result Fault ℕ
  proc_max_temp_slots fuel p = blocks_slots fuel 0 p.blocks
