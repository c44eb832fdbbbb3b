-- ===== src/Emitter/Appends.antt =====
-- `emit_value` and `emit_action` only append: code, and patches inside the new code.
use rane_processing_language.Base.{ℕ, zero, suc, refl, List, [], ◌∷◌, length, ltb}
use rane_processing_language.Base.Result.{
  Result, ◌>>=◌, Ensures, succeeds, fails, Ensures-bind, Ensures-from, Ensures-if,
}
use rane_processing_language.Plan.{ValueId, ValueKind, ValueNode, ActionKind, Action}
use rane_processing_language.X64.{Reg, r11, rax}
use rane_processing_language.Emitter.{
  Fault, elem_at, temp_free, ILayoutProvider, Emitter, temp_alloc, local_offset,
}
use rane_processing_language.Emitter.Value.{
  Emit, emit_pair, emit_args, emit_field, emit_index, emit_call, emit_node, emit_value, spill,
  reload, binary_code, scale_rax, type_of, abi_regs,
}
use rane_processing_language.Emitter.Action.{
  store_local, store_field, store_index, store_to, emit_action, emit_actions,
}
use rane_processing_language.Emitter.Growth.{
  Grows, Grows-put, Grows-same, Grows-trans, emit_call_symbol-Grows, emit_jmp_block-Grows,
  emit_jz_block-Grows, temp_alloc-Grows, temp_free-Grows,
}

abbrev pub Appends : Emit → Type 0
Appends f = (e : Emitter) → Ensures (Grows e) (f e)

-- To go on from `e₁`, which has grown from `e`.
onward :
    {e e₁ : Emitter} {r : Result Fault Emitter}
    → Grows e e₁
    → Ensures (Grows e₁) r
    → Ensures (Grows e) r
onward g (succeeds h) = succeeds (Grows-trans g h)
onward g fails = fails

-- To go on behind a step.
and_then :
    {e : Emitter} {m : Result Fault Emitter} (f : Emit)
    → Ensures (Grows e) m
    → Appends f
    → Ensures (Grows e) (m >>= f)
and_then f h k = Ensures-bind f h (λ e₁ g. onward g (k e₁))

spill-Grows : (t : ℕ) (e : Emitter) → Grows e (spill t e)
unfolding spill
spill-Grows t e = Grows-put _ e

reload-Grows : (r : Reg) (t : ℕ) (e : Emitter) → Grows e (reload r t e)
unfolding reload
reload-Grows r t e = Grows-put _ e

-- A temp taken, and the value put there.
saved : (e : Emitter) → Grows e (spill (temp_alloc e).0 (temp_alloc e).1)
saved e = Grows-trans (temp_alloc-Grows e) (spill-Grows _ _)

freed : (r : Reg) (t : ℕ) → Appends (λ e. temp_free (reload r t e))
freed r t e = onward (reload-Grows r t e) (temp_free-Grows _)

pub emit_pair-Appends : (f g : Emit) → Appends f → Appends g → Appends (emit_pair f g)
unfolding emit_pair
emit_pair-Appends f g hf hg e =
    and_then _ (hf e) λ e₁. onward (saved e₁) (and_then _ (hg _) (freed r11 _))

module _ (values : List ValueNode) (layout : ILayoutProvider) where
  module _ (rec : ValueId → Emit) (h : (v : ValueId) → Appends (rec v)) where
    emit_args-Appends :
        (regs : List Reg) (args : List ValueId) → Appends (emit_args values layout rec regs args)
    unfolding emit_args
    emit_args-Appends (r ∷ regs) (arg ∷ args) e =
        and_then _ (h arg e) λ e₁. onward (Grows-put _ e₁) (emit_args-Appends regs args _)
    emit_args-Appends [] _ e = succeeds (Grows-same e e refl refl refl refl)
    emit_args-Appends _ _ e = succeeds (Grows-same e e refl refl refl refl)

    emit_node-Appends : (k : ValueKind) → Appends (emit_node values layout rec k)
    unfolding emit_node emit_field emit_index emit_call
    emit_node-Appends (ValueKind.const_int value) e = succeeds (Grows-put _ e)
    emit_node-Appends (ValueKind.const_bool value) e = succeeds (Grows-put _ e)
    emit_node-Appends ValueKind.const_null e = succeeds (Grows-put _ e)
    emit_node-Appends (ValueKind.var_ref local) e =
        Ensures-from (local_offset e.frame local) _ λ off _. succeeds (Grows-put _ e)
    emit_node-Appends (ValueKind.field_ref base field) e =
        and_then _ (h base e)
          λ e₁. Ensures-from (type_of values layout base) _ λ t _. succeeds (Grows-put _ e₁)
    emit_node-Appends (ValueKind.index_ref base index) e =
        and_then _ (emit_pair-Appends _ _ (h base) (h index) e) λ e₁.
          Ensures-from (type_of values layout base) _ λ t _.
            Ensures-from (scale_rax (layout.element_size t)) _ λ scaled _. succeeds (Grows-put _ e₁)
    emit_node-Appends (ValueKind.unary op a) e = and_then _ (h a e) λ e₁. succeeds (Grows-put _ e₁)
    emit_node-Appends (ValueKind.cast a to) e = h a e
    emit_node-Appends (ValueKind.binary op a b) e =
        and_then _ (emit_pair-Appends _ _ (h a) (h b) e)
          λ e₁. Ensures-from (binary_code op) _ λ code _. succeeds (Grows-put _ e₁)
    emit_node-Appends (ValueKind.compare op a b) e =
        and_then _ (emit_pair-Appends _ _ (h a) (h b) e) λ e₁. succeeds (Grows-put _ e₁)
    emit_node-Appends (ValueKind.call callee args) e =
        and_then _ (emit_args-Appends abi_regs args e) λ e₁.
          Ensures-if (ltb 4 (length args)) (λ _. fails)
            (λ _. succeeds (emit_call_symbol-Grows callee e₁))
    emit_node-Appends ValueKind.invalid e = fails
    emit_node-Appends (ValueKind.global_ref g) e = fails

    store_to-Appends : (k : ValueKind) → Appends (store_to values layout rec k)
    unfolding store_to store_local store_field store_index
    store_to-Appends (ValueKind.var_ref local) e =
        Ensures-from (local_offset e.frame local) _ λ off _. succeeds (Grows-put _ e)
    store_to-Appends (ValueKind.field_ref base field) e =
        and_then _ (h base e)
          λ e₁. Ensures-from (type_of values layout base) _ λ t _. succeeds (Grows-put _ e₁)
    store_to-Appends (ValueKind.index_ref base index) e = onward (saved e) (
        and_then _ (h base _) λ e₂. onward (saved e₂) (
          and_then _ (h index _) λ e₄. and_then _ (freed r11 _ e₄) λ e₅.
            Ensures-from (type_of values layout base) _ λ t _.
              Ensures-from (scale_rax (layout.element_size t)) _ λ scaled _.
                onward (Grows-put _ e₅)
                  (and_then _ (freed rax _ _) λ e₆. succeeds (Grows-put _ e₆))))
    store_to-Appends _ e = fails

  -- Emitting a value keeps the code and the patches there are.
  pub emit_value-Appends : (fuel : ℕ) (v : ValueId) → Appends (emit_value values layout fuel v)
  unfolding emit_value
  emit_value-Appends zero v e = fails
  emit_value-Appends (suc fuel) v e =
      Ensures-from (elem_at values v) _
        λ n _. emit_node-Appends _ (emit_value-Appends fuel) n.kind e

  pub emit_action-Appends : (fuel : ℕ) (k : ActionKind) → Appends (emit_action values layout fuel k)
  unfolding emit_action
  emit_action-Appends fuel (ActionKind.eval expr) e = emit_value-Appends fuel expr e
  emit_action-Appends fuel (ActionKind.assign target value) e =
      and_then _ (emit_value-Appends fuel value e) λ e₁.
        Ensures-from (elem_at values target) _
          λ tgt _. store_to-Appends _ (emit_value-Appends fuel) tgt.kind e₁
  emit_action-Appends fuel (ActionKind.jump target) e = succeeds (emit_jmp_block-Grows target e)
  emit_action-Appends fuel (ActionKind.cond_jump c if_false if_true) e =
      and_then _ (emit_value-Appends fuel c e) λ e₁. succeeds (
        Grows-trans (Grows-put _ e₁)
          (Grows-trans (emit_jz_block-Grows if_false _) (emit_jmp_block-Grows if_true _)))
  emit_action-Appends fuel (ActionKind.trap payload) e = succeeds (Grows-put _ e)
  emit_action-Appends fuel ActionKind.halt e = succeeds (Grows-put _ e)
  emit_action-Appends fuel ActionKind.nop e = succeeds (Grows-same e e refl refl refl refl)

  pub emit_actions-Appends :
      (fuel : ℕ) (acts : List Action) → Appends (emit_actions values layout fuel acts)
  unfolding emit_actions
  emit_actions-Appends fuel [] e = succeeds (Grows-same e e refl refl refl refl)
  emit_actions-Appends fuel (a ∷ acts) e =
      and_then _ (emit_action-Appends fuel a.kind e) (emit_actions-Appends fuel acts)
