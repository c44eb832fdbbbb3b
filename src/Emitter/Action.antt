-- ===== src/Emitter/Action.antt =====
-- rane_emitter.hpp, `emit_action`.
use rane_processing_language.Base.{ℕ, List, [], ◌∷◌, ◌++◌}
use rane_processing_language.Base.Bytes.{bytes_u32}
use rane_processing_language.Base.Result.{ok, err, ◌>>=◌}
use rane_processing_language.Plan.{SymbolId, ValueId, ValueKind, ValueNode, ActionKind, Action}
use rane_processing_language.X64.{rax, r11, mov_mrbp_r64, mov_rr, add_rr, test_rr}
use rane_processing_language.Emitter.{
  assertion, elem_at, ILayoutProvider, put, temp_alloc, temp_free, local_offset, emit_jmp_block,
  emit_jz_block,
}
use rane_processing_language.Emitter.Value.{Emit, scale_rax, spill, reload, type_of, emit_value}

module _ (values : List ValueNode) (layout : ILayoutProvider) where
  module _ (rec : ValueId → Emit) where
    -- The three targets of an assignment, with the value in `rax`. The offset of a local is passed
    -- to the encoder as it is.
    unfoldable pub store_local : SymbolId → Emit
    store_local local e = do off ← local_offset e.frame local; ok (put (mov_mrbp_r64 off rax) e)

    unfoldable pub store_field : ValueId → SymbolId → Emit
    store_field base field e = do
      e₁ ← rec base e
      t ← type_of values layout base
      ok (put (mov_rr r11 rax ++ 0x49 ∷ 0x89 ∷ 0x83 ∷ bytes_u32 (layout.field_offset t field)) e₁)

    unfoldable pub store_index : ValueId → ValueId → Emit
    store_index base index e = do
      let (tv, e₁) = temp_alloc e
      e₂ ← rec base (spill tv e₁)
      let (tb, e₃) = temp_alloc e₂
      e₄ ← rec index (spill tb e₃)
      e₅ ← temp_free (reload r11 tb e₄)
      t ← type_of values layout base
      scaled ← scale_rax (layout.element_size t)
      e₆ ← temp_free (reload rax tv (put (scaled ++ add_rr r11 rax) e₅))
      ok (put (0x49 ∷ 0x89 ∷ 0x03 ∷ []) e₆)

    unfoldable pub store_to : ValueKind → Emit
    store_to (ValueKind.var_ref local) e = store_local local e
    store_to (ValueKind.field_ref base field) e = store_field base field e
    store_to (ValueKind.index_ref base index) e = store_index base index e
    store_to _ e = err assertion

  unfoldable pub emit_action : ℕ → ActionKind → Emit
  emit_action fuel (ActionKind.eval expr) e = emit_value values layout fuel expr e
  emit_action fuel (ActionKind.assign target value) e = do
    e₁ ← emit_value values layout fuel value e
    tgt ← elem_at values target
    store_to (emit_value values layout fuel) tgt.kind e₁
  emit_action fuel (ActionKind.jump target) e = ok (emit_jmp_block target e)
  emit_action fuel (ActionKind.cond_jump c if_false if_true) e = do
    e₁ ← emit_value values layout fuel c e
    ok (emit_jmp_block if_true (emit_jz_block if_false (put (test_rr rax rax) e₁)))
  emit_action fuel (ActionKind.trap payload) e = ok (put (0xCC ∷ []) e)
  emit_action fuel ActionKind.halt e = ok (put (0x0F ∷ 0x0B ∷ []) e)
  emit_action fuel ActionKind.nop e = ok e

  unfoldable pub emit_actions : ℕ → List Action → Emit
  emit_actions fuel [] e = ok e
  emit_actions fuel (a ∷ as') e = do e₁ ← emit_action fuel a.kind e; emit_actions fuel as' e₁
