-- ===== src/Emitter/Value.antt =====
-- rane_emitter.hpp, `emit_value`: one function for each case of its switch, over the recursive
-- call `rec`, then the switch and the recursion on fuel.
use rane_processing_language.Base.{
  ℕ, zero, suc, ◌+◌, ◌-◌, ◌%◌, ◌^◌, bit_and, List, [], ◌∷◌, ltb, ◌==◌, if◌then◌else◌, length, ◌++◌,
}
use rane_processing_language.Base.Bytes.{u32_mod, bytes_u32}
use rane_processing_language.Base.Result.{Result, ok, err, ◌>>=◌}
use rane_processing_language.Plan.{
  SymbolId, TypeId, ValueId, CmpOp, BinOp, UnOp, ValueKind, ValueNode,
}
use rane_processing_language.X64.{
  Reg, rax, rcx, rdx, r8, r9, r10, r11, mov_ri64, mov_mrbp_r64, mov_r64_mrbp, mov_rr, add_rr,
  sub_rr, imul_rr, cmp_rr, test_rr, SetCc, setcc_al, movzx_rax_al,
}
use rane_processing_language.Emitter.{
  Fault, elem_at, assertion, undefined, diverges, ILayoutProvider, Emitter, put, temp_alloc,
  temp_free, temp_offset, local_offset, rbp_disp_from_off, emit_call_symbol,
}

-- What a call of `emit_value` on a child does to the emitter.
abbrev pub Emit : Type 0
Emit = Emitter → Result Fault Emitter

-- `while ((1u << sh) != S) sh++`. Past 31 the shift is undefined.
unfoldable pub shift_of : ℕ → ℕ → ℕ → Result Fault ℕ
shift_of zero sh s = err undefined
shift_of (suc rounds) sh s =
    let next = shift_of rounds (sh + 1) s in if 2 ^ sh == s then ok sh else next

-- `rax *= S`, by a shift where S is a power of two (0 passes that test too).
unfoldable pub scale_rax : ℕ → Result Fault (List ℕ)
scale_rax s =
    if bit_and s ((s + u32_mod - 1) % u32_mod) == 0
    then (shift_of 32 0 s >>= λ sh. ok (0x48 ∷ 0xC1 ∷ 0xE0 ∷ sh ∷ []))
    else ok (0x48 ∷ 0x69 ∷ 0xC0 ∷ bytes_u32 s)

-- The value in `rax` to temp `t`, and temp `t` to a register.
unfoldable pub spill : ℕ → Emitter → Emitter
spill t e = put (mov_mrbp_r64 (rbp_disp_from_off (temp_offset e.frame t)) rax) e

unfoldable pub reload : Reg → ℕ → Emitter → Emitter
reload r t e = put (mov_r64_mrbp r (rbp_disp_from_off (temp_offset e.frame t))) e

-- The first operand to a temp, the second to `rax`, the first back to `r11`.
unfoldable pub emit_pair : Emit → Emit → Emit
emit_pair first second e = do
  e₁ ← first e
  let (t, e₂) = temp_alloc e₁
  e₃ ← second (spill t e₂)
  temp_free (reload r11 t e₃)

-- The instructions of `Unary` and `Binary` behind their operands, and the condition of `Compare`.
unfoldable pub unary_code : UnOp → List ℕ
unary_code UnOp.neg = 0x48 ∷ 0xF7 ∷ 0xD8 ∷ []
unary_code UnOp.not = test_rr rax rax ++ (setcc_al SetCc.e ++ movzx_rax_al)
unary_code UnOp.bit_not = 0x48 ∷ 0xF7 ∷ 0xD0 ∷ []

unfoldable pub binary_code : BinOp → Result Fault (List ℕ)
binary_code BinOp.add = ok (add_rr r11 rax ++ mov_rr rax r11)
binary_code BinOp.sub = ok (sub_rr r11 rax ++ mov_rr rax r11)
binary_code BinOp.mul = ok (mov_rr r10 rax ++ (mov_rr rax r11 ++ imul_rr rax r10))
binary_code BinOp.and = ok (0x4C ∷ 0x21 ∷ 0xC3 ∷ mov_rr rax r11)
binary_code BinOp.or = ok (0x4C ∷ 0x09 ∷ 0xC3 ∷ mov_rr rax r11)
binary_code BinOp.xor = ok (0x4C ∷ 0x31 ∷ 0xC3 ∷ mov_rr rax r11)
binary_code _ = err assertion

abbrev pub setcc_of : CmpOp → SetCc
setcc_of CmpOp.eq = SetCc.e
setcc_of CmpOp.ne = SetCc.ne
setcc_of CmpOp.lt = SetCc.l
setcc_of CmpOp.le = SetCc.le
setcc_of CmpOp.gt = SetCc.g
setcc_of CmpOp.ge = SetCc.ge

unfoldable pub compare_code : CmpOp → List ℕ
compare_code op = cmp_rr r11 rax ++ (setcc_al (setcc_of op) ++ movzx_rax_al)

abbrev pub abi_regs : List Reg
abi_regs = rcx ∷ rdx ∷ r8 ∷ r9 ∷ []

module _ (values : List ValueNode) (layout : ILayoutProvider) where
  -- `ap.values.at(v.v).type`
  abbrev pub type_of : ValueId → Result Fault TypeId
  type_of v = do n ← elem_at values v; ok n.type

  module _ (rec : ValueId → Emit) where
    unfoldable pub emit_field : ValueId → SymbolId → Emit
    emit_field base field e = do
      e₁ ← rec base e
      t ← type_of base
      ok (put (mov_rr r11 rax ++ 0x49 ∷ 0x8B ∷ 0x83 ∷ bytes_u32 (layout.field_offset t field)) e₁)

    unfoldable pub emit_index : ValueId → ValueId → Emit
    emit_index base index e = do
      e₁ ← emit_pair (rec base) (rec index) e
      t ← type_of base
      scaled ← scale_rax (layout.element_size t)
      ok (put (scaled ++ (add_rr r11 rax ++ 0x49 ∷ 0x8B ∷ 0x03 ∷ [])) e₁)

    -- The arguments that have a register, each to its own.
    unfoldable pub emit_args : List Reg → List ValueId → Emit
    emit_args (r ∷ regs) (arg ∷ args) e = do
      e₁ ← rec arg e
      emit_args regs args (put (mov_rr r rax) e₁)
    emit_args _ _ e = ok e

    unfoldable pub emit_call : SymbolId → List ValueId → Emit
    emit_call callee args e = do
      e₁ ← emit_args abi_regs args e
      if ltb 4 (length args) then err assertion else ok (emit_call_symbol callee e₁)

    unfoldable pub emit_node : ValueKind → Emit
    emit_node (ValueKind.const_int value) e = ok (put (mov_ri64 rax value) e)
    emit_node (ValueKind.const_bool value) e = ok (put (mov_ri64 rax (if value then 1 else 0)) e)
    emit_node ValueKind.const_null e = ok (put (mov_ri64 rax 0) e)
    emit_node (ValueKind.var_ref local) e = do
      off ← local_offset e.frame local
      ok (put (mov_r64_mrbp rax (rbp_disp_from_off off)) e)
    emit_node (ValueKind.field_ref base field) e = emit_field base field e
    emit_node (ValueKind.index_ref base index) e = emit_index base index e
    emit_node (ValueKind.unary op a) e = do e₁ ← rec a e; ok (put (unary_code op) e₁)
    emit_node (ValueKind.cast a to) e = rec a e
    emit_node (ValueKind.binary op a b) e = do
      e₁ ← emit_pair (rec a) (rec b) e
      code ← binary_code op
      ok (put code e₁)
    emit_node (ValueKind.compare op a b) e = do
      e₁ ← emit_pair (rec a) (rec b) e
      ok (put (compare_code op) e₁)
    emit_node (ValueKind.call callee args) e = emit_call callee args e
    emit_node _ e = err assertion

  unfoldable pub emit_value : ℕ → ValueId → Emit
  emit_value zero v e = err diverges
  emit_value (suc fuel) v e = do n ← elem_at values v; emit_node (emit_value fuel) n.kind e
