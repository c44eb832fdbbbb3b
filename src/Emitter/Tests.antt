-- ===== src/Emitter/Tests.antt =====
-- Small plans run through the emitter, and the theorems applied to them.
use rane_processing_language.Base.{
  ℕ, ◌≤◌, ◌<◌, ◌≡◌, inl, inr, refl, arith, true, false, List, [], ◌∷◌, Option, none, some,
  Bool-cases, if◌then◌else◌, ◌==◌, length, get_elem?,
}
use rane_processing_language.Base.Bytes.{u32_mod, bytes_u32, bytes_u64}
use rane_processing_language.Base.Memory.{write_bytes}
use rane_processing_language.Base.Result.{Result, ok, err}
use rane_processing_language.Plan.{
  SymbolId, BinOp, ValueKind, ValueNode, ActionKind, Action, ProcPlan,
}
use rane_processing_language.X64.{
  rax, r11, size, rex, is_ext, reg3, modrm_rr, mov_ri64, test_rr, jmp_rel32, jcc_rel32, push_rbp,
  pop_rbp, mov_rbp_rsp, sub_rsp_imm32, mov_rsp_rbp, ret,
}
use rane_processing_language.X64.Encoders.{RrEncoders, rr_encoders}
use rane_processing_language.Cpu.{Machine}
use rane_processing_language.Emitter.{
  Fault, ILayoutProvider, FrameLayout, Emitter, find, local_offset, elem_at, temp_alloc, temp_free,
  bind_block, emit_jmp_block, emit_jz_block, Patch, rip_rel32_addr,
}
use rane_processing_language.Emitter.Temps.{
  node_depth, temp_depth, action_slots, actions_slots, blocks_slots, proc_max_temp_slots,
}
use rane_processing_language.Emitter.Frame.{
  align_up, emplace, next_offset, place_locals, compute_frame_layout,
}
use rane_processing_language.Emitter.Value.{
  emit_pair, binary_code, emit_node, emit_value, spill, reload, scale_rax, shift_of,
}
use rane_processing_language.Emitter.Action.{store_to, store_index, emit_action, emit_actions}
use rane_processing_language.Emitter.Proc.{
  EmitResult, emit_blocks, patch_u32, patch_block, patch_blocks, emit_proc, is_block_patch,
}
use rane_processing_language.Emitter.Growth.{PatchesFit}
use rane_processing_language.Emitter.Jumps.{emit_proc-PatchesFit}
use rane_processing_language.Emitter.TempUse.{IsOrdered, Uses}
use rane_processing_language.Emitter.TempCount.{emit_value-Uses, emit_action-undercounted}
use rane_processing_language.Emitter.Meaning.{eval, eval_kind}
use rane_processing_language.Emitter.Slots.{Holds}
use rane_processing_language.Emitter.Pairs.{Computed}
use rane_processing_language.Emitter.Correct.{emit_value-Computed}

-- Structs of 8 bytes in arrays with elements of 8 bytes.
abbrev words_layout : ILayoutProvider
words_layout = record {
  type_layout = λ t. record { size = 8; align = 8 };
  field_offset = λ t f. 0;
  element_size = λ t. 8;
}

abbrev node : ValueKind → ValueNode
node k = record {
  kind = k;
  type = 0;
  span = record { line = 1; col = 1; len = 1 };
  req_caps_mask_hash = 0;
}

-- `5`, the local 7, their sum, and the array element `local[5]`.
abbrev sum_values : List ValueNode
sum_values =
    node (ValueKind.const_int 5)
    ∷ node (ValueKind.var_ref 7)
    ∷ node (ValueKind.binary BinOp.add 0 1)
    ∷ node (ValueKind.index_ref 1 0)
    ∷ []

sum_values-IsOrdered : IsOrdered sum_values
sum_values-IsOrdered = (tt, (tt, ((omega arith, omega arith), ((omega arith, omega arith), tt))))

abbrev sum_env : SymbolId → Option ℕ
sum_env local = if 7 == local then some 9 else none

abbrev sum_frame : FrameLayout
sum_frame = record {
  shadow_bytes = 32;
  locals_bytes = 8;
  temps_bytes = 8;
  saved_nv_bytes = 0;
  total_bytes = 56;
  align = 16;
  local_off = (7, 8) ∷ [];
  temp_base_off = 16;
}

abbrev sum_start : Emitter
sum_start = record {
  frame = sum_frame;
  code = [];
  block_labels = [];
  patches = [];
  temp_sp = 0;
  temp_max = 0;
}

abbrev nines : Machine
nines = record { reg = λ r. 4096; mem = λ a. 9; is_equal = false; is_less = false }

sum_value : eval sum_env sum_values 3 2 ≡ some 14
unfolding eval eval_kind
sum_value = refl

sum-Holds : Holds sum_frame sum_env nines
unfolding find
sum-Holds local x q = elim (Bool-cases (7 == local)) [
  | inl b ↦ (8, rw b refl, omega arith, omega arith, ground arith)
  | inr b ↦ absurd (cc (rw b at q))
]

emit_value-Computed_example :
    (e' : Emitter) × (emit_value sum_values words_layout 3 2 sum_start ≡ ok e')
    × Computed 14 sum_start nines e'
emit_value-Computed_example =
    emit_value-Computed sum_env sum_values words_layout 3 2 14 sum_start nines sum_values-IsOrdered
      sum_value (omega arith) (omega arith) sum-Holds

abbrev emitted : Result Fault Emitter → Emitter
emitted (ok e) = e
emitted (err f) = sum_start

abbrev sum_end : Emitter
sum_end = emitted (emit_value sum_values words_layout 3 2 sum_start)

sum_run : emit_value sum_values words_layout 3 2 sum_start ≡ ok sum_end
unfolding emit_value emit_node emit_pair spill reload temp_alloc temp_free elem_at local_offset find
    binary_code
sum_run = refl

sum_depth : temp_depth sum_values 3 2 ≡ ok 1
unfolding temp_depth node_depth elem_at
sum_depth = refl

emit_value-Uses_example : Uses 1 sum_start sum_end
emit_value-Uses_example =
    emit_value-Uses sum_values words_layout 3 3 2 1 sum_start sum_end sum_values-IsOrdered
      (omega arith) sum_depth (omega arith) sum_run

-- The assignment of 5 to `local[5]`.
abbrev store_end : Emitter
store_end = emitted (emit_action sum_values words_layout 3 (ActionKind.assign 3 0) sum_start)

store_run : emit_action sum_values words_layout 3 (ActionKind.assign 3 0) sum_start ≡ ok store_end
unfolding emit_action store_to store_index emit_value emit_node spill reload temp_alloc temp_free
    elem_at local_offset find scale_rax shift_of
store_run = refl

store_count : action_slots sum_values 3 0 (ActionKind.assign 3 0) ≡ ok 1
unfolding action_slots temp_depth node_depth elem_at
store_count = refl

store_target : elem_at sum_values 3 ≡ ok (node (ValueKind.index_ref 1 0))
unfolding elem_at
store_target = refl

emit_action-undercounted_example : 2 ≤ store_end.temp_max
emit_action-undercounted_example =
    emit_action-undercounted sum_values words_layout 2 3 3 0 1 0 (node (ValueKind.index_ref 1 0))
      sum_start store_end sum_values-IsOrdered store_target refl (omega arith) (omega arith)
      (omega arith) store_count store_run

-- Two blocks: the first jumps to the second when 5 is not zero, and to itself otherwise.
abbrev act : ActionKind → Action
act k = record { kind = k; span = record { line = 1; col = 1; len = 1 }; req_caps_mask_hash = 0 }

abbrev loop_proc : ProcPlan
loop_proc = record {
  proc_symbol = 1;
  ret_type = 0;
  params = [];
  param_types = [];
  declared_caps = record { words = [] };
  blocks =
      record { id = 0; label = "a"; actions = act (ActionKind.cond_jump 0 0 1) ∷ [] }
      ∷ record { id = 1; label = "b"; actions = act ActionKind.halt ∷ [] }
      ∷ [];
  entry = 0;
  locals = 7 ∷ [];
  local_types = 0 ∷ [];
}

abbrev returned : Result Fault EmitResult → EmitResult
returned (ok r) = r
returned (err f) = record { code = []; patches = []; frame = sum_frame }

abbrev loop_result : EmitResult
loop_result = returned (emit_proc sum_values words_layout 3 loop_proc)

-- The conditional jump is the second of its patches to be bound.
abbrev picked : Option Patch → Patch
picked (some p) = p
picked none = record { kind = rip_rel32_addr; at = 0; target_block = 0; target_symbol = 0 }

abbrev loop_patch : Patch
loop_patch = picked (get_elem? loop_result.patches 1)

loop_facts :
    (emit_proc sum_values words_layout 3 loop_proc ≡ ok loop_result)
    × (length loop_result.code ≡ 42)
    × (get_elem? loop_result.patches 1 ≡ some loop_patch)
    × (is_block_patch loop_patch.kind ≡ true)
unfolding emit_proc compute_frame_layout place_locals next_offset align_up emplace find
    proc_max_temp_slots blocks_slots actions_slots action_slots temp_depth node_depth elem_at
    emit_blocks bind_block emit_actions emit_action emit_value emit_node emit_jmp_block
    emit_jz_block jmp_rel32 jcc_rel32 size mov_ri64 rex is_ext reg3 test_rr modrm_rr push_rbp
    mov_rbp_rsp sub_rsp_imm32 mov_rsp_rbp pop_rbp ret bytes_u32 bytes_u64 patch_blocks patch_block
    patch_u32 write_bytes
loop_facts = (refl, refl, refl, refl)

loop_lt : length loop_result.code < u32_mod
loop_lt = omega (arith, loop_facts.1)

emit_proc-PatchesFit_example : PatchesFit 0 (length loop_result.code) loop_result.patches
emit_proc-PatchesFit_example =
    emit_proc-PatchesFit sum_values words_layout 3 loop_proc loop_result loop_facts.0 loop_lt

rr_encoders_example : RrEncoders r11 rax (0xC3 ∷ [])
rr_encoders_example = rr_encoders r11 rax (0xC3 ∷ [])
