-- ===== src/Emitter/Proc.antt =====
-- rane_emitter.hpp, `emit_proc`: prologue, blocks, epilogue, then the block patches.
use rane_processing_language.Base.{
  ℕ, ◌+◌, ◌-◌, ◌%◌, Bool, true, false, List, [], ◌∷◌, ◌++◌, length, leb, ◌==◌, if◌then◌else◌,
  replicate,
}
use rane_processing_language.Base.Bytes.{u32_mod, bytes_u32}
use rane_processing_language.Base.Memory.{write_bytes}
use rane_processing_language.Base.Result.{Result, ok, guard, ◌>>=◌, ◌>>◌}
use rane_processing_language.Plan.{ValueNode, Block, ProcPlan}
use rane_processing_language.X64.{
  CodeBuf, push_rbp, mov_rbp_rsp, sub_rsp_imm32, mov_rsp_rbp, pop_rbp, ret,
}
use rane_processing_language.Emitter.{
  Fault, assertion, elem_at, ILayoutProvider, FrameLayout, Patch, PatchKind, rel32_jmp, rel32_jcc,
  Label, Emitter, bind_block,
}
use rane_processing_language.Emitter.Frame.{compute_frame_layout}
use rane_processing_language.Emitter.Value.{Emit}
use rane_processing_language.Emitter.Action.{emit_actions}

pub record EmitResult : Type 0 where
  pub code : List ℕ
  pub patches : List Patch
  pub frame : FrameLayout

unfoldable pub patch_u32 : CodeBuf → ℕ → ℕ → Result Fault CodeBuf
patch_u32 c at v = do
  guard (leb ((at + 4) % u32_mod) (length c)) assertion
  ok (write_bytes c at (bytes_u32 v))

-- Jumps to blocks are patched here, calls by the loader.
abbrev pub is_block_patch : PatchKind → Bool
is_block_patch rel32_jmp = true
is_block_patch rel32_jcc = true
is_block_patch _ = false

-- `(int32_t)L.pos - (int32_t)(p.at + 4)` as a 32-bit pattern.
abbrev pub rel_of : ℕ → ℕ → ℕ
rel_of pos at = (pos + u32_mod - (at + 4) % u32_mod) % u32_mod

unfoldable pub patch_block : List Label → Patch → CodeBuf → Result Fault CodeBuf
patch_block labels p c = do
  l ← elem_at labels p.target_block
  guard l.bound assertion
  patch_u32 c p.at (rel_of l.pos p.at)

unfoldable pub patch_blocks : List Label → List Patch → CodeBuf → Result Fault CodeBuf
patch_blocks labels [] c = ok c
patch_blocks labels (p ∷ ps) c = do
  c' ← if is_block_patch p.kind then patch_block labels p c else ok c
  patch_blocks labels ps c'

abbrev pub prologue : FrameLayout → List ℕ
prologue frame =
    push_rbp
    ++ (mov_rbp_rsp ++ (if frame.total_bytes == 0 then [] else sub_rsp_imm32 frame.total_bytes))

abbrev pub epilogue : List ℕ
epilogue = mov_rsp_rbp ++ (pop_rbp ++ ret)

module _ (values : List ValueNode) (layout : ILayoutProvider) where
  unfoldable pub emit_blocks : ℕ → List Block → Emit
  emit_blocks fuel [] e = ok e
  emit_blocks fuel (b ∷ bs) e = do
    e₁ ← bind_block b.id e
    e₂ ← emit_actions values layout fuel b.actions e₁
    emit_blocks fuel bs e₂

  -- The emitter when it has written the prologue.
  abbrev pub started : FrameLayout → ProcPlan → Emitter
  started frame proc = record {
    frame = frame;
    code = prologue frame;
    block_labels = replicate (length proc.blocks) (record { bound = false; pos = 0 });
    patches = [];
    temp_sp = 0;
    temp_max = 0;
  }

  unfoldable pub emit_proc : ℕ → ProcPlan → Result Fault EmitResult
  emit_proc fuel proc = do
    frame ← compute_frame_layout layout values fuel proc
    e ← emit_blocks fuel proc.blocks (started frame proc)
    code ← patch_blocks e.block_labels e.patches (e.code ++ epilogue)
    ok (record { code = code; patches = e.patches; frame = frame })
