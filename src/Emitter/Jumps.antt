-- ===== src/Emitter/Jumps.antt =====
-- `emit_proc`: where the jumps go.
use rane_processing_language.Base.{
  ℕ, zero, suc, ◌+◌, ◌%◌, ◌<◌, ◌≡◌, refl, sym, ◌∙◌, arith, true, false, List, [], ◌++◌, some,
  length, length-append, get_elem?, All, All-map, replicate,
}
use rane_processing_language.Base.Bytes.{u32_mod}
use rane_processing_language.Base.Memory.{slice, word_at}
use rane_processing_language.Base.Result.{
  ok, Ensures, succeeds, Ensures-bind, Ensures-from, Ensures-map, Ensures-ok,
}
use rane_processing_language.Plan.{ValueNode, Block, ProcPlan}
use rane_processing_language.X64.{CodeBuf, size}
use rane_processing_language.Emitter.{ILayoutProvider, Patch, Label, Emitter, FrameLayout}
use rane_processing_language.Emitter.Proc.{
  EmitResult, patch_blocks, rel_of, is_block_patch, emit_blocks, started, emit_proc, epilogue,
}
use rane_processing_language.Emitter.Frame.{compute_frame_layout}
use rane_processing_language.Emitter.Growth.{PatchesFit, PatchesFit-widen}
use rane_processing_language.Emitter.Patching.{
  Away, Resolved, patch_blocks-Done, patch_blocks-length,
}
use mathlib.Core.Bool.{false≢true}
use native.Mathlib.Decide.{dec_lt}
use rane_processing_language.Emitter.Layout.{StartsAt, StartsAt-append, Laid, emit_blocks-Laid}

module _ (values : List ValueNode) (layout : ILayoutProvider) (fuel : ℕ) where
  no_label :
      (n b : ℕ) (l : Label)
      → get_elem? (replicate n (record { bound = false; pos = 0 })) b ≡ some l
      → l.bound ≡ false
  no_label zero b l h = cc
  no_label (suc n) zero l h = cc h
  no_label (suc n) (suc b) l h = no_label n b l h

  -- A jump of an emitted procedure: `final` is what the emitter has written, before it patches the
  -- jumps; the returned code is as long, and is the same but for the words of the patches; the block
  -- that the jump names stands at `pos`, and the word behind the opcode leads there from the end of
  -- the jump.
  pub record Lands (proc : ProcPlan) (r : EmitResult) (p : Patch) : Type 0 where
    pub final : Emitter
    pub final_run :
        emit_blocks values layout fuel proc.blocks (started values layout r.frame proc) ≡ ok final
    pub length_eq : length r.code ≡ length (final.code ++ epilogue)
    pub kept :
        (q n : ℕ) → Away q n r.patches → slice r.code q n ≡ slice (final.code ++ epilogue) q n
    pub pos : ℕ
    pub starts :
        StartsAt values layout fuel
          (started values layout r.frame proc)
          proc.blocks
          p.target_block
          pos
          (final.code ++ epilogue)
    pub word_eq : word_at r.code p.at ≡ some (rel_of pos p.at)
    pub lands_eq : (p.at + 4 + rel_of pos p.at) % u32_mod ≡ pos

  -- What `emit_proc` returns: patches that lie in the code apart, and jumps that land.
  record Linked (proc : ProcPlan) (r : EmitResult) : Type 0 where
    pub fits : PatchesFit 0 (length r.code) r.patches
    pub lands : All (λ p. is_block_patch p.kind ≡ true → Lands proc r p) r.patches

  lands_back : (pos at : ℕ) → pos < u32_mod → (at + 4 + rel_of pos at) % u32_mod ≡ pos
  lands_back pos at h = omega arith

  StartsAt-lt :
      {start : Emitter} {bs : List Block} {b pos : ℕ} {code : CodeBuf}
      → StartsAt values layout fuel start bs b pos code
      → pos < u32_mod
  unfolding size
  StartsAt-lt s = omega (arith, s.pos_eq)

  module _ (proc : ProcPlan) (frame : FrameLayout) (e : Emitter) where
    abbrev start : Emitter
    start = started values layout frame proc

    abbrev result : CodeBuf → EmitResult
    result c = record { code = c; patches = e.patches; frame = frame }

    Resolved-Lands :
        (c : CodeBuf) (p : Patch)
        → Laid values layout fuel start proc.blocks start e
        → length c ≡ length (e.code ++ epilogue)
        → ((q n : ℕ) → Away q n e.patches → slice c q n ≡ slice (e.code ++ epilogue) q n)
        → Resolved e.block_labels c p
        → Lands proc (result c) p
    Resolved-Lands c p laid le kept d =
        let at_start : StartsAt values layout fuel start proc.blocks p.target_block d.label.pos
            e.code =
          laid.holds p.target_block d.label d.label_eq d.is_bound in
        record {
          final = e;
          final_run = laid.run;
          length_eq = le;
          kept = kept;
          pos = d.label.pos;
          starts = StartsAt-append values layout fuel epilogue at_start;
          word_eq = d.word_eq;
          lands_eq = lands_back d.label.pos p.at (StartsAt-lt at_start);
        }

    link :
        Laid values layout fuel start proc.blocks start e
        → Ensures
            (λ (c : CodeBuf). length c < u32_mod → Linked proc (result c))
            (patch_blocks e.block_labels e.patches (e.code ++ epilogue))
    link laid = elim (dec_lt (length (e.code ++ epilogue)) u32_mod) [
      | no long ↦
          Ensures-map (patch_blocks-length e.block_labels e.patches _)
            λ c le lt. absurd (omega arith)
      | yes lt ↦
          Ensures-map (patch_blocks-Done e.block_labels 0 e.patches _ (whole_fits lt)) λ c d _.
            record {
              fits = rw d.same_length (whole_fits lt);
              lands =
                  All-map (λ p f t. Resolved-Lands c p laid d.same_length d.outside (f t)) e.patches
                    d.resolved;
            }
    ]
      where
        whole_fits :
            length (e.code ++ epilogue) < u32_mod
            → PatchesFit 0 (length (e.code ++ epilogue)) e.patches
        whole_fits lt = rw laid.grows.patches_eq (
            PatchesFit-widen _ _ _ laid.grows.added
              (laid.grows.fits (omega (arith, length-append e.code epilogue)))
              (omega (arith, length-append e.code epilogue)))

  emit_proc-Linked :
      (proc : ProcPlan) (r : EmitResult)
      → emit_proc values layout fuel proc ≡ ok r
      → length r.code < u32_mod
      → Linked proc r
  unfolding emit_proc emit_blocks
  emit_proc-Linked proc r run =
      Ensures-ok {P = λ x. length x.code < u32_mod → Linked proc x}
        (Ensures-from (compute_frame_layout layout values fuel proc) _ λ frame _.
          Ensures-bind _
            (emit_blocks-Laid values layout fuel (started values layout frame proc) [] proc.blocks
              (started values layout frame proc) refl
              (λ b l q t. absurd (false≢true (sym (no_label _ b l q) ∙ t))))
            λ e laid. Ensures-bind _ (link proc frame e laid) λ c f. succeeds f)
        run

  -- Take any procedure that the emitter accepts, in less than 4 GiB of code. The patches of the
  -- result lie inside the code, in order, and no two of their four-byte words overlap.
  pub emit_proc-PatchesFit :
      (proc : ProcPlan) (r : EmitResult)
      → emit_proc values layout fuel proc ≡ ok r
      → length r.code < u32_mod
      → PatchesFit 0 (length r.code) r.patches
  emit_proc-PatchesFit proc r run lt = (emit_proc-Linked proc r run lt).fits
