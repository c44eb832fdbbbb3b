-- ===== src/Emitter/Frame.antt =====
-- rane_emitter.hpp: `align_up` and `compute_frame_layout`.
use rane_processing_language.Base.{
  ℕ, ◌+◌, ◌-◌, ◌*◌, ◌%◌, bit_and, List, [], ◌∷◌, ◌++◌, none, some, min,
}
use rane_processing_language.Base.Bytes.{u32_mod}
use rane_processing_language.Base.Result.{Result, ok, err, ◌>>=◌}
use rane_processing_language.Plan.{SymbolId, TypeId, ValueNode, ProcPlan}
use rane_processing_language.Emitter.{Fault, undefined, ILayoutProvider, FrameLayout, find}
use rane_processing_language.Emitter.Temps.{proc_max_temp_slots}

-- `(v + (a - 1)) & ~(a - 1)` in 32 bits.
unfoldable pub align_up : ℕ → ℕ → ℕ
align_up v a =
    let low = (a + u32_mod - 1) % u32_mod in bit_and ((v + low) % u32_mod) (u32_mod - 1 - low)

-- `emplace` keeps what is there.
unfoldable pub emplace : SymbolId → ℕ → List (SymbolId × ℕ) → List (SymbolId × ℕ)
emplace sym off m = elim (find sym m) [ none ↦ m ++ (sym, off) ∷ [] | some _ ↦ m ]

-- The offset behind a local of this size and alignment.
unfoldable pub next_offset : ℕ → ℕ → ℕ → ℕ
next_offset off size align = (align_up off (min align 8) + align_up size 8) % u32_mod

module _ (layout : ILayoutProvider) where
  -- The loop over the locals: the offset reached, and the map.
  unfoldable pub place_locals :
      List SymbolId → List TypeId → ℕ → List (SymbolId × ℕ) → Result Fault (ℕ × List (SymbolId × ℕ))
  place_locals [] types off m = ok (off, m)
  place_locals (sym ∷ syms) [] off m = err undefined
  place_locals (sym ∷ syms) (ty ∷ types) off m =
      let tl = layout.type_layout ty in
      let off' = next_offset off tl.size tl.align in
      place_locals syms types off' (emplace sym off' m)

  unfoldable pub compute_frame_layout : List ValueNode → ℕ → ProcPlan → Result Fault FrameLayout
  compute_frame_layout values fuel proc = do
    (off, local_off) ← place_locals proc.locals proc.local_types 0 []
    let locals_bytes = align_up off 8
    temp_slots ← proc_max_temp_slots values fuel proc
    let temps_bytes = temp_slots * 8 % u32_mod
    let raw = (locals_bytes + temps_bytes + 32) % u32_mod
    ok (record {
      shadow_bytes = 32;
      locals_bytes = locals_bytes;
      temps_bytes = temps_bytes;
      saved_nv_bytes = 0;
      total_bytes = (align_up ((raw + 8) % u32_mod) 16 + u32_mod - 8) % u32_mod;
      align = 16;
      local_off = local_off;
      temp_base_off = (locals_bytes + 8) % u32_mod;
    })
