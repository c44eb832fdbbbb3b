-- ===== src/Emitter/Correct.antt =====
-- `emit_value` is correct: the code that it appends computes the value.
use rane_processing_language.Base.{
  ℕ, zero, suc, ◌+◌, ◌*◌, ◌%◌, ◌^◌, ◌≤◌, ◌<◌, ◌≡◌, refl, ap, ◌∙◌, arith, List, ◌++◌, Option, some,
  append_assoc, get_elem?,
}
use mathlib.Core.Option.{some-injective}
use rane_processing_language.Base.Bytes.{u64_mod}
use rane_processing_language.Base.Result.{ok, ◌>>=◌}
use rane_processing_language.Plan.{SymbolId, BinOp, ValueId, ValueKind, ValueNode}
use rane_processing_language.X64.{rax, mov_r64_mrbp, mov_ri64}
use rane_processing_language.X64.Encoders.{mov_ri64-DecodesTo}
use rane_processing_language.Cpu.{Machine, exec, set_reg, mov_imm}
use rane_processing_language.Cpu.Steps.{Runs-append}
use rane_processing_language.Emitter.Pairs.{
  limit, Computed, PairComputed, Succeeds, IsCorrect, pair_correct, Leaves-Keeps,
}
use rane_processing_language.Emitter.{
  FrameLayout, ILayoutProvider, Emitter, put, elem_at-some, local_offset, find, rbp_disp_from_off,
}
use rane_processing_language.Emitter.Value.{Emit, emit_node, emit_value, binary_code}
use rane_processing_language.Emitter.TempUse.{Below, IsOrdered, OrderedFrom-Below}
use rane_processing_language.Emitter.Meaning.{
  eval, eval_kind, eval_unary, eval_binary, bind-eq-some,
}
use rane_processing_language.Emitter.Operations.{
  Leaves, sets_rax, retarget, unary_leaves, binary_leaves, compare_leaves,
}
use rane_processing_language.Emitter.Slots.{run_load, Keeps-trans, Holds}

-- Code behind one operand that computes `z` from it.
Computed-by :
    {e e₁ : Emitter} {m : Machine} {x z : ℕ} {code : List ℕ} (c : Computed x e m e₁)
    → Leaves code c.final z
    → Computed z e m (put code e₁)
Computed-by {e} {e₁} {m} {x} {z} {code} c l = record {
  bytes = c.bytes ++ code;
  code_eq = ap (λ (p : List ℕ). p ++ code) c.code_eq ∙ append_assoc e.code c.bytes code;
  frame_eq = c.frame_eq;
  sp_eq = c.sp_eq;
  final = l.final;
  runs = Runs-append c.bytes code c.runs l.runs;
  rax_eq = l.rax_eq;
  keeps = Keeps-trans c.keeps (Leaves-Keeps (limit e) l);
}

-- Code that computes with nothing before it.
Computed-alone :
    {e : Emitter} {m : Machine} {z : ℕ} (code : List ℕ)
    → Leaves code m z
    → Computed z e m (put code e)
Computed-alone {e} code l = record {
  bytes = code;
  code_eq = refl;
  frame_eq = refl;
  sp_eq = refl;
  final = l.final;
  runs = l.runs;
  rax_eq = l.rax_eq;
  keeps = Leaves-Keeps (limit e) l;
}

-- Code behind two operands.
Computed-by_pair :
    {e e₁ : Emitter} {m : Machine} {x y z : ℕ} {code : List ℕ} (c : PairComputed x y e m e₁)
    → Leaves code c.final z
    → Computed z e m (put code e₁)
Computed-by_pair {e} {e₁} {m} {x} {y} {z} {code} c l = record {
  bytes = c.bytes ++ code;
  code_eq = ap (λ (p : List ℕ). p ++ code) c.code_eq ∙ append_assoc e.code c.bytes code;
  frame_eq = c.frame_eq;
  sp_eq = c.sp_eq;
  final = l.final;
  runs = Runs-append c.bytes code c.runs l.runs;
  rax_eq = l.rax_eq;
  keeps = Keeps-trans c.keeps (Leaves-Keeps (limit e) l);
}

-- Every operator that has a meaning has code.
binary_code_exists :
    (op : BinOp) (x y z : ℕ)
    → eval_binary op x y ≡ some z
    → (code : List ℕ) × (binary_code op ≡ ok code)
unfolding binary_code
binary_code_exists BinOp.add x y z q = (_, refl)
binary_code_exists BinOp.sub x y z q = (_, refl)
binary_code_exists BinOp.mul x y z q = (_, refl)
binary_code_exists _ x y z q = absurd (cc q)

-- A constant.
constant-Computed :
    (imm x : ℕ) (e : Emitter) (m : Machine)
    → imm % u64_mod ≡ x
    → Computed x e m (put (mov_ri64 rax imm) e)
unfolding exec
constant-Computed imm x e m q = Computed-alone (mov_ri64 rax imm) (
    sets_rax _ (mov_imm rax (imm % u64_mod)) m x (mov_ri64-DecodesTo rax imm)
      (ap (λ (t : ℕ). some (set_reg m rax t)) q))

local_offset-eq-ok :
    (fr : FrameLayout) (local off : ℕ)
    → find local fr.local_off ≡ some off
    → local_offset fr local ≡ ok off
unfolding local_offset
local_offset-eq-ok fr local off q = rw (q, local_offset) refl

-- A local.
local_correct :
    (env : SymbolId → Option ℕ) (local x : ℕ) (e : Emitter) (m : Machine)
    → env local ≡ some x
    → Holds e.frame env m
    → Succeeds
        (Computed x e m)
        (λ e. do
          off ← local_offset e.frame local
          ok (put (mov_r64_mrbp rax (rbp_disp_from_off off)) e))
        e
local_correct env local x e m q held =
    let (off, found, p, lt, v) = held local x q in
    (
      _,
      rw (local_offset-eq-ok e.frame local off found) refl,
      Computed-alone _ (record {
        final = _;
        runs = run_load rax off m;
        rax_eq = v;
        rbp_eq = refl;
        mem_eq = refl;
      }),
    )

module _ (env : SymbolId → Option ℕ) (values : List ValueNode) (layout : ILayoutProvider) where
  module _ (meaning : ValueId → Option ℕ) (rec : ValueId → Emit) (v : ℕ) where
    node-IsCorrect :
        ((a x : ℕ) → a < v → meaning a ≡ some x → IsCorrect env (rec a) x a)
        → (k : ValueKind) (x : ℕ) → Below v k
        → eval_kind env meaning k ≡ some x
        → IsCorrect env (emit_node values layout rec k) x v
    unfolding emit_node eval_kind
    node-IsCorrect h (ValueKind.const_int value) x b q e m fits held =
        (_, refl, constant-Computed value x e m (some-injective _ _ q))
    node-IsCorrect h (ValueKind.const_bool value) x b q e m fits held =
        (_, refl, constant-Computed _ x e m (ground arith))
    node-IsCorrect h ValueKind.const_null x b q e m fits held =
        (_, refl, constant-Computed 0 x e m (some-injective _ _ q))
    node-IsCorrect h (ValueKind.var_ref local) x b q e m fits held =
        local_correct env local x e m q held
    node-IsCorrect h (ValueKind.unary op a) x b q e m fits held =
        let (y, qa, q') = bind-eq-some (meaning a) _ q in
        let (e₁, r, c) = h a y b qa e m (fits.0, omega (arith, fits.1)) held in
        (
          _,
          rw r refl,
          Computed-by c (
              retarget (ap (eval_unary op) c.rax_eq ∙ some-injective _ _ q')
                (unary_leaves op c.final)),
        )
    node-IsCorrect h (ValueKind.cast a to) x b q e m fits held =
        h a x b q e m (fits.0, omega (arith, fits.1)) held
    node-IsCorrect h (ValueKind.binary op a a') x b q e m fits held =
        let (y, qa, q') = bind-eq-some (meaning a) _ q in
        let (z, qb, q'') = bind-eq-some (meaning a') _ q' in
        let (code, qc) = binary_code_exists op y z x q'' in
        let (e₁, r, c) =
          pair_correct env (rec a) (rec a') y z a a' v (h a y b.0 qa) (h a' z b.1 qb) b.0 b.1 e m
            fits held in
        (
          _,
          rw (r, qc) refl,
          Computed-by_pair c (binary_leaves op c.final code x qc (rw (c.r11_eq, c.rax_eq) q'')),
        )
    node-IsCorrect h (ValueKind.compare op a a') x b q e m fits held =
        let (y, qa, q') = bind-eq-some (meaning a) _ q in
        let (z, qb, q'') = bind-eq-some (meaning a') _ q' in
        let (e₁, r, c) =
          pair_correct env (rec a) (rec a') y z a a' v (h a y b.0 qa) (h a' z b.1 qb) b.0 b.1 e m
            fits held in
        (
          _,
          rw r refl,
          Computed-by_pair c (
              retarget (rw (c.r11_eq, c.rax_eq) (some-injective _ _ q''))
                (compare_leaves op c.final)),
        )
    node-IsCorrect h _ x b q e m fits held = absurd (cc q)

  values-IsCorrect :
      (fuel v x : ℕ)
      → IsOrdered values
      → eval env values fuel v ≡ some x
      → IsCorrect env (emit_value values layout fuel v) x v
  unfolding eval emit_value
  values-IsCorrect zero v x ordered q e m fits held = absurd (cc q)
  values-IsCorrect (suc fuel) v x ordered q e m fits held =
      let (n, at, q') = bind-eq-some (get_elem? values v) _ q in
      let below : Below v n.kind = OrderedFrom-Below 0 values v n ordered at v (omega arith) in
      let (e', r, c) =
        node-IsCorrect (eval env values fuel) (emit_value values layout fuel) v
          (λ a y lt qa. values-IsCorrect fuel a y ordered qa) n.kind x below q' e m fits held in
      (e', rw (elem_at-some values v n at) r, c)

  -- In an arena that lists children before parents, take the value `v`, with a meaning `x`, a frame
  -- whose temps do not start at 0 and whose next v + 1 free temps end below 2 GiB, and a machine in
  -- which every local with a value has a slot that holds it. Then `emit_value`, on the fuel of the
  -- evaluator, succeeds: it appends code that, decoded and run from that machine, comes to its end
  -- with `x` in `rax`, `rbp` and every cell nearer than the free temps as before, and it gives back
  -- the temps it took and leaves the frame.
  pub emit_value-Computed :
      (fuel v x : ℕ) (e : Emitter) (m : Machine)
      → IsOrdered values
      → eval env values fuel v ≡ some x
      → 0 < e.frame.temp_base_off
      → limit e + 8 * (v + 1) ≤ 2 ^ 31
      → Holds e.frame env m
      → (e' : Emitter) × (emit_value values layout fuel v e ≡ ok e') × Computed x e m e'
  emit_value-Computed fuel v x e m ordered q p room held =
      values-IsCorrect fuel v x ordered q e m (p, room) held
