-- ===== src/Emitter/TempUse.antt =====
-- The temps that `emit_value` takes, against those that `TempAnalysis` counts.
use mathlib.Core.Option.{some-injective}
use mathlib.Core.Path.{subst}
use rane_processing_language.Base.{
  ℕ, zero, suc, ◌+◌, ◌-◌, ◌%◌, ◌≤◌, ◌<◌, ◌≡◌, refl, ◌∙◌, arith, List, [], ◌∷◌, some, length,
  get_elem?, if◌then◌else◌, ltb, All,
}
use rane_processing_language.Base.Bytes.{u32_mod}
use rane_processing_language.Base.Result.{
  Result, ok, Ensures, succeeds, fails, Ensures-bind, Ensures-from, Ensures-if, Ensures-map,
  >>=-eq-ok,
}
use rane_processing_language.Plan.{ValueId, ValueKind, ValueNode}
use rane_processing_language.X64.{Reg}
use rane_processing_language.Emitter.{
  Fault, ILayoutProvider, Emitter, put, temp_alloc, temp_free, elem_at, elem_at-eq-some,
  local_offset, emit_call_symbol,
}
use rane_processing_language.Emitter.Temps.{larger, args_depth, pair_depth, node_depth, temp_depth}
use rane_processing_language.Emitter.Value.{
  Emit, emit_pair, emit_args, emit_field, emit_index, emit_call, emit_node, emit_value, spill,
  reload, binary_code, scale_rax, type_of, abi_regs,
}

-- The children of a node have smaller numbers than the node.
abbrev pub Below : ℕ → ValueKind → Type 0
Below v (ValueKind.field_ref base field) = base < v
Below v (ValueKind.index_ref base index) = (base < v) × (index < v)
Below v (ValueKind.unary op a) = a < v
Below v (ValueKind.cast a to) = a < v
Below v (ValueKind.binary op a b) = (a < v) × (b < v)
Below v (ValueKind.compare op a b) = (a < v) × (b < v)
Below v (ValueKind.call callee args) = All (λ a. a < v) args
Below v _ = Unit

abbrev pub OrderedFrom : ℕ → List ValueNode → Type 0
OrderedFrom i [] = Unit
OrderedFrom i (n ∷ ns) = Below i n.kind × OrderedFrom (i + 1) ns

-- The arena lists children before parents.
abbrev pub IsOrdered : List ValueNode → Type 0
IsOrdered = OrderedFrom 0

pub OrderedFrom-Below :
    (i : ℕ) (ns : List ValueNode) (v : ℕ) (n : ValueNode)
    → OrderedFrom i ns
    → get_elem? ns v ≡ some n
    → (j : ℕ) → j ≡ i + v
    → Below j n.kind
OrderedFrom-Below i [] v n h e j q = absurd (cc)
OrderedFrom-Below i (x ∷ ns) zero n (h, hs) e j q =
    subst (λ (m : ValueNode). Below j m.kind) (some-injective x n e)
      (let q' : i ≡ j = omega arith in subst (λ (t : ℕ). Below t x.kind) q' h)
OrderedFrom-Below i (x ∷ ns) (suc v) n (h, hs) e j q =
    OrderedFrom-Below (i + 1) ns v n hs e j (omega arith)

-- One call takes at most `d` temps above those in use, and gives them all back.
pub record Uses (d : ℕ) (e e' : Emitter) : Type 0 where
  pub sp_eq : e'.temp_sp ≡ e.temp_sp
  pub max_le : e'.temp_max ≤ larger e.temp_max (e.temp_sp + d)
  pub max_ge : e.temp_max ≤ e'.temp_max

abbrev pub UsesAtMost : ℕ → Emit → Type 0
UsesAtMost d f = (e : Emitter) → e.temp_sp + d < u32_mod → Ensures (Uses d e) (f e)

-- The bounds of the two operands, and of the temp between them, put together.
pair_bound :
    (da db sp sp₁ sp₃ m m₁ m₂ m₃ : ℕ)
    → sp + (larger da db + 1) < u32_mod
    → sp₁ ≡ sp
    → m₁ ≤ larger m (sp + da)
    → m₂ ≡ (if ltb m₁ ((sp₁ + 1) % u32_mod) then (sp₁ + 1) % u32_mod else m₁)
    → sp₃ ≡ (sp₁ + 1) % u32_mod
    → m₃ ≤ larger m₂ ((sp₁ + 1) % u32_mod + db)
    → m ≤ m₁
    → m₂ ≤ m₃
    → (sp₃ - 1 ≡ sp) × (m₃ ≤ larger m (sp + (larger da db + 1))) × (m ≤ m₃)
pair_bound da db sp sp₁ sp₃ m m₁ m₂ m₃ lt a b c d f g h = ground arith

pair-Uses :
    (da db : ℕ) (f g : Emit)
    → UsesAtMost da f
    → UsesAtMost db g
    → UsesAtMost (larger da db + 1) (emit_pair f g)
unfolding emit_pair spill reload temp_alloc temp_free
pair-Uses da db f g hf hg e lt = Ensures-bind _ (hf e (ground arith)) λ e₁ u.
    Ensures-bind _ (hg _ (ground (arith, u.sp_eq))) λ e₃ w.
      let bound =
        pair_bound da db e.temp_sp e₁.temp_sp e₃.temp_sp e.temp_max e₁.temp_max _ e₃.temp_max lt
          u.sp_eq u.max_le refl w.sp_eq w.max_le u.max_ge w.max_ge in
      Ensures-if (ltb 0 e₃.temp_sp)
        (λ _. succeeds (record { sp_eq = bound.0; max_le = bound.1; max_ge = bound.2 }))
        (λ _. fails)

Uses-put : (bs : List ℕ) {d : ℕ} {e e₁ : Emitter} → Uses d e e₁ → Uses d e (put bs e₁)
Uses-put bs u = record { sp_eq = u.sp_eq; max_le = u.max_le; max_ge = u.max_ge }

Uses-zero : (d : ℕ) (e : Emitter) → Uses d e e
Uses-zero d e = record { sp_eq = refl; max_le = ground arith; max_ge = omega arith }

Uses-mono : (d d' : ℕ) {e e₁ : Emitter} → d ≤ d' → Uses d e e₁ → Uses d' e e₁
Uses-mono d d' le u = record {
  sp_eq = u.sp_eq;
  max_le = ground (arith, u.max_le);
  max_ge = u.max_ge;
}

Uses-trans : (d : ℕ) {e e₁ e₂ : Emitter} → Uses d e e₁ → Uses d e₁ e₂ → Uses d e e₂
Uses-trans d u w = record {
  sp_eq = w.sp_eq ∙ u.sp_eq;
  max_le = ground (arith, u.sp_eq, u.max_le, w.max_le);
  max_ge = omega (arith, u.max_ge, w.max_ge);
}

UsesAtMost-mono : (d d' : ℕ) (f : Emit) → d ≤ d' → UsesAtMost d f → UsesAtMost d' f
UsesAtMost-mono d d' f le h e lt = Ensures-map (h e (omega arith)) (λ e₁ u. Uses-mono d d' le u)

-- The depth of arguments bounds the depth of each.
args_depth-le :
    (depth : ValueId → Result Fault ℕ) (m : ℕ) (args : List ValueId) (d : ℕ)
    → args_depth depth m args ≡ ok d
    → m ≤ d
args_depth-le depth m [] d h = let h' : m ≡ d = cc in omega arith
args_depth-le depth m (arg ∷ args) d h =
    let (da, _, h') = >>=-eq-ok (depth arg) _ h in
    ground (arith, args_depth-le depth (if ltb m da then da else m) args d h')

module _ (values : List ValueNode) (layout : ILayoutProvider) (depth : ValueId → Result Fault ℕ)
    (rec : ValueId → Emit) (v : ℕ) where
  -- The counts of the children hold, and stay below the numbers of the children.
  abbrev ChildrenHold : Type 0
  ChildrenHold = (a d : ℕ) → a < v → depth a ≡ ok d → (d ≤ a) × UsesAtMost d (rec a)

  args-Uses :
      (regs : List Reg) (args : List ValueId) (m d : ℕ)
      → ChildrenHold
      → All (λ a. a < v) args
      → args_depth depth m args ≡ ok d
      → UsesAtMost d (emit_args values layout rec regs args)
  unfolding emit_args
  args-Uses [] args m d h below q e lt = succeeds (Uses-zero d e)
  args-Uses (r ∷ regs) [] m d h below q e lt = succeeds (Uses-zero d e)
  args-Uses (r ∷ regs) (a ∷ args) m d h (b, bs) q e lt =
      let (da, qa, q') = >>=-eq-ok (depth a) _ q in
      let m' : ℕ = if ltb m da then da else m in
      let le : m' ≤ d = args_depth-le depth m' args d q' in
      Ensures-bind _ (UsesAtMost-mono da d (rec a) (ground (arith, le)) (h a da b qa).1 e lt)
        λ e₁ u.
          Ensures-map (args-Uses regs args m' d h bs q' (put _ e₁) (omega (arith, u.sp_eq)))
            (λ e₂ w. Uses-trans d (Uses-put _ u) w)

  args_le :
      (args : List ValueId) (m d : ℕ)
      → ChildrenHold
      → All (λ a. a < v) args
      → m ≤ v
      → args_depth depth m args ≡ ok d
      → d ≤ v
  args_le [] m d h below le q = let q' : m ≡ d = cc in omega arith
  args_le (a ∷ args) m d h (b, bs) le q =
      let (da, qa, q') = >>=-eq-ok (depth a) _ q in
      args_le args (if ltb m da then da else m) d h bs (ground (arith, (h a da b qa).0)) q'

  -- The count of two operands does not wrap, and bounds what the two take together.
  pair_holds :
      (a b d : ℕ)
      → ChildrenHold
      → a < v
      → b < v
      → v < u32_mod
      → pair_depth depth a b ≡ ok d
      → (d ≤ v) × UsesAtMost d (emit_pair (rec a) (rec b))
  pair_holds a b d h la lb lv q =
      let (da, qa, q₁) = >>=-eq-ok (depth a) _ q in
      let (db, qb, q₂) = >>=-eq-ok (depth b) _ q₁ in
      let (ha, ua) = h a da la qa in
      let (hb, ub) = h b db lb qb in
      let d_eq : (larger da db + 1) % u32_mod ≡ d = cc q₂ in
      let exact : larger da db + 1 ≡ d = ground arith in
      (
        ground arith,
        subst (λ (t : ℕ). UsesAtMost t (emit_pair (rec a) (rec b))) exact
            (pair-Uses da db _ _ ua ub),
      )

  node_holds :
      (k : ValueKind) (d : ℕ)
      → ChildrenHold
      → Below v k
      → v < u32_mod
      → node_depth depth k ≡ ok d
      → (d ≤ v) × UsesAtMost d (emit_node values layout rec k)
  unfolding node_depth emit_node emit_field emit_index emit_call emit_call_symbol
  node_holds (ValueKind.const_int value) d h b lv q =
      (ground arith, λ e lt. succeeds (Uses-put _ (Uses-zero d e)))
  node_holds (ValueKind.const_bool value) d h b lv q =
      (ground arith, λ e lt. succeeds (Uses-put _ (Uses-zero d e)))
  node_holds ValueKind.const_null d h b lv q =
      (ground arith, λ e lt. succeeds (Uses-put _ (Uses-zero d e)))
  node_holds ValueKind.invalid d h b lv q = (ground arith, λ e lt. fails)
  node_holds (ValueKind.global_ref g) d h b lv q = (ground arith, λ e lt. fails)
  node_holds (ValueKind.var_ref local) d h b lv q = (
    ground arith,
    λ e lt.
        Ensures-from (local_offset e.frame local) _ λ off _. succeeds (Uses-put _ (Uses-zero d e)),
  )
  node_holds (ValueKind.field_ref base field) d h b lv q =
      let (le, u) = h base d b q in
      (
        omega arith,
        λ e lt.
            Ensures-bind _ (u e lt)
              λ e₁ w. Ensures-from (type_of values layout base) _ λ t _. succeeds (Uses-put _ w),
      )
  node_holds (ValueKind.index_ref base index) d h b lv q =
      let (le, u) = pair_holds base index d h b.0 b.1 lv q in
      (
        le,
        λ e lt. Ensures-bind _ (u e lt) λ e₁ w. Ensures-from (type_of values layout base) _ λ t _.
            Ensures-from (scale_rax (layout.element_size t)) _ λ scaled _. succeeds (Uses-put _ w),
      )
  node_holds (ValueKind.unary op a) d h b lv q =
      let (le, u) = h a d b q in
      (omega arith, λ e lt. Ensures-bind _ (u e lt) λ e₁ w. succeeds (Uses-put _ w))
  node_holds (ValueKind.cast a to) d h b lv q = let (le, u) = h a d b q in (omega arith, u)
  node_holds (ValueKind.binary op x y) d h b lv q =
      let (le, u) = pair_holds x y d h b.0 b.1 lv q in
      (
        le,
        λ e lt.
            Ensures-bind _ (u e lt)
              λ e₁ w. Ensures-from (binary_code op) _ λ code _. succeeds (Uses-put _ w),
      )
  node_holds (ValueKind.compare op x y) d h b lv q =
      let (le, u) = pair_holds x y d h b.0 b.1 lv q in
      (le, λ e lt. Ensures-bind _ (u e lt) λ e₁ w. succeeds (Uses-put _ w))
  node_holds (ValueKind.call callee args) d h b lv q = (
    args_le args 0 d h b (omega arith) q,
    λ e lt. Ensures-bind _ (args-Uses abi_regs args 0 d h b q e lt) λ e₁ w.
        Ensures-if (ltb 4 (length args)) (λ _. fails)
          (λ _. succeeds (record { sp_eq = w.sp_eq; max_le = w.max_le; max_ge = w.max_ge })),
  )

module _ (values : List ValueNode) (layout : ILayoutProvider) (ordered : IsOrdered values) where
  pub value_holds :
      (fuel fuel' v d : ℕ)
      → v < u32_mod
      → temp_depth values fuel v ≡ ok d
      → (d ≤ v) × UsesAtMost d (emit_value values layout fuel' v)
  unfolding temp_depth emit_value
  value_holds zero fuel' v d lv q = absurd (cc)
  value_holds (suc fuel) zero v d lv q =
      let (n, at, q') = >>=-eq-ok (elem_at values v) _ q in
      let below : Below v n.kind =
        OrderedFrom-Below 0 values v n ordered (elem_at-eq-some values v n at) v (omega arith) in
      let (le, _) =
        node_holds values layout (temp_depth values fuel) (emit_value values layout zero) v n.kind d
          (λ a da la qa. value_holds fuel zero a da (omega arith) qa) below lv q' in
      (le, λ e lt. fails)
  value_holds (suc fuel) (suc fuel') v d lv q =
      let (n, at, q') = >>=-eq-ok (elem_at values v) _ q in
      let below : Below v n.kind =
        OrderedFrom-Below 0 values v n ordered (elem_at-eq-some values v n at) v (omega arith) in
      let (le, u) =
        node_holds values layout (temp_depth values fuel) (emit_value values layout fuel') v n.kind
          d (λ a da la qa. value_holds fuel fuel' a da (omega arith) qa) below lv q' in
      (le, λ e lt. rw at (u e lt))
