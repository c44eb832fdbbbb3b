-- ===== src/Emitter/TempCount.antt =====
-- The count of temps that sizes the frame: enough for every value, and one short for an assignment
-- to an array element.
use mathlib.Core.Path.{subst}
use rane_processing_language.Base.{
  ℕ, suc, ◌+◌, ◌%◌, ◌≤◌, ◌<◌, ◌≡◌, refl, arith, List, ltb, if◌then◌else◌,
}
use rane_processing_language.Base.Bytes.{u32_mod}
use rane_processing_language.Base.Result.{
  ok, Ensures, succeeds, fails, Ensures-bind, Ensures-from, Ensures-if, Ensures-map, Ensures-ok,
  >>=-eq-ok,
}
use rane_processing_language.Plan.{ValueId, ValueKind, ValueNode, ActionKind}
use rane_processing_language.Emitter.{
  ILayoutProvider, Emitter, temp_alloc, temp_free, elem_at, elem_at-eq-some,
}
use rane_processing_language.Emitter.Temps.{
  larger, pair_depth, node_depth, temp_depth, action_slots,
}
use rane_processing_language.Emitter.Value.{Emit, emit_value, spill, reload, scale_rax, type_of}
use rane_processing_language.Emitter.Action.{store_to, store_index, emit_action}
use rane_processing_language.Emitter.TempUse.{
  IsOrdered, OrderedFrom-Below, Below, Uses, UsesAtMost, value_holds,
}

module _ (values : List ValueNode) (layout : ILayoutProvider) where
  -- In an arena that lists children before parents, let `d` be the temps that `temp_depth` counts
  -- for a value. Emitting the value, from a state where `d` more temps do not wrap, gives back
  -- every temp it took, never has more than `d` in use above those in use before, and does not
  -- lower the recorded maximum.
  pub emit_value-Uses :
      (fuel fuel' v d : ℕ) (e e' : Emitter)
      → IsOrdered values
      → v < u32_mod
      → temp_depth values fuel v ≡ ok d
      → e.temp_sp + d < u32_mod
      → emit_value values layout fuel' v e ≡ ok e'
      → Uses d e e'
  emit_value-Uses fuel fuel' v d e e' ordered lv q lt run =
      Ensures-ok {P = Uses d e} ((value_holds values layout ordered fuel fuel' v d lv q).1 e lt) run

  -- From here on the parts of an assignment to an element are values that need no temp.
  two_temps :
      (sp sp₁ sp₂ m m₁ m₂ m₃ : ℕ)
      → sp + 2 < u32_mod
      → sp₁ ≡ sp + 1
      → sp₂ ≡ (sp₁ + 1) % u32_mod
      → m₂ ≡ (if ltb m₁ sp₂ then sp₂ else m₁)
      → m₂ ≤ m₃
      → sp + 2 ≤ m₃
  two_temps sp sp₁ sp₂ m m₁ m₂ m₃ lt a b c d = ground arith

  -- A step that only lowers the stack of temps.
  abbrev KeepsMax : Emitter → Emitter → Type 0
  KeepsMax e e' = e.temp_max ≤ e'.temp_max

  temp_free-KeepsMax : (e : Emitter) → Ensures (λ (e' : Emitter). KeepsMax e e') (temp_free e)
  unfolding temp_free
  temp_free-KeepsMax e = Ensures-if (ltb 0 e.temp_sp) (λ _. succeeds (omega arith)) (λ _. fails)

  store_index_two :
      (rec : ValueId → Emit) (base index : ValueId) (e : Emitter)
      → UsesAtMost 0 (rec base)
      → UsesAtMost 0 (rec index)
      → e.temp_sp + 2 < u32_mod
      → Ensures
          (λ (e' : Emitter). e.temp_sp + 2 ≤ e'.temp_max)
          (store_index values layout rec base index e)
  unfolding store_index spill reload temp_alloc
  store_index_two rec base index e hb hi lt = Ensures-bind _ (hb _ (omega arith)) λ e₂ u.
      Ensures-bind _ (hi _ (omega (arith, u.sp_eq))) λ e₄ w.
        let two : e.temp_sp + 2 ≤ e₄.temp_max =
          two_temps e.temp_sp e₂.temp_sp _ e.temp_max e₂.temp_max _ e₄.temp_max lt
            (omega (arith, u.sp_eq)) refl refl w.max_ge in
        Ensures-bind _ (temp_free-KeepsMax _) λ e₅ k.
          Ensures-from (type_of values layout base) _ λ t _.
            Ensures-from (scale_rax (layout.element_size t)) _
              λ scaled _. Ensures-bind _ (temp_free-KeepsMax _) λ e₆ k'. succeeds (omega arith)

  -- The counts of base and index, from a count of 1 for the whole assignment.
  module _ (ordered : IsOrdered values) (fuel target value base index : ℕ) (n : ValueNode) where
    operands_zero :
        elem_at values target ≡ ok n
        → n.kind ≡ ValueKind.index_ref base index
        → target < u32_mod
        → action_slots values (suc fuel) 0 (ActionKind.assign target value) ≡ ok 1
        → (dv : ℕ) × (temp_depth values (suc fuel) value ≡ ok dv)
          × (dv ≤ 1)
          × (temp_depth values fuel base ≡ ok 0)
          × (temp_depth values fuel index ≡ ok 0)
          × (base < target)
          × (index < target)
    unfolding action_slots temp_depth node_depth
    operands_zero at kind lt q =
        let below : Below target (ValueKind.index_ref base index) = subst (Below target) kind (
          OrderedFrom-Below 0 values target n ordered (elem_at-eq-some values target n at) target
            (omega arith)) in
        let (dv, qv, q₁) = >>=-eq-ok (temp_depth values (suc fuel) value) _ q in
        let (dt, qt, q₂) = >>=-eq-ok (temp_depth values (suc fuel) target) _ q₁ in
        let qt' : pair_depth (temp_depth values fuel) base index ≡ ok dt = rw (at, kind) at qt in
        let (da, qa, q₃) = >>=-eq-ok (temp_depth values fuel base) _ qt' in
        let (db, qb, q₄) = >>=-eq-ok (temp_depth values fuel index) _ q₃ in
        let one : larger dt (larger dv 0) ≡ 1 = cc q₂ in
        let sum : (larger da db + 1) % u32_mod ≡ dt = cc q₄ in
        let ha : da ≤ base =
          (value_holds values layout ordered fuel fuel base da (omega arith) qa).0 in
        let hb : db ≤ index =
          (value_holds values layout ordered fuel fuel index db (omega arith) qb).0 in
        let zeros : (da ≡ 0) × (db ≡ 0) = ground arith in
        (
          dv,
          qv,
          ground arith,
          subst (λ (t : ℕ). temp_depth values fuel base ≡ ok t) zeros.0 qa,
          subst (λ (t : ℕ). temp_depth values fuel index ≡ ok t) zeros.1 qb,
          below.0,
          below.1,
        )

  -- In an arena that lists children before parents, take an assignment to an array element that
  -- the frame computation counts one temp for. Emitting it, where two more temps do not wrap, has
  -- two more temps in use at some point than before: one more than the frame has room for.
  pub emit_action-undercounted :
      (fuel fuel' target value base index : ℕ) (n : ValueNode) (e e' : Emitter)
      → IsOrdered values
      → elem_at values target ≡ ok n
      → n.kind ≡ ValueKind.index_ref base index
      → target < u32_mod
      → value < u32_mod
      → e.temp_sp + 2 < u32_mod
      → action_slots values (suc fuel) 0 (ActionKind.assign target value) ≡ ok 1
      → emit_action values layout fuel' (ActionKind.assign target value) e ≡ ok e'
      → e.temp_sp + 2 ≤ e'.temp_max
  unfolding emit_action store_to
  emit_action-undercounted fuel fuel' target value base index n e e' ordered at kind lt lv room q
        run =
      let (dv, qv, le, zb, zi, lb, li) =
        operands_zero ordered fuel target value base index n at kind lt q in
      let stored : (e₁ : Emitter)
          → Uses dv e e₁
          → Ensures (λ (x : Emitter). e.temp_sp + 2 ≤ x.temp_max)
              (store_index values layout (emit_value values layout fuel') base index e₁) =
        λ e₁ u.
          Ensures-map
            (store_index_two (emit_value values layout fuel') base index e₁
              (value_holds values layout ordered fuel fuel' base 0 (omega arith) zb).1
              (value_holds values layout ordered fuel fuel' index 0 (omega arith) zi).1
              (omega (arith, u.sp_eq)))
            (λ x two. omega (arith, two, u.sp_eq)) in
      Ensures-ok {P = λ (x : Emitter). e.temp_sp + 2 ≤ x.temp_max}
        (Ensures-bind _
          ((value_holds values layout ordered (suc fuel) fuel' value dv lv qv).1 e (omega arith))
          λ e₁ u. rw (at, kind) (stored e₁ u))
        run
