-- ===== src/Parser/ExprSafe.antt =====
-- Rane_resolver.cpp, `struct Parser`: the expression functions stay inside the token vector and end, by
-- one induction on the fuel for all five.
use rane_processing_language.Base.{
  ℕ, zero, suc, ◌+◌, ◌-◌, ◌*◌, ◌≤◌, ◌<◌, ◌≡◌, refl, arith, Bool, true, false, some, Option-cases,
  inl, inr, ◌==◌, if◌then◌else◌, length,
}
use rane_processing_language.Lexer as L
use rane_processing_language.Lexer.{TokKind, Token}
use rane_processing_language.Syntax.{Expr, Exprs, no_args}
use rane_processing_language.Syntax as S
use rane_processing_language.Parser.{
  Parser, pure, kind_code, is, unhandled_operator, invalid_int, expected_expression,
}
use rane_processing_language.Parser.Expressions.{
  infix_prec, binop_of, binds, is_prefix_op, expr_fuel, parse_expr, binary_node, int_primary,
  string_primary, parse_prefix, parse_postfix, parse_args, parse_expr_bp, parse_infix,
}
use rane_processing_language.Parser.Safe.{
  Safe, value, At, At-le, At-pos, Safe-bind, Safe-if, Safe-perr, Safe-cur, Safe-le, Leaves,
  take-Safe, expect-Safe, last_token-Safe, hdr-Safe, int_value-Safe, skip_newlines-Safe, head,
}

-- The five functions with enough fuel: each bound is on the tokens that are left.
record WithFuel (f : ℕ) : Type 0 where
  prefix_ok :
      (m : ℕ) {b : Bool} {s : Parser}
      → 3 * m + 1 ≤ f
      → At b m s
      → Safe (Leaves true (m - 1)) (parse_prefix f s)
  postfix_ok :
      (m : ℕ) {s : Parser} (base : Expr) (first : Token)
      → 3 * m + 1 ≤ f
      → At true m s
      → Safe (Leaves true m) (parse_postfix f base first s)
  args_ok :
      (m : ℕ) {b : Bool} {s : Parser}
      → 3 * m + 3 ≤ f
      → At b m s
      → Safe (Leaves true (m - 1)) (parse_args f s)
  expr_ok :
      (m : ℕ) {b : Bool} {s : Parser} (min_bp : ℕ)
      → 3 * m + 2 ≤ f
      → At b m s
      → Safe (Leaves true (m - 1)) (parse_expr_bp f min_bp s)
  infix_ok :
      (m : ℕ) {s : Parser} (min_bp : ℕ) (first : Token) (lhs : Expr)
      → 3 * m + 1 ≤ f
      → At true m s
      → Safe (Leaves true m) (parse_infix f min_bp first lhs s)

int_primary-Safe :
    (m : ℕ) {b : Bool} {s : Parser} {t : Token}
    → At b m s
    → head s.rest ≡ some t
    → is L.eof t ≡ false
    → Safe (Leaves true (m - 1)) (int_primary s)
unfolding int_primary
int_primary-Safe m a h e = Safe-bind _ (take-Safe a h e) λ t s1 a1.
    Safe-bind _ (int_value-Safe invalid_int t refl a1)
      λ v s2 a2. Safe-bind _ (hdr-Safe _ _ _ _ a2) λ h s3 a3. value a3

string_primary-Safe :
    (m : ℕ) {b : Bool} {s : Parser} {t : Token}
    → At b m s
    → head s.rest ≡ some t
    → is L.eof t ≡ false
    → Safe (Leaves true (m - 1)) (string_primary s)
unfolding string_primary
string_primary-Safe m a h e =
    Safe-bind _ (take-Safe a h e) λ t s1 a1. Safe-bind _ (hdr-Safe _ _ _ _ a1) λ h s2 a2. value a2

binary_node-Safe :
    (m : ℕ) {s : Parser} (first op : Token) (lhs rhs : Expr)
    → At true m s
    → Safe (Leaves true m) (binary_node first op lhs rhs s)
unfolding binary_node
binary_node-Safe m first op lhs rhs a = Safe-bind _ (last_token-Safe a) λ last s1 a1.
    elim (Option-cases (binop_of op.kind)) [
      | inl z ↦ rw z (
          Safe-bind _ (Safe-perr {B = S.BinOp} {Q = λ _ _. ⊥} unhandled_operator refl a1)
            λ _ _ x. absurd x)
      | inr (v, z) ↦ rw z (Safe-bind _ (hdr-Safe _ _ _ _ a1) λ h s2 a2. value a2)
    ]

-- The end of the file is no operator.
operator_kind :
    {r : ℕ} (min_bp : ℕ) (k : TokKind)
    → binds min_bp (infix_prec k) ≡ some r
    → (kind_code k == 0) ≡ false
unfolding infix_prec
operator_kind min_bp L.eof q = absurd (cc q)
operator_kind min_bp _ q = refl

module _ (f : ℕ) (ih : WithFuel f) where
  step_prefix :
      (m : ℕ) {b : Bool} {s : Parser}
      → 3 * m + 1 ≤ suc f
      → At b m s
      → Safe (Leaves true (m - 1)) (parse_prefix (suc f) s)
  unfolding parse_prefix
  step_prefix m {b} {s} le a =
      let pos : 0 < m = At-pos m a in
      Safe-bind _ (skip_newlines-Safe a) λ _ s1 a1. Safe-cur _ a1 λ first h.
        Safe-if (is_prefix_op first) _ _ s1
          (λ q. Safe-bind _ (take-Safe a1 h (ground (arith, q))) λ _ s2 a2.
            Safe-bind _ (ih.expr_ok (m - 1) 80 (omega (arith, le, pos)) a2) λ rhs s3 a3.
              Safe-bind _ (last_token-Safe a3) λ last s4 a4.
                Safe-bind _ (hdr-Safe _ _ _ _ a4) λ _ s5 a5. value (At-le _ _ (omega arith) a5))
          λ _.
            Safe-if (is L.int_lit first) _ _ s1 (λ q. int_primary-Safe m a1 h (ground (arith, q)))
              λ _.
                Safe-if (is L.string_lit first) _ _ s1
                  (λ q. string_primary-Safe m a1 h (ground (arith, q)))
                  λ _.
                    Safe-if (is L.ident first) _ _ s1
                      (λ q. Safe-bind _ (take-Safe a1 h (ground (arith, q))) λ t s2 a2.
                        Safe-bind _ (hdr-Safe _ _ _ _ a2)
                          λ _ s3 a3. ih.postfix_ok (m - 1) _ first (omega (arith, le, pos)) a3)
                      λ _.
                        Safe-if (is L.l_paren first) _ _ s1
                          (λ q. Safe-bind _ (take-Safe a1 h (ground (arith, q))) λ lp s2 a2.
                            Safe-bind _ (ih.expr_ok (m - 1) 0 (omega (arith, le, pos)) a2)
                              λ e s3 a3. Safe-bind _ (expect-Safe L.r_paren refl a3) λ rp s4 a4.
                                Safe-le (m - 1 - 1 - 1) (m - 1) (omega arith)
                                  (ih.postfix_ok (m - 1 - 1 - 1) _ lp (omega (arith, le, pos)) a4))
                          λ _. Safe-perr expected_expression refl a1

  step_postfix :
      (m : ℕ) {s : Parser} (base : Expr) (first : Token)
      → 3 * m + 1 ≤ suc f
      → At true m s
      → Safe (Leaves true m) (parse_postfix (suc f) base first s)
  unfolding parse_postfix
  step_postfix m {s} base first le a =
      let pos : 0 < m = At-pos m a in
      Safe-cur _ a λ t h.
        Safe-if (is L.dot t) _ _ s
          (λ q. Safe-bind _ (take-Safe a h (ground (arith, q))) λ _ s1 a1.
            Safe-bind _ (expect-Safe L.ident refl a1) λ mem s2 a2.
              Safe-bind _ (hdr-Safe _ _ _ _ a2) λ _ s3 a3.
                Safe-le (m - 1 - 1) m (omega arith)
                  (ih.postfix_ok (m - 1 - 1) _ first (omega (arith, le, pos)) a3))
          λ _.
            Safe-if (is L.l_paren t) _ _ s
              (λ q. Safe-bind _ (take-Safe a h (ground (arith, q))) λ _ s1 a1. Safe-cur _ a1 λ u _.
                Safe-bind _ (arguments u a1 (omega (arith, le, pos))) λ args s2 a2.
                  Safe-bind _ (expect-Safe L.r_paren refl a2) λ rp s3 a3.
                    Safe-bind _ (hdr-Safe _ _ _ _ a3) λ _ s4 a4.
                      Safe-le (m - 1 - 1) m (omega arith)
                        (ih.postfix_ok (m - 1 - 1) _ first (omega (arith, le, pos)) a4))
              λ _. value a
    where
      arguments :
          {n : ℕ} {s1 : Parser} (u : Token)
          → At true n s1
          → 3 * n + 3 ≤ f
          → Safe (Leaves true n) ((if is L.r_paren u then pure no_args else parse_args f) s1)
      arguments {n} {s1} u b fuel =
          Safe-if (is L.r_paren u) _ _ s1 (λ _. value b)
            λ _. Safe-le (n - 1) n (omega arith) (ih.args_ok n fuel b)

  step_args :
      (m : ℕ) {b : Bool} {s : Parser}
      → 3 * m + 3 ≤ suc f
      → At b m s
      → Safe (Leaves true (m - 1)) (parse_args (suc f) s)
  unfolding parse_args
  step_args m {b} {s} le a =
      let pos : 0 < m = At-pos m a in
      Safe-bind _ (ih.expr_ok m 0 (omega (arith, le)) a) λ x s1 a1. Safe-cur _ a1 λ t h.
        Safe-if (is L.comma t) _ _ s1
          (λ q. Safe-bind _ (take-Safe a1 h (ground (arith, q))) λ _ s2 a2.
            Safe-bind _ (ih.args_ok (m - 1 - 1) (omega (arith, le, pos)) a2)
              λ rest s3 a3. value (At-le _ _ (omega arith) a3))
          λ _. value a1

  step_expr :
      (m : ℕ) {b : Bool} {s : Parser} (min_bp : ℕ)
      → 3 * m + 2 ≤ suc f
      → At b m s
      → Safe (Leaves true (m - 1)) (parse_expr_bp (suc f) min_bp s)
  unfolding parse_expr_bp
  step_expr m min_bp le a =
      let pos : 0 < m = At-pos m a in
      Safe-bind _ (ih.prefix_ok m (omega (arith, le)) a) λ lhs s1 a1.
        Safe-bind _ (last_token-Safe a1)
          λ first s2 a2. ih.infix_ok (m - 1) min_bp first lhs (omega (arith, le, pos)) a2

  step_infix :
      (m : ℕ) {s : Parser} (min_bp : ℕ) (first : Token) (lhs : Expr)
      → 3 * m + 1 ≤ suc f
      → At true m s
      → Safe (Leaves true m) (parse_infix (suc f) min_bp first lhs s)
  unfolding parse_infix
  step_infix m {s} min_bp first lhs le a =
      let pos : 0 < m = At-pos m a in
      Safe-bind _ (skip_newlines-Safe a) λ _ s1 a1. Safe-cur _ a1 λ t h.
        elim (Option-cases (binds min_bp (infix_prec t.kind))) [
          | inl z ↦ rw z (value a1)
          | inr (rbp, z) ↦ rw z (
              Safe-bind _ (take-Safe a1 h (operator_kind min_bp t.kind z)) λ _ s2 a2.
                Safe-bind _ (ih.expr_ok (m - 1) rbp (omega (arith, le, pos)) a2) λ rhs s3 a3.
                  Safe-bind _ (binary_node-Safe (m - 1 - 1) first t lhs rhs a3) λ node s4 a4.
                    Safe-le (m - 1 - 1) m (omega arith)
                      (ih.infix_ok (m - 1 - 1) min_bp first node (omega (arith, le, pos)) a4))
        ]

  step : WithFuel (suc f)
  step = record {
    prefix_ok = step_prefix;
    postfix_ok = step_postfix;
    args_ok = step_args;
    expr_ok = step_expr;
    infix_ok = step_infix;
  }

with_fuel : (f : ℕ) → WithFuel f
with_fuel zero = record {
  prefix_ok = λ m le a. absurd (omega (arith, le));
  postfix_ok = λ m base first le a. absurd (omega (arith, le));
  args_ok = λ m le a. absurd (omega (arith, le));
  expr_ok = λ m min_bp le a. absurd (omega (arith, le));
  infix_ok = λ m min_bp first lhs le a. absurd (omega (arith, le));
}
with_fuel (suc f) = step f (with_fuel f)

-- An expression takes at least one token, and its fuel is enough for any input.
pub parse_expr-Safe :
    (m min_bp : ℕ) {b : Bool} {s : Parser}
    → At b m s
    → Safe (Leaves true (m - 1)) (parse_expr min_bp s)
parse_expr-Safe m min_bp {s} a = Safe-le (length s.rest - 1) (m - 1) (omega (arith, a.le)) (
    (with_fuel (expr_fuel s)).expr_ok (length s.rest) min_bp (omega arith)
      (record { ends = a.ends; le = omega arith; has_prev = a.has_prev }))
