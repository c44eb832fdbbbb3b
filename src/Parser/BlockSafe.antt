-- ===== src/Parser/BlockSafe.antt =====
-- Rane_resolver.cpp, `struct Parser`: statements and blocks stay inside the token vector and end, by one
-- induction on the fuel for the four functions.
use rane_processing_language.Base.{
  ℕ, zero, suc, ◌+◌, ◌-◌, ◌*◌, ◌≤◌, ◌<◌, refl, arith, Bool, true, Option, none, some, ◌||◌,
}
use rane_processing_language.Lexer.{TokKind, Token}
use rane_processing_language.Lexer as L
use rane_processing_language.Syntax.{BlockPtr}
use rane_processing_language.Parser.{Parser, is, bad_arm, unsupported_statement}
use rane_processing_language.Parser.Blocks.{parse_stmt, parse_block_colon, parse_stmts, parse_arms}
use rane_processing_language.Parser.Safe.{
  Safe, value, At, At-le, At-pos, Safe-bind, Safe-if, Safe-perr, Safe-cur, Safe-le, Leaves,
  take-Safe, expect-Safe, skip_newlines-Safe, fresh_id-Safe,
}
use rane_processing_language.Parser.BranchSafe.{
  SafeBelow, parse_if-Safe, parse_match-Safe, parse_lock-Safe, parse_with-Safe, parse_case-Safe,
  parse_default-Safe,
}
use rane_processing_language.Parser.StmtSafe.{
  expr_stmt_from-Safe, parse_sugar_call-Safe, parse_return-Safe, parse_let-Safe, parse_defer-Safe,
  take_newline-Safe,
}

-- The four functions with enough fuel: each bound is on the tokens that are left.
pub record WithFuel (f : ℕ) : Type 0 where
  stmt_ok :
      (m : ℕ) {b : Bool} {s : Parser}
      → 3 * m + 1 ≤ f
      → At b m s
      → Safe (Leaves true (m - 1)) (parse_stmt f s)
  pub block_ok :
      (m : ℕ) {b : Bool} {s : Parser}
      → 3 * m + 1 ≤ f
      → At b m s
      → Safe (Leaves true (m - 1)) (parse_block_colon f s)
  stmts_ok :
      (m : ℕ) {s : Parser} → 3 * m + 2 ≤ f → At true m s → Safe (Leaves true m) (parse_stmts f s)
  arms_ok :
      (m : ℕ) {s : Parser} (first : Token) (d : Option BlockPtr)
      → 3 * m + 1 ≤ f
      → At true m s
      → Safe (Leaves true m) (parse_arms f first d s)

module _ (f : ℕ) (ih : WithFuel f) where
  step_block :
      (m : ℕ) {b : Bool} {s : Parser}
      → 3 * m + 1 ≤ suc f
      → At b m s
      → Safe (Leaves true (m - 1)) (parse_block_colon (suc f) s)
  unfolding parse_block_colon
  step_block m le a =
      let pos : 0 < m = At-pos m a in
      Safe-bind _ (expect-Safe L.colon refl a) λ first s1 a1.
        Safe-bind _ (take_newline-Safe (m - 1) a1) λ _ s2 a2.
          Safe-bind _ (expect-Safe L.indent refl a2) λ _ s3 a3.
            Safe-bind _ (fresh_id-Safe a3) λ id s4 a4.
              Safe-bind _ (ih.stmts_ok (m - 1 - 1) (omega (arith, le, pos)) a4) λ stmts s5 a5.
                Safe-bind _ (expect-Safe L.dedent refl a5)
                  λ ded s6 a6. value (At-le _ _ (omega arith) a6)

  step_stmts :
      (m : ℕ) {s : Parser}
      → 3 * m + 2 ≤ suc f
      → At true m s
      → Safe (Leaves true m) (parse_stmts (suc f) s)
  unfolding parse_stmts
  step_stmts m {s} le a =
      let pos : 0 < m = At-pos m a in
      Safe-cur _ a λ t h.
        Safe-if (is L.dedent t || is L.eof t) _ _ s (λ _. value a)
          λ _.
            Safe-if (is L.newline t) _ _ s
              (λ q. Safe-bind _ (take-Safe a h (ground (arith, q))) λ _ s1 a1.
                Safe-le (m - 1) m (omega arith) (ih.stmts_ok (m - 1) (omega (arith, le, pos)) a1))
              λ _. Safe-bind _ (ih.stmt_ok m (omega (arith, le)) a) λ st s1 a1.
                Safe-bind _ (skip_newlines-Safe a1) λ _ s2 a2.
                  Safe-bind _ (ih.stmts_ok (m - 1) (omega (arith, le, pos)) a2)
                    λ rest s3 a3. value (At-le _ _ (omega arith) a3)

  step_arms :
      (m : ℕ) {s : Parser} (first : Token) (d : Option BlockPtr)
      → 3 * m + 1 ≤ suc f
      → At true m s
      → Safe (Leaves true m) (parse_arms (suc f) first d s)
  unfolding parse_arms
  step_arms m {s} first d le a =
      let pos : 0 < m = At-pos m a in
      Safe-cur _ a λ k h.
        Safe-if (is L.dedent k || is L.eof k) _ _ s (λ _. value a)
          λ _.
            Safe-if (is L.newline k) _ _ s
              (λ q. Safe-bind _ (take-Safe a h (ground (arith, q))) λ _ s1 a1.
                Safe-le (m - 1) m (omega arith)
                  (ih.arms_ok (m - 1) first d (omega (arith, le, pos)) a1))
              λ _.
                Safe-if (is L.kw_case k) _ _ s
                  (λ q.
                    Safe-bind _ (parse_case-Safe m (parse_stmt f) below k a h (ground (arith, q)))
                      λ c s1 a1. Safe-bind _ (skip_newlines-Safe a1) λ _ s2 a2.
                        Safe-bind _ (ih.arms_ok (m - 1) first d (omega (arith, le, pos)) a2)
                          λ arms s3 a3. value (At-le _ _ (omega arith) a3))
                  λ _.
                    Safe-if (is L.kw_default k) _ _ s
                      (λ q.
                        Safe-bind _
                          (parse_default-Safe m (parse_stmt f) below k first a h
                            (ground (arith, q)))
                          λ b s1 a1. Safe-bind _ (skip_newlines-Safe a1) λ _ s2 a2.
                            Safe-le (m - 1) m (omega arith)
                              (ih.arms_ok (m - 1) first (some b) (omega (arith, le, pos)) a2))
                      λ _. Safe-perr bad_arm refl a
    where
      below : SafeBelow m 1 (parse_stmt f)
      below = record { run = λ n lt b. ih.stmt_ok n (omega (arith, lt, le)) b }

  step_stmt :
      (m : ℕ) {b : Bool} {s : Parser}
      → 3 * m + 1 ≤ suc f
      → At b m s
      → Safe (Leaves true (m - 1)) (parse_stmt (suc f) s)
  unfolding parse_stmt
  step_stmt m le a =
      let pos : 0 < m = At-pos m a in
      let block : SafeBelow m 1 (parse_block_colon f) = record {
        run = λ n lt b. ih.block_ok n (omega (arith, lt, le)) b;
      } in
      Safe-bind _ (skip_newlines-Safe a) λ _ s1 a1. Safe-cur _ a1 λ first h.
        Safe-if (is L.kw_return first) _ _ s1
          (λ q. parse_return-Safe m first a1 h (ground (arith, q)))
          λ _.
            Safe-if (is L.kw_let first) _ _ s1
              (λ q. parse_let-Safe m first a1 h (ground (arith, q)))
              λ _.
                Safe-if (is L.kw_if first) _ _ s1
                  (λ q. parse_if-Safe m (parse_block_colon f) block first a1 h (ground (arith, q)))
                  λ _.
                    Safe-if (is L.kw_match first) _ _ s1
                      (λ q.
                        parse_match-Safe m (parse_arms f first none)
                          (record {
                            run = λ n lt b.
                                Safe-le n (n - 0) (omega arith)
                                  (ih.arms_ok n first none (omega (arith, lt, le)) b);
                          })
                          first a1 h (ground (arith, q)))
                      λ _.
                        Safe-if (is L.kw_defer first) _ _ s1
                          (λ q. Safe-bind _ (take-Safe a1 h (ground (arith, q))) λ _ s2 a2.
                            Safe-bind _ (parse_defer-Safe (m - 1) first a2) λ e s3 a3.
                              Safe-le (m - 1 - 1) (m - 1) (omega arith)
                                (expr_stmt_from-Safe _ first e a3))
                          λ _.
                            Safe-if (is L.kw_lock first) _ _ s1
                              (λ q. Safe-bind _ (take-Safe a1 h (ground (arith, q))) λ _ s2 a2.
                                Safe-bind _
                                  (parse_lock-Safe m (parse_block_colon f) block (m - 1) first
                                    (omega (arith, pos)) a2)
                                  λ e s3 a3. expr_stmt_from-Safe _ first e a3)
                              λ _.
                                Safe-if (is L.kw_with first) _ _ s1
                                  (λ q. Safe-bind _ (take-Safe a1 h (ground (arith, q))) λ _ s2 a2.
                                    Safe-bind _
                                      (parse_with-Safe m (parse_block_colon f) block (m - 1) first
                                        (omega (arith, pos)) a2)
                                      λ e s3 a3. expr_stmt_from-Safe _ first e a3)
                                  λ _.
                                    Safe-if (is L.ident first) _ _ s1
                                      (λ q.
                                        Safe-bind _ (take-Safe a1 h (ground (arith, q)))
                                          λ ident s2 a2.
                                            Safe-bind _ (parse_sugar_call-Safe (m - 1) ident a2)
                                              λ e s3 a3. expr_stmt_from-Safe _ ident e a3)
                                      λ _. Safe-perr unsupported_statement refl a1

  step : WithFuel (suc f)
  step = record {
    stmt_ok = step_stmt;
    block_ok = step_block;
    stmts_ok = step_stmts;
    arms_ok = step_arms;
  }

pub with_fuel : (f : ℕ) → WithFuel f
with_fuel zero = record {
  stmt_ok = λ m le a. absurd (omega (arith, le));
  block_ok = λ m le a. absurd (omega (arith, le));
  stmts_ok = λ m le a. absurd (omega (arith, le));
  arms_ok = λ m first d le a. absurd (omega (arith, le));
}
with_fuel (suc f) = step f (with_fuel f)
