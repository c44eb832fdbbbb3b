-- ===== src/Parser/BranchSafe.antt =====
-- Rane_resolver.cpp, `struct Parser`: the branches of `parse_stmt` and the arms of a match stay
-- inside the token vector, when the parsers they are given do.
use rane_processing_language.Base.{
  ℕ, ◌-◌, ◌<◌, ◌≡◌, refl, arith, Bool, true, false, List, Option, some, ◌||◌,
}
use rane_processing_language.Lexer.{TokKind, Token}
use rane_processing_language.Lexer as L
use rane_processing_language.Syntax.{BlockPtr, Stmt, SwitchCase, Block}
use rane_processing_language.Parser.{Parser, Parse, is, fresh_id, uncaught}
use rane_processing_language.Parser.Blocks.{
  parse_else, parse_if, parse_match, parse_lock, parse_with, case_body, parse_case, inline_stmt,
  parse_default,
}
use rane_processing_language.Parser.Safe.{
  Safe, value, At, At-le, At-pos, Safe-bind, Safe-if, Safe-cur, Safe-le, Leaves, take-Safe,
  expect-Safe, last_token-Safe, hdr-Safe, skip_newlines-Safe, fresh_id-Safe, new_block-Safe,
  int_value-Safe, head,
}
use rane_processing_language.Parser.ExprSafe.{parse_expr-Safe}
use rane_processing_language.Parser.StmtSafe.{
  ident_at-Safe, call_from-Safe, take_newline-Safe, take_as-Safe,
}

-- A parser that is safe wherever fewer than `m` tokens are left, and takes `k` at least.
pub record SafeBelow {A : Type 0} (m k : ℕ) (parse : Parse A) : Type 0 where
  pub run : (n : ℕ) {s : Parser} → n < m → At true n s → Safe (Leaves true (n - k)) (parse s)

-- The branches, for a block parser that is safe below `m` tokens and takes one at least.
module _ (m : ℕ) (block : Parse Block) (ok : SafeBelow m 1 block) where
  pub parse_else-Safe :
      {s : Parser} (n : ℕ) (els : Token)
      → n < m
      → At true n s
      → head s.rest ≡ some els
      → Safe (Leaves true n) (parse_else block els s)
  unfolding parse_else
  parse_else-Safe {s} n els lt a h =
      let pos : 0 < n = At-pos n a in
      Safe-if (is L.kw_else els) _ _ s
        (λ q. Safe-bind _ (take-Safe a h (ground (arith, q))) λ _ s1 a1.
          Safe-bind _ (ok.run (n - 1) (omega (arith, lt)) a1) λ body s2 a2.
            Safe-bind _ (new_block-Safe els body a2) λ b s3 a3. value (At-le _ _ (omega arith) a3))
        λ _. value a

  pub parse_if-Safe :
      {b : Bool} {s : Parser} (first : Token)
      → At b m s
      → head s.rest ≡ some first
      → is L.eof first ≡ false
      → Safe (Leaves true (m - 1)) (parse_if block first s)
  unfolding parse_if
  parse_if-Safe first a h e =
      let pos : 0 < m = At-pos m a in
      Safe-bind _ (take-Safe a h e) λ _ s1 a1.
        Safe-bind _ (parse_expr-Safe (m - 1) 0 a1) λ cond s2 a2.
          Safe-bind _ (ok.run (m - 1 - 1) (omega (arith, pos)) a2) λ then_body s3 a3.
            Safe-bind _ (new_block-Safe first then_body a3) λ then_blk s4 a4.
              Safe-bind _ (skip_newlines-Safe a4) λ _ s5 a5. Safe-cur _ a5 λ els h5.
                Safe-bind _ (parse_else-Safe (m - 1 - 1 - 1) els (omega (arith, pos)) a5 h5)
                  λ else_blk s6 a6. Safe-bind _ (last_token-Safe a6) λ last s7 a7.
                    Safe-bind _ (hdr-Safe _ _ _ _ a7) λ _ s8 a8. value (At-le _ _ (omega arith) a8)

  pub parse_lock-Safe :
      {s : Parser} (n : ℕ) (first : Token)
      → n < m
      → At true n s
      → Safe (Leaves true n) (parse_lock block first s)
  unfolding parse_lock
  parse_lock-Safe n first lt a = Safe-bind _ (parse_expr-Safe n 0 a) λ e s1 a1.
      Safe-bind _ (ok.run (n - 1) (omega (arith, lt)) a1) λ body s2 a2.
        Safe-bind _ (new_block-Safe first body a2) λ _ s3 a3.
          Safe-bind _ (ident_at-Safe _ first _ a3) λ callee s4 a4.
            Safe-bind _ (ident_at-Safe _ first _ a4) λ marker s5 a5.
              Safe-le (n - 1 - 1) n (omega arith) (call_from-Safe _ first callee _ a5)

  pub parse_with-Safe :
      {s : Parser} (n : ℕ) (first : Token)
      → n < m
      → At true n s
      → Safe (Leaves true n) (parse_with block first s)
  unfolding parse_with
  parse_with-Safe n first lt a = Safe-bind _ (parse_expr-Safe n 0 a) λ e s1 a1.
      Safe-bind _ (take_as-Safe (n - 1) a1) λ _ s2 a2.
        Safe-bind _ (expect-Safe L.ident refl a2) λ name s3 a3.
          Safe-bind _ (ok.run (n - 1 - 1 - 1) (omega (arith, lt)) a3) λ body s4 a4.
            Safe-bind _ (new_block-Safe first body a4) λ _ s5 a5.
              Safe-bind _ (ident_at-Safe _ first _ a5) λ callee s6 a6.
                Safe-bind _ (ident_at-Safe _ name _ a6) λ bind_name s7 a7.
                  Safe-bind _ (ident_at-Safe _ first _ a7) λ marker s8 a8.
                    Safe-le (n - 1 - 1 - 1 - 1) n (omega arith) (call_from-Safe _ first callee _ a8)

module _ (m : ℕ) (arms_of : Parse (List SwitchCase × Option BlockPtr))
    (ok : SafeBelow m 0 arms_of) where
  pub parse_match-Safe :
      {b : Bool} {s : Parser} (first : Token)
      → At b m s
      → head s.rest ≡ some first
      → is L.eof first ≡ false
      → Safe (Leaves true (m - 1)) (parse_match arms_of first s)
  unfolding parse_match
  parse_match-Safe first a h e =
      let pos : 0 < m = At-pos m a in
      Safe-bind _ (take-Safe a h e) λ _ s1 a1.
        Safe-bind _ (parse_expr-Safe (m - 1) 0 a1) λ scrutinee s2 a2.
          Safe-bind _ (take_newline-Safe _ a2) λ _ s3 a3.
            Safe-bind _ (expect-Safe L.indent refl a3) λ _ s4 a4.
              Safe-bind _ (ok.run (m - 1 - 1 - 1) (omega (arith, pos)) a4) λ arms s5 a5.
                Safe-bind _ (expect-Safe L.dedent refl a5) λ ded s6 a6.
                  Safe-bind _ (hdr-Safe _ _ _ _ a6) λ _ s7 a7. value (At-le _ _ (omega arith) a7)

-- A fresh id leaves the tokens as they are.
fresh_id-At :
    {b : Bool} {n : ℕ} {s : Parser} {t : Token}
    → At b n s
    → head s.rest ≡ some t
    → Safe (λ _ s1. At b n s1 × (head s1.rest ≡ some t)) (fresh_id s)
unfolding fresh_id
fresh_id-At a h = value (record { ends = a.ends; le = a.le; has_prev = a.has_prev }, h)

-- The arms, for a statement parser that is safe below `m` tokens.
module _ (m : ℕ) (stmt : Parse Stmt) (ok : SafeBelow m 1 stmt) where
  case_body-Safe :
      {s : Parser} (n : ℕ) (colon : Token)
      → n < m
      → At true n s
      → Safe (Leaves true n) (case_body stmt colon s)
  unfolding case_body
  case_body-Safe n colon lt a = Safe-cur _ a λ t h. Safe-bind _ (fresh_id-At a h) λ id s1 a1.
      Safe-if (is L.newline t) _ _ s1
        (λ q.
          Safe-bind _ (take-Safe (a1.0) (a1.1) (ground (arith, q)))
            λ _ s2 a2. value (At-le _ _ (omega arith) a2))
        λ _. Safe-bind _ (ok.run n lt (a1.0)) λ st s2 a2.
          Safe-bind _ (last_token-Safe a2) λ last s3 a3. value (At-le _ _ (omega arith) a3)

  pub parse_case-Safe :
      {b : Bool} {s : Parser} (k : Token)
      → At b m s
      → head s.rest ≡ some k
      → is L.eof k ≡ false
      → Safe (Leaves true (m - 1)) (parse_case stmt k s)
  unfolding parse_case
  parse_case-Safe k a h e =
      let pos : 0 < m = At-pos m a in
      Safe-bind _ (take-Safe a h e) λ _ s1 a1.
        Safe-bind _ (expect-Safe L.int_lit refl a1) λ lit s2 a2.
          Safe-bind _ (int_value-Safe uncaught lit refl a2) λ v s3 a3.
            Safe-bind _ (expect-Safe L.colon refl a3) λ colon s4 a4.
              Safe-bind _ (case_body-Safe (m - 1 - 1 - 1) colon (omega (arith, pos)) a4)
                λ body s5 a5.
                  Safe-bind _ (new_block-Safe k body a5)
                    λ b s6 a6. value (At-le _ _ (omega arith) a6)

  inline_stmt-Safe :
      {s : Parser} (n : ℕ) (t : Token)
      → n < m
      → At true n s
      → Safe (Leaves true n) (inline_stmt stmt t s)
  unfolding inline_stmt
  inline_stmt-Safe {s} n t lt a =
      Safe-if (is L.newline t || is L.dedent t) _ _ s (λ _. value a)
        λ _. Safe-bind _ (ok.run n lt a) λ st s1 a1. value (At-le _ _ (omega arith) a1)

  pub parse_default-Safe :
      {b : Bool} {s : Parser} (k first : Token)
      → At b m s
      → head s.rest ≡ some k
      → is L.eof k ≡ false
      → Safe (Leaves true (m - 1)) (parse_default stmt first s)
  unfolding parse_default
  parse_default-Safe k first a h e =
      let pos : 0 < m = At-pos m a in
      Safe-bind _ (take-Safe a h e) λ _ s1 a1. Safe-bind _ (expect-Safe L.colon refl a1) λ _ s2 a2.
        Safe-bind _ (fresh_id-Safe a2) λ id s3 a3. Safe-cur _ a3 λ t _.
          Safe-bind _ (inline_stmt-Safe (m - 1 - 1) t (omega (arith, pos)) a3) λ stmts s4 a4.
            Safe-bind _ (last_token-Safe a4)
              λ last s5 a5. Safe-le (m - 1 - 1) (m - 1) (omega arith) (new_block-Safe first _ a5)
