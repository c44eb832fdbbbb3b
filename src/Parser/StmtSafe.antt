-- ===== src/Parser/StmtSafe.antt =====
-- Rane_resolver.cpp, `struct Parser`: the statement functions that need no fuel of their own stay inside
-- the token vector, and so does the call without parentheses.
use rane_processing_language.Base.{
  ℕ, zero, suc, ◌+◌, ◌-◌, ◌≤◌, ◌<◌, ◌≡◌, refl, arith, Bool, true, false, List, some, length, ◌||◌,
  ◌&&◌,
}
use rane_processing_language.Lexer.{TokKind, Token}
use rane_processing_language.Lexer.Scan.{same_text}
use rane_processing_language.Lexer as L
use rane_processing_language.Syntax.{Expr, Exprs}
use rane_processing_language.Parser.{Parser, is, no_as}
use rane_processing_language.Parser.Statements.{
  text_as, ident_at, call_from, expr_stmt_from, ends_line, starts_stmt, parse_sugar_args,
  parse_sugar_call, parse_return, parse_let_type, parse_let, parse_defer, take_newline, take_as,
}
use rane_processing_language.Parser.Safe.{
  Safe, value, At, At-le, At-pos, Safe-bind, Safe-if, Safe-perr, Safe-cur, Safe-le, Leaves,
  take-Safe, expect-Safe, last_token-Safe, hdr-Safe, peek-Safe, skip_newlines-Safe, head,
}
use rane_processing_language.Parser.ExprSafe.{parse_expr-Safe}

pub ident_at-Safe :
    (m : ℕ) {b : Bool} {s : Parser} (t : Token) (name : List ℕ)
    → At b m s
    → Safe (Leaves b m) (ident_at t name s)
unfolding ident_at
ident_at-Safe m t name a = Safe-bind _ (hdr-Safe _ _ _ _ a) λ h s1 a1. value a1

pub call_from-Safe :
    (m : ℕ) {s : Parser} (kw : Token) (callee : Expr) (args : Exprs)
    → At true m s
    → Safe (Leaves true m) (call_from kw callee args s)
unfolding call_from
call_from-Safe m kw callee args a =
    Safe-bind _ (last_token-Safe a)
      λ last s1 a1. Safe-bind _ (hdr-Safe _ _ _ _ a1) λ h s2 a2. value a2

pub expr_stmt_from-Safe :
    (m : ℕ) {s : Parser} (first : Token) (e : Expr)
    → At true m s
    → Safe (Leaves true m) (expr_stmt_from first e s)
unfolding expr_stmt_from
expr_stmt_from-Safe m first e a =
    Safe-bind _ (last_token-Safe a)
      λ last s1 a1. Safe-bind _ (hdr-Safe _ _ _ _ a1) λ h s2 a2. value a2

parse_sugar_args-Safe :
    (f m : ℕ) {s : Parser} → m ≤ f → At true m s → Safe (Leaves true m) (parse_sugar_args f s)
unfolding parse_sugar_args
parse_sugar_args-Safe zero m le a = absurd (let pos : 0 < m = At-pos m a in omega (arith, le, pos))
parse_sugar_args-Safe (suc f) m {s} le a =
    let pos : 0 < m = At-pos m a in
    Safe-cur _ a λ t h.
      Safe-if (ends_line t || starts_stmt t) _ _ s (λ _. value a)
        λ _. Safe-bind _ (parse_expr-Safe m 0 a) λ e s1 a1.
          Safe-bind _ (skip_newlines-Safe a1) λ _ s2 a2.
            Safe-bind _ (parse_sugar_args-Safe f (m - 1) (omega (arith, le, pos)) a2)
              λ rest s3 a3. value (At-le _ _ (omega arith) a3)

pub parse_sugar_call-Safe :
    (m : ℕ) {s : Parser} (ident : Token)
    → At true m s
    → Safe (Leaves true m) (parse_sugar_call ident s)
unfolding parse_sugar_call
parse_sugar_call-Safe m {s} ident a =
    let here : At true (length s.rest) s = record {
      ends = a.ends;
      le = omega arith;
      has_prev = a.has_prev;
    } in
    Safe-le (length s.rest) m a.le (
      Safe-bind _ (ident_at-Safe (length s.rest) ident _ here) λ callee s1 a1.
        Safe-bind _ (parse_sugar_args-Safe (length s.rest + 1) (length s.rest) (omega arith) a1)
          λ args s2 a2. call_from-Safe (length s.rest) ident callee args a2)

pub parse_return-Safe :
    (m : ℕ) {b : Bool} {s : Parser} (first : Token)
    → At b m s
    → head s.rest ≡ some first
    → is L.eof first ≡ false
    → Safe (Leaves true (m - 1)) (parse_return first s)
unfolding parse_return
parse_return-Safe m first a h e = Safe-bind _ (take-Safe a h e) λ _ s1 a1. Safe-cur _ a1 λ t _.
    Safe-if (ends_line t) _ _ s1 (λ _. Safe-bind _ (hdr-Safe _ _ _ _ a1) λ _ s2 a2. value a2)
      λ _. Safe-bind _ (parse_expr-Safe (m - 1) 0 a1) λ v s2 a2.
        Safe-bind _ (last_token-Safe a2) λ last s3 a3.
          Safe-bind _ (hdr-Safe _ _ _ _ a3) λ _ s4 a4. value (At-le _ _ (omega arith) a4)

parse_let_type-Safe : (m : ℕ) {s : Parser} → At true m s → Safe (Leaves true m) (parse_let_type s)
unfolding parse_let_type
parse_let_type-Safe m {s} a = Safe-cur _ a λ t h.
    Safe-if (is L.ident t) _ _ s
      (λ q. Safe-bind _ (peek-Safe a h (ground (arith, q))) λ u s1 same. rw same (
        Safe-if (is L.assign u) _ _ s
          (λ _.
            Safe-bind _ (take-Safe a h (ground (arith, q)))
              λ _ s2 a2. value (At-le _ _ (omega arith) a2))
          λ _. value a))
      λ _. value a

pub parse_let-Safe :
    (m : ℕ) {b : Bool} {s : Parser} (first : Token)
    → At b m s
    → head s.rest ≡ some first
    → is L.eof first ≡ false
    → Safe (Leaves true (m - 1)) (parse_let first s)
unfolding parse_let
parse_let-Safe m first a h e = Safe-bind _ (take-Safe a h e) λ _ s1 a1.
    Safe-bind _ (expect-Safe L.ident refl a1) λ name s2 a2.
      Safe-bind _ (parse_let_type-Safe (m - 1 - 1) a2) λ type_name s3 a3.
        Safe-bind _ (parse_expr-Safe (m - 1 - 1) 0 a3) λ v s4 a4.
          Safe-bind _ (last_token-Safe a4) λ last s5 a5.
            Safe-bind _ (hdr-Safe _ _ _ _ a5) λ _ s6 a6. value (At-le _ _ (omega arith) a6)

pub parse_defer-Safe :
    (m : ℕ) {b : Bool} {s : Parser} (kw : Token)
    → At b m s
    → Safe (Leaves true (m - 1)) (parse_defer kw s)
unfolding parse_defer
parse_defer-Safe m kw a = Safe-bind _ (parse_expr-Safe m 0 a) λ e s1 a1.
    Safe-bind _ (ident_at-Safe (m - 1) kw _ a1)
      λ callee s2 a2. call_from-Safe (m - 1) kw callee _ a2

pub take_newline-Safe : (m : ℕ) {s : Parser} → At true m s → Safe (Leaves true m) (take_newline s)
unfolding take_newline
take_newline-Safe m {s} a = Safe-cur _ a λ t h.
    Safe-if (is L.newline t) _ _ s
      (λ q.
        Safe-bind _ (take-Safe a h (ground (arith, q)))
          λ _ s1 a1. value (At-le _ _ (omega arith) a1))
      λ _. value a

pub take_as-Safe :
    (m : ℕ) {b : Bool} {s : Parser} → At b m s → Safe (Leaves true (m - 1)) (take_as s)
unfolding take_as
take_as-Safe m {s} a = Safe-cur _ a λ t h.
    Safe-if (is L.ident t && same_text t.text text_as) _ _ s
      (λ q. take-Safe a h (ground (arith, q))) λ _. Safe-perr no_as refl a
