-- ===== src/Parser/LetError.antt =====
-- Rane_resolver.cpp, the branch of `parse_stmt` for `let`: the `=` is looked at and never taken, so the
-- expression parser starts on it.
use rane_processing_language.Base.{
  ℕ, suc, ◌+◌, ◌*◌, ◌≡◌, refl, arith, List, ◌∷◌, Option, none, some, length,
}
use rane_processing_language.Base.Result.{err}
use rane_processing_language.Lexer as L
use rane_processing_language.Lexer.{TokKind, Token}
use rane_processing_language.Parser.{
  Parser, cur, second, peek, take, perr, skip_from, skip_newlines, expect, expected_expression,
}
use rane_processing_language.Parser.Expressions.{parse_prefix, parse_expr_bp, parse_expr}
use rane_processing_language.Parser.Statements.{parse_let_type, parse_let}
use rane_processing_language.Parser.Blocks.{parse_stmt}

-- The expression parser on `=`, with fuel for two calls.
assign_at_head :
    (f min_bp : ℕ) (s : Parser) (eq : Token) (more : List Token)
    → s.rest ≡ eq ∷ more
    → eq.kind ≡ L.assign
    → parse_expr_bp (suc (suc f)) min_bp s ≡ err expected_expression
unfolding parse_expr_bp parse_prefix skip_newlines skip_from cur perr
assign_at_head f min_bp s eq more r q = rw (r, q, skip_newlines, skip_from, cur, perr) refl

two_calls : (n : ℕ) → (f : ℕ) × (3 * n + 3 ≡ suc (suc f))
two_calls n = (3 * n + 1, omega arith)

expr_at_assign :
    (min_bp : ℕ) (s : Parser) (eq : Token) (more : List Token)
    → s.rest ≡ eq ∷ more
    → eq.kind ≡ L.assign
    → parse_expr min_bp s ≡ err expected_expression
expr_at_assign min_bp s eq more r q =
    let (f, enough) = two_calls (length s.rest) in rw enough (assign_at_head f min_bp s eq more r q)

untyped_let :
    (s : Parser) (first name eq : Token) (more : List Token)
    → s.rest ≡ first ∷ (name ∷ (eq ∷ more))
    → name.kind ≡ L.ident
    → eq.kind ≡ L.assign
    → parse_let first s ≡ err expected_expression
unfolding parse_let take expect cur parse_let_type
untyped_let s first name eq more r q z =
    let at_eq : Parser = record s { prev = some name; rest = eq ∷ more } in
    let stuck : parse_expr 0 at_eq ≡ err expected_expression =
      expr_at_assign 0 at_eq eq more refl z in
    rw (r, q, z, rw (q, z) at stuck) refl

typed_let :
    (s : Parser) (first name ty eq : Token) (more : List Token)
    → s.rest ≡ first ∷ (name ∷ (ty ∷ (eq ∷ more)))
    → name.kind ≡ L.ident
    → ty.kind ≡ L.ident
    → eq.kind ≡ L.assign
    → parse_let first s ≡ err expected_expression
unfolding parse_let take expect cur parse_let_type peek second
typed_let s first name ty eq more r q t z =
    let at_eq : Parser = record s { prev = some ty; rest = eq ∷ more } in
    let stuck : parse_expr 0 at_eq ≡ err expected_expression =
      expr_at_assign 0 at_eq eq more refl z in
    rw (r, q, t, z, rw (t, z) at stuck) refl

-- The tokens of a type that may be there.
abbrev pub with_type : Option Token → List Token → List Token
with_type none ts = ts
with_type (some ty) ts = record ty { kind = L.ident } ∷ ts

-- A statement `let NAME = …` or `let NAME TYPE = …` is always refused with the fault "expected
-- expression", whatever follows the `=`.
pub let_rejected :
    (f : ℕ) (s : Parser) (first name eq : Token) (ty : Option Token) (more : List Token)
    → s.rest ≡ first ∷ (name ∷ with_type ty (eq ∷ more))
    → first.kind ≡ L.kw_let
    → name.kind ≡ L.ident
    → eq.kind ≡ L.assign
    → parse_stmt (suc f) s ≡ err expected_expression
unfolding parse_stmt skip_newlines skip_from cur
let_rejected f s first name eq none more r p q z =
    rw (r, p)
      (untyped_let (record s { rest = record first { kind = L.kw_let } ∷ (name ∷ (eq ∷ more)) }) _
        name eq more refl q z)
let_rejected f s first name eq (some ty) more r p q z =
    rw (r, p)
      (typed_let
        (record s {
          rest =
              record first { kind = L.kw_let }
              ∷ (name ∷ (record ty { kind = L.ident } ∷ (eq ∷ more)));
        })
        _ name _ eq more refl q refl z)
