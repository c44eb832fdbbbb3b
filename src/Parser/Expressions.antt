-- ===== src/Parser/Expressions.antt =====
-- Rane_resolver.cpp, `struct Parser`: expressions by binding power. The functions call each other on
-- fuel; each gives one unit less to those it calls.
use rane_processing_language.Base.{
  ℕ, zero, suc, ◌+◌, ◌*◌, Bool, ◌||◌, Option, none, some, ltb, if◌then◌else◌, length,
}
use rane_processing_language.Base.Result.{err}
use rane_processing_language.Lexer as L
use rane_processing_language.Lexer.{TokKind, Token}
use rane_processing_language.Syntax.{NodeHeader, UnOp, BinOp, Expr, Exprs, no_args, arg}
use rane_processing_language.Syntax as S
use rane_processing_language.Parser.{
  Parser, Parse, pure, ◌>>=◌, ◌>>◌, is, cur, last_token, take, perr, skip_newlines, expect,
  merge_span, span_of, hdr, int_value, expected_expression, unhandled_operator, invalid_int,
  no_fuel,
}

-- Left and right binding power.
unfoldable pub infix_prec : TokKind → Option (ℕ × ℕ)
infix_prec L.star = some (70, 71)
infix_prec L.slash = some (70, 71)
infix_prec L.percent = some (70, 71)
infix_prec L.plus = some (60, 61)
infix_prec L.minus = some (60, 61)
infix_prec L.shl = some (55, 56)
infix_prec L.shr = some (55, 56)
infix_prec L.lt = some (50, 51)
infix_prec L.lte = some (50, 51)
infix_prec L.gt = some (50, 51)
infix_prec L.gte = some (50, 51)
infix_prec L.eq_eq = some (45, 46)
infix_prec L.not_eq = some (45, 46)
infix_prec L.amp = some (40, 41)
infix_prec L.caret = some (39, 40)
infix_prec L.pipe = some (38, 39)
infix_prec L.and_and = some (30, 31)
infix_prec L.or_or = some (29, 30)
infix_prec _ = none

-- The switch on the operator's kind. `>` gives `Gte`, and `||` is missing.
unfoldable pub binop_of : TokKind → Option BinOp
binop_of L.plus = some BinOp.add
binop_of L.minus = some BinOp.sub
binop_of L.star = some BinOp.mul
binop_of L.slash = some BinOp.div
binop_of L.percent = some BinOp.mod_op
binop_of L.shl = some BinOp.shl
binop_of L.shr = some BinOp.shr
binop_of L.lt = some BinOp.lt
binop_of L.lte = some BinOp.lte
binop_of L.gt = some BinOp.gte
binop_of L.gte = some BinOp.gte
binop_of L.eq_eq = some BinOp.eq
binop_of L.not_eq = some BinOp.ne
binop_of L.amp = some BinOp.bit_and
binop_of L.caret = some BinOp.bit_xor
binop_of L.pipe = some BinOp.bit_or
binop_of L.and_and = some BinOp.and
binop_of _ = none

abbrev pub is_prefix_op : Token → Bool
is_prefix_op t = is L.minus t || (is L.bang t || is L.tilde t)

abbrev pub unop_of : Token → UnOp
unop_of t = if is L.minus t then UnOp.neg else if is L.bang t then UnOp.not else UnOp.bit_not

-- `e.hdr()` with its span and its tokens set.
abbrev pub at_tokens : Token → Token → NodeHeader → NodeHeader
at_tokens lp rp h = record h {
  span = merge_span lp rp;
  first_tok = lp.ordinal;
  last_tok = rp.ordinal;
}

unfoldable pub with_hdr : (NodeHeader → NodeHeader) → Expr → Expr
with_hdr f (S.int_expr h v) = S.int_expr (f h) v
with_hdr f (S.string_expr h v) = S.string_expr (f h) v
with_hdr f (S.ident_expr h v) = S.ident_expr (f h) v
with_hdr f (S.unary_expr h op e) = S.unary_expr (f h) op e
with_hdr f (S.binary_expr h op a b) = S.binary_expr (f h) op a b
with_hdr f (S.call_expr h c args) = S.call_expr (f h) c args
with_hdr f (S.member_expr h b m) = S.member_expr (f h) b m

unfoldable pub int_primary : Parse Expr
int_primary = do
  t ← take
  v ← int_value invalid_int t
  h ← hdr S.NodeKind.int_expr t t (span_of t)
  pure (S.int_expr h v)

unfoldable pub string_primary : Parse Expr
string_primary = do
  t ← take
  h ← hdr S.NodeKind.string_expr t t (span_of t)
  pure (S.string_expr h t.text)

-- The node of a binary operator, when both operands are there.
unfoldable pub binary_node : Token → Token → Expr → Expr → Parse Expr
binary_node first op lhs rhs = do
  last ← last_token
  bop ← elim (binop_of op.kind) [ none ↦ perr unhandled_operator | some b ↦ pure b ]
  h ← hdr S.NodeKind.binary_expr first last (merge_span first last)
  pure (S.binary_expr h bop lhs rhs)

abbrev pub binds : ℕ → Option (ℕ × ℕ) → Option ℕ
binds min_bp none = none
binds min_bp (some (lbp, rbp)) = if ltb lbp min_bp then none else some rbp

unfoldable mutual
  pub parse_prefix : ℕ → Parse Expr
  parse_prefix zero s = err no_fuel
  parse_prefix (suc f) s =
      (do
        skip_newlines
        first ← cur
        if is_prefix_op first
            then (do
              take
              rhs ← parse_expr_bp f 80
              last ← last_token
              h ← hdr S.NodeKind.unary_expr first last (merge_span first last)
              pure (S.unary_expr h (unop_of first) rhs))
            else if is L.int_lit first
            then int_primary
            else if is L.string_lit first
            then string_primary
            else if is L.ident first
            then (do
              t ← take
              h ← hdr S.NodeKind.ident_expr t t (span_of t)
              parse_postfix f (S.ident_expr h t.text) first)
            else if is L.l_paren first
            then (do
              lp ← take
              e ← parse_expr_bp f 0
              rp ← expect L.r_paren
              parse_postfix f (with_hdr (at_tokens lp rp) e) lp)
            else perr expected_expression)
        s

  pub parse_postfix : ℕ → Expr → Token → Parse Expr
  parse_postfix zero base first s = err no_fuel
  parse_postfix (suc f) base first s =
      (do
        t ← cur
        if is L.dot t
            then (do
              take
              mem ← expect L.ident
              h ← hdr S.NodeKind.member_expr first mem (merge_span first mem)
              parse_postfix f (S.member_expr h base mem.text) first)
            else if is L.l_paren t
            then (do
              take
              u ← cur
              args ← if is L.r_paren u then pure no_args else parse_args f
              rp ← expect L.r_paren
              h ← hdr S.NodeKind.call_expr first rp (merge_span first rp)
              parse_postfix f (S.call_expr h base args) first)
            else pure base)
        s

  pub parse_args : ℕ → Parse Exprs
  parse_args zero s = err no_fuel
  parse_args (suc f) s =
      (do
        a ← parse_expr_bp f 0
        t ← cur
        if is L.comma t
            then (do take; rest ← parse_args f; pure (arg a rest))
            else pure (arg a no_args))
        s

  pub parse_expr_bp : ℕ → ℕ → Parse Expr
  parse_expr_bp zero min_bp s = err no_fuel
  parse_expr_bp (suc f) min_bp s =
      (do lhs ← parse_prefix f; first ← last_token; parse_infix f min_bp first lhs) s

  pub parse_infix : ℕ → ℕ → Token → Expr → Parse Expr
  parse_infix zero min_bp first lhs s = err no_fuel
  parse_infix (suc f) min_bp first lhs s =
      (do
        skip_newlines
        t ← cur
        elim (binds min_bp (infix_prec t.kind)) [
          | none ↦ pure lhs
          | some rbp ↦ (do
            take
            rhs ← parse_expr_bp f rbp
            node ← binary_node first t lhs rhs
            parse_infix f min_bp first node)
        ])
        s

-- `parse_expr_bp` from a statement, on fuel for all tokens that are left.
abbrev pub expr_fuel : Parser → ℕ
expr_fuel s = 3 * length s.rest + 3

abbrev pub parse_expr : ℕ → Parse Expr
parse_expr min_bp s = parse_expr_bp (expr_fuel s) min_bp s
