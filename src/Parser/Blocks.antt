-- ===== src/Parser/Blocks.antt =====
-- Rane_resolver.cpp, `struct Parser`: statements and blocks. A branch of `parse_stmt` that holds a block
-- takes the block's parser as an argument, and the mutual block at the end ties the knot on fuel.
use rane_processing_language.Base.{
  ℕ, zero, suc, ◌||◌, List, [], ◌∷◌, Option, none, some, if◌then◌else◌,
}
use rane_processing_language.Base.Result.{err}
use rane_processing_language.Lexer as L
use rane_processing_language.Lexer.{TokKind, Token, LexFault}
use rane_processing_language.Syntax.{
  Span, NodeHeader, Expr, Exprs, no_args, arg, BlockPtr, SwitchCase, Stmt, Block, ProcDecl,
  CompilationUnit,
}
use rane_processing_language.Syntax as S
use rane_processing_language.Parser.{
  Parse, pure, ◌>>=◌, ◌>>◌, is, cur, last_token, take, perr, skip_newlines, expect, merge_span,
  span_of, fresh_id, hdr, int_value, new_block, unsupported_statement, bad_arm, uncaught, no_fuel,
}
use rane_processing_language.Parser.Expressions.{parse_expr}
use rane_processing_language.Parser.Statements.{
  text_lock, text_with, block_marker, ident_at, call_from, expr_stmt_from, parse_sugar_call,
  parse_return, parse_let, parse_defer, take_newline, take_as,
}

abbrev block_header : ℕ → Span → ℕ → ℕ → NodeHeader
block_header id sp first last = record {
  kind = S.NodeKind.block;
  id = id;
  span = sp;
  first_tok = first;
  last_tok = last;
}

-- The branches of `parse_stmt`, from their keyword `first` on.
unfoldable pub parse_else : Parse Block → Token → Parse (Option BlockPtr)
parse_else block els =
    if is L.kw_else els
    then (do take; else_body ← block; b ← new_block els else_body; pure (some b))
    else pure none

unfoldable pub parse_if : Parse Block → Token → Parse Stmt
parse_if block first = do
  take
  cond ← parse_expr 0
  then_body ← block
  then_blk ← new_block first then_body
  skip_newlines
  els ← cur
  else_blk ← parse_else block els
  last ← last_token
  h ← hdr S.NodeKind.if_stmt first last (merge_span first last)
  pure (S.if_stmt h cond then_blk else_blk)

unfoldable pub parse_match : Parse (List SwitchCase × Option BlockPtr) → Token → Parse Stmt
parse_match arms_of first = do
  take
  scrutinee ← parse_expr 0
  take_newline
  expect L.indent
  arms ← arms_of
  ded ← expect L.dedent
  h ← hdr S.NodeKind.switch_stmt first ded (merge_span first ded)
  pure (S.switch_stmt h scrutinee arms.0 arms.1)

unfoldable pub parse_lock : Parse Block → Token → Parse Expr
parse_lock block first = do
  m ← parse_expr 0
  body ← block
  new_block first body
  callee ← ident_at first text_lock
  marker ← ident_at first (block_marker body.h.id)
  call_from first callee (arg m (arg marker no_args))

unfoldable pub parse_with : Parse Block → Token → Parse Expr
parse_with block first = do
  open_expr ← parse_expr 0
  take_as
  name ← expect L.ident
  body ← block
  new_block first body
  callee ← ident_at first text_with
  bind_name ← ident_at name name.text
  marker ← ident_at first (block_marker body.h.id)
  call_from first callee (arg open_expr (arg bind_name (arg marker no_args)))

-- The body of `case N:`, empty at a newline.
unfoldable pub case_body : Parse Stmt → Token → Parse Block
case_body stmt colon = do
  t ← cur
  id ← fresh_id
  if is L.newline t
      then (do
        take
        pure (record {
          h = block_header id (span_of colon) colon.ordinal colon.ordinal;
          stmts = [];
        }))
      else (do
        st ← stmt
        last ← last_token
        pure (record {
          h = block_header id (merge_span colon last) colon.ordinal last.ordinal;
          stmts = st ∷ [];
        }))

-- An arm `case N:` at its keyword `k`.
unfoldable pub parse_case : Parse Stmt → Token → Parse SwitchCase
parse_case stmt k = do
  take
  lit ← expect L.int_lit
  value ← int_value uncaught lit
  colon ← expect L.colon
  body ← case_body stmt colon
  b ← new_block k body
  pure (record { value = value; body = b; span = span_of k })

unfoldable pub inline_stmt : Parse Stmt → Token → Parse (List Stmt)
inline_stmt stmt t =
    if is L.newline t || is L.dedent t then pure [] else (do st ← stmt; pure (st ∷ []))

-- The arm `default:` of a match that starts at `first`.
unfoldable pub parse_default : Parse Stmt → Token → Parse BlockPtr
parse_default stmt first = do
  take
  expect L.colon
  id ← fresh_id
  t ← cur
  stmts ← inline_stmt stmt t
  last ← last_token
  new_block first
      (record { h = block_header id (merge_span first last) t.ordinal last.ordinal; stmts = stmts })

unfoldable mutual
  pub parse_stmt : ℕ → Parse Stmt
  parse_stmt zero s = err no_fuel
  parse_stmt (suc f) s =
      (do
        skip_newlines
        first ← cur
        if is L.kw_return first
            then parse_return first
            else if is L.kw_let first
            then parse_let first
            else if is L.kw_if first
            then parse_if (parse_block_colon f) first
            else if is L.kw_match first
            then parse_match (parse_arms f first none) first
            else if is L.kw_defer first
            then (do take; e ← parse_defer first; expr_stmt_from first e)
            else if is L.kw_lock first
            then (do take; e ← parse_lock (parse_block_colon f) first; expr_stmt_from first e)
            else if is L.kw_with first
            then (do take; e ← parse_with (parse_block_colon f) first; expr_stmt_from first e)
            else if is L.ident first
            then (do ident ← take; e ← parse_sugar_call ident; expr_stmt_from ident e)
            else perr unsupported_statement)
        s

  pub parse_block_colon : ℕ → Parse Block
  parse_block_colon zero s = err no_fuel
  parse_block_colon (suc f) s =
      (do
        first ← expect L.colon
        take_newline
        expect L.indent
        id ← fresh_id
        stmts ← parse_stmts f
        ded ← expect L.dedent
        pure (record {
          h = block_header id (merge_span first ded) first.ordinal ded.ordinal;
          stmts = stmts;
        }))
        s

  -- The statements of a block, up to its dedent.
  pub parse_stmts : ℕ → Parse (List Stmt)
  parse_stmts zero s = err no_fuel
  parse_stmts (suc f) s =
      (do
        t ← cur
        if is L.dedent t || is L.eof t
            then pure []
            else if is L.newline t
            then (do take; parse_stmts f)
            else (do st ← parse_stmt f; skip_newlines; rest ← parse_stmts f; pure (st ∷ rest)))
        s

  -- The arms of a match that starts at `first`. A second default replaces the one before.
  pub parse_arms : ℕ → Token → Option BlockPtr → Parse (List SwitchCase × Option BlockPtr)
  parse_arms zero first default_blk s = err no_fuel
  parse_arms (suc f) first default_blk s =
      (do
        k ← cur
        if is L.dedent k || is L.eof k
            then pure ([], default_blk)
            else if is L.newline k
            then (do take; parse_arms f first default_blk)
            else if is L.kw_case k
            then (do
              c ← parse_case (parse_stmt f) k
              skip_newlines
              arms ← parse_arms f first default_blk
              pure (c ∷ arms.0, arms.1))
            else if is L.kw_default k
            then (do
              b ← parse_default (parse_stmt f) first
              skip_newlines
              parse_arms f first (some b))
            else perr bad_arm)
        s
