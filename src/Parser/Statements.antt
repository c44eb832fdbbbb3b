-- ===== src/Parser/Statements.antt =====
-- Rane_resolver.cpp, `struct Parser`: the parts of a statement that hold no block.
use rane_processing_language.Base.{
  ℕ, zero, suc, ◌+◌, ◌/◌, ◌%◌, Bool, ◌&&◌, ◌||◌, List, [], ◌∷◌, ◌++◌, none, some, ltb,
  if◌then◌else◌, length,
}
use rane_processing_language.Base.Result.{err}
use rane_processing_language.Lexer as L
use rane_processing_language.Lexer.{TokKind, Token, LexFault}
use rane_processing_language.Lexer.Scan.{same_text}
use rane_processing_language.Syntax.{
  Span, NodeHeader, Expr, Exprs, no_args, arg, SwitchCase, Stmt, Block, ProcDecl, CompilationUnit,
}
use rane_processing_language.Syntax as S
use rane_processing_language.Parser.{
  Parse, pure, ◌>>=◌, ◌>>◌, is, cur, peek, last_token, take, perr, skip_newlines, expect,
  merge_span, span_of, hdr, no_as, no_fuel,
}
use rane_processing_language.Parser.Expressions.{parse_expr}

abbrev pub text_as : List ℕ
text_as = 97 ∷ 115 ∷ []

abbrev pub text_defer : List ℕ
text_defer = 100 ∷ 101 ∷ 102 ∷ 101 ∷ 114 ∷ []

abbrev pub text_lock : List ℕ
text_lock = 108 ∷ 111 ∷ 99 ∷ 107 ∷ []

abbrev pub text_with : List ℕ
text_with = 119 ∷ 105 ∷ 116 ∷ 104 ∷ []

-- `std::to_string`, on one unit of fuel for each digit: ten for 32 bits.
unfoldable pub decimal : ℕ → ℕ → List ℕ
decimal zero n = []
decimal (suc digits) n =
    let front = decimal digits (n / 10) in
    if ltb n 10 then (48 + n) ∷ [] else front ++ (48 + n % 10) ∷ []

-- "__block" and the block's id.
abbrev pub block_marker : ℕ → List ℕ
block_marker id = 95 ∷ 95 ∷ 98 ∷ 108 ∷ 111 ∷ 99 ∷ 107 ∷ decimal 10 id

-- An identifier with the token's place.
unfoldable pub ident_at : Token → List ℕ → Parse Expr
ident_at t name = do h ← hdr S.NodeKind.ident_expr t t (span_of t); pure (S.ident_expr h name)

-- A call of a named function, from the keyword to the last token taken.
unfoldable pub call_from : Token → Expr → Exprs → Parse Expr
call_from kw callee args = do
  last ← last_token
  h ← hdr S.NodeKind.call_expr kw last (merge_span kw last)
  pure (S.call_expr h callee args)

unfoldable pub expr_stmt_from : Token → Expr → Parse Stmt
expr_stmt_from first e = do
  last ← last_token
  h ← hdr S.NodeKind.expr_stmt first last (merge_span first last)
  pure (S.expr_stmt h e)

abbrev pub ends_line : Token → Bool
ends_line t = is L.newline t || (is L.dedent t || (is L.eof t || is L.kw_end t))

abbrev pub starts_stmt : Token → Bool
starts_stmt t =
    is L.kw_return t
    || (is L.kw_let t
        || (is L.kw_if t
            || (is L.kw_match t || (is L.kw_with t || (is L.kw_defer t || is L.kw_lock t)))))

-- The arguments of a call without parentheses.
unfoldable pub parse_sugar_args : ℕ → Parse Exprs
parse_sugar_args zero s = err no_fuel
parse_sugar_args (suc f) s =
    (do
      t ← cur
      if ends_line t || starts_stmt t
          then pure no_args
          else (do e ← parse_expr 0; skip_newlines; rest ← parse_sugar_args f; pure (arg e rest)))
      s

unfoldable pub parse_sugar_call : Token → Parse Expr
parse_sugar_call ident s =
    (do
      callee ← ident_at ident ident.text
      args ← parse_sugar_args (length s.rest + 1)
      call_from ident callee args)
      s

unfoldable pub parse_return : Token → Parse Stmt
parse_return first = do
  take
  t ← cur
  if ends_line t
      then (do
        h ← hdr S.NodeKind.return_stmt first first (merge_span first first)
        pure (S.return_stmt h none))
      else (do
        val ← parse_expr 0
        last ← last_token
        h ← hdr S.NodeKind.return_stmt first last (merge_span first last)
        pure (S.return_stmt h (some val)))

-- The type between the name and the `=`, or no text.
unfoldable pub parse_let_type : Parse (List ℕ)
parse_let_type = do
  t ← cur
  if is L.ident t
      then (do u ← peek; if is L.assign u then (do take; pure t.text) else pure [])
      else pure []

unfoldable pub parse_let : Token → Parse Stmt
parse_let first = do
  take
  name ← expect L.ident
  type_name ← parse_let_type
  init ← parse_expr 0
  last ← last_token
  h ← hdr S.NodeKind.let_stmt first last (merge_span first last)
  pure (S.let_stmt h name.text type_name init)

unfoldable pub parse_defer : Token → Parse Expr
parse_defer kw = do
  e ← parse_expr 0
  callee ← ident_at kw text_defer
  call_from kw callee (arg e no_args)

-- `if (at(Newline)) take();`
unfoldable pub take_newline : Parse (Unit {0})
take_newline = do t ← cur; if is L.newline t then (do take; pure tt) else pure tt

-- The identifier `as`.
unfoldable pub take_as : Parse Token
take_as = do t ← cur; if is L.ident t && same_text t.text text_as then take else perr no_as
