-- ===== src/Parser/Unit.antt =====
-- Rane_resolver.cpp, `struct Parser`: procedures and the unit.
use rane_processing_language.Base.{
  ℕ, Bool, zero, suc, ◌+◌, ◌*◌, List, [], ◌∷◌, none, if◌then◌else◌, length,
}
use rane_processing_language.Base.Result.{Result, ok, err}
use rane_processing_language.Lexer as L
use rane_processing_language.Lexer.{TokKind, Token, LexFault}
use rane_processing_language.Syntax.{
  Span, NodeHeader, Expr, Exprs, no_args, arg, SwitchCase, Stmt, Block, ProcDecl, CompilationUnit,
}
use rane_processing_language.Syntax as S
use rane_processing_language.Parser.{
  ParseFault, Parser, Parse, pure, ◌>>=◌, ◌>>◌, is, cur, perr, skip_newlines, expect, merge_span,
  fresh_id, hdr, not_a_proc, no_fuel,
}
use rane_processing_language.Parser.Blocks.{parse_block_colon}

-- Three units of fuel for each token that is left are enough.
abbrev pub stmt_fuel : Parser → ℕ
stmt_fuel s = 3 * length s.rest + 3

unfoldable pub parse_proc : Parse ProcDecl
parse_proc = do
  skip_newlines
  first ← expect L.kw_proc
  name ← expect L.ident
  expect L.arrow
  ret ← expect L.ident
  body ← λ s. parse_block_colon (stmt_fuel s) s
  skip_newlines
  end_tok ← expect L.kw_end
  h ← hdr S.NodeKind.proc_decl first end_tok (merge_span first end_tok)
  pure (record { h = h; name = name.text; ret_type = ret.text; body = body })

-- The loop of `parse_unit`, a round for each unit of fuel.
unfoldable pub parse_procs : ℕ → Parse (List ProcDecl)
parse_procs zero s = err no_fuel
parse_procs (suc f) s =
    (do
      skip_newlines
      t ← cur
      if is L.eof t
          then pure []
          else if is L.kw_proc t
          then (do p ← parse_proc; skip_newlines; rest ← parse_procs f; pure (p ∷ rest))
          else perr not_a_proc)
      s

abbrev pub started : (ℕ → Bool) → List Token → Parser
started reallocates toks = record {
  prev = none;
  rest = toks;
  next_id = 1;
  block_arena = record { blocks = []; buffer = 0 };
  reallocates = reallocates;
}

unfoldable pub parse_unit : (ℕ → Bool) → List Token → Result ParseFault (CompilationUnit × Parser)
parse_unit reallocates toks =
    (do
      skip_newlines
      first ← cur
      id ← fresh_id
      procs ← parse_procs (length toks + 1)
      last ← cur
      λ s. ok (
        record {
          h = record {
            kind = S.NodeKind.unit;
            id = id;
            span = merge_span first last;
            first_tok = first.ordinal;
            last_tok = last.ordinal;
          };
          procs = procs;
          block_arena = s.block_arena;
        },
        s,
      ))
      (started reallocates toks)
