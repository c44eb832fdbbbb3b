-- ===== src/Canon/Tests.antt =====
-- A literal with a quote and a newline, and a procedure with a conditional, through the canonical writer.
use mathlib.Core.Path.{subst}
use rane_processing_language.Base.{
  ℕ, zero, suc, ◌≡◌, refl, arith, true, false, List, [], ◌∷◌, ◌++◌, none, some, get_elem?,
}
use rane_processing_language.Base.Result.{Result, ok, err}
use rane_processing_language.Lexer.{Lexer, Token}
use rane_processing_language.Lexer as L
use rane_processing_language.Lexer.Scan.{lex_word}
use rane_processing_language.Syntax.{Span, NodeHeader, BlockPtr, Stmt, Block, BlockArena, ProcDecl}
use rane_processing_language.Syntax as S
use rane_processing_language.Parser.Statements.{decimal}
use rane_processing_language.Canon.{
  WriteFault, CanonWriter, dangling, expr_text, emit_stmt, emit_stmts, emit_block, emit_at,
  emit_else, emit_proc, emit_procs,
}
use rane_processing_language.Canon.Literal.{string_expr-read}
use rane_processing_language.Canon.Below.{BlockBelow, Ordered}
use rane_processing_language.Parser.{Parser, push_back, new_block}
use rane_processing_language.Canon.Ends.{Ends, emit_procs-Ends}

abbrev sp : Span
sp = record { line = 1; col = 1; len = 1 }

abbrev header : NodeHeader
header = record { kind = S.NodeKind.return_stmt; id = 1; span = sp; first_tok = 1; last_tok = 1 }

-- a"<newline>
abbrev quoted : List ℕ
quoted = 97 ∷ 34 ∷ 10 ∷ []

abbrev at_literal : Lexer
at_literal = record {
  rest = expr_text (S.string_expr header quoted) ++ 59 ∷ [];
  line = 1;
  col = 1;
  next_ordinal = 1;
  indent_stack = [];
  at_line_start = false;
  toks = [];
}

string_expr-read_example :
    (l2 : Lexer) × (t : Token) × (lex_word 34 at_literal ≡ ok l2)
    × (t.kind ≡ L.string_lit)
    × (t.text ≡ quoted)
    × (l2.toks ≡ t ∷ [])
    × (l2.rest ≡ 59 ∷ [])
string_expr-read_example =
    string_expr-read header quoted (59 ∷ []) at_literal (refl, (refl, (refl, tt))) refl

-- if (1) { return; }
abbrev return_block : Block
return_block = record { h = header; stmts = S.return_stmt header none ∷ [] }

abbrev arena : BlockArena
arena = record { blocks = return_block ∷ []; buffer = 1 }

abbrev to_first : BlockPtr
to_first = record { buffer = 1; index = 0 }

abbrev procs : List ProcDecl
procs =
    record {
      h = header;
      name = 109 ∷ [];
      ret_type = [];
      body = record {
        h = header;
        stmts = S.if_stmt header (S.int_expr header 1) to_first none ∷ [];
      };
    }
    ∷ []

abbrev empty : CanonWriter
empty = record { out = []; indent = 0 }

only_earlier : Ordered arena
only_earlier = record { earlier = λ i b q. earlier i b q }
  where
    earlier : (i : ℕ) (b : Block) → get_elem? arena.blocks i ≡ some b → BlockBelow 1 i b
    earlier zero b q = let same : return_block ≡ b = cc q in subst (BlockBelow 1 0) same (tt, tt)
    earlier (suc i) b q = absurd (cc q)

emit_procs-Ends_example : Ends 0 empty (emit_procs 1 arena procs empty)
emit_procs-Ends_example =
    emit_procs-Ends 1 arena procs empty only_earlier (omega arith)
      ((((refl, omega arith), tt), tt), tt)

abbrev written : Result WriteFault CanonWriter → List ℕ
written (ok o) = o.out
written (err e) = []

-- proc m () {{
--     if (1) {
--       return;
--     }
--   }}
written_procs :
    written (emit_procs 1 arena procs empty)
    ≡ 112 ∷ 114 ∷ 111 ∷ 99 ∷ 32 ∷ 109 ∷ 32 ∷ 40 ∷ 41 ∷ 32 ∷ 123 ∷ 123 ∷ 10 ∷ 32 ∷ 32 ∷ 32 ∷ 32 ∷ 105
      ∷ 102 ∷ 32 ∷ 40 ∷ 49 ∷ 41 ∷ 32 ∷ 123 ∷ 10 ∷ 32 ∷ 32 ∷ 32 ∷ 32 ∷ 32 ∷ 32 ∷ 114 ∷ 101 ∷ 116
      ∷ 117 ∷ 114 ∷ 110 ∷ 59 ∷ 10 ∷ 32 ∷ 32 ∷ 32 ∷ 32 ∷ 125 ∷ 10 ∷ 32 ∷ 32 ∷ 125 ∷ 125 ∷ []
unfolding emit_procs emit_proc emit_block emit_stmts emit_stmt emit_at emit_else expr_text decimal
written_procs = refl

abbrev some_token : Token
some_token = record { kind = L.eof; text = []; line = 1; col = 1; len = 1; ordinal = 1 }

abbrev no_blocks : Parser
no_blocks = record {
  prev = none;
  rest = [];
  next_id = 1;
  block_arena = record { blocks = []; buffer = 0 };
  reallocates = λ n. true;
}

abbrev with_block : Parser → BlockPtr × Parser
with_block s = elim (new_block some_token return_block s) [ ok p ↦ p | err e ↦ (to_first, s) ]

-- The pointer to a first block, which the writer follows; and the same pointer behind a second block, for which the
-- vector has moved.
one_then_two :
    ((with_block no_blocks).0 ≡ to_first)
    × (written (emit_at 1 (with_block no_blocks).1.block_arena to_first empty)
        ≡ 123 ∷ 10 ∷ 32 ∷ 32 ∷ 114 ∷ 101 ∷ 116 ∷ 117 ∷ 114 ∷ 110 ∷ 59 ∷ 10 ∷ 125 ∷ [])
    × (emit_at 1 (with_block (with_block no_blocks).1).1.block_arena to_first empty ≡ err dangling)
unfolding new_block push_back emit_at emit_block emit_stmts emit_stmt
one_then_two = (refl, refl, refl)
