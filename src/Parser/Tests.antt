-- ===== src/Parser/Tests.antt =====
-- Small sources through the lexer and the parser, and the theorems applied to them.
use rane_processing_language.Base.{ℕ, ◌≡◌, arith, refl, Bool, true, List, [], ◌∷◌, ◌++◌, none, some}
use rane_processing_language.Base.Result.{Result, ok, err}
use rane_processing_language.Lexer as L
use rane_processing_language.Lexer.{
  LexFault, TokKind, Token, is_ident_start, is_ident_cont, get_from, get, make,
}
use rane_processing_language.Lexer.Scan.{
  run_while, skip_ws_midline, pop_to, top_of, indent_by, emit_indent_dedent, same_text, keyword_in,
  pair_kind, single_kind, lex_word, single_token, pair_token, lex_token, lex_blank, lex_loop,
  pop_all, lex_all,
}
use rane_processing_language.Lexer.Scan as Y
use rane_processing_language.Syntax.{
  BinOp, Expr, Exprs, no_args, arg, Stmt, Block, BlockArena, ProcDecl, CompilationUnit,
}
use rane_processing_language.Syntax as S
use rane_processing_language.Parser.{
  ParseFault, Parser, cur, second, peek, last_token, take, perr, skip_from, skip_newlines, expect,
  merge_span, fresh_id, hdr, digits_value, starts_with_digit, stoll, cleaned, int_value, push_back,
  new_block, expected_expression, unhandled_operator,
}
use rane_processing_language.Parser.Expressions.{
  infix_prec, binop_of, with_hdr, int_primary, string_primary, binary_node, parse_prefix,
  parse_postfix, parse_args, parse_expr_bp, parse_infix, parse_expr, binds,
}
use rane_processing_language.Parser.Statements.{
  decimal, ident_at, call_from, expr_stmt_from, parse_sugar_args, parse_sugar_call, parse_return,
  parse_let_type, parse_let, parse_defer, take_newline, take_as,
}
use rane_processing_language.Parser.Blocks.{
  parse_else, parse_if, parse_match, parse_lock, parse_with, case_body, parse_case, inline_stmt,
  parse_default, parse_stmt, parse_block_colon, parse_stmts, parse_arms,
}
use rane_processing_language.Parser.Unit.{parse_proc, parse_procs, parse_unit}
use rane_processing_language.Parser.Safe.{Safe}
use rane_processing_language.Parser.UnitSafe.{AtEnd, parse_unit-Safe}
use rane_processing_language.Parser.LetError.{let_rejected}
use rane_processing_language.Parser.Grammar.{Written, IsTree}
use rane_processing_language.Parser.Grammar as G
use rane_processing_language.Parser.Runs.{Quiet}
use rane_processing_language.Parser.Climbs.{parse_expr-reads}
use rane_processing_language.Parser.OrError.{or_refused}
use rane_processing_language.Parser.GtError.{gt_read}

-- A procedure with a call, a conditional and a return.
abbrev pub good_source : List ℕ
good_source =
    112 ∷ 114 ∷ 111 ∷ 99 ∷ 32 ∷ 109 ∷ 97 ∷ 105 ∷ 110 ∷ 32 ∷ 45 ∷ 62 ∷ 32 ∷ 105 ∷ 110 ∷ 116 ∷ 58 ∷ 10
    ∷ 32 ∷ 32 ∷ 112 ∷ 114 ∷ 105 ∷ 110 ∷ 116 ∷ 32 ∷ 49 ∷ 32 ∷ 43 ∷ 32 ∷ 50 ∷ 32 ∷ 42 ∷ 32 ∷ 51 ∷ 10
    ∷ 32 ∷ 32 ∷ 105 ∷ 102 ∷ 32 ∷ 120 ∷ 58 ∷ 10 ∷ 32 ∷ 32 ∷ 32 ∷ 32 ∷ 114 ∷ 101 ∷ 116 ∷ 117 ∷ 114
    ∷ 110 ∷ 32 ∷ 55 ∷ 10 ∷ 32 ∷ 32 ∷ 114 ∷ 101 ∷ 116 ∷ 117 ∷ 114 ∷ 110 ∷ 32 ∷ 48 ∷ 10 ∷ 101 ∷ 110
    ∷ 100 ∷ 10 ∷ []

-- A procedure with a typed `let`.
abbrev let_source : List ℕ
let_source =
    112 ∷ 114 ∷ 111 ∷ 99 ∷ 32 ∷ 109 ∷ 97 ∷ 105 ∷ 110 ∷ 32 ∷ 45 ∷ 62 ∷ 32 ∷ 105 ∷ 110 ∷ 116 ∷ 58 ∷ 10
    ∷ 32 ∷ 32 ∷ 108 ∷ 101 ∷ 116 ∷ 32 ∷ 120 ∷ 32 ∷ 105 ∷ 110 ∷ 116 ∷ 32 ∷ 61 ∷ 32 ∷ 49 ∷ 10 ∷ 101
    ∷ 110 ∷ 100 ∷ 10 ∷ []

-- Two calls, each on its line.
abbrev two_lines : List ℕ
two_lines =
    112 ∷ 114 ∷ 111 ∷ 99 ∷ 32 ∷ 109 ∷ 97 ∷ 105 ∷ 110 ∷ 32 ∷ 45 ∷ 62 ∷ 32 ∷ 105 ∷ 110 ∷ 116 ∷ 58 ∷ 10
    ∷ 32 ∷ 32 ∷ 112 ∷ 114 ∷ 105 ∷ 110 ∷ 116 ∷ 32 ∷ 49 ∷ 10 ∷ 32 ∷ 32 ∷ 112 ∷ 114 ∷ 105 ∷ 110 ∷ 116
    ∷ 32 ∷ 50 ∷ 10 ∷ 101 ∷ 110 ∷ 100 ∷ 10 ∷ []

abbrev pub lexed : Result LexFault (List Token) → List Token
lexed (ok toks) = toks
lexed (err e) = []

abbrev empty_arena : BlockArena
empty_arena = record { blocks = []; buffer = 0 }

-- A vector that moves at each `push_back`.
abbrev no_room : ℕ → Bool
no_room n = true

-- The expressions and statements without their headers.
data Shape : Type 0 where
  number : ℕ → Shape
  name : List ℕ → Shape
  add mul : Shape → Shape → Shape
  call : Shape → Shape → Shape
  nothing : Shape
  also : Shape → Shape → Shape
  gives : Shape → Shape
  choice : Shape → ℕ → Shape
  other : Shape

abbrev mutual
  shape : Expr → Shape
  shape (S.int_expr h v) = number v
  shape (S.ident_expr h v) = name v
  shape (S.binary_expr h S.BinOp.add a b) = add (shape a) (shape b)
  shape (S.binary_expr h S.BinOp.mul a b) = mul (shape a) (shape b)
  shape (S.call_expr h c args) = call (shape c) (shapes args)
  shape _ = other

  shapes : Exprs → Shape
  shapes no_args = nothing
  shapes (arg a rest) = also (shape a) (shapes rest)

abbrev stmt_shape : Stmt → Shape
stmt_shape (S.expr_stmt h e) = shape e
stmt_shape (S.return_stmt h (some e)) = gives (shape e)
stmt_shape (S.if_stmt h c b els) = choice (shape c) b.index
stmt_shape _ = other

abbrev stmt_shapes : List Stmt → List Shape
stmt_shapes [] = []
stmt_shapes (st ∷ sts) = stmt_shape st ∷ stmt_shapes sts

abbrev proc_shapes : List ProcDecl → List (List Shape)
proc_shapes [] = []
proc_shapes (p ∷ ps) = stmt_shapes p.body.stmts ∷ proc_shapes ps

abbrev unit_shapes :
    Result ParseFault (CompilationUnit × Parser) → Result ParseFault (List (List Shape))
unit_shapes (ok (u, s)) = ok (proc_shapes u.procs)
unit_shapes (err e) = err e

-- The call takes `1 + 2 * 3`; a `let` with its type fails at `=`; a call takes the call on the next line.
outcomes :
    (lex_all good_source ≡ ok (lexed (lex_all good_source)))
    × (unit_shapes (parse_unit no_room (lexed (lex_all good_source)))
        ≡ ok (
            (call
                (name (112 ∷ 114 ∷ 105 ∷ 110 ∷ 116 ∷ []))
                (also (add (number 1) (mul (number 2) (number 3))) nothing)
              ∷ choice (name (120 ∷ [])) 0
              ∷ gives (number 0)
              ∷ [])
            ∷ []))
    × (unit_shapes (parse_unit no_room (lexed (lex_all let_source))) ≡ err expected_expression)
    × (unit_shapes (parse_unit no_room (lexed (lex_all two_lines)))
        ≡ ok (
            (call (name (112 ∷ 114 ∷ 105 ∷ 110 ∷ 116 ∷ [])) (
                also
                  (number 1)
                  (also (name (112 ∷ 114 ∷ 105 ∷ 110 ∷ 116 ∷ [])) (also (number 2) nothing)))
              ∷ [])
            ∷ []))
unfolding lex_all lex_loop lex_blank emit_indent_dedent indent_by top_of run_while skip_ws_midline
    Y.skip_from lex_token pair_token single_token lex_word pair_kind single_kind keyword_in
    same_text pop_all pop_to make get get_from L.peek L.peek2 L.peek_at is_ident_start is_ident_cont
    cur second peek last_token take perr skip_from skip_newlines expect merge_span fresh_id hdr
    digits_value starts_with_digit stoll cleaned int_value push_back new_block infix_prec binop_of
    with_hdr int_primary string_primary binary_node parse_prefix parse_postfix parse_args
    parse_expr_bp parse_infix decimal ident_at call_from expr_stmt_from parse_sugar_args
    parse_sugar_call parse_return parse_let_type parse_let parse_defer take_newline take_as
    parse_else parse_if parse_match parse_lock parse_with case_body parse_case inline_stmt
    parse_default parse_stmt parse_block_colon parse_stmts parse_arms parse_proc parse_procs
    parse_unit
outcomes = (refl, refl, refl, refl)

parse_unit-Safe_example : Safe AtEnd (parse_unit no_room (lexed (lex_all good_source)))
parse_unit-Safe_example =
    parse_unit-Safe no_room good_source (lexed (lex_all good_source)) outcomes.0

abbrev token_of : TokKind → Token
token_of k = record { kind = k; text = []; line = 1; col = 1; len = 1; ordinal = 1 }

abbrev at_let : Parser
at_let = record {
  prev = none;
  rest =
      token_of L.kw_let
      ∷ (token_of L.ident ∷ (token_of L.ident ∷ (token_of L.assign ∷ (token_of L.eof ∷ []))));
  next_id = 1;
  block_arena = empty_arena;
  reallocates = no_room;
}

let_rejected_example : parse_stmt 1 at_let ≡ err expected_expression
let_rejected_example =
    let_rejected 0 at_let (token_of L.kw_let) (token_of L.ident) (token_of L.assign)
      (some (token_of L.ident)) (token_of L.eof ∷ []) refl refl refl refl

-- `a + b * c` and `a || b`.
abbrev named : ℕ → Token
named c = record { kind = L.ident; text = c ∷ []; line = 1; col = 1; len = 1; ordinal = 1 }

abbrev leaf : ℕ → G.Tree
leaf c = G.Tree.name (c ∷ [])

abbrev sum_tokens : List Token
sum_tokens = named 97 ∷ (token_of L.plus ∷ (named 98 ∷ (token_of L.star ∷ (named 99 ∷ []))))

abbrev from_tokens : List Token → Parser
from_tokens ts = record {
  prev = none;
  rest = ts;
  next_id = 1;
  block_arena = empty_arena;
  reallocates = no_room;
}

eof_Quiet : Quiet (token_of L.eof)
eof_Quiet = record { newline_no = refl; dot_no = refl; paren_no = refl }

product_Written :
    Written 61
      (G.Tree.binary BinOp.mul (leaf 98) (leaf 99))
      (named 98 ∷ (token_of L.star ∷ (named 99 ∷ [])))
product_Written =
    G.Written.binary 61 BinOp.mul (leaf 98) (leaf 99) (token_of L.star) (named 98 ∷ [])
      (named 99 ∷ []) G.Writes.star (omega arith) (G.Written.name 70 (named 98) refl)
      (G.Written.name 71 (named 99) refl)

sum_Written :
    Written 0
      (G.Tree.binary BinOp.add (leaf 97) (G.Tree.binary BinOp.mul (leaf 98) (leaf 99)))
      sum_tokens
sum_Written =
    G.Written.binary 0 BinOp.add (leaf 97) (G.Tree.binary BinOp.mul (leaf 98) (leaf 99))
      (token_of L.plus) (named 97 ∷ []) (named 98 ∷ (token_of L.star ∷ (named 99 ∷ [])))
      G.Writes.plus (omega arith) (G.Written.name 60 (named 97) refl) product_Written

eof_unbound : (binds 0 (infix_prec L.eof) ≡ none) × (binds 30 (infix_prec L.eof) ≡ none)
unfolding infix_prec
eof_unbound = (refl, refl)

parse_expr-reads_example :
    (e : Expr) × (s2 : Parser) × (parse_expr 0 (from_tokens (sum_tokens ++ (token_of L.eof ∷ [])))
      ≡ ok (e, s2))
    × IsTree (G.Tree.binary BinOp.add (leaf 97) (G.Tree.binary BinOp.mul (leaf 98) (leaf 99))) e
    × (s2.rest ≡ token_of L.eof ∷ [])
parse_expr-reads_example =
    parse_expr-reads 0
      (G.Tree.binary BinOp.add (leaf 97) (G.Tree.binary BinOp.mul (leaf 98) (leaf 99))) sum_tokens
      [] (token_of L.eof) (from_tokens (sum_tokens ++ (token_of L.eof ∷ []))) sum_Written refl
      eof_Quiet eof_unbound.0

gt_bounds : (binds 0 (infix_prec L.eof) ≡ none) × (binds 51 (infix_prec L.eof) ≡ none)
unfolding infix_prec
gt_bounds = (refl, refl)

gt_read_example :
    (e : Expr) × (s2 : Parser) × (parse_expr 0
        (from_tokens (named 97 ∷ (token_of L.gt ∷ (named 98 ∷ (token_of L.eof ∷ [])))))
      ≡ ok (e, s2))
    × IsTree (G.Tree.binary BinOp.gte (leaf 97) (leaf 98)) e
    × (s2.rest ≡ token_of L.eof ∷ [])
gt_read_example =
    gt_read 0 (leaf 97) (leaf 98) (named 97 ∷ []) (named 98 ∷ []) [] (token_of L.gt)
      (token_of L.eof)
      (from_tokens (named 97 ∷ (token_of L.gt ∷ (named 98 ∷ (token_of L.eof ∷ []))))) (omega arith)
      (G.Written.name 50 (named 97) refl) (G.Written.name 51 (named 98) refl) refl refl eof_Quiet
      gt_bounds.1 gt_bounds.0

or_refused_example :
    parse_expr 0 (from_tokens (named 97 ∷ (token_of L.or_or ∷ (named 98 ∷ (token_of L.eof ∷ [])))))
    ≡ err unhandled_operator
or_refused_example =
    or_refused 0 (leaf 97) (leaf 98) (named 97 ∷ []) (named 98 ∷ []) [] (token_of L.or_or)
      (token_of L.eof)
      (from_tokens (named 97 ∷ (token_of L.or_or ∷ (named 98 ∷ (token_of L.eof ∷ [])))))
      (omega arith) (G.Written.name 30 (named 97) refl) (G.Written.name 30 (named 98) refl) refl
      refl eof_Quiet eof_unbound.1
