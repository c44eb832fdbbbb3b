-- ===== src/Canon.antt =====
-- Rane_resolver.cpp, `struct CanonWriter`: the printer of the canonical surface text. A block is written
-- through its pointer into the arena, on a unit of fuel for each step into a block of the arena.
pub mod Literal
pub mod Below
pub mod Ends
pub mod Tests
use rane_processing_language.Base.{
  ℕ, zero, suc, ◌+◌, ◌-◌, Bool, true, false, List, [], ◌∷◌, ◌++◌, Option, none, some, ◌==◌,
  if◌then◌else◌, get_elem?,
}
use rane_processing_language.Base.Result.{Result, ok, err, ◌>>=◌}
use rane_processing_language.Syntax.{
  UnOp, BinOp, Expr, Exprs, no_args, arg, BlockPtr, SwitchCase, Stmt, Block, BlockArena, ProcDecl,
}
use rane_processing_language.Syntax as S
use rane_processing_language.Parser.Statements.{decimal}

-- A pointer into a buffer that the vector has left, which the source reads all the same; one that names
-- no block of the arena; and fuel that is too little.
pub data WriteFault : Type 0 where
  dangling no_block no_fuel : WriteFault

pub record CanonWriter : Type 0 where
  pub out : List ℕ
  pub indent : ℕ

abbrev pub Write : Type 0
Write = CanonWriter → Result WriteFault CanonWriter

infixl 1 ◌then_◌
abbrev pub ◌then_◌ : Write → Write → Write
a then_ b = λ o. a o >>= b

abbrev pub w : List ℕ → Write
w text o = ok (record o { out = o.out ++ text })

abbrev pub spaces : ℕ → List ℕ
spaces zero = []
spaces (suc n) = 32 ∷ 32 ∷ spaces n

abbrev pub nl : Write
nl o = w (10 ∷ spaces o.indent) o

abbrev pub deeper : Write
deeper o = ok (record o { indent = o.indent + 1 })

abbrev pub shallower : Write
shallower o = ok (record o { indent = o.indent - 1 })

unfoldable pub binop_str : BinOp → List ℕ
binop_str BinOp.add = 43 ∷ []
binop_str BinOp.sub = 45 ∷ []
binop_str BinOp.mul = 42 ∷ []
binop_str BinOp.div = 47 ∷ []
binop_str BinOp.mod_op = 37 ∷ []
binop_str BinOp.shl = 60 ∷ 60 ∷ []
binop_str BinOp.shr = 62 ∷ 62 ∷ []
binop_str BinOp.lt = 60 ∷ []
binop_str BinOp.lte = 60 ∷ 61 ∷ []
binop_str BinOp.gt = 62 ∷ []
binop_str BinOp.gte = 62 ∷ 61 ∷ []
binop_str BinOp.eq = 61 ∷ 61 ∷ []
binop_str BinOp.ne = 33 ∷ 61 ∷ []
binop_str BinOp.bit_and = 38 ∷ []
binop_str BinOp.bit_xor = 94 ∷ []
binop_str BinOp.bit_or = 124 ∷ []
binop_str BinOp.and = 38 ∷ 38 ∷ []
binop_str BinOp.or = 124 ∷ 124 ∷ []

unfoldable pub unop_str : UnOp → List ℕ
unop_str UnOp.neg = 45 ∷ []
unop_str UnOp.not = 33 ∷ []
unop_str UnOp.bit_not = 126 ∷ []

-- The characters of a string literal between its quotes.
unfoldable pub escaped : List ℕ → List ℕ
escaped [] = []
escaped (c ∷ cs) =
    let rest = escaped cs in
    if c == 92
    then (92 ∷ 92 ∷ rest)
    else if c == 34
    then (92 ∷ 34 ∷ rest)
    else if c == 10
    then (92 ∷ 110 ∷ rest)
    else (c ∷ rest)

abbrev pub literal : List ℕ → List ℕ
literal s = 34 ∷ escaped s ++ 34 ∷ []

-- What `emit_expr` writes.
unfoldable mutual
  pub expr_text : Expr → List ℕ
  expr_text (S.int_expr h v) = decimal 20 v
  expr_text (S.string_expr h s) = literal s
  expr_text (S.ident_expr h name) = name
  expr_text (S.unary_expr h op e) = unop_str op ++ expr_text e
  expr_text (S.binary_expr h op a b) =
      40 ∷ expr_text a ++ 32 ∷ binop_str op ++ 32 ∷ expr_text b ++ 41 ∷ []
  expr_text (S.member_expr h base member) = expr_text base ++ 46 ∷ member
  expr_text (S.call_expr h callee args) = expr_text callee ++ 40 ∷ args_text args ++ 41 ∷ []

  pub args_text : Exprs → List ℕ
  args_text no_args = []
  args_text (arg a rest) = expr_text a ++ more_args rest

  -- The arguments behind the first, each behind a comma.
  pub more_args : Exprs → List ℕ
  more_args no_args = []
  more_args (arg a rest) = 44 ∷ 32 ∷ expr_text a ++ more_args rest

abbrev pub emit_expr : Expr → Write
emit_expr e = w (expr_text e)

-- `"return"`
abbrev text_return : List ℕ
text_return = 114 ∷ 101 ∷ 116 ∷ 117 ∷ 114 ∷ 110 ∷ []

-- `"let "`
abbrev text_let : List ℕ
text_let = 108 ∷ 101 ∷ 116 ∷ 32 ∷ []

-- `": "`
abbrev text_type : List ℕ
text_type = 58 ∷ 32 ∷ []

-- `" = "`
abbrev text_becomes : List ℕ
text_becomes = 32 ∷ 61 ∷ 32 ∷ []

-- `"if ("`
abbrev text_if : List ℕ
text_if = 105 ∷ 102 ∷ 32 ∷ 40 ∷ []

-- `") "`
abbrev text_close_if : List ℕ
text_close_if = 41 ∷ 32 ∷ []

-- `" else "`
abbrev text_else : List ℕ
text_else = 32 ∷ 101 ∷ 108 ∷ 115 ∷ 101 ∷ 32 ∷ []

-- `"switch "`
abbrev text_switch : List ℕ
text_switch = 115 ∷ 119 ∷ 105 ∷ 116 ∷ 99 ∷ 104 ∷ 32 ∷ []

-- `"case "`
abbrev text_case : List ℕ
text_case = 99 ∷ 97 ∷ 115 ∷ 101 ∷ 32 ∷ []

-- `"default: "`
abbrev text_default : List ℕ
text_default = 100 ∷ 101 ∷ 102 ∷ 97 ∷ 117 ∷ 108 ∷ 116 ∷ 58 ∷ 32 ∷ []

-- `"try "`
abbrev text_try : List ℕ
text_try = 116 ∷ 114 ∷ 121 ∷ 32 ∷ []

-- `" finally "`
abbrev text_finally : List ℕ
text_finally = 32 ∷ 102 ∷ 105 ∷ 110 ∷ 97 ∷ 108 ∷ 108 ∷ 121 ∷ 32 ∷ []

-- `"proc "`
abbrev text_proc : List ℕ
text_proc = 112 ∷ 114 ∷ 111 ∷ 99 ∷ 32 ∷ []

-- `" () {"`
abbrev text_no_params : List ℕ
text_no_params = 32 ∷ 40 ∷ 41 ∷ 32 ∷ 123 ∷ []

abbrev is_empty : List ℕ → Bool
is_empty [] = true
is_empty (c ∷ cs) = false

-- The statements with a block, for a writer `at` of the block that a pointer names.
unfoldable pub emit_else : (BlockPtr → Write) → Option BlockPtr → Write
emit_else at none = ok
emit_else at (some b) = w text_else then_ at b

unfoldable pub emit_default : (BlockPtr → Write) → Option BlockPtr → Write
emit_default at none = ok
emit_default at (some b) = nl then_ w text_default then_ at b

unfoldable pub emit_cases : (BlockPtr → Write) → List SwitchCase → Write
emit_cases at [] = ok
emit_cases at (c ∷ cs) =
    nl
    then_ w text_case
    then_ w (decimal 20 c.value)
    then_ w (58 ∷ 32 ∷ [])
    then_ at c.body
    then_ emit_cases at cs

unfoldable pub emit_stmt : (BlockPtr → Write) → Stmt → Write
emit_stmt at (S.return_stmt h none) = w text_return then_ w (59 ∷ [])
emit_stmt at (S.return_stmt h (some e)) =
    w text_return then_ w (32 ∷ []) then_ emit_expr e then_ w (59 ∷ [])
emit_stmt at (S.let_stmt h name type_name init) =
    w text_let
    then_ w name
    then_ (if is_empty type_name then ok else (w text_type then_ w type_name))
    then_ w text_becomes
    then_ emit_expr init
    then_ w (59 ∷ [])
emit_stmt at (S.expr_stmt h e) = emit_expr e then_ w (59 ∷ [])
emit_stmt at (S.if_stmt h cond then_blk else_blk) =
    w text_if
    then_ emit_expr cond
    then_ w text_close_if
    then_ at then_blk
    then_ emit_else at else_blk
emit_stmt at (S.switch_stmt h scrutinee cases default_blk) =
    w text_switch
    then_ emit_expr scrutinee
    then_ w (32 ∷ [])
    then_ w (123 ∷ [])
    then_ deeper
    then_ emit_cases at cases
    then_ emit_default at default_blk
    then_ shallower
    then_ nl
    then_ w (125 ∷ [])
emit_stmt at (S.try_finally_stmt h try_blk finally_blk) =
    w text_try then_ at try_blk then_ w text_finally then_ at finally_blk

unfoldable pub emit_stmts : (BlockPtr → Write) → List Stmt → Write
emit_stmts at [] = ok
emit_stmts at (st ∷ sts) = nl then_ emit_stmt at st then_ emit_stmts at sts

unfoldable pub emit_block : (BlockPtr → Write) → Block → Write
emit_block at b =
    w (123 ∷ [])
    then_ deeper
    then_ emit_stmts at b.stmts
    then_ shallower
    then_ nl
    then_ w (125 ∷ [])

-- `emit_block(*p)`.
unfoldable pub emit_at : ℕ → BlockArena → BlockPtr → Write
emit_at zero arena p o = err no_fuel
emit_at (suc f) arena p o = elim (p.buffer == arena.buffer) [
  | false ↦ err dangling
  | true ↦ elim (get_elem? arena.blocks p.index) [
    | none ↦ err no_block
    | some b ↦ emit_block (emit_at f arena) b o
  ]
]

unfoldable pub emit_proc : ℕ → BlockArena → ProcDecl → Write
emit_proc f arena p =
    w (text_proc ++ p.name ++ text_no_params)
    then_ deeper
    then_ emit_block (emit_at f arena) p.body
    then_ shallower
    then_ w (125 ∷ [])

-- The loop of `ciam_pass_run` over the procedures.
unfoldable pub emit_procs : ℕ → BlockArena → List ProcDecl → Write
emit_procs f arena [] = ok
emit_procs f arena (p ∷ ps) = emit_proc f arena p then_ emit_procs f arena ps
