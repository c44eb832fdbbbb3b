-- ===== src/Syntax.antt =====
-- Rane_resolver.cpp: the syntax tree and the arena of blocks of a unit, which statements point into.
-- Strings are lists of bytes.
use rane_processing_language.Base.{ℕ, List, Option}

pub record Span : Type 0 where
  pub line : ℕ
  pub col : ℕ
  pub len : ℕ

pub data NodeKind : Type 0 where
  unit proc_decl block : NodeKind
  return_stmt let_stmt expr_stmt if_stmt switch_stmt try_finally_stmt : NodeKind
  int_expr string_expr ident_expr unary_expr binary_expr call_expr member_expr : NodeKind

pub record NodeHeader : Type 0 where
  pub kind : NodeKind
  pub id : ℕ
  pub span : Span
  pub first_tok : ℕ
  pub last_tok : ℕ

pub data UnOp : Type 0 where
  neg not bit_not : UnOp

pub data BinOp : Type 0 where
  add sub mul div mod_op shl shr lt lte gt gte eq ne bit_and bit_xor bit_or and or : BinOp

-- `Exprs` is the vector of the arguments of a call.
mutual
  pub data Expr : Type 0 where
    int_expr : NodeHeader → ℕ → Expr
    string_expr : NodeHeader → List ℕ → Expr
    ident_expr : NodeHeader → List ℕ → Expr
    unary_expr : NodeHeader → UnOp → Expr → Expr
    binary_expr : NodeHeader → BinOp → Expr → Expr → Expr
    call_expr : NodeHeader → Expr → Exprs → Expr
    member_expr : NodeHeader → Expr → List ℕ → Expr

  pub data Exprs : Type 0 where
    no_args : Exprs
    arg : Expr → Exprs → Exprs

-- A `Block*`: an element of the vector `block_arena`, in the buffer that the vector had when the
-- address was taken. It dangles once the vector has moved to another buffer.
pub record BlockPtr : Type 0 where
  pub buffer : ℕ
  pub index : ℕ

pub record SwitchCase : Type 0 where
  pub value : ℕ
  pub body : BlockPtr
  pub span : Span

pub data Stmt : Type 0 where
  return_stmt : NodeHeader → Option Expr → Stmt
  let_stmt : NodeHeader → List ℕ → List ℕ → Expr → Stmt
  expr_stmt : NodeHeader → Expr → Stmt
  if_stmt : NodeHeader → Expr → BlockPtr → Option BlockPtr → Stmt
  switch_stmt : NodeHeader → Expr → List SwitchCase → Option BlockPtr → Stmt
  try_finally_stmt : NodeHeader → BlockPtr → BlockPtr → Stmt

pub record Block : Type 0 where
  pub h : NodeHeader
  pub stmts : List Stmt

-- The vector `block_arena`: its elements, and the number of the buffer that they are in.
pub record BlockArena : Type 0 where
  pub blocks : List Block
  pub buffer : ℕ

pub record ProcDecl : Type 0 where
  pub h : NodeHeader
  pub name : List ℕ
  pub ret_type : List ℕ
  pub body : Block

pub record CompilationUnit : Type 0 where
  pub h : NodeHeader
  pub procs : List ProcDecl
  pub block_arena : BlockArena
