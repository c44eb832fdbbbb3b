-- ===== src/Canon/Below.antt =====
-- Rane_resolver.cpp, the `Block*` of the syntax: which blocks of an arena a statement or a block names.
use rane_processing_language.Base.{ℕ, ◌<◌, ◌≡◌, Option, none, some, All, get_elem?}
use rane_processing_language.Syntax.{BlockPtr, SwitchCase, Stmt, Block, BlockArena}
use rane_processing_language.Syntax as S

-- A pointer into the buffer `k`, to a block before the `n`th.
abbrev pub PtrBelow : ℕ → ℕ → BlockPtr → Type 0
PtrBelow k n p = (p.buffer ≡ k) × (p.index < n)

abbrev pub OptionBelow : ℕ → ℕ → Option BlockPtr → Type 0
OptionBelow k n none = Unit {0}
OptionBelow k n (some p) = PtrBelow k n p

abbrev pub StmtBelow : ℕ → ℕ → Stmt → Type 0
StmtBelow k n (S.if_stmt h cond then_blk else_blk) =
    PtrBelow k n then_blk × OptionBelow k n else_blk
StmtBelow k n (S.switch_stmt h scrutinee cases default_blk) =
    All (λ (c : SwitchCase). PtrBelow k n c.body) cases × OptionBelow k n default_blk
StmtBelow k n (S.try_finally_stmt h try_blk finally_blk) =
    PtrBelow k n try_blk × PtrBelow k n finally_blk
StmtBelow k n _ = Unit {0}

abbrev pub BlockBelow : ℕ → ℕ → Block → Type 0
BlockBelow k n b = All (StmtBelow k n) b.stmts

-- The statements of each block of the arena name blocks before it, in the buffer that the arena has.
pub record Ordered (arena : BlockArena) : Type 0 where
  pub earlier :
      (i : ℕ) (b : Block) → get_elem? arena.blocks i ≡ some b → BlockBelow arena.buffer i b
