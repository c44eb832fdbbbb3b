-- ===== src/Canon/Ends.antt =====
-- Rane_resolver.cpp, `struct CanonWriter`: on an arena where a block's statements name earlier blocks only, by
-- pointers that do not dangle, the writer ends, and every part of it gives back the indentation that it found.
use rane_processing_language.Base.{
  ℕ, zero, suc, ◌+◌, ◌-◌, ◌≤◌, ◌<◌, ◌≡◌, refl, sym, ap, ◌∙◌, arith, true, ◌==◌, List, [], ◌∷◌, ◌++◌,
  append_assoc, append-nil, Option, none, some, length, All, get_elem?,
}
use rane_processing_language.Base.Result.{Result, ok, ◌>>=◌}
use rane_processing_language.Syntax.{Expr, BlockPtr, SwitchCase, Stmt, Block, BlockArena, ProcDecl}
use rane_processing_language.Syntax as S
use rane_processing_language.Canon.Below.{PtrBelow, OptionBelow, StmtBelow, BlockBelow, Ordered}
use rane_processing_language.Canon.{
  WriteFault, CanonWriter, Write, ◌then_◌, w, spaces, nl, deeper, shallower, emit_else,
  emit_default, emit_cases, emit_stmt, emit_stmts, emit_block, emit_at, emit_proc, emit_procs,
}

-- The writer goes on with the indentation `n`, and has only written behind what was there.
pub record Ends (n : ℕ) (o : CanonWriter) (run : Result WriteFault CanonWriter) : Type 0 where
  pub after : CanonWriter
  pub text : List ℕ
  pub runs : run ≡ ok after
  pub extends : after.out ≡ o.out ++ text
  pub at_indent : after.indent ≡ n

-- From the indentation `k + a`, for any `k`, to `k + b`.
record Shift (a b : ℕ) (p : Write) : Type 0 where
  run : (k : ℕ) (o : CanonWriter) → o.indent ≡ k + a → Ends (k + b) o (p o)

joined :
    {n m : ℕ} {o : CanonWriter} (q : Write) {run : Result WriteFault CanonWriter} (d : Ends n o run)
    → Ends m d.after (q d.after)
    → Ends m o (run >>= q)
joined {o} q d e = record {
  after = e.after;
  text = d.text ++ e.text;
  runs = ap (λ x. x >>= q) d.runs ∙ e.runs;
  extends = e.extends ∙ ap (λ t. t ++ e.text) d.extends ∙ append_assoc o.out d.text e.text;
  at_indent = e.at_indent;
}

module _ {a b c : ℕ} (p q : Write) where
  both : Shift a b p → Shift b c q → Shift a c (p then_ q)
  both x y = record {
    run = λ k o i. let d = x.run k o i in joined q d (y.run k d.after d.at_indent);
  }

nothing : {a : ℕ} → Shift a a ok
nothing = record {
  run = λ k o i. record {
    after = o;
    text = [];
    runs = refl;
    extends = sym (append-nil o.out);
    at_indent = i;
  };
}

plain : {a : ℕ} (text : List ℕ) → Shift a a (w text)
plain text = record {
  run = λ k o i. record {
    after = record o { out = o.out ++ text };
    text = text;
    runs = refl;
    extends = refl;
    at_indent = i;
  };
}

line : {a : ℕ} → Shift a a nl
line = record { run = λ k o i. (plain (10 ∷ spaces o.indent)).run k o i }

down : (a : ℕ) → Shift a (a + 1) deeper
down a = record {
  run = λ k o i. record {
    after = record o { indent = o.indent + 1 };
    text = [];
    runs = refl;
    extends = sym (append-nil o.out);
    at_indent = omega (arith, i);
  };
}

up : (a : ℕ) → Shift (a + 1) a shallower
up a = record {
  run = λ k o i. record {
    after = record o { indent = o.indent - 1 };
    text = [];
    runs = refl;
    extends = sym (append-nil o.out);
    at_indent = omega (arith, i);
  };
}

record WritesBelow (k n : ℕ) (at : BlockPtr → Write) : Type 0 where
  shift : (a : ℕ) (p : BlockPtr) → PtrBelow k n p → Shift a a (at p)

module _ (k n : ℕ) (at : BlockPtr → Write) (ok_at : WritesBelow k n at) where
  else_Shift : (a : ℕ) (b : Option BlockPtr) → OptionBelow k n b → Shift a a (emit_else at b)
  unfolding emit_else
  else_Shift a none h = nothing
  else_Shift a (some i) h = both _ _ (plain _) (ok_at.shift a i h)

  default_Shift : (a : ℕ) (b : Option BlockPtr) → OptionBelow k n b → Shift a a (emit_default at b)
  unfolding emit_default
  default_Shift a none h = nothing
  default_Shift a (some i) h = both _ _ (both _ _ line (plain _)) (ok_at.shift a i h)

  cases_Shift :
      (a : ℕ) (cs : List SwitchCase)
      → All (λ (c : SwitchCase). PtrBelow k n c.body) cs
      → Shift a a (emit_cases at cs)
  unfolding emit_cases
  cases_Shift a [] h = nothing
  cases_Shift a (c ∷ cs) h =
      both _ _
        (both _ _ (both _ _ (both _ _ (both _ _ line (plain _)) (plain _)) (plain _))
          (ok_at.shift a c.body h.0))
        (cases_Shift a cs h.1)

  -- Behind `p` a text, or a block.
  texted : {a b : ℕ} {p : Write} (text : List ℕ) → Shift a b p → Shift a b (p then_ w text)
  texted text x = both _ _ x (plain text)

  blocked :
      {a b : ℕ} {p : Write} (i : BlockPtr) → PtrBelow k n i → Shift a b p → Shift a b (p then_ at i)
  blocked {b} i h x = both _ _ x (ok_at.shift b i h)

  stmt_Shift : (a : ℕ) (st : Stmt) → StmtBelow k n st → Shift a a (emit_stmt at st)
  unfolding emit_stmt
  stmt_Shift a (S.return_stmt h none) below = texted _ (plain _)
  stmt_Shift a (S.return_stmt h (some e)) below = texted _ (texted _ (texted _ (plain _)))
  stmt_Shift a (S.let_stmt h name [] init) below =
      texted _ (texted _ (texted _ (both _ _ (texted _ (plain _)) nothing)))
  stmt_Shift a (S.let_stmt h name (c ∷ cs) init) below =
      texted _ (texted _ (texted _ (both _ _ (texted _ (plain _)) (texted _ (plain _)))))
  stmt_Shift a (S.expr_stmt h e) below = texted _ (plain _)
  stmt_Shift a (S.if_stmt h cond then_blk else_blk) below =
      both _ _ (blocked then_blk below.0 (texted _ (texted _ (plain _))))
        (else_Shift a else_blk below.1)
  stmt_Shift a (S.switch_stmt h scrutinee cases default_blk) below =
      let opened : Shift a (a + 1) _ =
        both _ _ (texted _ (texted _ (texted _ (plain _)))) (down a) in
      texted _ (
        both _ _
          (both _ _
            (both _ _ (both _ _ opened (cases_Shift (a + 1) cases below.0))
              (default_Shift (a + 1) default_blk below.1))
            (up a))
          line)
  stmt_Shift a (S.try_finally_stmt h try_blk finally_blk) below =
      blocked finally_blk below.1 (texted _ (blocked try_blk below.0 (plain _)))

  stmts_Shift : (a : ℕ) (sts : List Stmt) → All (StmtBelow k n) sts → Shift a a (emit_stmts at sts)
  unfolding emit_stmts
  stmts_Shift a [] below = nothing
  stmts_Shift a (st ∷ sts) below =
      both _ _ (both _ _ line (stmt_Shift a st below.0)) (stmts_Shift a sts below.1)

  block_Shift : (a : ℕ) (b : Block) → BlockBelow k n b → Shift a a (emit_block at b)
  unfolding emit_block
  block_Shift a b below = texted _ (
      both _ _
        (both _ _ (both _ _ (both _ _ (plain _) (down a)) (stmts_Shift (a + 1) b.stmts below))
          (up a))
        line)

elem_at :
    (arena : List Block) (i : ℕ) → i < length arena → (b : Block) × (get_elem? arena i ≡ some b)
elem_at [] i lt = absurd (omega (arith, lt))
elem_at (b ∷ bs) zero lt = (b, refl)
elem_at (b ∷ bs) (suc i) lt = elem_at bs i (omega (arith, lt))

at_Shift :
    (f : ℕ) (arena : BlockArena)
    → Ordered arena
    → (a : ℕ) (p : BlockPtr) → p.index < f
    → PtrBelow arena.buffer (length arena.blocks) p
    → Shift a a (emit_at f arena p)
unfolding emit_at
at_Shift zero arena order a p lt inside = absurd (omega (arith, lt))
at_Shift (suc f) arena order a p lt (same, inside) =
    let (b, found) = elem_at arena.blocks p.index inside in
    let here : (p.buffer == arena.buffer) ≡ true = ground (arith, same) in
    let below : WritesBelow arena.buffer p.index (emit_at f arena) = record {
      shift = λ c q (same', less).
          at_Shift f arena order c q (omega (arith, lt, less)) (same', omega (arith, inside, less));
    } in
    record {
      run = λ k o q.
          rw (here, found, emit_at)
            ((block_Shift arena.buffer p.index (emit_at f arena) below a b
                (order.earlier p.index b found)).run
              k o q);
    }

procs_Shift :
    (f : ℕ) (arena : BlockArena) (ps : List ProcDecl)
    → Ordered arena
    → length arena.blocks ≤ f
    → All (λ (p : ProcDecl). BlockBelow arena.buffer (length arena.blocks) p.body) ps
    → Shift 0 0 (emit_procs f arena ps)
unfolding emit_procs emit_proc
procs_Shift f arena [] order le below = nothing
procs_Shift f arena (p ∷ ps) order le below =
    let writes : WritesBelow arena.buffer (length arena.blocks) (emit_at f arena) = record {
      shift = λ c q h. at_Shift f arena order c q (omega (arith, le, h.1)) h;
    } in
    let body =
      block_Shift arena.buffer (length arena.blocks) (emit_at f arena) writes 1 p.body below.0 in
    both _ _ (both _ _ (both _ _ (both _ _ (both _ _ (plain _) (down 0)) body) (up 0)) (plain _))
      (procs_Shift f arena ps order le below.1)

-- Where the statements of each block name earlier blocks of the arena only, those of the procedures name blocks
-- of the arena, and all by pointers into the buffer that the arena has, the writer ends with as much fuel as the arena
-- has blocks: it finds every block, writes behind what was there, and gives back the indentation that it found.
pub emit_procs-Ends :
    (f : ℕ) (arena : BlockArena) (ps : List ProcDecl) (o : CanonWriter)
    → Ordered arena
    → length arena.blocks ≤ f
    → All (λ (p : ProcDecl). BlockBelow arena.buffer (length arena.blocks) p.body) ps
    → Ends o.indent o (emit_procs f arena ps o)
emit_procs-Ends f arena ps o order le below =
    let d : Ends (o.indent + 0) o (emit_procs f arena ps o) =
      (procs_Shift f arena ps order le below).run o.indent o (omega arith) in
    record {
      after = d.after;
      text = d.text;
      runs = d.runs;
      extends = d.extends;
      at_indent = omega (arith, d.at_indent);
    }
