-- ===== src/Parser/Grammar.antt =====
-- The grammar of expressions that Rane_resolver.cpp's `parse_expr_bp` is held against: a tree, the table
-- of powers, and the token lists that a tree may be written as. Names, literals, prefix operators, parentheses and
-- the infix operators but `>` and `||`; calls and members have no place in it. The levels are those of
-- grammar.ebnf but for one pair, where the parser's table is followed: there `^` binds tighter than `|`, and in
-- grammar.ebnf `|` binds tighter than `^` (Parser/LevelTests.antt compares the two).
use rane_processing_language.Base.{
  ℕ, ◌+◌, ◌≤◌, ◌<◌, ◌≡◌, refl, arith, true, false, List, [], ◌∷◌, ◌++◌, Option, none, some,
}
use rane_processing_language.Lexer as L
use rane_processing_language.Lexer.{TokKind, Token}
use rane_processing_language.Syntax.{UnOp, BinOp, Expr}
use rane_processing_language.Syntax as S
use rane_processing_language.Parser.{kind_code, is, stoll, cleaned}
use rane_processing_language.Parser.Expressions.{
  infix_prec, binop_of, is_prefix_op, unop_of, with_hdr,
}

pub data Tree : Type 0 where
  name string : List ℕ → Tree
  number : ℕ → Tree
  unary : UnOp → Tree → Tree
  binary : BinOp → Tree → Tree → Tree

-- How tightly an operator binds. No token writes `gt` or `or`: the parser makes `gte` of `>`, and refuses `||`.
abbrev pub power : BinOp → ℕ
power BinOp.mul = 70
power BinOp.div = 70
power BinOp.mod_op = 70
power BinOp.add = 60
power BinOp.sub = 60
power BinOp.shl = 55
power BinOp.shr = 55
power BinOp.lt = 50
power BinOp.lte = 50
power BinOp.gt = 50
power BinOp.gte = 50
power BinOp.eq = 45
power BinOp.ne = 45
power BinOp.bit_and = 40
power BinOp.bit_xor = 39
power BinOp.bit_or = 38
power BinOp.and = 30
power BinOp.or = 29

-- The kinds of token that an operator is written as.
pub data Writes : TokKind → BinOp → Type 0 where
  star : Writes L.star BinOp.mul
  slash : Writes L.slash BinOp.div
  percent : Writes L.percent BinOp.mod_op
  plus : Writes L.plus BinOp.add
  minus : Writes L.minus BinOp.sub
  shl : Writes L.shl BinOp.shl
  shr : Writes L.shr BinOp.shr
  lt : Writes L.lt BinOp.lt
  lte : Writes L.lte BinOp.lte
  gte : Writes L.gte BinOp.gte
  eq_eq : Writes L.eq_eq BinOp.eq
  not_eq : Writes L.not_eq BinOp.ne
  amp : Writes L.amp BinOp.bit_and
  caret : Writes L.caret BinOp.bit_xor
  pipe : Writes L.pipe BinOp.bit_or
  and_and : Writes L.and_and BinOp.and

pub data WritesPrefix : TokKind → UnOp → Type 0 where
  minus : WritesPrefix L.minus UnOp.neg
  bang : WritesPrefix L.bang UnOp.not
  tilde : WritesPrefix L.tilde UnOp.bit_not

-- A tree written as tokens where the operators outside parentheses have the power `p` at least. The left
-- operand may have the operator's own power, the right one must have more.
pub data Written : ℕ → Tree → List Token → Type 0 where
  name : (p : ℕ) (t : Token) → t.kind ≡ L.ident → Written p (Tree.name t.text) (t ∷ [])
  string : (p : ℕ) (t : Token) → t.kind ≡ L.string_lit → Written p (Tree.string t.text) (t ∷ [])
  number :
      (p v : ℕ) (t : Token)
      → t.kind ≡ L.int_lit
      → stoll (cleaned t.text) ≡ some v
      → Written p (Tree.number v) (t ∷ [])
  unary :
      (p : ℕ) (op : UnOp) (x : Tree) (o : Token) (xs : List Token)
      → WritesPrefix o.kind op
      → Written 80 x xs
      → Written p (Tree.unary op x) (o ∷ xs)
  binary :
      (p : ℕ) (op : BinOp) (a b : Tree) (o : Token) (xs ys : List Token)
      → Writes o.kind op
      → p ≤ power op
      → Written (power op) a xs
      → Written (power op + 1) b ys
      → Written p (Tree.binary op a b) (xs ++ o ∷ ys)
  parens :
      (p : ℕ) (x : Tree) (l r : Token) (xs : List Token)
      → l.kind ≡ L.l_paren
      → r.kind ≡ L.r_paren
      → Written 0 x xs
      → Written p x (l ∷ xs ++ r ∷ [])

-- An expression of the parser that is the tree, whatever its headers are.
pub data IsTree : Tree → Expr → Type 0 where
  name : (h : S.NodeHeader) (n : List ℕ) → IsTree (Tree.name n) (S.ident_expr h n)
  string : (h : S.NodeHeader) (n : List ℕ) → IsTree (Tree.string n) (S.string_expr h n)
  number : (h : S.NodeHeader) (v : ℕ) → IsTree (Tree.number v) (S.int_expr h v)
  unary :
      (h : S.NodeHeader) (op : UnOp) (x : Tree) (e : Expr)
      → IsTree x e
      → IsTree (Tree.unary op x) (S.unary_expr h op e)
  binary :
      (h : S.NodeHeader) (op : BinOp) (a b : Tree) (d e : Expr)
      → IsTree a d
      → IsTree b e
      → IsTree (Tree.binary op a b) (S.binary_expr h op d e)

pub with_hdr-IsTree :
    (f : S.NodeHeader → S.NodeHeader) (x : Tree) (e : Expr) → IsTree x e → IsTree x (with_hdr f e)
unfolding with_hdr
with_hdr-IsTree f _ _ (name h n) = name (f h) n
with_hdr-IsTree f _ _ (string h n) = string (f h) n
with_hdr-IsTree f _ _ (number h v) = number (f h) v
with_hdr-IsTree f _ _ (unary h op x e t) = unary (f h) op x e t
with_hdr-IsTree f _ _ (binary h op a b d e t u) = binary (f h) op a b d e t u

-- The parser's tables agree with the grammar's.
pub tables_agree :
    (k : TokKind) (op : BinOp)
    → Writes k op
    → (infix_prec k ≡ some (power op, power op + 1)) × (binop_of k ≡ some op)
unfolding infix_prec binop_of
tables_agree _ _ star = (refl, refl)
tables_agree _ _ slash = (refl, refl)
tables_agree _ _ percent = (refl, refl)
tables_agree _ _ plus = (refl, refl)
tables_agree _ _ minus = (refl, refl)
tables_agree _ _ shl = (refl, refl)
tables_agree _ _ shr = (refl, refl)
tables_agree _ _ lt = (refl, refl)
tables_agree _ _ lte = (refl, refl)
tables_agree _ _ gte = (refl, refl)
tables_agree _ _ eq_eq = (refl, refl)
tables_agree _ _ not_eq = (refl, refl)
tables_agree _ _ amp = (refl, refl)
tables_agree _ _ caret = (refl, refl)
tables_agree _ _ pipe = (refl, refl)
tables_agree _ _ and_and = (refl, refl)

pub past_dot : (k : TokKind) (op : BinOp) → Writes k op → 33 < kind_code k
past_dot _ _ star = omega arith
past_dot _ _ slash = omega arith
past_dot _ _ percent = omega arith
past_dot _ _ plus = omega arith
past_dot _ _ minus = omega arith
past_dot _ _ shl = omega arith
past_dot _ _ shr = omega arith
past_dot _ _ lt = omega arith
past_dot _ _ lte = omega arith
past_dot _ _ gte = omega arith
past_dot _ _ eq_eq = omega arith
past_dot _ _ not_eq = omega arith
past_dot _ _ amp = omega arith
past_dot _ _ caret = omega arith
past_dot _ _ pipe = omega arith
past_dot _ _ and_and = omega arith

pub prefix_facts :
    (o : Token) (k : TokKind) (op : UnOp)
    → o.kind ≡ k
    → WritesPrefix k op
    → (is_prefix_op o ≡ true) × (is L.newline o ≡ false) × (unop_of o ≡ op)
prefix_facts o _ _ q minus = (rw q refl, rw q refl, rw q refl)
prefix_facts o _ _ q bang = (rw q refl, rw q refl, rw q refl)
prefix_facts o _ _ q tilde = (rw q refl, rw q refl, rw q refl)

abbrev LeftFits : Option (ℕ × ℕ) → Type 0
LeftFits none = Unit {0}
LeftFits (some (l, r)) = l ≤ 70

all_fit : (k : TokKind) → LeftFits (infix_prec k)
unfolding infix_prec
all_fit L.star = omega arith
all_fit L.slash = omega arith
all_fit L.percent = omega arith
all_fit L.plus = omega arith
all_fit L.minus = omega arith
all_fit L.shl = omega arith
all_fit L.shr = omega arith
all_fit L.lt = omega arith
all_fit L.lte = omega arith
all_fit L.gt = omega arith
all_fit L.gte = omega arith
all_fit L.eq_eq = omega arith
all_fit L.not_eq = omega arith
all_fit L.amp = omega arith
all_fit L.caret = omega arith
all_fit L.pipe = omega arith
all_fit L.and_and = omega arith
all_fit L.or_or = omega arith
all_fit _ = tt

pub at_most_70 : (k : TokKind) (l r : ℕ) → infix_prec k ≡ some (l, r) → l ≤ 70
at_most_70 k l r q = rw q at (all_fit k)

-- The parser makes `op` of the tokens of kind `k`.
pub record MadeOf (k : TokKind) (op : BinOp) : Type 0 where
  pub binding : infix_prec k ≡ some (power op, power op + 1)
  pub made : binop_of k ≡ some op
  pub past : 33 < kind_code k

pub Writes-MadeOf : (k : TokKind) (op : BinOp) → Writes k op → MadeOf k op
Writes-MadeOf k op w =
    let (table, made) = tables_agree k op w in
    record { binding = table; made = made; past = past_dot k op w }

pub gt-MadeOf : MadeOf L.gt BinOp.gte
unfolding infix_prec binop_of
gt-MadeOf = record { binding = refl; made = refl; past = omega arith }
