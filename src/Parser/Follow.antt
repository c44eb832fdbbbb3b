-- ===== src/Parser/Follow.antt =====
-- Rane_resolver.cpp, `parse_expr_bp`: what the loop over operators does behind an operand that is read.
use rane_processing_language.Base.{
  ℕ, suc, ◌+◌, ◌-◌, ◌≤◌, ◌<◌, ◌≡◌, refl, sym, ap, ◌∙◌, arith, List, ◌∷◌, none, some, Option-cases,
  inl, inr,
}
use rane_processing_language.Base.Result.{Result, ok}
use rane_processing_language.Lexer as L
use rane_processing_language.Lexer.{TokKind, Token}
use rane_processing_language.Syntax.{NodeHeader, UnOp, BinOp, Expr}
use rane_processing_language.Syntax as S
use rane_processing_language.Parser.{Parser, ParseFault, kind_code, merge_span}
use rane_processing_language.Parser.Expressions.{
  infix_prec, binds, parse_prefix, parse_expr_bp, parse_infix,
}
use rane_processing_language.Parser.Grammar.{
  MadeOf, Tree, name, string, number, unary, binary, Written, past_dot, prefix_facts, at_most_70,
  WritesPrefix, Writes, power, IsTree, with_hdr-IsTree, tables_agree,
}
use rane_processing_language.Parser.Grammar as G
use rane_processing_language.Parser.Runs.{
  Quiet, header, next, behind, steps, last_at, infix_stops, infix_takes,
}

-- What stands behind an expression: a quiet token that binds at most as tightly as `p`.
pub record Follow (p : ℕ) (more : List Token) : Type 0 where
  pub head : Token
  pub tail : List Token
  pub split : more ≡ head ∷ tail
  pub quiet : Quiet head
  pub loose : (l r : ℕ) → infix_prec head.kind ≡ some (l, r) → l ≤ p

-- The tree is read, and the loop over operators goes on behind it with fuel to spare.
pub record Reads (x : Tree) (more : List Token) (min_bp c : ℕ)
    (run : Result ParseFault (Expr × Parser)) : Type 0 where
  pub e : Expr
  pub s : Parser
  pub f : ℕ
  pub first : Token
  pub last : Token
  pub runs : run ≡ parse_infix (suc f) min_bp first e s
  pub tree : IsTree x e
  pub left : s.rest ≡ more
  pub moved : s.prev ≡ some last
  pub spare : c ≤ f

-- A prefix that ends at `s`, and the loop behind it.
pub from_prefix :
    {x : Tree} {more : List Token} (min_bp c f : ℕ) (s s1 : Parser) (e : Expr) (last : Token)
    → parse_prefix (suc f) s ≡ ok (e, s1)
    → IsTree x e
    → s1.rest ≡ more
    → s1.prev ≡ some last
    → c ≤ f
    → Reads x more min_bp c (parse_expr_bp (suc (suc f)) min_bp s)
unfolding parse_expr_bp
from_prefix min_bp c f s s1 e last run t r m le = record {
  e = e;
  s = s1;
  f = f;
  first = last;
  last = last;
  runs = steps _ run (steps _ (last_at s1 last m) refl);
  tree = t;
  left = r;
  moved = m;
  spare = le;
}

pub no_binding :
    (p m : ℕ) (k : TokKind)
    → ((l r : ℕ) → infix_prec k ≡ some (l, r) → l ≤ p)
    → p < m
    → binds m (infix_prec k) ≡ none
no_binding p m k loose lt = elim (Option-cases (infix_prec k)) [
  | inl z ↦ rw z refl
  | inr ((l, r), z) ↦ let le : l ≤ p = loose l r z in rw z (ground (arith, le, lt))
]

-- Where what follows does not bind, the loop stops, and the tree is the result.
pub finish :
    {x : Tree} {more : List Token} (p m c : ℕ) {run : Result ParseFault (Expr × Parser)}
    (w : Follow p more)
    → binds m (infix_prec w.head.kind) ≡ none
    → Reads x more m c run
    → (e : Expr) × (s : Parser) × (last : Token) × (run ≡ ok (e, s))
      × IsTree x e
      × (s.rest ≡ more)
      × (s.prev ≡ some last)
finish p m c w b d = (
  d.e,
  d.s,
  d.last,
  d.runs ∙ infix_stops d.f m d.first d.e d.s w.head w.tail (d.left ∙ w.split) w.quiet.newline_no b,
  d.tree,
  d.left,
  d.moved,
)

-- The tokens of operators and parentheses.
pub operator_Quiet : (o : Token) (op : BinOp) → MadeOf o.kind op → Quiet o
operator_Quiet o op w =
    let lt : 33 < kind_code o.kind = w.past in
    record {
      newline_no = ground (arith, lt);
      dot_no = ground (arith, lt);
      paren_no = ground (arith, lt);
    }

pub follow_operator :
    (o : Token) (op : BinOp) (ts : List Token) → MadeOf o.kind op → Follow (power op) (o ∷ ts)
follow_operator o op ts w = record {
  head = o;
  tail = ts;
  split = refl;
  quiet = operator_Quiet o op w;
  loose = λ l r q.
      let same : some (power op, power op + 1) ≡ some (l, r) = sym w.binding ∙ q in
      let eq : power op ≡ l = cc same in omega (arith, eq);
}

pub paren_unbound :
    (c : Token) → c.kind ≡ L.r_paren → (l r : ℕ) → infix_prec c.kind ≡ some (l, r) → l ≤ 0
unfolding infix_prec
paren_unbound c z l r q = absurd (cc (ap infix_prec (sym z) ∙ q))

abbrev pub follow_paren : (c : Token) (ts : List Token) → c.kind ≡ L.r_paren → Follow 0 (c ∷ ts)
follow_paren c ts z = record {
  head = c;
  tail = ts;
  split = refl;
  quiet = record { newline_no = rw z refl; dot_no = rw z refl; paren_no = rw z refl };
  loose = paren_unbound c z;
}

pub three : (f : ℕ) → 3 ≤ f → (g : ℕ) × (f ≡ suc (suc (suc g)))
three f le = (f - 3, omega (arith, le))

binds_tightly : (m n : ℕ) → m ≤ n → binds m (some (n, n + 1)) ≡ some (n + 1)
binds_tightly m n le = ground (arith, le)

pub below :
    (p : ℕ) (k : TokKind)
    → binds p (infix_prec k) ≡ none
    → (l r : ℕ) → infix_prec k ≡ some (l, r)
    → l ≤ p
below p k b l r q =
    let open_bound : binds p (some (l, r)) ≡ none = ap (binds p) (sym q) ∙ b in
    ground (arith, open_bound)

-- The right operand and its node, behind a left operand that is read.
pub with_right :
    {a b : Tree} {more ts : List Token} (m c n q : ℕ) (op : BinOp) (o : Token)
    {run : Result ParseFault (Expr × Parser)}
    → MadeOf o.kind op
    → m ≤ power op
    → q ≡ power op + 1
    → (d : Reads a (o ∷ ts) m n run) → c + 1 ≤ n
    → (e : Expr) (s : Parser) (last : Token)
    → parse_expr_bp d.f q (behind d.s o ts d.s.next_id) ≡ ok (e, s)
    → IsTree b e
    → s.rest ≡ more
    → s.prev ≡ some last
    → Reads (binary op a b) more m c run
with_right m c n q op o w le z d enough e s last run t r p =
    let quiet : Quiet o = operator_Quiet o op w in
    let spare : c + 1 ≤ d.f = omega (arith, enough, d.spare) in
    let more_fuel : d.f ≡ suc (d.f - 1) = omega (arith, spare) in
    record {
      e =
          S.binary_expr (header s S.NodeKind.binary_expr d.first last (merge_span d.first last)) op
            d.e e;
      s = record s { next_id = next s };
      f = d.f - 1;
      first = d.first;
      last = last;
      runs =
          d.runs
          ∙ infix_takes d.f m q d.first o last op d.e e d.s s _ d.left quiet.newline_no
              (rw (w.binding, z) (binds_tightly m (power op) le)) w.made run p
          ∙ ap
              (λ f.
                parse_infix f m d.first
                  (S.binary_expr
                    (header s S.NodeKind.binary_expr d.first last (merge_span d.first last)) op d.e
                    e)
                  (record s { next_id = next s }))
              more_fuel;
      tree = G.IsTree.binary _ op _ _ d.e e d.tree t;
      left = r;
      moved = p;
      spare = omega (arith, spare);
    }

pub follow_le : (p q : ℕ) {more : List Token} → p ≤ q → Follow p more → Follow q more
follow_le p q le w = record {
  head = w.head;
  tail = w.tail;
  split = w.split;
  quiet = w.quiet;
  loose = λ l r z. let fits : l ≤ p = w.loose l r z in omega (arith, le, fits);
}

pub paren_stops : (c : Token) → c.kind ≡ L.r_paren → binds 0 (infix_prec c.kind) ≡ none
unfolding infix_prec
paren_stops c q = rw q refl

-- A prefix operator's bound is above every infix operator.
pub loosen : {p : ℕ} {more : List Token} → Follow p more → Follow 80 more
loosen w = record {
  head = w.head;
  tail = w.tail;
  split = w.split;
  quiet = w.quiet;
  loose = λ l r q. let le : l ≤ 70 = at_most_70 w.head.kind l r q in omega (arith, le);
}
