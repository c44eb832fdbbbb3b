-- ===== src/Parser/OrError.antt =====
-- Rane_resolver.cpp, `parse_expr_bp`: `||` has a binding power, and the switch on operators does not have it.
use rane_processing_language.Base.{
  ℕ, suc, ◌+◌, ◌*◌, ◌≤◌, ◌≡◌, refl, sym, ap, ◌∙◌, arith, false, List, ◌∷◌, ◌++◌, none, some, length,
  length-append,
}
use rane_processing_language.Base.Result.{Result, ok, err}
use rane_processing_language.Lexer.{TokKind, Token}
use rane_processing_language.Syntax.{Expr}
use rane_processing_language.Lexer as L
use rane_processing_language.Parser.{
  Parser, ParseFault, unhandled_operator, Parse, perr, continue, is,
}
use rane_processing_language.Parser.Expressions.{
  infix_prec, binop_of, binds, binary_node, parse_expr_bp, parse_infix, expr_fuel, parse_expr,
}
use rane_processing_language.Parser.Grammar.{Tree, Written}
use rane_processing_language.Parser.Runs.{
  Quiet, skip_nothing, cur_at, take_at, behind, steps, last_at,
}
use rane_processing_language.Parser.Climbs.{read}
use rane_processing_language.Parser.Follow.{Follow, Reads, finish, below}

perr_at :
    {A : Type 0} (e : ParseFault) (s : Parser) (t : Token) (ts : List Token)
    → s.rest ≡ t ∷ ts
    → perr {A = A} e s ≡ err e
unfolding perr
perr_at e s t ts r = rw r refl

fails :
    {A : Type 0} {B : Type 0} {x : Result ParseFault (A × Parser)} {e : ParseFault}
    (f : A → Parse B)
    → x ≡ err e
    → continue x f ≡ err e
fails f q = ap (λ y. continue y f) q

-- The loop at an operator that the switch does not have.
infix_refuses :
    (f m rbp : ℕ) (first op last n : Token) (lhs rhs : Expr) (s s2 : Parser) (ts more : List Token)
    → s.rest ≡ op ∷ ts
    → is L.newline op ≡ false
    → binds m (infix_prec op.kind) ≡ some rbp
    → binop_of op.kind ≡ none
    → parse_expr_bp f rbp (behind s op ts s.next_id) ≡ ok (rhs, s2)
    → s2.prev ≡ some last
    → s2.rest ≡ n ∷ more
    → parse_infix (suc f) m first lhs s ≡ err unhandled_operator
unfolding parse_infix binary_node
infix_refuses f m rbp first op last n lhs rhs s s2 ts more r q p o run v rest =
    steps _ (skip_nothing s op ts r q) (
      steps _ (cur_at s op ts r) (
        rw p (
          steps _ (take_at s op ts r) (
            steps _ run (
              fails _ (
                steps _ (last_at s2 last v)
                  (rw o (fails _ (perr_at unhandled_operator s2 n more rest)))))))))

follow_or : (o : Token) (ts : List Token) → o.kind ≡ L.or_or → Follow 30 (o ∷ ts)
unfolding infix_prec
follow_or o ts k = record {
  head = o;
  tail = ts;
  split = refl;
  quiet = record { newline_no = rw k refl; dot_no = rw k refl; paren_no = rw k refl };
  loose = λ l r q.
      let same : some (29, 30) ≡ some (l, r) = ap infix_prec (sym k) ∙ q in
      let low : 29 ≡ l = cc same in omega (arith, low);
}

or_binds :
    (p : ℕ) (o : Token)
    → p ≤ 29
    → o.kind ≡ L.or_or
    → (binds p (infix_prec o.kind) ≡ some 30) × (binop_of o.kind ≡ none)
unfolding infix_prec binop_of
or_binds p o le k = (rw k (ground (arith, le)), rw k refl)

-- The tokens of `a || b`, where both operands bind more tightly and `||` binds at the bound, are always refused
-- with the fault of an operator that is not handled.
pub or_refused :
    (p : ℕ) (x y : Tree) (xs ys more : List Token) (o n : Token) (s : Parser)
    → p ≤ 29
    → Written 30 x xs
    → Written 30 y ys
    → o.kind ≡ L.or_or
    → s.rest ≡ xs ++ (o ∷ (ys ++ (n ∷ more)))
    → Quiet n
    → binds 30 (infix_prec n.kind) ≡ none
    → parse_expr p s ≡ err unhandled_operator
or_refused p x y xs ys more o n s le dx dy k r q b =
    let ts : List Token = ys ++ (n ∷ more) in
    let size : length s.rest ≡ length xs + (length ts + 1) =
      ap (λ z. length z) r ∙ length-append xs (o ∷ ts) ∙ omega arith in
    let size_right : length ts ≡ length ys + (length more + 1) =
      length-append ys (n ∷ more) ∙ omega arith in
    let left : Reads x (o ∷ ts) p (3 * length ys + 3) (parse_expr p s) =
      read (expr_fuel s) (3 * length ys + 3) p s (o ∷ ts) dx (omega (arith, le)) (follow_or o ts k)
        r (omega (arith, size, size_right)) in
    let w : Follow 30 (n ∷ more) = record {
      head = n;
      tail = more;
      split = refl;
      quiet = q;
      loose = below 30 n.kind b;
    } in
    let at_right : Parser = behind left.s o ts left.s.next_id in
    let room : 3 * length ys + 3 ≤ left.f = left.spare in
    let inner : Reads y (n ∷ more) 30 0 (parse_expr_bp left.f 30 at_right) =
      read left.f 0 30 at_right (n ∷ more) dy (omega arith) w refl (omega (arith, room)) in
    let (e, s2, last, run, t, rest, prev) = finish 30 30 0 w b inner in
    let (binding, missing) = or_binds p o le k in
    left.runs
    ∙ infix_refuses left.f p 30 left.first o last n left.e e left.s s2 ts more left.left (rw k refl)
        binding missing run prev rest
