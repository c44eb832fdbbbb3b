-- ===== src/Parser/GtError.antt =====
-- Rane_resolver.cpp, the switch on operators in `parse_expr_bp`: `>` is made the operator of `>=`.
use rane_processing_language.Base.{
  ℕ, ◌+◌, ◌*◌, ◌≤◌, ◌≡◌, refl, sym, ap, ◌∙◌, arith, List, ◌∷◌, ◌++◌, none, length, length-append,
}
use rane_processing_language.Base.Result.{ok}
use mathlib.Core.Path.{subst}
use rane_processing_language.Lexer as L
use rane_processing_language.Lexer.{TokKind, Token}
use rane_processing_language.Syntax.{BinOp, Expr}
use rane_processing_language.Parser.{Parser}
use rane_processing_language.Parser.Expressions.{
  infix_prec, binds, parse_expr_bp, parse_expr, expr_fuel,
}
use rane_processing_language.Parser.Grammar.{Tree, binary, Written, IsTree, MadeOf, gt-MadeOf}
use rane_processing_language.Parser.Runs.{Quiet, behind}
use rane_processing_language.Parser.Climbs.{read}
use rane_processing_language.Parser.Follow.{
  Follow, Reads, follow_operator, with_right, finish, below,
}

-- The tokens of `a > b`, where both operands bind more tightly and `>` binds at the bound, are read as `a >= b`.
pub gt_read :
    (p : ℕ) (x y : Tree) (xs ys more : List Token) (o n : Token) (s : Parser)
    → p ≤ 50
    → Written 50 x xs
    → Written 51 y ys
    → o.kind ≡ L.gt
    → s.rest ≡ xs ++ (o ∷ (ys ++ (n ∷ more)))
    → Quiet n
    → binds 51 (infix_prec n.kind) ≡ none
    → binds p (infix_prec n.kind) ≡ none
    → (e : Expr) × (s2 : Parser) × (parse_expr p s ≡ ok (e, s2))
      × IsTree (binary BinOp.gte x y) e
      × (s2.rest ≡ n ∷ more)
gt_read p x y xs ys more o n s le dx dy k r q b51 bp =
    let ts : List Token = ys ++ (n ∷ more) in
    let size : length s.rest ≡ length xs + (length ts + 1) =
      ap (λ z. length z) r ∙ length-append xs (o ∷ ts) ∙ omega arith in
    let size_right : length ts ≡ length ys + (length more + 1) =
      length-append ys (n ∷ more) ∙ omega arith in
    let makes : MadeOf o.kind BinOp.gte = subst (λ kind. MadeOf kind BinOp.gte) (sym k) gt-MadeOf in
    let left : Reads x (o ∷ ts) p (3 * length ys + 3) (parse_expr p s) =
      read (expr_fuel s) (3 * length ys + 3) p s (o ∷ ts) dx (omega (arith, le))
        (follow_operator o BinOp.gte ts makes) r (omega (arith, size, size_right)) in
    let w : Follow 51 (n ∷ more) = record {
      head = n;
      tail = more;
      split = refl;
      quiet = q;
      loose = below 51 n.kind b51;
    } in
    let at_right : Parser = behind left.s o ts left.s.next_id in
    let room : 3 * length ys + 3 ≤ left.f = left.spare in
    let inner : Reads y (n ∷ more) 51 0 (parse_expr_bp left.f 51 at_right) =
      read left.f 0 51 at_right (n ∷ more) dy (omega arith) w refl (omega (arith, room)) in
    let (e, s2, last, run, t, rest, prev) = finish 51 51 0 w b51 inner in
    let whole : Reads (binary BinOp.gte x y) (n ∷ more) p 0 (parse_expr p s) =
      with_right p 0 (3 * length ys + 3) 51 BinOp.gte o makes le refl left (omega arith) e s2 last
        run t rest prev in
    let (e_whole, s_whole, last_whole, runs, tree, left_over, moved) = finish 51 p 0 w bp whole in
    (e_whole, s_whole, runs, tree, left_over)
