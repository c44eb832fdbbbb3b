-- ===== src/Parser/Climbs.antt =====
-- Rane_resolver.cpp, `parse_expr_bp`: the parser reads back every tree that the grammar writes.
use rane_processing_language.Base.{
  ℕ, suc, ◌+◌, ◌*◌, ◌≤◌, ◌≡◌, refl, sym, ap, ◌∙◌, arith, List, [], ◌∷◌, ◌++◌, none, some, length,
  append_assoc, length-append,
}
use rane_processing_language.Base.Result.{ok}
use rane_processing_language.Lexer.{TokKind, Token}
use rane_processing_language.Syntax.{Expr}
use rane_processing_language.Parser.Grammar as G
use rane_processing_language.Lexer as L
use rane_processing_language.Parser.{Parser, stoll, cleaned}
use rane_processing_language.Parser.Expressions.{
  infix_prec, binds, parse_expr_bp, expr_fuel, parse_expr,
}
use rane_processing_language.Parser.Grammar.{
  Writes-MadeOf, Tree, name, string, number, unary, binary, Written, past_dot, prefix_facts,
  at_most_70, WritesPrefix, Writes, power, IsTree, with_hdr-IsTree, tables_agree,
}
use rane_processing_language.Parser.Runs.{
  Quiet, behind, name_at, string_at, number_at, operator_at, parens_at,
}
use rane_processing_language.Parser.Follow.{
  Follow, Reads, from_prefix, no_binding, finish, follow_operator, follow_paren, three, below,
  with_right, follow_le, paren_stops, loosen,
}

module _ (c m : ℕ) {more : List Token} {p : ℕ} (w : Follow p more) (g : ℕ) (spare : c ≤ g)
    (s : Parser) (t : Token) where
  on_head : (s.rest ≡ t ∷ more) → s.rest ≡ t ∷ (w.head ∷ w.tail)
  on_head r = r ∙ ap (λ ts. t ∷ ts) w.split

  read_name :
      s.rest ≡ t ∷ more
      → t.kind ≡ L.ident
      → Reads (name t.text) more m c (parse_expr_bp (suc (suc (suc g))) m s)
  read_name r k =
      from_prefix m c (suc g) s _ _ t (name_at g s t w.head w.tail (on_head r) k w.quiet)
        (G.IsTree.name _ _) (sym w.split) refl (omega (arith, spare))

  read_string :
      s.rest ≡ t ∷ more
      → t.kind ≡ L.string_lit
      → Reads (string t.text) more m c (parse_expr_bp (suc (suc (suc g))) m s)
  read_string r k =
      from_prefix m c (suc g) s _ _ t (string_at (suc g) s t more r k) (G.IsTree.string _ _) refl
        refl (omega (arith, spare))

  read_number :
      (v : ℕ)
      → s.rest ≡ t ∷ more
      → t.kind ≡ L.int_lit
      → stoll (cleaned t.text) ≡ some v
      → Reads (number v) more m c (parse_expr_bp (suc (suc (suc g))) m s)
  read_number v r k d =
      from_prefix m c (suc g) s _ _ t (number_at (suc g) v s t more r k d) (G.IsTree.number _ _)
        refl refl (omega (arith, spare))

-- The tree at the front of the tokens is read, whatever follows it loosely.
pub read :
    {p : ℕ} {x : Tree} {xs : List Token} (f c m : ℕ) (s : Parser) (more : List Token)
    → Written p x xs
    → m ≤ p
    → Follow p more
    → s.rest ≡ xs ++ more
    → 3 * length xs + 2 + c ≤ f
    → Reads x more m c (parse_expr_bp f m s)
read f c m s more (name p t k) le w r fuel =
    let (g, enough) = three f (omega (arith, fuel)) in
    rw enough (read_name c m w g (omega (arith, fuel, enough)) s t r k)
read f c m s more (string p t k) le w r fuel =
    let (g, enough) = three f (omega (arith, fuel)) in
    rw enough (read_string c m w g (omega (arith, fuel, enough)) s t r k)
read f c m s more (number p v t k d) le w r fuel =
    let (g, enough) = three f (omega (arith, fuel)) in
    rw enough (read_number c m w g (omega (arith, fuel, enough)) s t v r k d)
read f c m s more (unary p op x o xs k d) le w r fuel =
    let (g, enough) = three f (omega (arith, fuel)) in
    let (pre, line, made) = prefix_facts o o.kind op refl k in
    let w80 : Follow 80 more = loosen w in
    let inner : Reads x more 80 0 (parse_expr_bp (suc g) 80 (behind s o (xs ++ more) s.next_id)) =
      read (suc g) 0 80 (behind s o (xs ++ more) s.next_id) more d (omega arith) w80 refl
        (omega (arith, fuel, enough)) in
    let (e, s2, last, run, t, rest, prev) =
      finish 80 80 0 w80 (no_binding 70 80 w80.head.kind (at_most_70 w80.head.kind) (omega arith))
        inner in
    rw enough (
      from_prefix m c (suc g) s _ _ last
        (operator_at (suc g) s s2 o last (xs ++ more) e r pre line run prev)
        (rw made (G.IsTree.unary _ op x e t)) rest prev (omega (arith, fuel, enough)))
read f c m s more (binary p op a b o xs ys k low da db) le w r fuel =
    let right : ℕ = 3 * length ys + 2 in
    let size : length (xs ++ o ∷ ys) ≡ length xs + (length ys + 1) =
      length-append xs (o ∷ ys) ∙ omega arith in
    let left : Reads a (o ∷ (ys ++ more)) m (right + c + 1) (parse_expr_bp f m s) =
      read f (right + c + 1) m s (o ∷ (ys ++ more)) da (omega (arith, le, low))
        (follow_operator o op (ys ++ more) (Writes-MadeOf o.kind op k))
        (r ∙ append_assoc xs (o ∷ ys) more) (omega (arith, fuel, size)) in
    let at_right : Parser = behind left.s o (ys ++ more) left.s.next_id in
    let room : right + c + 1 ≤ left.f = left.spare in
    let inner : Reads b more (power op + 1) 0 (parse_expr_bp left.f (power op + 1) at_right) =
      read left.f 0 (power op + 1) at_right more db (omega arith)
        (follow_le p (power op + 1) (omega (arith, low)) w) refl (omega (arith, room)) in
    let (e, s2, last, run, t, rest, prev) =
      finish p (power op + 1) 0 w
        (no_binding p (power op + 1) w.head.kind w.loose (omega (arith, low))) inner in
    with_right m c (right + c + 1) (power op + 1) op o (Writes-MadeOf o.kind op k)
      (omega (arith, le, low)) refl left (omega arith) e s2 last run t rest prev
read f c m s more (G.Written.parens p x l z xs kl kz d) le w r fuel =
    let size : length (xs ++ z ∷ []) ≡ length xs + 1 = length-append xs (z ∷ []) ∙ omega arith in
    let (g, enough) = three f (omega (arith, fuel)) in
    let at_inner : Parser = behind s l (xs ++ z ∷ more) s.next_id in
    let inner : Reads x (z ∷ more) 0 0 (parse_expr_bp (suc g) 0 at_inner) =
      read (suc g) 0 0 at_inner (z ∷ more) d (omega arith) (follow_paren z more kz) refl
        (omega (arith, fuel, enough, size)) in
    let (e, s2, last, run, t, rest, prev) =
      finish 0 0 0 (follow_paren z more kz) (paren_stops z kz) inner in
    rw enough (
      from_prefix m c (suc g) s _ _ z
        (parens_at g s s2 l z w.head (xs ++ z ∷ more) w.tail e
          (r ∙ ap (λ ts. l ∷ ts) (append_assoc xs (z ∷ []) more)) kl kz w.quiet run
          (rest ∙ ap (λ ts. z ∷ ts) w.split))
        (with_hdr-IsTree _ x e t) (sym w.split) refl (omega (arith, fuel, enough, size)))

-- Take the expressions of names, literals, prefix operators, parentheses and the infix operators but `>` and `||`,
-- with the powers of the parser's table, where `^` binds tighter than `|`. Of the tokens that write such a tree
-- with operators that bind at least as tightly as the bound, with a token behind them that is no newline, member,
-- call or operator of that power, the parser makes the tree, up to its headers, and it stops in front of that token.
pub parse_expr-reads :
    (p : ℕ) (x : Tree) (xs more : List Token) (n : Token) (s : Parser)
    → Written p x xs
    → s.rest ≡ xs ++ n ∷ more
    → Quiet n
    → binds p (infix_prec n.kind) ≡ none
    → (e : Expr) × (s2 : Parser) × (parse_expr p s ≡ ok (e, s2)) × IsTree x e × (s2.rest ≡ n ∷ more)
parse_expr-reads p x xs more n s d r q b =
    let size : length s.rest ≡ length xs + (length more + 1) =
      ap (λ ts. length ts) r ∙ length-append xs (n ∷ more) ∙ omega arith in
    let w : Follow p (n ∷ more) = record {
      head = n;
      tail = more;
      split = refl;
      quiet = q;
      loose = below p n.kind b;
    } in
    let (e, s2, last, run, t, rest, prev) =
      finish p p 0 w b
        (read (expr_fuel s) 0 p s (n ∷ more) d (omega arith) w r (omega (arith, size))) in
    (e, s2, run, t, rest)
