-- ===== src/Parser/Runs.antt =====
-- Rane_resolver.cpp, `struct Parser`: what the small operations give when the next token is known.
use rane_processing_language.Base.{
  ℕ, suc, ◌+◌, ◌%◌, ◌≡◌, refl, ap, ◌∙◌, Bool, true, false, List, ◌∷◌, none, some, if◌then◌else◌,
}
use rane_processing_language.Base.Bytes.{u32_mod}
use rane_processing_language.Base.Result.{Result, ok}
use rane_processing_language.Lexer as L
use rane_processing_language.Lexer.{TokKind, Token}
use rane_processing_language.Syntax.{NodeHeader, UnOp, BinOp, Expr}
use rane_processing_language.Syntax as S
use rane_processing_language.Parser.{
  Parser, ParseFault, Parse, continue, is, cur, last_token, take, skip_from, skip_newlines, expect,
  fresh_id, hdr, int_value, stoll, cleaned, merge_span, span_of,
}
use rane_processing_language.Parser.Expressions.{
  infix_prec, binop_of, binds, is_prefix_op, unop_of, int_primary, string_primary, binary_node,
  parse_prefix, parse_postfix, parse_expr_bp, parse_infix, at_tokens, with_hdr,
}

-- A token that goes on with no expression before it: no newline, member or call.
pub record Quiet (t : Token) : Type 0 where
  pub newline_no : is L.newline t ≡ false
  pub dot_no : is L.dot t ≡ false
  pub paren_no : is L.l_paren t ≡ false

-- The header that `hdr` makes.
abbrev pub header : Parser → S.NodeKind → Token → Token → S.Span → NodeHeader
header s k a b sp = record {
  kind = k;
  id = s.next_id;
  span = sp;
  first_tok = a.ordinal;
  last_tok = b.ordinal;
}

-- The state behind the token `t`, with the next id `i`.
abbrev pub behind : Parser → Token → List Token → ℕ → Parser
behind s t ts i = record s { prev = some t; rest = ts; next_id = i }

pub skip_nothing :
    (s : Parser) (t : Token) (ts : List Token)
    → s.rest ≡ t ∷ ts
    → is L.newline t ≡ false
    → skip_newlines s ≡ ok (tt, s)
unfolding skip_newlines skip_from
skip_nothing s t ts r q = rw (r, q) refl

pub cur_at : (s : Parser) (t : Token) (ts : List Token) → s.rest ≡ t ∷ ts → cur s ≡ ok (t, s)
unfolding cur
cur_at s t ts r = rw r refl

pub take_at :
    (s : Parser) (t : Token) (ts : List Token)
    → s.rest ≡ t ∷ ts
    → take s ≡ ok (t, behind s t ts s.next_id)
unfolding take
take_at s t ts r = rw r refl

module _ {ℓ κ} {A : Type ℓ} {B : Type κ} where
  -- A first step that gives `a`, and what follows it.
  pub steps :
      {x : Result ParseFault (A × Parser)} {a : A} {s : Parser} {r : Result ParseFault (B × Parser)}
      (f : A → Parse B)
      → x ≡ ok (a, s)
      → f a s ≡ r
      → continue x f ≡ r
  steps f q k = ap (λ y. continue y f) q ∙ k

module _ {ℓ} {A : Type ℓ} (b : Bool) (p q : Parse A) {s : Parser}
    {r : Result ParseFault (A × Parser)} where
  pub if_true : b ≡ true → p s ≡ r → (if b then p else q) s ≡ r
  if_true e k = rw e k

  pub if_false : b ≡ false → q s ≡ r → (if b then p else q) s ≡ r
  if_false e k = rw e k

pub infix_stops :
    (f min_bp : ℕ) (first : Token) (e : Expr) (s : Parser) (t : Token) (ts : List Token)
    → s.rest ≡ t ∷ ts
    → is L.newline t ≡ false
    → binds min_bp (infix_prec t.kind) ≡ none
    → parse_infix (suc f) min_bp first e s ≡ ok (e, s)
unfolding parse_infix
infix_stops f min_bp first e s t ts r q b =
    steps _ (skip_nothing s t ts r q) (steps _ (cur_at s t ts r) (rw b refl))

pub postfix_stops :
    (f : ℕ) (e : Expr) (first : Token) (s : Parser) (t : Token) (ts : List Token)
    → s.rest ≡ t ∷ ts
    → Quiet t
    → parse_postfix (suc f) e first s ≡ ok (e, s)
unfolding parse_postfix
postfix_stops f e first s t ts r q =
    steps _ (cur_at s t ts r)
      (if_false (is L.dot t) _ _ q.dot_no (if_false (is L.l_paren t) _ _ q.paren_no refl))

pub expect_at :
    (k : TokKind) (s : Parser) (t : Token) (ts : List Token)
    → s.rest ≡ t ∷ ts
    → is k t ≡ true
    → expect k s ≡ ok (t, behind s t ts s.next_id)
unfolding expect
expect_at k s t ts r q = steps _ (cur_at s t ts r) (if_true (is k t) _ _ q (take_at s t ts r))

abbrev pub next : Parser → ℕ
next s = (s.next_id + 1) % u32_mod

pub hdr_at :
    (k : S.NodeKind) (a b : Token) (sp : S.Span) (s : Parser)
    → hdr k a b sp s ≡ ok (header s k a b sp, record s { next_id = next s })
unfolding hdr fresh_id
hdr_at k a b sp s = refl

pub last_at : (s : Parser) (t : Token) → s.prev ≡ some t → last_token s ≡ ok (t, s)
unfolding last_token
last_at s t q = rw q refl

pub infix_takes :
    (f min_bp rbp : ℕ) (first op last : Token) (b : BinOp) (lhs rhs : Expr) (s s2 : Parser)
    (ts : List Token)
    → s.rest ≡ op ∷ ts
    → is L.newline op ≡ false
    → binds min_bp (infix_prec op.kind) ≡ some rbp
    → binop_of op.kind ≡ some b
    → parse_expr_bp f rbp (behind s op ts s.next_id) ≡ ok (rhs, s2)
    → s2.prev ≡ some last
    → parse_infix (suc f) min_bp first lhs s
      ≡ parse_infix f min_bp first
          (S.binary_expr
            (header s2 S.NodeKind.binary_expr first last (merge_span first last))
            b
            lhs
            rhs)
          (record s2 { next_id = next s2 })
unfolding parse_infix binary_node
infix_takes f min_bp rbp first op last b lhs rhs s s2 ts r q p o run m =
    steps _ (skip_nothing s op ts r q) (
      steps _ (cur_at s op ts r) (
        rw p (
          steps _ (take_at s op ts r) (
            steps _ run (
              steps _ (steps _ (last_at s2 last m) (rw o (steps _ (hdr_at _ _ _ _ s2) refl)))
                refl)))))

-- The prefix parser at a primary, an operator or a parenthesis.
pub name_at :
    (f : ℕ) (s : Parser) (t n : Token) (more : List Token)
    → s.rest ≡ t ∷ (n ∷ more)
    → t.kind ≡ L.ident
    → Quiet n
    → parse_prefix (suc (suc f)) s
      ≡ ok (
        S.ident_expr (header s S.NodeKind.ident_expr t t (span_of t)) t.text,
        behind s t (n ∷ more) (next s),
      )
unfolding parse_prefix
name_at f s t n more r k q = steps _ (skip_nothing s t (n ∷ more) r (rw k refl)) (
    steps _ (cur_at s t (n ∷ more) r) (
      if_false (is_prefix_op t) _ _ (rw k refl) (
        if_false (is L.int_lit t) _ _ (rw k refl) (
          if_false (is L.string_lit t) _ _ (rw k refl) (
            if_true (is L.ident t) _ _ (rw k refl) (
              steps _ (take_at s t (n ∷ more) r)
                (steps _ (hdr_at _ _ _ _ _) (postfix_stops f _ _ _ n more refl q))))))))

pub string_at :
    (f : ℕ) (s : Parser) (t : Token) (more : List Token)
    → s.rest ≡ t ∷ more
    → t.kind ≡ L.string_lit
    → parse_prefix (suc f) s
      ≡ ok (
        S.string_expr (header s S.NodeKind.string_expr t t (span_of t)) t.text,
        behind s t more (next s),
      )
unfolding parse_prefix string_primary
string_at f s t more r k = steps _ (skip_nothing s t more r (rw k refl)) (
    steps _ (cur_at s t more r) (
      if_false (is_prefix_op t) _ _ (rw k refl) (
        if_false (is L.int_lit t) _ _ (rw k refl) (
          if_true (is L.string_lit t) _ _ (rw k refl)
            (steps _ (take_at s t more r) (steps _ (hdr_at _ _ _ _ _) refl))))))

int_value_at :
    (e : ParseFault) (t : Token) (v : ℕ) (s : Parser)
    → stoll (cleaned t.text) ≡ some v
    → int_value e t s ≡ ok (v, s)
unfolding int_value
int_value_at e t v s d = rw (d, int_value) refl

pub number_at :
    (f v : ℕ) (s : Parser) (t : Token) (more : List Token)
    → s.rest ≡ t ∷ more
    → t.kind ≡ L.int_lit
    → stoll (cleaned t.text) ≡ some v
    → parse_prefix (suc f) s
      ≡ ok (S.int_expr (header s S.NodeKind.int_expr t t (span_of t)) v, behind s t more (next s))
unfolding parse_prefix int_primary
number_at f v s t more r k d = steps _ (skip_nothing s t more r (rw k refl)) (
    steps _ (cur_at s t more r) (
      if_false (is_prefix_op t) _ _ (rw k refl) (
        if_true (is L.int_lit t) _ _ (rw k refl) (
          steps _ (take_at s t more r)
            (steps _ (int_value_at _ _ v _ d) (steps _ (hdr_at _ _ _ _ _) refl))))))

pub operator_at :
    (f : ℕ) (s s2 : Parser) (t last : Token) (ts : List Token) (e : Expr)
    → s.rest ≡ t ∷ ts
    → is_prefix_op t ≡ true
    → is L.newline t ≡ false
    → parse_expr_bp f 80 (behind s t ts s.next_id) ≡ ok (e, s2)
    → s2.prev ≡ some last
    → parse_prefix (suc f) s
      ≡ ok (
        S.unary_expr (header s2 S.NodeKind.unary_expr t last (merge_span t last)) (unop_of t) e,
        record s2 { next_id = next s2 },
      )
unfolding parse_prefix
operator_at f s s2 t last ts e r k l run m = steps _ (skip_nothing s t ts r l) (
    steps _ (cur_at s t ts r) (
      if_true (is_prefix_op t) _ _ k (
        steps _ (take_at s t ts r)
          (steps _ run (steps _ (last_at s2 last m) (steps _ (hdr_at _ _ _ _ _) refl))))))

pub parens_at :
    (f : ℕ) (s s2 : Parser) (l c n : Token) (ts more : List Token) (e : Expr)
    → s.rest ≡ l ∷ ts
    → l.kind ≡ L.l_paren
    → c.kind ≡ L.r_paren
    → Quiet n
    → parse_expr_bp (suc f) 0 (behind s l ts s.next_id) ≡ ok (e, s2)
    → s2.rest ≡ c ∷ (n ∷ more)
    → parse_prefix (suc (suc f)) s
      ≡ ok (with_hdr (at_tokens l c) e, behind s2 c (n ∷ more) s2.next_id)
unfolding parse_prefix
parens_at f s s2 l c n ts more e r k z q run m = steps _ (skip_nothing s l ts r (rw k refl)) (
    steps _ (cur_at s l ts r) (
      if_false (is_prefix_op l) _ _ (rw k refl) (
        if_false (is L.int_lit l) _ _ (rw k refl) (
          if_false (is L.string_lit l) _ _ (rw k refl) (
            if_false (is L.ident l) _ _ (rw k refl) (
              if_true (is L.l_paren l) _ _ (rw k refl) (
                steps _ (take_at s l ts r) (
                  steps _ run (
                    steps _ (expect_at L.r_paren s2 c (n ∷ more) m (rw z refl))
                      (postfix_stops f _ _ _ n more refl q))))))))))
