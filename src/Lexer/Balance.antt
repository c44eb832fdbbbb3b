-- ===== src/Lexer/Balance.antt =====
-- The lexer's tokens: every round keeps the invariant, and the end closes all indents.
use rane_processing_language.Base.{
  ℕ, zero, suc, ◌+◌, ◌≡◌, refl, ap, ◌∙◌, arith, Bool, true, false, ◌&&◌, List, [], ◌∷◌, ◌++◌,
  Option, none, some, ◌==◌, if◌then◌else◌, length, All,
}
use rane_processing_language.Base.Result.{
  ok, Ensures, succeeds, fails, Ensures-bind, Ensures-from, Ensures-if, Ensures-map, Ensures-ok,
}
use rane_processing_language.Lexer as L
use rane_processing_language.Lexer.{
  LexFault, TokKind, Token, Lexer, get, get_from, peek, peek2, make, between, is_ident_start,
  is_ident_cont,
}
use rane_processing_language.Lexer.Invariant.{
  level, Numbered, core, Good, is_flat, make_flat, core-get, get-Good, run_while-Good, if_both,
  Good-core, pop_Good, make_stack, blank_Good,
}
use rane_processing_language.Lexer.Scan.{
  keyword_in, keywords, pair_kind, pairs, single_kind, singles, escape_of, string_from, lex_word,
  single_token, pair_token, lex_token, lex_loop, pop_all, same_text, started, lex_all,
}

AllFlat : {K : Type 0} → List (K × TokKind) → Type 0
AllFlat = All (λ x. is_flat x.1 ≡ true)

flat_if :
    (b : Bool) (o : Option TokKind) (k k' : TokKind)
    → is_flat k' ≡ true
    → (o ≡ some k → is_flat k ≡ true)
    → (if b then some k' else o) ≡ some k
    → is_flat k ≡ true
flat_if true o k k' f h q = ap is_flat (cc q) ∙ f
flat_if false o k k' f h q = h q

pair_flat :
    (c d : ℕ) (table : List ((ℕ × ℕ) × TokKind)) (k : TokKind)
    → All (λ x. is_flat x.1 ≡ true) table
    → pair_kind c d table ≡ some k
    → is_flat k ≡ true
unfolding pair_kind
pair_flat c d [] k h q = absurd (cc q)
pair_flat c d (((a, b), k') ∷ rest) k (h, hs) q =
    flat_if (c == a && d == b) (pair_kind c d rest) k k' h (pair_flat c d rest k hs) q

single_flat :
    (c : ℕ) (table : List (ℕ × TokKind)) (k : TokKind)
    → All (λ x. is_flat x.1 ≡ true) table
    → single_kind c table ≡ some k
    → is_flat k ≡ true
unfolding single_kind
single_flat c [] k h q = absurd (cc q)
single_flat c ((a, k') ∷ rest) k (h, hs) q =
    flat_if (c == a) (single_kind c rest) k k' h (single_flat c rest k hs) q

keyword_flat :
    (s : List ℕ) (table : List (List ℕ × TokKind))
    → All (λ x. is_flat x.1 ≡ true) table
    → is_flat (keyword_in s table) ≡ true
unfolding keyword_in
keyword_flat s [] h = refl
keyword_flat s ((word, k) ∷ rest) (h, hs) =
    if_both (λ (k : TokKind). is_flat k ≡ true) (same_text s word) h (keyword_flat s rest hs)

pairs_flat : All (λ x. is_flat x.1 ≡ true) pairs
pairs_flat = (refl, (refl, (refl, (refl, (refl, (refl, (refl, (refl, (refl, tt)))))))))

singles_flat : All (λ x. is_flat x.1 ≡ true) singles
singles_flat = (
  refl,
  (
    refl,
    (
      refl,
      (
        refl,
        (
          refl,
          (
            refl,
            (
              refl,
              (
                refl,
                (
                  refl,
                  (
                    refl,
                    (
                      refl,
                      (
                        refl,
                        (refl, (refl, (refl, (refl, (refl, (refl, (refl, (refl, (refl, tt))))))))),
                      ),
                    ),
                  ),
                ),
              ),
            ),
          ),
        ),
      ),
    ),
  ),
)

keywords_flat : All (λ x. is_flat x.1 ≡ true) keywords
keywords_flat = (
  refl,
  (
    refl,
    (
      refl,
      (
        refl,
        (
          refl,
          (
            refl,
            (
              refl,
              (
                refl,
                (refl, (refl, (refl, (refl, (refl, (refl, (refl, (refl, (refl, (refl, tt)))))))))),
              ),
            ),
          ),
        ),
      ),
    ),
  ),
)

string_core :
    (bs s : List ℕ) (l : Lexer)
    → Ensures (λ (p : List ℕ × Lexer). core p.1 ≡ core l) (string_from bs s l)
unfolding string_from
string_core [] s l = fails
string_core (b ∷ bs) s l =
    let l₁ = (get l).1 in
    let l₂ = (get l₁).1 in
    Ensures-if ((get l).0 == 0) (λ _. fails)
      λ _.
        Ensures-if ((get l).0 == 34) (λ _. succeeds (core-get l))
          λ _.
            Ensures-if ((get l).0 == 92)
              (λ _.
                Ensures-if ((get l₁).0 == 0) (λ _. fails)
                  (λ _. Ensures-from (escape_of (get l₁).0) _ λ x _.
                    Ensures-map (string_core bs (s ++ x ∷ []) l₂)
                      (λ p q. q ∙ core-get l₁ ∙ core-get l)))
              (λ _. Ensures-map (string_core bs (s ++ (get l).0 ∷ []) l₁) (λ p q. q ∙ core-get l))

word_Good : (c : ℕ) (l : Lexer) → Good l → Ensures Good (lex_word c l)
unfolding lex_word
word_Good c l g =
    Ensures-if (c == 34)
      (λ _. Ensures-bind _ (string_core l.rest [] (get l).1) λ p q.
        succeeds (make_flat L.string_lit _ _ _ _ p.1 refl (Good-core l p.1 (q ∙ core-get l) g)))
      λ _.
        Ensures-if (between 48 c 57)
          (λ _. succeeds (make_flat L.int_lit _ _ _ _ _ refl (run_while-Good _ l.rest l g)))
          λ _.
            Ensures-if (is_ident_start c)
              (λ _. succeeds (
                make_flat _ _ _ _ _ _ (keyword_flat _ keywords keywords_flat)
                  (run_while-Good is_ident_cont l.rest (get l).1 (get-Good l g))))
              (λ _. fails)

single_Good :
    (c : ℕ) (o : Option TokKind) (l : Lexer)
    → single_kind c singles ≡ o
    → Good l
    → Ensures Good (single_token c o l)
unfolding single_token
single_Good c (some k) l q g =
    succeeds (make_flat k _ _ _ _ (get l).1 (single_flat c singles k singles_flat q) (get-Good l g))
single_Good c none l q g = word_Good c l g

pair_Good :
    (c : ℕ) (o : Option TokKind) (l : Lexer)
    → pair_kind c (peek2 l) pairs ≡ o
    → Good l
    → Ensures Good (pair_token c o l)
unfolding pair_token
pair_Good c (some k) l q g = succeeds (
    make_flat k _ _ _ _ (get (get l).1).1 (pair_flat c (peek2 l) pairs k pairs_flat q)
      (get-Good (get l).1 (get-Good l g)))
pair_Good c none l q g = single_Good c (single_kind c singles) l refl g

token_Good : (l : Lexer) → Good l → Ensures Good (lex_token l)
unfolding lex_token
token_Good l g =
    Ensures-if (peek l == 10)
      (λ _. succeeds (make_flat L.newline _ _ _ _ (get l).1 refl (get-Good l g)))
      (λ _. pair_Good (peek l) _ l refl g)

loop_Good : (fuel : ℕ) (l : Lexer) → Good l → Ensures Good (lex_loop fuel l)
unfolding lex_loop
loop_Good zero l g = fails
loop_Good (suc fuel) l g = Ensures-bind _ (blank_Good l g) λ l₁ g₁.
    Ensures-if (peek l₁ == 0) (λ _. succeeds g₁)
      λ _. Ensures-bind _ (token_Good l₁ g₁) λ l₂ g₂. loop_Good fuel l₂ g₂

-- All is closed: one level is left.
abbrev Closed : Lexer → Type 0
Closed l = Good l × (length l.indent_stack ≡ 1)

no_stack : (d : ℕ) (l : Lexer) → l.indent_stack ≡ [] → length l.indent_stack ≡ d + 1 → ⊥
no_stack d l q st = let none_left : length l.indent_stack ≡ 0 = ap length q in omega arith

pop_all-Closed :
    (stack : List ℕ) (l : Lexer) → l.indent_stack ≡ stack → Good l → Closed (pop_all stack l)
unfolding pop_all
pop_all-Closed [] l q (d, st, lv, nu, nx) = absurd (no_stack d l q st)
pop_all-Closed (top ∷ []) l q g = (g, ap length q)
pop_all-Closed (top ∷ (below ∷ stack)) l q g =
    pop_all-Closed (below ∷ stack) _
      (make_stack L.dedent l.line l.col 0 [] (record l { indent_stack = below ∷ stack }))
      (pop_Good top below stack l.line l.col l q g)

-- What the finished list is like.
abbrev Finished : List Token → Type 0
Finished toks =
    (level 0 toks ≡ some 0)
    × Numbered 1 toks
    × ((front : List Token) × (last : Token) × (toks ≡ front ++ last ∷ []) × (last.kind ≡ L.eof))

finish : (l : Lexer) → Closed l → Finished (make L.eof l.line l.col 0 [] l).toks
unfolding make
finish l (g, one) =
    let (d, st, lv, nu, nx) = make_flat L.eof l.line l.col 0 [] l refl g in
    let closed : d ≡ 0 = omega arith in
    (lv ∙ ap (λ (x : ℕ). some x) closed, nu, (l.toks, _, refl, refl))

-- In the tokens of a text that the lexer accepts, every dedent closes an indent that is open and
-- all are closed at the end, the ordinals are 1, 2, 3 and so on modulo 2^32, and the last token is
-- the end of the file.
pub lex_all-Balanced :
    (src : List ℕ) (toks : List Token)
    → lex_all src ≡ ok toks
    → (level 0 toks ≡ some 0)
      × Numbered 1 toks
      × ((front : List Token) × (last : Token) × (toks ≡ front ++ last ∷ []) × (last.kind ≡ L.eof))
unfolding lex_all
lex_all-Balanced src toks run =
    Ensures-ok {P = Finished}
      (Ensures-bind _ (loop_Good (length src + 1) (started src) (0, refl, refl, tt, refl)) λ l g.
        succeeds (finish (pop_all l.indent_stack l) (pop_all-Closed l.indent_stack l refl g)))
      run
