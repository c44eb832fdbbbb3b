-- ===== src/Lexer/Invariant.antt =====
-- An invariant of the lexer's state: the stack is as deep as the tokens have indents open, and the
-- ordinals count the tokens. Blanks and indentation keep it.
use rane_processing_language.Base.{
  ℕ, zero, suc, ◌+◌, ◌%◌, ◌≡◌, refl, sym, ap, ◌∙◌, arith, Bool, true, false, ◌&&◌, ◌||◌, List, [],
  ◌∷◌, ◌++◌, Option, none, some, ltb, ◌==◌, if◌then◌else◌, length, length-append,
}
use mathlib.Core.Path.{subst}
use rane_processing_language.Base.Bytes.{u32_mod}
use rane_processing_language.Base.Result.{
  Result, Ensures, succeeds, fails, Ensures-bind, Ensures-if, Ensures-map,
}
use rane_processing_language.Lexer as L
use rane_processing_language.Lexer.{
  LexFault, TokKind, Token, Lexer, get, get_from, peek, peek2, make, between, is_ident_start,
  is_ident_cont,
}
use rane_processing_language.Lexer.Scan.{
  run_while, in_comment, skip_from, skip_ws_midline, pop_to, top_of, indent_by, emit_indent_dedent,
  lex_blank,
}

-- The open indents behind a token, from those before it. A dedent with none open has no answer.
abbrev shift : TokKind → ℕ → Option ℕ
shift L.indent n = some (n + 1)
shift L.dedent zero = none
shift L.dedent (suc n) = some n
shift _ n = some n

abbrev shift_some : TokKind → Option ℕ → Option ℕ
shift_some k none = none
shift_some k (some n) = shift k n

-- The open indents behind a list of tokens.
abbrev pub level : ℕ → List Token → Option ℕ
level n [] = some n
level n (t ∷ ts) = elim (shift t.kind n) [ none ↦ none | some m ↦ level m ts ]

-- The ordinals are the numbers from `k` on, modulo 2^32.
abbrev pub Numbered : ℕ → List Token → Type 0
Numbered k [] = Unit
Numbered k (t ∷ ts) = (t.ordinal ≡ k % u32_mod) × Numbered (k + 1) ts

level_snoc :
    (n : ℕ) (ts : List Token) (t : Token) → level n (ts ++ t ∷ []) ≡ shift_some t.kind (level n ts)
level_snoc n [] t = last (shift t.kind n)
  where
    last : (o : Option ℕ) → (elim o [ none ↦ none | some m ↦ some m ]) ≡ o
    last none = refl
    last (some m) = refl
level_snoc n (x ∷ ts) t = go (λ m. level_snoc m ts t) (shift x.kind n)
  where
    go :
        ((m : ℕ) → level m (ts ++ t ∷ []) ≡ shift_some t.kind (level m ts))
        → (o : Option ℕ)
        → (elim o [ none ↦ none | some m ↦ level m (ts ++ t ∷ []) ])
          ≡ shift_some t.kind (elim o [ none ↦ none | some m ↦ level m ts ])
    go ih none = refl
    go ih (some m) = ih m

Numbered-snoc :
    (k : ℕ) (ts : List Token) (t : Token)
    → Numbered k ts
    → t.ordinal ≡ (k + length ts) % u32_mod
    → Numbered k (ts ++ t ∷ [])
Numbered-snoc k [] t h q = (q ∙ ap (λ (x : ℕ). x % u32_mod) (omega arith), tt)
Numbered-snoc k (x ∷ ts) t (h, hs) q =
    (h, Numbered-snoc (k + 1) ts t hs (q ∙ ap (λ (x : ℕ). x % u32_mod) (omega arith)))

-- The part of the state that the invariant is about.
abbrev pub core : Lexer → List ℕ × (ℕ × List Token)
core l = (l.indent_stack, (l.next_ordinal, l.toks))

abbrev pub Inv : List ℕ × (ℕ × List Token) → Type 0
Inv c =
    (d : ℕ) × (length c.0 ≡ d + 1)
    × (level 0 c.1.1 ≡ some d)
    × Numbered 1 c.1.1
    × (c.1.0 ≡ (1 + length c.1.1) % u32_mod)

abbrev pub Good : Lexer → Type 0
Good l = Inv (core l)

-- A token whose kind takes the open indents from `d` to `e`, with a stack to match.
make-Good :
    (k : TokKind) (line col len : ℕ) (text stack : List ℕ) (l : Lexer) (d e : ℕ)
    → level 0 l.toks ≡ some d
    → Numbered 1 l.toks
    → l.next_ordinal ≡ (1 + length l.toks) % u32_mod
    → shift k d ≡ some e
    → length stack ≡ e + 1
    → Good (make k line col len text (record l { indent_stack = stack }))
unfolding make
make-Good k line col len text stack l d e lv nu nx sh st = (
  e,
  st,
  level_snoc 0 l.toks _ ∙ ap (shift_some k) lv ∙ sh,
  Numbered-snoc 1 l.toks _ nu nx,
  ground (
    arith,
    nx,
    length-append l.toks (
        record {
          kind = k;
          text = text;
          line = line;
          col = col;
          len = len;
          ordinal = l.next_ordinal;
        }
        ∷ []),
  ),
)

abbrev pub is_flat : TokKind → Bool
is_flat L.indent = false
is_flat L.dedent = false
is_flat _ = true

shift_flat : (k : TokKind) (n : ℕ) → is_flat k ≡ true → shift k n ≡ some n
shift_flat L.indent n q = absurd (cc q)
shift_flat L.dedent n q = absurd (cc q)
shift_flat _ n q = refl

pub make_flat :
    (k : TokKind) (line col len : ℕ) (text : List ℕ) (l : Lexer)
    → is_flat k ≡ true
    → Good l
    → Good (make k line col len text l)
make_flat k line col len text l q (d, st, lv, nu, nx) =
    make-Good k line col len text l.indent_stack l d d lv nu nx (shift_flat k d q) st

pub if_both :
    {A : Type 0} (P : A → Type 0) (b : Bool) {x y : A} → P x → P y → P (if b then x else y)
if_both P true p q = p
if_both P false p q = q

core-get_from : (cs : List ℕ) (l : Lexer) → core (get_from cs l).1 ≡ core l
unfolding get_from
core-get_from [] l = refl
core-get_from (c ∷ cs) l =
    if_both (λ (p : ℕ × Lexer). core p.1 ≡ core l) (c == 0) refl
      (if_both (λ (p : ℕ × Lexer). core p.1 ≡ core l) (c == 10) refl refl)

pub core-get : (l : Lexer) → core (get l).1 ≡ core l
unfolding get
core-get l = core-get_from l.rest l

pub core-run_while :
    (take : ℕ → Bool) (bs : List ℕ) (l : Lexer) → core (run_while take bs l).1 ≡ core l
unfolding run_while
core-run_while take [] l = refl
core-run_while take (b ∷ bs) l =
    if_both (λ (p : List ℕ × Lexer). core p.1 ≡ core l) (take (peek l))
      (core-run_while take bs (get l).1 ∙ core-get l) refl

-- Steps that keep the core.
abbrev pub Keeps : Lexer → Result LexFault Lexer → Type 0
Keeps l = Ensures (λ (l' : Lexer). core l' ≡ core l)

pub Good-core : (l l' : Lexer) → core l' ≡ core l → Good l → Good l'
Good-core l l' q g = subst Inv (sym q) g

pub run_while-Good :
    (take : ℕ → Bool) (bs : List ℕ) (l : Lexer) → Good l → Good (run_while take bs l).1
run_while-Good take bs l g = Good-core l (run_while take bs l).1 (core-run_while take bs l) g

pub get-Good : (l : Lexer) → Good l → Good (get l).1
get-Good l g = Good-core l (get l).1 (core-get l) g

Ensures-trans :
    (l l₁ : Lexer) {r : Result LexFault Lexer} → core l₁ ≡ core l → Keeps l₁ r → Keeps l r
Ensures-trans l l₁ q (succeeds h) = succeeds (h ∙ q)
Ensures-trans l l₁ q fails = fails

skip_core : (bs : List ℕ) (l : Lexer) → Keeps l (skip_from bs l)
unfolding skip_from
skip_core [] l = succeeds refl
skip_core (b ∷ bs) l =
    Ensures-if (peek l == 32 || peek l == 13)
      (λ _. Ensures-trans l (get l).1 (core-get l) (skip_core bs (get l).1))
      λ _.
        Ensures-if (peek l == 9) (λ _. fails)
          λ _.
            Ensures-if (peek l == 47 && peek2 l == 47)
              (λ _.
                Ensures-trans l (run_while in_comment l.rest l).1
                  (core-run_while in_comment l.rest l)
                  (skip_core bs (run_while in_comment l.rest l).1))
              (λ _. succeeds refl)

-- One dedent, where two levels are open.
pub pop_Good :
    (top below : ℕ) (stack : List ℕ) (line col : ℕ) (l : Lexer)
    → l.indent_stack ≡ top ∷ (below ∷ stack)
    → Good l
    → Good (make L.dedent line col 0 [] (record l { indent_stack = below ∷ stack }))
pop_Good top below stack line col l q (zero, st, lv, nu, nx) =
    absurd (let st' : length (top ∷ (below ∷ stack)) ≡ 0 + 1 = rw q at st in omega arith)
pop_Good top below stack line col l q (suc d, st, lv, nu, nx) =
    let st' : length (top ∷ (below ∷ stack)) ≡ suc d + 1 = rw q at st in
    make-Good L.dedent line col 0 [] (below ∷ stack) l (suc d) d lv nu nx refl (omega arith)

pub make_stack :
    (k : TokKind) (line col len : ℕ) (text : List ℕ) (l : Lexer)
    → (make k line col len text l).indent_stack ≡ l.indent_stack
unfolding make
make_stack k line col len text l = refl

pop_to-Good :
    (spaces line col : ℕ) (stack : List ℕ) (l : Lexer)
    → l.indent_stack ≡ stack
    → Good l
    → Good (pop_to spaces line col stack l)
unfolding pop_to
pop_to-Good spaces line col [] l q g = g
pop_to-Good spaces line col (top ∷ []) l q g = g
pop_to-Good spaces line col (top ∷ (below ∷ stack)) l q g =
    if_both Good (ltb spaces top)
      (pop_to-Good spaces line col (below ∷ stack) _
        (make_stack L.dedent line col 0 [] (record l { indent_stack = below ∷ stack }))
        (pop_Good top below stack line col l q g))
      g

indent_Good :
    (spaces line col len : ℕ) (l : Lexer)
    → Good l
    → Good (make L.indent line col len [] (record l { indent_stack = spaces ∷ l.indent_stack }))
indent_Good spaces line col len l (d, st, lv, nu, nx) =
    make-Good L.indent line col len [] (spaces ∷ l.indent_stack) l d (d + 1) lv nu nx refl
      (omega arith)

indent_by-Good :
    (spaces line col : ℕ) (l : Lexer) → Good l → Ensures Good (indent_by spaces line col l)
unfolding indent_by
indent_by-Good spaces line col l g =
    Ensures-if (peek l == 9) (λ _. fails)
      λ _.
        Ensures-if (peek l == 10 || peek l == 0) (λ _. succeeds g)
          λ _.
            Ensures-if (ltb (top_of l.indent_stack) spaces)
              (λ _. succeeds (indent_Good spaces line col _ l g))
              λ _.
                Ensures-if (ltb spaces (top_of l.indent_stack))
                  (λ _.
                    Ensures-if
                      (spaces == top_of (pop_to spaces line col l.indent_stack l).indent_stack)
                      (λ _. succeeds (pop_to-Good spaces line col l.indent_stack l refl g))
                      (λ _. fails))
                  (λ _. succeeds g)

pub blank_Good : (l : Lexer) → Good l → Ensures Good (lex_blank l)
unfolding lex_blank emit_indent_dedent skip_ws_midline
blank_Good l g =
    Ensures-bind _
      (Ensures-if l.at_line_start
        (λ _. indent_by-Good _ l.line l.col _ (run_while-Good (λ c. c == 32) l.rest l g))
        (λ _. succeeds g))
      λ l₁ g₁. Ensures-map (skip_core l₁.rest l₁) (λ l₂ q. Good-core l₁ l₂ q g₁)
