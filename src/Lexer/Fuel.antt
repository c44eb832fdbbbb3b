-- ===== src/Lexer/Fuel.antt =====
-- The fuel of `lex_all` is enough: each round of the loop takes a byte, or ends.
use rane_processing_language.Base.{
  ℕ, zero, suc, ◌+◌, ◌≤◌, ◌<◌, ◌≡◌, ◌≢◌, refl, sym, ap, ◌∙◌, arith, Bool, true, false, ◌&&◌, ◌||◌,
  List, [], ◌∷◌, ◌++◌, Option, none, some, ltb, ◌==◌, if◌then◌else◌, length,
}
use mathlib.Core.Bool.{false≢true}
use rane_processing_language.Base.Result.{Result, ok, err, ◌>>=◌}
use rane_processing_language.Lexer as L
use rane_processing_language.Lexer.{
  LexFault, TokKind, Token, Lexer, get, get_from, peek, peek_at, peek2, make, between,
  is_ident_start, is_ident_cont,
}
use rane_processing_language.Lexer.Invariant.{if_both}
use rane_processing_language.Lexer.Scan.{
  run_while, in_comment, skip_from, skip_ws_midline, pop_to, top_of, indent_by, emit_indent_dedent,
  single_kind, singles, escape_of, string_from, lex_word, single_token, pair_token, lex_token,
  lex_blank, lex_loop, started, lex_all,
}

abbrev is_no_fuel : LexFault → Bool
is_no_fuel L.no_fuel = true
is_no_fuel _ = false

-- A value with `P`, or a fault of the text.
data Safe {A : Type 0} (P : A → Type 0) : Result LexFault A → Type 0 where
  value : {a : A} → P a → Safe P (ok a)
  fault : {e : LexFault} → is_no_fuel e ≡ false → Safe P (err e)

Safe-bind :
    {A B : Type 0} {P : A → Type 0} {Q : B → Type 0} {m : Result LexFault A}
    (f : A → Result LexFault B)
    → Safe P m
    → ((a : A) → P a → Safe Q (f a))
    → Safe Q (m >>= f)
Safe-bind f (value h) k = k _ h
Safe-bind f (fault q) k = fault q

Safe-if :
    {A : Type 0} {P : A → Type 0} (b : Bool) {x y : Result LexFault A}
    → (b ≡ true → Safe P x)
    → (b ≡ false → Safe P y)
    → Safe P (if b then x else y)
Safe-if true h k = h refl
Safe-if false h k = k refl

Safe-map :
    {A : Type 0} {P Q : A → Type 0} {r : Result LexFault A}
    → Safe P r
    → ((a : A) → P a → Q a)
    → Safe Q r
Safe-map (value h) f = value (f _ h)
Safe-map (fault q) f = fault q

abbrev left : Lexer → ℕ
left l = length l.rest

get_from_le : (cs : List ℕ) (l : Lexer) → l.rest ≡ cs → left (get_from cs l).1 ≤ length cs
unfolding get_from
get_from_le [] l q = let q' : left l ≡ 0 = ap length q in omega arith
get_from_le (c ∷ cs) l q =
    let q' : left l ≡ length (c ∷ cs) = ap length q in
    if_both (λ (p : ℕ × Lexer). left p.1 ≤ length (c ∷ cs)) (c == 0) (omega arith)
      (if_both (λ (p : ℕ × Lexer). left p.1 ≤ length (c ∷ cs)) (c == 10) (omega arith)
        (omega arith))

get_le : (l : Lexer) → left (get l).1 ≤ left l
unfolding get
get_le l = get_from_le l.rest l refl

get_from_lt :
    (cs : List ℕ) (l : Lexer) → (peek_at cs == 0) ≡ false → left (get_from cs l).1 < length cs
unfolding get_from peek_at
get_from_lt [] l q = absurd (cc q)
get_from_lt (c ∷ cs) l q =
    rw (q, get_from)
      (if_both (λ (p : ℕ × Lexer). left p.1 < length (c ∷ cs)) (c == 10) (omega arith)
        (omega arith))

get_lt : (l : Lexer) → (peek l == 0) ≡ false → left (get l).1 < left l
unfolding get peek
get_lt l q = get_from_lt l.rest l q

run_while_le : (take : ℕ → Bool) (bs : List ℕ) (l : Lexer) → left (run_while take bs l).1 ≤ left l
unfolding run_while
run_while_le take [] l = omega arith
run_while_le take (b ∷ bs) l =
    if_both (λ (p : List ℕ × Lexer). left p.1 ≤ left l) (take (peek l))
      (let h = run_while_le take bs (get l).1 in let g = get_le l in omega arith) (omega arith)

-- A byte is taken where the first one may be.
run_while_lt :
    (take : ℕ → Bool) (bs : List ℕ) (l : Lexer)
    → l.rest ≡ bs
    → (peek l == 0) ≡ false
    → take (peek l) ≡ true
    → left (run_while take bs l).1 < left l
unfolding run_while peek peek_at
run_while_lt take [] l r q t = absurd (cc (rw r at q))
run_while_lt take (b ∷ bs) l r q t =
    let h = run_while_le take bs (get l).1 in let g = get_lt l q in rw (t, run_while) (omega arith)

left-make :
    (k : TokKind) (line col len : ℕ) (text : List ℕ) (l : Lexer)
    → left (make k line col len text l) ≡ left l
unfolding make
left-make k line col len text l = refl

left-pop_to :
    (spaces line col : ℕ) (stack : List ℕ) (l : Lexer)
    → left (pop_to spaces line col stack l) ≡ left l
unfolding pop_to make
left-pop_to spaces line col [] l = refl
left-pop_to spaces line col (top ∷ []) l = refl
left-pop_to spaces line col (top ∷ (below ∷ stack)) l =
    if_both (λ (l' : Lexer). left l' ≡ left l) (ltb spaces top)
      (left-pop_to spaces line col (below ∷ stack) _) refl

abbrev NoMore : Lexer → Lexer → Type 0
NoMore l l' = left l' ≤ left l

skip_le : (bs : List ℕ) (l : Lexer) → Safe (NoMore l) (skip_from bs l)
unfolding skip_from
skip_le [] l = value (omega arith)
skip_le (b ∷ bs) l =
    let g = get_le l in
    let c = run_while_le in_comment l.rest l in
    Safe-if (peek l == 32 || peek l == 13)
      (λ _. Safe-map (skip_le bs (get l).1) (λ l' h. omega arith))
      λ _.
        Safe-if (peek l == 9) (λ _. fault refl)
          λ _.
            Safe-if (peek l == 47 && peek2 l == 47)
              (λ _. Safe-map (skip_le bs (run_while in_comment l.rest l).1) (λ l' h. omega arith))
              (λ _. value (omega arith))

indent_by_le : (spaces line col : ℕ) (l : Lexer) → Safe (NoMore l) (indent_by spaces line col l)
unfolding indent_by make
indent_by_le spaces line col l =
    Safe-if (peek l == 9) (λ _. fault refl)
      λ _.
        Safe-if (peek l == 10 || peek l == 0) (λ _. value (omega arith))
          λ _.
            Safe-if (ltb (top_of l.indent_stack) spaces) (λ _. value (omega arith))
              λ _.
                Safe-if (ltb spaces (top_of l.indent_stack))
                  (λ _.
                    Safe-if
                      (spaces == top_of (pop_to spaces line col l.indent_stack l).indent_stack)
                      (λ _. value (omega (arith, left-pop_to spaces line col l.indent_stack l)))
                      (λ _. fault refl))
                  (λ _. value (omega arith))

blank_le : (l : Lexer) → Safe (NoMore l) (lex_blank l)
unfolding lex_blank emit_indent_dedent skip_ws_midline
blank_le l =
    let h = run_while_le (λ c. c == 32) l.rest l in
    Safe-bind {P = NoMore l} _
      (Safe-if l.at_line_start (λ _. Safe-map (indent_by_le _ l.line l.col _) (λ l' k. omega arith))
        (λ _. value (omega arith)))
      λ l₁ k. Safe-map (skip_le l₁.rest l₁) (λ l₂ j. omega arith)

escape-Safe : (e : ℕ) → Safe (λ _. Unit {0}) (escape_of e)
unfolding escape_of
escape-Safe e =
    Safe-if (e == 110) (λ _. value tt)
      λ _.
        Safe-if (e == 114) (λ _. value tt)
          λ _.
            Safe-if (e == 116) (λ _. value tt)
              λ _.
                Safe-if (e == 92) (λ _. value tt)
                  λ _. Safe-if (e == 34) (λ _. value tt) (λ _. fault refl)

string_le :
    (bs s : List ℕ) (l : Lexer)
    → Safe (λ (p : List ℕ × Lexer). left p.1 ≤ left l) (string_from bs s l)
unfolding string_from
string_le [] s l = fault refl
string_le (b ∷ bs) s l =
    let g = get_le l in
    let g' = get_le (get l).1 in
    Safe-if ((get l).0 == 0) (λ _. fault refl)
      λ _.
        Safe-if ((get l).0 == 34) (λ _. value (omega arith))
          λ _.
            Safe-if ((get l).0 == 92)
              (λ _.
                Safe-if ((get (get l).1).0 == 0) (λ _. fault refl)
                  (λ _. Safe-bind {P = λ _. Unit {0}} _ (escape-Safe (get (get l).1).0) λ x _.
                    Safe-map (string_le bs (s ++ x ∷ []) (get (get l).1).1) (λ p h. omega arith)))
              (λ _. Safe-map (string_le bs (s ++ (get l).0 ∷ []) (get l).1) (λ p h. omega arith))

abbrev Less : Lexer → Lexer → Type 0
Less l l' = left l' < left l

word_lt : (l : Lexer) → (peek l == 0) ≡ false → Safe (Less l) (lex_word (peek l) l)
unfolding lex_word make
word_lt l q =
    let g = get_lt l q in
    Safe-if (peek l == 34)
      (λ _.
        Safe-bind {P = λ p. left p.1 ≤ left (get l).1} _ (string_le l.rest [] (get l).1)
          λ p h. value (omega arith))
      λ _.
        Safe-if (between 48 (peek l) 57)
          (λ d. value (run_while_lt _ l.rest l refl q (ground (arith, d))))
          λ _.
            Safe-if (is_ident_start (peek l))
              (λ _. let h = run_while_le is_ident_cont l.rest (get l).1 in value (omega arith))
              (λ _. fault refl)

single_lt :
    (o : Option TokKind) (l : Lexer)
    → (peek l == 0) ≡ false
    → Safe (Less l) (single_token (peek l) o l)
unfolding single_token make
single_lt (some k) l q = value (get_lt l q)
single_lt none l q = word_lt l q

pair_lt :
    (o : Option TokKind) (l : Lexer)
    → (peek l == 0) ≡ false
    → Safe (Less l) (pair_token (peek l) o l)
unfolding pair_token make
pair_lt (some k) l q = let g = get_lt l q in let h = get_le (get l).1 in value (omega arith)
pair_lt none l q = single_lt (single_kind (peek l) singles) l q

token_lt : (l : Lexer) → (peek l == 0) ≡ false → Safe (Less l) (lex_token l)
unfolding lex_token make
token_lt l q = Safe-if (peek l == 10) (λ _. value (get_lt l q)) (λ _. pair_lt _ l q)

loop-Safe :
    (fuel : ℕ) (l : Lexer) → left l < fuel → Safe (λ (l' : Lexer). Unit {0}) (lex_loop fuel l)
unfolding lex_loop
loop-Safe zero l lt = absurd (omega arith)
loop-Safe (suc fuel) l lt = Safe-bind {P = NoMore l} _ (blank_le l) λ l₁ h.
    Safe-if (peek l₁ == 0) (λ _. value tt)
      λ q. Safe-bind {P = Less l₁} _ (token_lt l₁ q) λ l₂ k. loop-Safe fuel l₂ (omega arith)

Safe-no_fuel : {A : Type 0} {P : A → Type 0} {r : Result LexFault A} → Safe P r → r ≢ err L.no_fuel
Safe-no_fuel (value h) q = cc q
Safe-no_fuel (fault {e} f) q =
    let e_eq : e ≡ L.no_fuel = cc q in false≢true (sym f ∙ ap is_no_fuel e_eq)

-- `lex_all` never runs out of fuel: on every text it gives tokens or one of the faults of the code.
pub lex_all_terminates : (src : List ℕ) → lex_all src ≢ err L.no_fuel
unfolding lex_all
lex_all_terminates src = Safe-no_fuel (
    Safe-bind {P = λ _. Unit {0}} {Q = λ _. Unit {0}} _
      (loop-Safe (length src + 1) (started src) (omega arith)) λ l _. value tt)
