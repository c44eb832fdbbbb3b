-- ===== src/Lexer/Scan.antt =====
-- Rane_resolver.cpp, the loops of `struct Lexer`. A loop that takes a byte each time round is
-- recursion on a list: the bytes that are left when it starts.
use rane_processing_language.Base.{
  ℕ, zero, suc, ◌+◌, ◌-◌, ◌%◌, Bool, true, false, ◌&&◌, ◌||◌, not, List, [], ◌∷◌, ◌++◌, Option,
  none, some, ltb, ◌==◌, if◌then◌else◌, length,
}
use rane_processing_language.Base.Bytes.{u32_mod}
use rane_processing_language.Base.Result.{Result, ok, err, ◌>>=◌}
use rane_processing_language.Lexer as L
use rane_processing_language.Lexer.{
  LexFault, TokKind, Token, Lexer, between, is_ident_start, is_ident_cont, peek, peek2, get, make,
  no_fuel,
}

-- `while (take(peek())) s.push_back(get());`
unfoldable pub run_while : (ℕ → Bool) → List ℕ → Lexer → List ℕ × Lexer
run_while take [] l = ([], l)
run_while take (b ∷ bs) l =
    let next = run_while take bs (get l).1 in
    if take (peek l) then (peek l ∷ next.0, next.1) else ([], l)

abbrev pub in_comment : ℕ → Bool
in_comment c = not (c == 0) && not (c == 10)

unfoldable pub skip_from : List ℕ → Lexer → Result LexFault Lexer
skip_from [] l = ok l
skip_from (b ∷ bs) l =
    let behind_byte = skip_from bs (get l).1 in
    let behind_comment = skip_from bs (run_while in_comment l.rest l).1 in
    if peek l == 32 || peek l == 13
    then behind_byte
    else if peek l == 9
    then err L.tab
    else if peek l == 47 && peek2 l == 47
    then behind_comment
    else ok l

unfoldable pub skip_ws_midline : Lexer → Result LexFault Lexer
skip_ws_midline l = skip_from l.rest l

-- `while (indent_stack.size() > 1 && spaces < indent_stack.back())` over the stack, top first.
unfoldable pub pop_to : ℕ → ℕ → ℕ → List ℕ → Lexer → Lexer
pop_to spaces line col [] l = l
pop_to spaces line col (top ∷ []) l = l
pop_to spaces line col (top ∷ (below ∷ stack)) l =
    let popped =
      pop_to spaces line col (below ∷ stack)
        (make L.dedent line col 0 [] (record l { indent_stack = below ∷ stack })) in
    if ltb spaces top then popped else l

unfoldable pub top_of : List ℕ → ℕ
top_of [] = 0
top_of (top ∷ stack) = top

-- The tests on the spaces, which were taken from `start_line` and `start_col` on.
unfoldable pub indent_by : ℕ → ℕ → ℕ → Lexer → Result LexFault Lexer
indent_by spaces start_line start_col l =
    if peek l == 9
    then err L.tab
    else if peek l == 10 || peek l == 0
    then ok l
    else if ltb (top_of l.indent_stack) spaces
    then ok (
        make L.indent start_line start_col (spaces % u32_mod) []
          (record l { indent_stack = spaces ∷ l.indent_stack }))
    else if ltb spaces (top_of l.indent_stack)
    then (let popped = pop_to spaces start_line start_col l.indent_stack l in
        if spaces == top_of popped.indent_stack then ok popped else err L.bad_indentation)
    else ok l

unfoldable pub emit_indent_dedent : Lexer → Result LexFault Lexer
emit_indent_dedent l =
    let spaces = run_while (λ c. c == 32) l.rest l in
    indent_by (length spaces.0) l.line l.col spaces.1

unfoldable pub same_text : List ℕ → List ℕ → Bool
same_text [] [] = true
same_text (a ∷ as') (b ∷ bs) = a == b && same_text as' bs
same_text _ _ = false

abbrev pub keywords : List (List ℕ × TokKind)
keywords =
    (112 ∷ 114 ∷ 111 ∷ 99 ∷ [], L.kw_proc)
    ∷ (114 ∷ 101 ∷ 116 ∷ 117 ∷ 114 ∷ 110 ∷ [], L.kw_return)
    ∷ (108 ∷ 101 ∷ 116 ∷ [], L.kw_let)
    ∷ (101 ∷ 110 ∷ 100 ∷ [], L.kw_end)
    ∷ (105 ∷ 102 ∷ [], L.kw_if)
    ∷ (101 ∷ 108 ∷ 115 ∷ 101 ∷ [], L.kw_else)
    ∷ (109 ∷ 97 ∷ 116 ∷ 99 ∷ 104 ∷ [], L.kw_match)
    ∷ (99 ∷ 97 ∷ 115 ∷ 101 ∷ [], L.kw_case)
    ∷ (100 ∷ 101 ∷ 102 ∷ 97 ∷ 117 ∷ 108 ∷ 116 ∷ [], L.kw_default)
    ∷ (119 ∷ 105 ∷ 116 ∷ 104 ∷ [], L.kw_with)
    ∷ (100 ∷ 101 ∷ 102 ∷ 101 ∷ 114 ∷ [], L.kw_defer)
    ∷ (108 ∷ 111 ∷ 99 ∷ 107 ∷ [], L.kw_lock)
    ∷ (115 ∷ 112 ∷ 97 ∷ 119 ∷ 110 ∷ [], L.kw_spawn)
    ∷ (106 ∷ 111 ∷ 105 ∷ 110 ∷ [], L.kw_join)
    ∷ (116 ∷ 114 ∷ 121 ∷ [], L.kw_try)
    ∷ (99 ∷ 97 ∷ 116 ∷ 99 ∷ 104 ∷ [], L.kw_catch)
    ∷ (102 ∷ 105 ∷ 110 ∷ 97 ∷ 108 ∷ 108 ∷ 121 ∷ [], L.kw_finally)
    ∷ (116 ∷ 104 ∷ 114 ∷ 111 ∷ 119 ∷ [], L.kw_throw)
    ∷ []

unfoldable pub keyword_in : List ℕ → List (List ℕ × TokKind) → TokKind
keyword_in s [] = L.ident
keyword_in s ((word, k) ∷ rest) = if same_text s word then k else keyword_in s rest

abbrev pub keyword_kind : List ℕ → TokKind
keyword_kind s = keyword_in s keywords

-- The tests for two bytes, and the switch on one, in the code's order.
abbrev pub pairs : List ((ℕ × ℕ) × TokKind)
pairs =
    ((45, 62), L.arrow)
    ∷ ((38, 38), L.and_and)
    ∷ ((124, 124), L.or_or)
    ∷ ((61, 61), L.eq_eq)
    ∷ ((33, 61), L.not_eq)
    ∷ ((60, 61), L.lte)
    ∷ ((62, 61), L.gte)
    ∷ ((60, 60), L.shl)
    ∷ ((62, 62), L.shr)
    ∷ []

unfoldable pub pair_kind : ℕ → ℕ → List ((ℕ × ℕ) × TokKind) → Option TokKind
pair_kind c d [] = none
pair_kind c d (((a, b), k) ∷ rest) = if c == a && d == b then some k else pair_kind c d rest

abbrev pub singles : List (ℕ × TokKind)
singles =
    (58, L.colon)
    ∷ (61, L.assign)
    ∷ (40, L.l_paren)
    ∷ (41, L.r_paren)
    ∷ (91, L.l_bracket)
    ∷ (93, L.r_bracket)
    ∷ (44, L.comma)
    ∷ (46, L.dot)
    ∷ (43, L.plus)
    ∷ (45, L.minus)
    ∷ (42, L.star)
    ∷ (47, L.slash)
    ∷ (37, L.percent)
    ∷ (33, L.bang)
    ∷ (126, L.tilde)
    ∷ (38, L.amp)
    ∷ (124, L.pipe)
    ∷ (94, L.caret)
    ∷ (60, L.lt)
    ∷ (62, L.gt)
    ∷ (63, L.question)
    ∷ []

unfoldable pub single_kind : ℕ → List (ℕ × TokKind) → Option TokKind
single_kind c [] = none
single_kind c ((a, k) ∷ rest) = if c == a then some k else single_kind c rest

unfoldable pub escape_of : ℕ → Result LexFault ℕ
escape_of e =
    if e == 110
    then ok 10
    else if e == 114
    then ok 13
    else if e == 116
    then ok 9
    else if e == 92
    then ok 92
    else if e == 34
    then ok 34
    else err L.unknown_escape

-- The string behind its opening quote.
unfoldable pub string_from : List ℕ → List ℕ → Lexer → Result LexFault (List ℕ × Lexer)
string_from [] s l = err L.unterminated_string
string_from (b ∷ bs) s l =
    let (ch, l₁) = get l in
    let (e, l₂) = get l₁ in
    let escaped = escape_of e >>= λ x. string_from bs (s ++ x ∷ []) l₂ in
    let plain = string_from bs (s ++ ch ∷ []) l₁ in
    if ch == 0
    then err L.unterminated_string
    else if ch == 34
    then ok (s, l₁)
    else if ch == 92
    then (if e == 0 then err L.unterminated_escape else escaped)
    else plain

-- The tokens that are no operator, from the byte `c` on.
unfoldable pub lex_word : ℕ → Lexer → Result LexFault Lexer
lex_word c l =
    if c == 34
    then (string_from l.rest [] (get l).1 >>= λ p.
        ok (make L.string_lit l.line l.col ((p.1.col + u32_mod - l.col) % u32_mod) p.0 p.1))
    else if between 48 c 57
    then (let digits = run_while (λ ch. between 48 ch 57 || ch == 95) l.rest l in
        ok (make L.int_lit l.line l.col (length digits.0 % u32_mod) digits.0 digits.1))
    else if is_ident_start c
    then (let word = run_while is_ident_cont l.rest (get l).1 in
        ok (
          make (keyword_kind (c ∷ word.0)) l.line l.col (length (c ∷ word.0) % u32_mod) (c ∷ word.0)
            word.1))
    else err L.unexpected_character

unfoldable pub single_token : ℕ → Option TokKind → Lexer → Result LexFault Lexer
single_token c (some k) l = ok (make k l.line l.col 1 (c ∷ []) (get l).1)
single_token c none l = lex_word c l

unfoldable pub pair_token : ℕ → Option TokKind → Lexer → Result LexFault Lexer
pair_token c (some k) l = ok (make k l.line l.col 2 (c ∷ peek2 l ∷ []) (get (get l).1).1)
pair_token c none l = single_token c (single_kind c singles) l

unfoldable pub lex_token : Lexer → Result LexFault Lexer
lex_token l =
    if peek l == 10
    then ok (make L.newline l.line l.col 1 (92 ∷ 110 ∷ []) (get l).1)
    else pair_token (peek l) (pair_kind (peek l) (peek2 l) pairs) l

-- What stands before the token: indentation at the start of a line, then blanks and comments.
unfoldable pub lex_blank : Lexer → Result LexFault Lexer
lex_blank l = do l₁ ← if l.at_line_start then emit_indent_dedent l else ok l; skip_ws_midline l₁

-- The loop, a round for each unit of fuel.
unfoldable pub lex_loop : ℕ → Lexer → Result LexFault Lexer
lex_loop zero l = err no_fuel
lex_loop (suc fuel) l = do
  l₁ ← lex_blank l
  if peek l₁ == 0 then ok l₁ else (lex_token l₁ >>= λ l₂. lex_loop fuel l₂)

-- The dedents at the end.
unfoldable pub pop_all : List ℕ → Lexer → Lexer
pop_all [] l = l
pop_all (top ∷ []) l = l
pop_all (top ∷ (below ∷ stack)) l =
    pop_all (below ∷ stack)
      (make L.dedent l.line l.col 0 [] (record l { indent_stack = below ∷ stack }))

abbrev pub started : List ℕ → Lexer
started src = record {
  rest = src;
  line = 1;
  col = 1;
  next_ordinal = 1;
  indent_stack = 0 ∷ [];
  at_line_start = true;
  toks = [];
}

unfoldable pub lex_all : List ℕ → Result LexFault (List Token)
lex_all src = do
  l ← lex_loop (length src + 1) (started src)
  let l₁ = pop_all l.indent_stack l
  ok (make L.eof l₁.line l₁.col 0 [] l₁).toks
