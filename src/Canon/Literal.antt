-- ===== src/Canon/Literal.antt =====
-- Rane_resolver.cpp, the string case of `CanonWriter::emit_expr` and the string case of `Lexer::lex_all`.
use rane_processing_language.Base.{
  ℕ, suc, ◌+◌, ◌-◌, ◌%◌, ◌<◌, ◌≡◌, refl, sym, ap, ◌∙◌, arith, false, List, [], ◌∷◌, ◌++◌,
  append_assoc, append-nil, ◌==◌, length, length-append, All, ◌⊎◌, Bool-cases, inl, inr,
}
use rane_processing_language.Base.Bytes.{u32_mod}
use rane_processing_language.Base.Result.{Result, ok, ◌>>=◌}
use rane_processing_language.Lexer.{
  TokKind, Token, Lexer, LexFault, get, get_from, column_state, make,
}
use rane_processing_language.Lexer as L
use rane_processing_language.Lexer.Scan.{string_from, escape_of, lex_word}
use rane_processing_language.Syntax as S
use rane_processing_language.Canon.{escaped, expr_text}

get_at :
    (c : ℕ) (cs : List ℕ) (l : Lexer)
    → l.rest ≡ c ∷ cs
    → (c == 0) ≡ false
    → (c == 10) ≡ false
    → get l ≡ (c, column_state cs l)
unfolding get get_from
get_at c cs l r z n = rw r (rw (z, n) refl)

plain_step :
    (b c : ℕ) (bs cs acc : List ℕ) (l : Lexer)
    → l.rest ≡ c ∷ cs
    → (c == 0) ≡ false
    → (c == 10) ≡ false
    → (c == 34) ≡ false
    → (c == 92) ≡ false
    → string_from (b ∷ bs) acc l ≡ string_from bs (acc ++ c ∷ []) (column_state cs l)
unfolding string_from
plain_step b c bs cs acc l r z n q s = rw (get_at c cs l r z n) (rw (z, q, s) refl)

escape_step :
    (b e x : ℕ) (bs cs acc : List ℕ) (l : Lexer)
    → l.rest ≡ 92 ∷ (e ∷ cs)
    → (e == 0) ≡ false
    → (e == 10) ≡ false
    → escape_of e ≡ ok x
    → string_from (b ∷ bs) acc l
      ≡ string_from bs (acc ++ x ∷ []) (column_state cs (column_state (e ∷ cs) l))
unfolding string_from
escape_step b e x bs cs acc l r z n q =
    rw (get_at 92 (e ∷ cs) l r refl refl)
      (rw (get_at e cs (column_state (e ∷ cs) l) refl z n) (rw (z, q) refl))

quote_step :
    (b : ℕ) (bs cs acc : List ℕ) (l : Lexer)
    → l.rest ≡ 34 ∷ cs
    → string_from (b ∷ bs) acc l ≡ ok (acc, column_state cs l)
unfolding string_from
quote_step b bs cs acc l r = rw (get_at 34 cs l r refl refl) refl

-- A run of the lexer over a string, from `acc` on.
record ReadsText (acc s more : List ℕ) (l : Lexer) (run : Result LexFault (List ℕ × Lexer))
    : Type 0 where
  behind : Lexer
  runs : run ≡ ok (acc ++ s, behind)
  rest : behind.rest ≡ more
  toks : behind.toks ≡ l.toks

-- The escape of one byte of a string, and where it leads.
stepped :
    {acc s more : List ℕ} {l l2 : Lexer} (x : ℕ) {run run2 : Result LexFault (List ℕ × Lexer)}
    → run ≡ run2
    → l2.toks ≡ l.toks
    → ReadsText (acc ++ x ∷ []) s more l2 run2
    → ReadsText acc (x ∷ s) more l run
stepped {acc} {s} x q t d = record {
  behind = d.behind;
  runs = q ∙ d.runs ∙ ap (λ y. ok (y, d.behind)) (append_assoc acc (x ∷ []) s);
  rest = d.rest;
  toks = d.toks ∙ t;
}

abbrev pub NonZero : ℕ → Type 0
NonZero c = (c == 0) ≡ false

escaped_cases :
    (c : ℕ) (cs : List ℕ)
    → ((e : ℕ) × (escaped (c ∷ cs) ≡ 92 ∷ (e ∷ escaped cs))
        × (escape_of e ≡ ok c)
        × ((e == 0) ≡ false)
        × ((e == 10) ≡ false))
      ⊎ ((escaped (c ∷ cs) ≡ c ∷ escaped cs)
          × ((c == 10) ≡ false)
          × ((c == 34) ≡ false)
          × ((c == 92) ≡ false))
unfolding escaped escape_of
escaped_cases c cs = elim (Bool-cases (c == 92)) [
  | inl q ↦ inl (92, rw q refl, ap ok (ground (arith, q)), refl, refl)
  | inr q ↦ elim (Bool-cases (c == 34)) [
    | inl p ↦ inl (34, rw (q, p) refl, ap ok (ground (arith, p)), refl, refl)
    | inr p ↦ elim (Bool-cases (c == 10)) [
      | inl n ↦ inl (110, rw (q, p, n) refl, ap ok (ground (arith, n)), refl, refl)
      | inr n ↦ inr (rw (q, p, n) refl, n, p, q)
    ]
  ]
]

reads_text :
    (s bs acc more : List ℕ) (l : Lexer)
    → All NonZero s
    → l.rest ≡ escaped s ++ 34 ∷ more
    → length (escaped s) < length bs
    → ReadsText acc s more l (string_from bs acc l)
unfolding escaped
reads_text s [] acc more l z r lt = absurd (omega (arith, lt))
reads_text [] (b ∷ bs) acc more l z r lt = record {
  behind = column_state more l;
  runs =
      quote_step b bs more acc l r ∙ ap (λ y. ok (y, column_state more l)) (sym (append-nil acc));
  rest = refl;
  toks = refl;
}
reads_text (c ∷ cs) (b ∷ bs) acc more l z r lt = elim (escaped_cases c cs) [
  | inl (e, split, gives, e_zero, e_newline) ↦
      let at_escape : l.rest ≡ 92 ∷ (e ∷ (escaped cs ++ 34 ∷ more)) =
        r ∙ ap (λ t. t ++ 34 ∷ more) split in
      let next : Lexer =
        column_state (escaped cs ++ 34 ∷ more) (column_state (e ∷ (escaped cs ++ 34 ∷ more)) l) in
      let size : length (escaped (c ∷ cs)) ≡ length (escaped cs) + 2 =
        ap (λ t. length t) split ∙ omega arith in
      stepped c
        (escape_step b e c bs (escaped cs ++ 34 ∷ more) acc l at_escape e_zero e_newline gives) refl
        (reads_text cs bs (acc ++ c ∷ []) more next z.1 refl (omega (arith, lt, size)))
  | inr (split, newline, quote, slash) ↦
      let at_plain : l.rest ≡ c ∷ (escaped cs ++ 34 ∷ more) = r ∙ ap (λ t. t ++ 34 ∷ more) split in
      let size : length (escaped (c ∷ cs)) ≡ length (escaped cs) + 1 =
        ap (λ t. length t) split ∙ omega arith in
      stepped c (plain_step b c bs (escaped cs ++ 34 ∷ more) acc l at_plain z.0 newline quote slash)
        refl
        (reads_text cs bs (acc ++ c ∷ []) more (column_state (escaped cs ++ 34 ∷ more) l) z.1 refl
          (omega (arith, lt, size)))
]

-- A string literal as the canonical writer prints it, with no zero byte, is read by the lexer as one token: a
-- string with the literal's text, and the lexer goes on behind the closing quote.
pub string_expr-read :
    (h : S.NodeHeader) (s more : List ℕ) (l : Lexer)
    → All NonZero s
    → l.rest ≡ expr_text (S.string_expr h s) ++ more
    → (l2 : Lexer) × (t : Token) × (lex_word 34 l ≡ ok l2)
      × (t.kind ≡ L.string_lit)
      × (t.text ≡ s)
      × (l2.toks ≡ l.toks ++ t ∷ [])
      × (l2.rest ≡ more)
unfolding lex_word expr_text make
string_expr-read h s more l z r =
    let split : l.rest ≡ 34 ∷ (escaped s ++ 34 ∷ more) =
      r ∙ ap (λ t. 34 ∷ t) (append_assoc (escaped s) (34 ∷ []) more) in
    let open_quote : get l ≡ (34, column_state (escaped s ++ 34 ∷ more) l) =
      get_at 34 (escaped s ++ 34 ∷ more) l split refl refl in
    let size : length l.rest ≡ length (escaped s) + (length more + 2) =
      ap (λ t. length t) split ∙ ap suc (length-append (escaped s) (34 ∷ more)) ∙ omega arith in
    let d : ReadsText [] s more (column_state (escaped s ++ 34 ∷ more) l)
        (string_from l.rest [] (column_state (escaped s ++ 34 ∷ more) l)) =
      reads_text s l.rest [] more (column_state (escaped s ++ 34 ∷ more) l) z refl
        (omega (arith, size)) in
    let at_end : string_from l.rest [] (get l).1 ≡ ok (s, d.behind) = rw open_quote d.runs in
    let width : ℕ = (d.behind.col + u32_mod - l.col) % u32_mod in
    let t : Token = record {
      kind = L.string_lit;
      text = s;
      line = l.line;
      col = l.col;
      len = width;
      ordinal = d.behind.next_ordinal;
    } in
    (
      make L.string_lit l.line l.col width s d.behind,
      t,
      ap
          (λ x. x >>= λ p.
            ok (make L.string_lit l.line l.col ((p.1.col + u32_mod - l.col) % u32_mod) p.0 p.1))
          at_end,
      refl,
      refl,
      ap (λ ts. ts ++ t ∷ []) d.toks,
      d.rest,
    )
