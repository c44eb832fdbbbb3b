-- ===== src/Lexer/Tests.antt =====
-- A small text through the lexer, and the theorems applied to it.
use rane_processing_language.Base.{ℕ, ◌≡◌, ◌≢◌, refl, List, [], ◌∷◌, ◌++◌, some}
use rane_processing_language.Base.Result.{Result, ok, err}
use rane_processing_language.Lexer as L
use rane_processing_language.Lexer.{
  LexFault, TokKind, Token, is_ident_start, is_ident_cont, peek_at, peek, peek2, get_from, get,
  make,
}
use rane_processing_language.Lexer.Scan.{
  run_while, skip_from, skip_ws_midline, pop_to, top_of, indent_by, emit_indent_dedent, same_text,
  keyword_in, pair_kind, single_kind, lex_word, single_token, pair_token, lex_token, lex_blank,
  lex_loop, pop_all, lex_all,
}
use rane_processing_language.Lexer.Invariant.{level, Numbered}
use rane_processing_language.Lexer.Balance.{lex_all-Balanced}
use rane_processing_language.Lexer.Fuel.{lex_all_terminates}

-- "if a:", and "let x" on a line that is indented by two.
abbrev small_source : List ℕ
small_source = 105 ∷ 102 ∷ 32 ∷ 97 ∷ 58 ∷ 10 ∷ 32 ∷ 32 ∷ 108 ∷ 101 ∷ 116 ∷ 32 ∷ 120 ∷ []

abbrev lexed : Result LexFault (List Token) → List Token
lexed (ok toks) = toks
lexed (err e) = []

abbrev small_tokens : List Token
small_tokens = lexed (lex_all small_source)

abbrev kinds : List Token → List TokKind
kinds [] = []
kinds (t ∷ ts) = t.kind ∷ kinds ts

small_facts :
    (lex_all small_source ≡ ok small_tokens)
    × (kinds small_tokens
        ≡ L.kw_if ∷ L.ident ∷ L.colon ∷ L.newline ∷ L.indent ∷ L.kw_let ∷ L.ident ∷ L.dedent ∷ L.eof
          ∷ [])
unfolding lex_all lex_loop lex_blank emit_indent_dedent indent_by top_of run_while skip_ws_midline
    skip_from lex_token pair_token single_token lex_word pair_kind single_kind keyword_in same_text
    pop_all pop_to make get get_from peek peek2 peek_at is_ident_start is_ident_cont
small_facts = (refl, refl)

lex_all-Balanced_example :
    (level 0 small_tokens ≡ some 0)
    × Numbered 1 small_tokens
    × ((front : List Token) × (last : Token) × (small_tokens ≡ front ++ last ∷ [])
        × (last.kind ≡ L.eof))
lex_all-Balanced_example = lex_all-Balanced small_source small_tokens small_facts.0

lex_all_terminates_example : lex_all small_source ≢ err L.no_fuel
lex_all_terminates_example = lex_all_terminates small_source
