-- ===== src/Parser/UnitSafe.antt =====
-- Rane_resolver.cpp, `Lexer::lex` and `Parser::parse_unit`: procedures and the unit stay inside the
-- token vector and end, on the tokens of any text that the lexer accepts.
use rane_processing_language.Base.{
  ℕ, zero, suc, ◌+◌, ◌-◌, ◌≤◌, ◌<◌, ◌≡◌, refl, ap, arith, Bool, true, false, List, [], ◌∷◌, ◌++◌,
  some, ◌==◌, length,
}
use rane_processing_language.Base.Result.{ok}
use rane_processing_language.Lexer as L
use rane_processing_language.Lexer.{TokKind, Token}
use rane_processing_language.Lexer.Scan.{lex_all}
use rane_processing_language.Lexer.Balance.{lex_all-Balanced}
use rane_processing_language.Parser.{Parser, is, kind_code, not_a_proc}
use rane_processing_language.Parser.Blocks.{parse_block_colon}
use rane_processing_language.Parser.Unit.{stmt_fuel, parse_proc, parse_procs, started, parse_unit}
use rane_processing_language.Parser.Safe.{
  EndsInEof, Safe, value, At, At-le, At-pos, Safe-bind, Safe-if, Safe-perr, Safe-cur, Safe-le,
  Leaves, expect-Safe, hdr-Safe, skip_newlines-Safe, fresh_id-Safe, head,
}
use rane_processing_language.Parser.BlockSafe.{with_fuel}

block-Safe :
    (m : ℕ) {b : Bool} {s : Parser}
    → At b m s
    → Safe (Leaves true (m - 1)) (parse_block_colon (stmt_fuel s) s)
block-Safe m {s} a = Safe-le (length s.rest - 1) (m - 1) (omega (arith, a.le)) (
    (with_fuel (stmt_fuel s)).block_ok (length s.rest) (omega arith)
      (record { ends = a.ends; le = omega arith; has_prev = a.has_prev }))

parse_proc-Safe :
    (m : ℕ) {b : Bool} {s : Parser} → At b m s → Safe (Leaves true (m - 1)) (parse_proc s)
unfolding parse_proc
parse_proc-Safe m a = Safe-bind _ (skip_newlines-Safe a) λ _ s1 a1.
    Safe-bind _ (expect-Safe L.kw_proc refl a1) λ first s2 a2.
      Safe-bind _ (expect-Safe L.ident refl a2) λ name s3 a3.
        Safe-bind _ (expect-Safe L.arrow refl a3) λ _ s4 a4.
          Safe-bind _ (expect-Safe L.ident refl a4) λ ret s5 a5.
            Safe-bind _ (block-Safe (m - 1 - 1 - 1 - 1) a5) λ body s6 a6.
              Safe-bind _ (skip_newlines-Safe a6) λ _ s7 a7.
                Safe-bind _ (expect-Safe L.kw_end refl a7) λ end_tok s8 a8.
                  Safe-bind _ (hdr-Safe _ _ _ _ a8) λ _ s9 a9. value (At-le _ _ (omega arith) a9)

-- The end of the file is the next token.
abbrev pub AtEnd : {A : Type 0} → A → Parser → Type 0
AtEnd a s = EndsInEof s.rest × (t : Token) × (head s.rest ≡ some t) × (t.kind ≡ L.eof)

eof_kind : (k : TokKind) → (kind_code k == 0) ≡ true → k ≡ L.eof
eof_kind L.eof q = refl
eof_kind _ q = absurd (cc q)

parse_procs-Safe :
    (f m : ℕ) {b : Bool} {s : Parser} → m ≤ f → At b m s → Safe AtEnd (parse_procs f s)
unfolding parse_procs
parse_procs-Safe zero m le a = absurd (let pos : 0 < m = At-pos m a in omega (arith, le, pos))
parse_procs-Safe (suc f) m le a =
    let pos : 0 < m = At-pos m a in
    Safe-bind _ (skip_newlines-Safe a) λ _ s1 a1. Safe-cur _ a1 λ t h.
      Safe-if (is L.eof t) _ _ s1 (λ q. value (a1.ends, t, h, eof_kind t.kind q))
        λ _.
          Safe-if (is L.kw_proc t) _ _ s1
            (λ _. Safe-bind _ (parse_proc-Safe m a1) λ p s2 a2.
              Safe-bind _ (skip_newlines-Safe a2) λ _ s3 a3.
                Safe-bind _ (parse_procs-Safe f (m - 1) (omega (arith, le, pos)) a3)
                  λ rest s4 e. value e)
            λ _. Safe-perr not_a_proc refl a1

At-end : (s : Parser) → EndsInEof s.rest → At false (length s.rest) s
At-end s e = record { ends = e; le = omega arith; has_prev = λ q. absurd (cc q) }

unit_tokens-Safe :
    (reallocates : ℕ → Bool) (toks : List Token)
    → EndsInEof toks
    → Safe AtEnd (parse_unit reallocates toks)
unfolding parse_unit
unit_tokens-Safe reallocates toks e =
    let a : At false (length toks) (started reallocates toks) = record {
      ends = e;
      le = omega arith;
      has_prev = λ q. absurd (cc q);
    } in
    Safe-bind _ (skip_newlines-Safe a) λ _ s1 a1. Safe-cur _ a1 λ first _.
      Safe-bind _ (fresh_id-Safe a1) λ id s2 a2.
        Safe-bind _ (parse_procs-Safe (length toks + 1) (length toks) (omega arith) a2)
          λ procs s3 x. Safe-cur _ (At-end s3 x.0) λ last _. value x

EndsInEof-append :
    (front : List Token) (last : Token) → last.kind ≡ L.eof → EndsInEof (front ++ last ∷ [])
EndsInEof-append [] last q = ap (λ k. kind_code k == 0) q
EndsInEof-append (t ∷ []) last q = ap (λ k. kind_code k == 0) q
EndsInEof-append (t ∷ (u ∷ us)) last q = EndsInEof-append (u ∷ us) last q

-- On the tokens of a text that the lexer accepts, the parser never reads outside the token vector and
-- its loops end within the model's fuel: it stops with a fault of the source, or with a unit and the
-- end of the file as the next token.
pub parse_unit-Safe :
    (reallocates : ℕ → Bool) (src : List ℕ) (toks : List Token)
    → lex_all src ≡ ok toks
    → Safe AtEnd (parse_unit reallocates toks)
parse_unit-Safe reallocates src toks run =
    let (_, _, (front, last, split, q)) = lex_all-Balanced src toks run in
    unit_tokens-Safe reallocates toks (rw split (EndsInEof-append front last q))
