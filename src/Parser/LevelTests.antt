-- ===== src/Parser/LevelTests.antt =====
-- The parser's table of powers beside the levels of grammar.ebnf, from `logical_or_expr` to `mult_expr`.
use rane_processing_language.Base.{
  ℕ, ◌≡◌, refl, Bool, List, [], ◌∷◌, ◌++◌, Option, none, some, ltb, if◌then◌else◌,
}
use rane_processing_language.Lexer as L
use rane_processing_language.Lexer.{TokKind}
use rane_processing_language.Parser.Expressions.{infix_prec}

-- The levels, loosest first.
abbrev ebnf_levels : List (List TokKind)
ebnf_levels =
    (L.or_or ∷ [])
    ∷ (L.and_and ∷ [])
    ∷ (L.caret ∷ [])
    ∷ (L.pipe ∷ [])
    ∷ (L.amp ∷ [])
    ∷ (L.eq_eq ∷ L.not_eq ∷ [])
    ∷ (L.lt ∷ L.lte ∷ L.gt ∷ L.gte ∷ [])
    ∷ (L.shl ∷ L.shr ∷ [])
    ∷ (L.plus ∷ L.minus ∷ [])
    ∷ (L.star ∷ L.slash ∷ L.percent ∷ [])
    ∷ []

abbrev left_power : Option (ℕ × ℕ) → ℕ
left_power none = 0
left_power (some (l, r)) = l

abbrev looser : TokKind → TokKind → Bool
looser a b = ltb (left_power (infix_prec a)) (left_power (infix_prec b))

abbrev beside : TokKind → List TokKind → List (TokKind × TokKind)
beside a [] = []
beside a (b ∷ bs) = if looser a b then beside a bs else ((a, b) ∷ beside a bs)

abbrev below_all : TokKind → List (List TokKind) → List (TokKind × TokKind)
below_all a [] = []
below_all a (l ∷ ls) = beside a l ++ below_all a ls

abbrev level_below : List TokKind → List (List TokKind) → List (TokKind × TokKind)
level_below [] ls = []
level_below (a ∷ as') ls = below_all a ls ++ level_below as' ls

-- The pairs of which the first stands on a looser level, and the parser does not bind it more loosely.
abbrev not_looser : List (List TokKind) → List (TokKind × TokKind)
not_looser [] = []
not_looser (l ∷ ls) = level_below l ls ++ not_looser ls

-- All levels of grammar.ebnf are in the parser's order but `^` and `|`.
only_xor_or : not_looser ebnf_levels ≡ (L.caret, L.pipe) ∷ []
unfolding infix_prec
only_xor_or = refl
