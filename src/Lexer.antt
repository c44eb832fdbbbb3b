-- ===== src/Lexer.antt =====
-- Rane_resolver.cpp: tokens and `struct Lexer`. A string is the list of its bytes. The state keeps
-- the bytes from `i` on, the indentation stack with its top first, and the tokens made so far, which
-- the code returns and collects. `die` is a value of `LexFault`.
pub mod Scan
pub mod Invariant
pub mod Balance
pub mod Fuel
mod Tests
use rane_processing_language.Base.{
  ℕ, ◌+◌, ◌%◌, zero, suc, Bool, true, false, ◌&&◌, ◌||◌, not, List, [], ◌∷◌, ◌++◌, Option, none,
  some, leb, ◌==◌, if◌then◌else◌, length,
}
use rane_processing_language.Base.Bytes.{u32_mod}
use rane_processing_language.Base.Result.{Result, ok, err}

pub data LexFault : Type 0 where
  tab bad_indentation unterminated_string unterminated_escape unknown_escape unexpected_character :
      LexFault
  no_fuel : LexFault

pub data TokKind : Type 0 where
  eof newline indent dedent : TokKind
  ident int_lit string_lit : TokKind
  kw_proc kw_return kw_let kw_end kw_if kw_else kw_match kw_case kw_default : TokKind
  kw_with kw_defer kw_lock kw_spawn kw_join kw_try kw_catch kw_finally kw_throw : TokKind
  arrow colon assign l_paren r_paren l_bracket r_bracket comma dot : TokKind
  plus minus star slash percent bang tilde and_and or_or amp pipe caret shl shr : TokKind
  eq_eq not_eq lt lte gt gte question : TokKind

pub record Token : Type 0 where
  pub kind : TokKind
  pub text : List ℕ
  pub line : ℕ
  pub col : ℕ
  pub len : ℕ
  pub ordinal : ℕ

pub record Lexer : Type 0 where
  pub rest : List ℕ
  pub line : ℕ
  pub col : ℕ
  pub next_ordinal : ℕ
  pub indent_stack : List ℕ
  pub at_line_start : Bool
  pub toks : List Token

abbrev pub between : ℕ → ℕ → ℕ → Bool
between low c high = leb low c && leb c high

unfoldable pub is_ident_start : ℕ → Bool
is_ident_start c = between 65 c 90 || (between 97 c 122 || c == 95)

unfoldable pub is_ident_cont : ℕ → Bool
is_ident_cont c = is_ident_start c || between 48 c 57

-- A zero byte reads like the end.
unfoldable pub peek_at : List ℕ → ℕ
peek_at [] = 0
peek_at (c ∷ cs) = c

unfoldable pub peek : Lexer → ℕ
peek l = peek_at l.rest

unfoldable pub peek2 : Lexer → ℕ
peek2 l = elim l.rest [ [] ↦ 0 | c ∷ cs ↦ peek_at cs ]

abbrev newline_state : List ℕ → Lexer → Lexer
newline_state cs l = record l {
  rest = cs;
  line = (l.line + 1) % u32_mod;
  col = 1;
  at_line_start = true;
}

abbrev pub column_state : List ℕ → Lexer → Lexer
column_state cs l = record l { rest = cs; col = (l.col + 1) % u32_mod; at_line_start = false }

-- The byte that is taken, and the state behind it.
unfoldable pub get_from : List ℕ → Lexer → ℕ × Lexer
get_from [] l = (0, l)
get_from (c ∷ cs) l =
    if c == 0 then (0, l) else if c == 10 then (c, newline_state cs l) else (c, column_state cs l)

unfoldable pub get : Lexer → ℕ × Lexer
get l = get_from l.rest l

-- `toks.push_back(make(kind, span, text))`
unfoldable pub make : TokKind → ℕ → ℕ → ℕ → List ℕ → Lexer → Lexer
make k line col len text l = record l {
  next_ordinal = (l.next_ordinal + 1) % u32_mod;
  toks =
      l.toks
      ++ record {
        kind = k;
        text = text;
        line = line;
        col = col;
        len = len;
        ordinal = l.next_ordinal;
      }
        ∷ [];
}
