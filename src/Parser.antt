-- ===== src/Parser.antt =====
-- Rane_resolver.cpp, `struct Parser`: the state and the small operations. The state keeps the token
-- before `p`, the tokens from `p` on and the block arena of the unit. `die` is a value of
-- `ParseFault`, and so is a read outside the token vector.
pub mod Expressions
pub mod Statements
pub mod Blocks
pub mod Unit
pub mod Safe
pub mod ExprSafe
pub mod StmtSafe
pub mod BranchSafe
pub mod BlockSafe
pub mod UnitSafe
pub mod LetError
pub mod Grammar
pub mod Runs
pub mod Follow
pub mod Climbs
pub mod OrError
pub mod GtError
pub mod LevelTests
pub mod Tests
use rane_processing_language.Base.{
  ℕ, zero, suc, ◌+◌, ◌-◌, ◌*◌, ◌/◌, ◌%◌, ◌^◌, Bool, true, false, ◌&&◌, ◌||◌, not, List, [], ◌∷◌,
  ◌++◌, Option, none, some, ltb, leb, ◌==◌, if◌then◌else◌, length,
}
use rane_processing_language.Base.Bytes.{u32_mod}
use rane_processing_language.Base.Result.{Result, ok, err}
use rane_processing_language.Lexer as L
use rane_processing_language.Lexer.{TokKind, Token}
use rane_processing_language.Syntax.{Span, NodeKind, NodeHeader, Expr, BlockPtr, Block, BlockArena}
use rane_processing_language.Syntax as S

pub data ParseFault : Type 0 where
  expected : TokKind → ParseFault
  expected_expression unhandled_operator invalid_int unsupported_statement bad_arm no_as
        not_a_proc :
      ParseFault
  uncaught undefined no_fuel : ParseFault

-- The vector of blocks grows by `push_back` only, so its library decides by the number of elements
-- whether one more moves them: `reallocates`.
pub record Parser : Type 0 where
  pub prev : Option Token
  pub rest : List Token
  pub next_id : ℕ
  pub block_arena : BlockArena
  pub reallocates : ℕ → Bool

abbrev pub Parse {ℓ} : Type ℓ → Type ℓ
Parse A = Parser → Result ParseFault (A × Parser)

abbrev pub pure {ℓ} : {A : Type ℓ} → A → Parse A
pure a s = ok (a, s)

abbrev pub continue {ℓ κ} :
    {A : Type ℓ} {B : Type κ}
    → Result ParseFault (A × Parser)
    → (A → Parse B)
    → Result ParseFault (B × Parser)
continue (ok (a, s)) f = f a s
continue (err e) f = err e

infixl 1 ◌>>=◌
abbrev pub ◌>>=◌ {ℓ κ} : {A : Type ℓ} {B : Type κ} → Parse A → (A → Parse B) → Parse B
p >>= f = λ s. continue (p s) f

infixl 1 ◌>>◌
abbrev pub ◌>>◌ {ℓ κ} : {A : Type ℓ} {B : Type κ} → Parse A → Parse B → Parse B
p >> q = p >>= λ _. q

-- The place of a kind in the enumeration.
abbrev pub kind_code : TokKind → ℕ
kind_code L.eof = 0
kind_code L.newline = 1
kind_code L.indent = 2
kind_code L.dedent = 3
kind_code L.ident = 4
kind_code L.int_lit = 5
kind_code L.string_lit = 6
kind_code L.kw_proc = 7
kind_code L.kw_return = 8
kind_code L.kw_let = 9
kind_code L.kw_end = 10
kind_code L.kw_if = 11
kind_code L.kw_else = 12
kind_code L.kw_match = 13
kind_code L.kw_case = 14
kind_code L.kw_default = 15
kind_code L.kw_with = 16
kind_code L.kw_defer = 17
kind_code L.kw_lock = 18
kind_code L.kw_spawn = 19
kind_code L.kw_join = 20
kind_code L.kw_try = 21
kind_code L.kw_catch = 22
kind_code L.kw_finally = 23
kind_code L.kw_throw = 24
kind_code L.arrow = 25
kind_code L.colon = 26
kind_code L.assign = 27
kind_code L.l_paren = 28
kind_code L.r_paren = 29
kind_code L.l_bracket = 30
kind_code L.r_bracket = 31
kind_code L.comma = 32
kind_code L.dot = 33
kind_code L.plus = 34
kind_code L.minus = 35
kind_code L.star = 36
kind_code L.slash = 37
kind_code L.percent = 38
kind_code L.bang = 39
kind_code L.tilde = 40
kind_code L.and_and = 41
kind_code L.or_or = 42
kind_code L.amp = 43
kind_code L.pipe = 44
kind_code L.caret = 45
kind_code L.shl = 46
kind_code L.shr = 47
kind_code L.eq_eq = 48
kind_code L.not_eq = 49
kind_code L.lt = 50
kind_code L.lte = 51
kind_code L.gt = 52
kind_code L.gte = 53
kind_code L.question = 54

abbrev pub is : TokKind → Token → Bool
is k t = kind_code t.kind == kind_code k

-- `cur()`, `peek()` and `toks[p - 1]`.
unfoldable pub cur : Parse Token
cur s = elim s.rest [ [] ↦ err undefined | t ∷ ts ↦ ok (t, s) ]

unfoldable pub second : List Token → Option Token
second (t ∷ (u ∷ us)) = some u
second _ = none

unfoldable pub peek : Parse Token
peek s = elim (second s.rest) [ none ↦ err undefined | some u ↦ ok (u, s) ]

unfoldable pub last_token : Parse Token
last_token s = elim s.prev [ none ↦ err undefined | some t ↦ ok (t, s) ]

unfoldable pub take : Parse Token
take s = elim s.rest [ [] ↦ err undefined | t ∷ ts ↦ ok (t, record s { prev = some t; rest = ts }) ]

-- `perr`, which reads the current token for its place.
unfoldable pub perr {ℓ} : {A : Type ℓ} → ParseFault → Parse A
perr e s = elim s.rest [ [] ↦ err undefined | t ∷ ts ↦ err e ]

unfoldable pub skip_from : List Token → Parse (Unit {0})
skip_from [] s = err undefined
skip_from (t ∷ ts) s =
    let behind = skip_from ts (record s { prev = some t; rest = ts }) in
    if is L.newline t then behind else ok (tt, s)

unfoldable pub skip_newlines : Parse (Unit {0})
skip_newlines s = skip_from s.rest s

unfoldable pub expect : TokKind → Parse Token
expect k = do t ← cur; if is k t then take else perr (expected k)

abbrev pub span_of : Token → Span
span_of t = record { line = t.line; col = t.col; len = t.len }

unfoldable pub merge_span : Token → Token → Span
merge_span a b =
    let endcol = (b.col + b.len) % u32_mod in
    record {
      line = a.line;
      col = a.col;
      len =
          if a.line == b.line then (if ltb a.col endcol then endcol - a.col else a.len) else a.len;
    }

-- `next_id++`
unfoldable pub fresh_id : Parse ℕ
fresh_id s = ok (s.next_id, record s { next_id = (s.next_id + 1) % u32_mod })

unfoldable pub hdr : NodeKind → Token → Token → Span → Parse NodeHeader
hdr k first last sp = do
  id ← fresh_id
  pure (record { kind = k; id = id; span = sp; first_tok = first.ordinal; last_tok = last.ordinal })

-- `std::stoll` on decimal digits: the digits in front, as long as the value is no more than 2^63 - 1.
unfoldable pub digits_value : ℕ → List ℕ → ℕ
digits_value acc [] = acc
digits_value acc (c ∷ cs) =
    let rest = digits_value (acc * 10 + (c - 48)) cs in if L.between 48 c 57 then rest else acc

unfoldable pub starts_with_digit : List ℕ → Bool
starts_with_digit [] = false
starts_with_digit (c ∷ cs) = L.between 48 c 57

unfoldable pub stoll : List ℕ → Option ℕ
stoll cs =
    if starts_with_digit cs && ltb (digits_value 0 cs) (2 ^ 63)
    then some (digits_value 0 cs)
    else none

-- The literal's text without underscores.
unfoldable pub cleaned : List ℕ → List ℕ
cleaned [] = []
cleaned (c ∷ cs) = if c == 95 then cleaned cs else c ∷ cleaned cs

-- The value of a literal, or a fault.
unfoldable pub int_value : ParseFault → Token → Parse ℕ
int_value e t s = elim (stoll (cleaned t.text)) [ none ↦ err e | some v ↦ ok (v, s) ]

-- `push_back`: a vector that is full moves to a new buffer.
unfoldable pub push_back : (ℕ → Bool) → Block → BlockArena → BlockArena
push_back reallocates b arena = record {
  blocks = arena.blocks ++ b ∷ [];
  buffer = if reallocates (length arena.blocks) then arena.buffer + 1 else arena.buffer;
}

-- `new_block`, and the assignment through its pointer that follows every call of it.
unfoldable pub new_block : Token → Block → Parse BlockPtr
new_block first body s =
    let arena = push_back s.reallocates body s.block_arena in
    ok (
      record { buffer = arena.buffer; index = length s.block_arena.blocks },
      record s { next_id = (s.next_id + 1) % u32_mod; block_arena = arena },
    )
