-- ===== src/Parser/Safe.antt =====
-- Rules for parser code: from a state whose tokens end with the end of the file, each small operation
-- stays inside the token vector, and leaves such a state with no more tokens.
use rane_processing_language.Base.{
  ℕ, ◌-◌, ◌≤◌, ◌<◌, ◌≡◌, refl, sym, ap, ◌∙◌, arith, Bool, true, false, List, [], ◌∷◌, Option, none,
  some, Option-cases, inl, inr, ◌==◌, if◌then◌else◌, length,
}
use rane_processing_language.Base.Result.{Result, ok, err}
use rane_processing_language.Lexer as L
use rane_processing_language.Lexer.{TokKind, Token}
use rane_processing_language.Syntax.{Span, NodeKind, Block}
use rane_processing_language.Parser.{
  ParseFault, Parser, Parse, continue, kind_code, is, cur, peek, second, last_token, take, perr,
  skip_from, skip_newlines, expect, expected, fresh_id, hdr, int_value, stoll, cleaned, new_block,
  undefined, no_fuel,
}

-- The faults of the model: a read outside the vector, and fuel that was too little.
abbrev pub is_stuck : ParseFault → Bool
is_stuck undefined = true
is_stuck no_fuel = true
is_stuck _ = false

-- An outcome that is a value with `P`, or a fault of the source.
pub data Safe {ℓ} {A : Type ℓ} (P : A → Parser → Type 0)
    : Result ParseFault (A × Parser) → Type ℓ where
  value : {a : A} {s : Parser} → P a s → Safe P (ok (a, s))
  fault : {e : ParseFault} → is_stuck e ≡ false → Safe P (err e)

-- The last token, and no other, need be the end of the file.
abbrev pub EndsInEof : List Token → Type 0
EndsInEof [] = ⊥
EndsInEof (t ∷ []) = is L.eof t ≡ true
EndsInEof (t ∷ (u ∷ us)) = EndsInEof (u ∷ us)

-- At most `n` tokens are left, and there is a token before them if `moved`.
pub record At (moved : Bool) (n : ℕ) (s : Parser) : Type 0 where
  pub ends : EndsInEof s.rest
  pub le : length s.rest ≤ n
  pub has_prev : moved ≡ true → (t : Token) × (s.prev ≡ some t)

pub At-le : (m n : ℕ) {b : Bool} {s : Parser} → m ≤ n → At b m s → At b n s
At-le m n le a = record { ends = a.ends; le = omega (arith, a.le); has_prev = a.has_prev }

nonempty : (ts : List Token) → EndsInEof ts → 0 < length ts
nonempty [] e = absurd e
nonempty (t ∷ ts) e = omega arith

pub At-pos : {b : Bool} (n : ℕ) {s : Parser} → At b n s → 0 < n
At-pos n {s} a = let p : 0 < length s.rest = nonempty s.rest a.ends in omega (arith, a.le)

abbrev pub head : List Token → Option Token
head [] = none
head (t ∷ ts) = some t

EndsInEof-tail :
    (t : Token) (ts : List Token) → is L.eof t ≡ false → EndsInEof (t ∷ ts) → EndsInEof ts
EndsInEof-tail t [] q e = cc (sym q ∙ e)
EndsInEof-tail t (u ∷ us) q e = e

module _ {ℓ κ} {A : Type ℓ} {B : Type κ} {Q : B → Parser → Type 0} where
  pub Safe-bind :
      {P : A → Parser → Type 0} {r : Result ParseFault (A × Parser)} (f : A → Parse B)
      → Safe P r
      → ((a : A) (s : Parser) → P a s → Safe Q (f a s))
      → Safe Q (continue r f)
  Safe-bind f (value h) k = k _ _ h
  Safe-bind f (fault q) k = fault q

module _ {κ} {B : Type κ} {Q : B → Parser → Type 0} where
  pub Safe-if :
      (b : Bool) (p q : Parse B) (s : Parser)
      → (b ≡ true → Safe Q (p s))
      → (b ≡ false → Safe Q (q s))
      → Safe Q ((if b then p else q) s)
  Safe-if true p q s h k = h refl
  Safe-if false p q s h k = k refl

  perr_from :
      (ts : List Token) (e : ParseFault) (s : Parser)
      → s.rest ≡ ts
      → EndsInEof ts
      → is_stuck e ≡ false
      → Safe Q (perr e s)
  unfolding perr
  perr_from [] e s r x q = absurd x
  perr_from (t ∷ ts) e s r x q = rw (r, perr) (fault q)

  pub Safe-perr :
      {b : Bool} {n : ℕ} {s : Parser} (e : ParseFault)
      → is_stuck e ≡ false
      → At b n s
      → Safe Q (perr e s)
  Safe-perr {s} e q a = perr_from s.rest e s refl a.ends q

  cur_from :
      (ts : List Token) (f : Token → Parse B) (s : Parser)
      → s.rest ≡ ts
      → EndsInEof ts
      → ((t : Token) → head ts ≡ some t → Safe Q (f t s))
      → Safe Q (continue (cur s) f)
  unfolding cur
  cur_from [] f s r x k = absurd x
  cur_from (t ∷ ts) f s r x k = rw (r, cur) (k t refl)

  pub Safe-cur :
      {b : Bool} {n : ℕ} {s : Parser} (f : Token → Parse B)
      → At b n s
      → ((t : Token) → head s.rest ≡ some t → Safe Q (f t s))
      → Safe Q (continue (cur s) f)
  Safe-cur {s} f a k = cur_from s.rest f s refl a.ends k

pub Safe-ite :
    {A : Type 0} {P : A → Parser → Type 0} (b : Bool) {x y : Result ParseFault (A × Parser)}
    → (b ≡ true → Safe P x)
    → (b ≡ false → Safe P y)
    → Safe P (if b then x else y)
Safe-ite true h k = h refl
Safe-ite false h k = k refl

-- The rest of the operations, each with what it leaves.
abbrev pub Leaves : {A : Type 0} → Bool → ℕ → A → Parser → Type 0
Leaves b n a s = At b n s

pub take-Safe :
    {b : Bool} {n : ℕ} {s : Parser} {t : Token}
    → At b n s
    → head s.rest ≡ some t
    → is L.eof t ≡ false
    → Safe (Leaves true (n - 1)) (take s)
unfolding take
take-Safe {b} {n} {s} {t} a q e = taken s.rest refl q
  where
    taken : (ts : List Token) → s.rest ≡ ts → head ts ≡ some t → Safe (Leaves true (n - 1)) (take s)
    taken [] r h = absurd (cc h)
    taken (u ∷ ts) r h =
        let same : u ≡ t = cc h in
        let ends : EndsInEof (u ∷ ts) = rw r at a.ends in
        let le : length (u ∷ ts) ≤ n = rw r at a.le in
        rw (r, take)
          (value (record {
            ends = EndsInEof-tail u ts (ap (λ (x : Token). is L.eof x) same ∙ e) ends;
            le = omega arith;
            has_prev = λ _. (u, refl);
          }))

pub expect-Safe :
    (k : TokKind) {b : Bool} {n : ℕ} {s : Parser}
    → (kind_code k == 0) ≡ false
    → At b n s
    → Safe (Leaves true (n - 1)) (expect k s)
unfolding expect
expect-Safe k {s} z a = Safe-cur _ a λ t h.
    Safe-if (is k t) take (perr (expected k)) s (λ q. take-Safe a h (ground (arith, q, z)))
      (λ _. Safe-perr (expected k) refl a)

pub last_token-Safe : {n : ℕ} {s : Parser} → At true n s → Safe (Leaves true n) (last_token s)
unfolding last_token
last_token-Safe a = let (t, q) = a.has_prev refl in rw (q, last_token) (value a)

pub fresh_id-Safe : {b : Bool} {n : ℕ} {s : Parser} → At b n s → Safe (Leaves b n) (fresh_id s)
unfolding fresh_id
fresh_id-Safe a = value (record { ends = a.ends; le = a.le; has_prev = a.has_prev })

pub hdr-Safe :
    {b : Bool} {n : ℕ} {s : Parser} (k : NodeKind) (first last : Token) (sp : Span)
    → At b n s
    → Safe (Leaves b n) (hdr k first last sp s)
unfolding hdr fresh_id
hdr-Safe k first last sp a = value (record { ends = a.ends; le = a.le; has_prev = a.has_prev })

pub new_block-Safe :
    {b : Bool} {n : ℕ} {s : Parser} (first : Token) (body : Block)
    → At b n s
    → Safe (Leaves b n) (new_block first body s)
unfolding new_block
new_block-Safe first body a = value (record { ends = a.ends; le = a.le; has_prev = a.has_prev })

pub int_value-Safe :
    {b : Bool} {n : ℕ} {s : Parser} (e : ParseFault) (t : Token)
    → is_stuck e ≡ false
    → At b n s
    → Safe (Leaves b n) (int_value e t s)
unfolding int_value
int_value-Safe e t q a = elim (Option-cases (stoll (cleaned t.text))) [
  | inl z ↦ rw (z, int_value) (fault q)
  | inr (v, z) ↦ rw (z, int_value) (value a)
]

skip_from-Safe :
    (ts : List Token) {b : Bool} {n : ℕ} (s : Parser)
    → s.rest ≡ ts
    → At b n s
    → Safe (Leaves b n) (skip_from ts s)
unfolding skip_from
skip_from-Safe [] s r a = absurd (the_end s.rest r a.ends)
  where
    the_end : (ts : List Token) → ts ≡ [] → EndsInEof ts → ⊥
    the_end [] q e = e
    the_end (t ∷ ts) q e = absurd (cc q)
skip_from-Safe (t ∷ ts) {b} {n} s r a =
    let ends : EndsInEof (t ∷ ts) = rw r at a.ends in
    let le : length (t ∷ ts) ≤ n = rw r at a.le in
    let next : Parser = record s { prev = some t; rest = ts } in
    Safe-ite (is L.newline t)
      (λ q. skip_from-Safe ts next refl (record {
        ends = EndsInEof-tail t ts (ground (arith, q)) ends;
        le = omega arith;
        has_prev = λ _. (t, refl);
      }))
      (λ _. value a)

pub skip_newlines-Safe :
    {b : Bool} {n : ℕ} {s : Parser} → At b n s → Safe (Leaves b n) (skip_newlines s)
unfolding skip_newlines
skip_newlines-Safe {s} a = skip_from-Safe s.rest s refl a

peeked :
    (ts : List Token) (t : Token)
    → head ts ≡ some t
    → is L.eof t ≡ false
    → EndsInEof ts
    → (u : Token) × (second ts ≡ some u)
unfolding second
peeked [] t q e x = absurd x
peeked (v ∷ []) t q e x =
    absurd (let same : v ≡ t = cc q in cc (sym e ∙ ap (λ (y : Token). is L.eof y) (sym same) ∙ x))
peeked (v ∷ (u ∷ us)) t q e x = (u, refl)

pub peek-Safe :
    {b : Bool} {n : ℕ} {s : Parser} {t : Token}
    → At b n s
    → head s.rest ≡ some t
    → is L.eof t ≡ false
    → Safe (λ u s'. s' ≡ s) (peek s)
unfolding peek
peek-Safe {s} {t} a q e = let (u, z) = peeked s.rest t q e a.ends in rw (z, peek) (value refl)

pub Safe-le :
    {A : Type 0} (m n : ℕ) {b : Bool} {r : Result ParseFault (A × Parser)}
    → m ≤ n
    → Safe (Leaves b m) r
    → Safe (Leaves b n) r
Safe-le m n le (value a) = value (At-le m n le a)
Safe-le m n le (fault q) = fault q
