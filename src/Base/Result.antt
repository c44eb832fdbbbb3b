-- ===== src/Base/Result.antt =====
-- The outcome of code that throws, asserts or reports an error: a value, or what stopped it.
use mathlib.Core.Path.{subst}
use rane_processing_language.Base.{◌≡◌, ◌⊎◌, inl, inr, refl, Bool, true, false, if◌then◌else◌}

pub data Result {ℓ} (E : Type 0) (A : Type ℓ) : Type ℓ where
  ok : A → Result E A
  err : E → Result E A

-- `if (!b) throw e;`, and `assert(b)`.
abbrev pub guard : {Fault : Type 0} → Bool → Fault → Result Fault (Unit {0})
guard passed fault = if passed then ok tt else err fault

-- The code behind runs on the value; a fault ends everything.
infixl 5 ◌>>=◌
abbrev pub ◌>>=◌ {ℓ κ} :
    {Fault : Type 0} {A : Type ℓ} {B : Type κ}
    → Result Fault A
    → (A → Result Fault B)
    → Result Fault B
err fault >>= next = err fault
ok value >>= next = next value

infixl 5 ◌>>◌
abbrev pub ◌>>◌ {κ} :
    {Fault : Type 0} {B : Type κ} → Result Fault (Unit {0}) → Result Fault B → Result Fault B
first >> second = first >>= λ done. second

-- Where the whole succeeds, so did the first part.
pub >>=-eq-ok {ℓ κ} :
    {Fault : Type 0} {A : Type ℓ} {B : Type κ} (first : Result Fault A) (next : A → Result Fault B)
    {whole : B}
    → (first >>= next) ≡ ok whole
    → (value : A) × (first ≡ ok value) × (next value ≡ ok whole)
>>=-eq-ok (err fault) next q = cc
>>=-eq-ok (ok value) next q = (value, refl, q)

-- Where the outcome is a value, `P` holds of it.
pub data Ensures {ℓ} {E : Type 0} {A : Type ℓ} (P : A → Type 0) : Result E A → Type ℓ where
  succeeds : {a : A} → P a → Ensures P (ok a)
  fails : {e : E} → Ensures P (err e)

pub Ensures-ok {ℓ} :
    {E : Type 0} {A : Type ℓ} {P : A → Type 0} {r : Result E A} {a : A}
    → Ensures P r
    → r ≡ ok a
    → P a
Ensures-ok {P} (succeeds h) e = subst P (cc) h
Ensures-ok fails e = absurd (cc)

module _ {ℓ κ} {E : Type 0} {A : Type ℓ} {B : Type κ} where
  pub Ensures-bind :
      {P : A → Type 0} {Q : B → Type 0} {m : Result E A} (f : A → Result E B)
      → Ensures P m
      → ((a : A) → P a → Ensures Q (f a))
      → Ensures Q (m >>= f)
  Ensures-bind f (succeeds h) k = k _ h
  Ensures-bind f fails k = fails

  -- The same with nothing known of the value but where it came from.
  pub Ensures-from :
      {Q : B → Type 0} (m : Result E A) (f : A → Result E B)
      → ((a : A) → m ≡ ok a → Ensures Q (f a))
      → Ensures Q (m >>= f)
  Ensures-from (ok a) f k = k a refl
  Ensures-from (err e) f k = fails

pub Ensures-if {ℓ} :
    {E : Type 0} {A : Type ℓ} {P : A → Type 0} (b : Bool) {x y : Result E A}
    → (b ≡ true → Ensures P x)
    → (b ≡ false → Ensures P y)
    → Ensures P (if b then x else y)
Ensures-if true h k = h refl
Ensures-if false h k = k refl

pub Ensures-map {ℓ} :
    {E : Type 0} {A : Type ℓ} {P Q : A → Type 0} {r : Result E A}
    → Ensures P r
    → ((a : A) → P a → Q a)
    → Ensures Q r
Ensures-map (succeeds h) f = succeeds (f _ h)
Ensures-map fails f = fails

pub guard-eq-true : {E : Type 0} (b : Bool) (e : E) {u : Unit {0}} → guard b e ≡ ok u → b ≡ true
guard-eq-true true e h = refl
guard-eq-true false e h = cc

pub Result-cases {ℓ} :
    {E : Type 0} {A : Type ℓ} (m : Result E A) → ((a : A) × (m ≡ ok a)) ⊎ ((e : E) × (m ≡ err e))
Result-cases (ok a) = inl (a, refl)
Result-cases (err e) = inr (e, refl)
