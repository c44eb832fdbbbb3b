-- ===== src/Emitter/Meaning.antt =====
-- What a value of the action plan means: an evaluator on 64-bit patterns, written from the meaning
-- of the operators, with no reference to code. It covers the values that are computed from
-- constants and locals by unary operators, casts, addition, subtraction, multiplication and
-- comparisons; it answers none on the others.
use rane_processing_language.Base.{
  ℕ, ◌≡◌, refl, zero, suc, ◌+◌, ◌-◌, ◌*◌, ◌%◌, ◌^◌, Bool, not, ◌||◌, List, Option, none, some,
  get_elem?, ltb, ◌==◌, if◌then◌else◌,
}
use rane_processing_language.Base.Bytes.{u64_mod}
use rane_processing_language.Plan.{SymbolId, ValueId, CmpOp, BinOp, UnOp, ValueKind, ValueNode}

infixl 5 ◌>>=◌
abbrev pub ◌>>=◌ {ℓ κ} : {A : Type ℓ} {B : Type κ} → Option A → (A → Option B) → Option B
none >>= f = none
some a >>= f = f a

abbrev pub bool_word : Bool → ℕ
bool_word b = if b then 1 else 0

-- The number that a pattern stands for as a signed word, moved up by 2^63.
abbrev signed_rank : ℕ → ℕ
signed_rank a = (a + 2 ^ 63) % u64_mod

abbrev pub eval_unary : UnOp → ℕ → ℕ
eval_unary UnOp.neg a = (u64_mod - a) % u64_mod
eval_unary UnOp.not a = bool_word (a == 0)
eval_unary UnOp.bit_not a = u64_mod - 1 - a

abbrev pub eval_binary : BinOp → ℕ → ℕ → Option ℕ
eval_binary BinOp.add a b = some ((a + b) % u64_mod)
eval_binary BinOp.sub a b = some ((a + u64_mod - b) % u64_mod)
eval_binary BinOp.mul a b = some (a * b % u64_mod)
eval_binary _ a b = none

abbrev pub eval_compare : CmpOp → ℕ → ℕ → Bool
eval_compare CmpOp.eq a b = a == b
eval_compare CmpOp.ne a b = not (a == b)
eval_compare CmpOp.lt a b = ltb (signed_rank a) (signed_rank b)
eval_compare CmpOp.le a b = (a == b) || ltb (signed_rank a) (signed_rank b)
eval_compare CmpOp.gt a b = not ((a == b) || ltb (signed_rank a) (signed_rank b))
eval_compare CmpOp.ge a b = not (ltb (signed_rank a) (signed_rank b))

module _ (env : SymbolId → Option ℕ) where
  unfoldable pub eval_kind : (ValueId → Option ℕ) → ValueKind → Option ℕ
  eval_kind rec (ValueKind.const_int value) = some (value % u64_mod)
  eval_kind rec (ValueKind.const_bool value) = some (bool_word value)
  eval_kind rec ValueKind.const_null = some 0
  eval_kind rec (ValueKind.var_ref local) = env local
  eval_kind rec (ValueKind.unary op a) = do x ← rec a; some (eval_unary op x)
  eval_kind rec (ValueKind.cast a to) = rec a
  eval_kind rec (ValueKind.binary op a b) = do x ← rec a; y ← rec b; eval_binary op x y
  eval_kind rec (ValueKind.compare op a b) = do
    x ← rec a
    y ← rec b
    some (bool_word (eval_compare op x y))
  eval_kind rec _ = none

  unfoldable pub eval : List ValueNode → ℕ → ValueId → Option ℕ
  eval values zero v = none
  eval values (suc fuel) v = do n ← get_elem? values v; eval_kind (eval values fuel) n.kind

-- Inversion of a bind.
pub bind-eq-some :
    {A B : Type 0} (o : Option A) (f : A → Option B) {b : B}
    → (o >>= f) ≡ some b
    → (a : A) × (o ≡ some a) × (f a ≡ some b)
bind-eq-some none f q = absurd (cc)
bind-eq-some (some a) f q = (a, refl, q)
