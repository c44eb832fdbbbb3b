-- ===== src/Loader/Patching.antt =====
-- Code that writes to the text of rane_loader_patcher_win.cpp and may throw: what was written before
-- an exception stays written, so the text is part of every outcome.
use rane_processing_language.Base.{ℕ, ◌≡◌, ap, Bool, List, length}
use rane_processing_language.Base.Memory.{write_bytes}
use rane_processing_language.Base.Result.{Result, ok, err}
use rane_processing_language.Base.Result as Result
use rane_processing_language.Loader.{LoadFault}

abbrev pub Patching {ℓ} : Type ℓ → Type ℓ
Patching A = List ℕ → List ℕ × Result LoadFault A

abbrev pub pure {ℓ} : {A : Type ℓ} → A → Patching A
pure value text = (text, ok value)

infixl 5 ◌>>=◌
abbrev pub ◌>>=◌ {ℓ κ} : {A : Type ℓ} {B : Type κ} → Patching A → (A → Patching B) → Patching B
(first >>= next) text = elim (first text).1 [
  | err fault ↦ ((first text).0, err fault)
  | ok value ↦ next value (first text).0
]

infixl 5 ◌>>◌
abbrev pub ◌>>◌ {κ} : {B : Type κ} → Patching (Unit {0}) → Patching B → Patching B
first >> second = first >>= λ done. second

-- Code that does not touch the text.
abbrev pub lift {ℓ} : {A : Type ℓ} → Result LoadFault A → Patching A
lift outcome text = (text, outcome)

abbrev pub guard : Bool → LoadFault → Patching (Unit {0})
guard passed fault = lift (Result.guard passed fault)

-- `text_size`.
abbrev pub text_size : Patching ℕ
text_size text = (text, ok (length text))

-- `write_i32(text + at, …)`, and `std::memcpy(text + at, …)`.
abbrev pub write : ℕ → List ℕ → Patching (Unit {0})
write at bytes text = (write_bytes text at bytes, ok tt)

module _ {ℓ κ} {A : Type ℓ} {B : Type κ} (first : Patching A) (next : A → Patching B) where
  abbrev rest_of : List ℕ × Result LoadFault A → List ℕ × Result LoadFault B
  rest_of o = elim o.1 [ err fault ↦ (o.0, err fault) | ok value ↦ next value o.0 ]

  pub >>=-eq-ok :
      {text text' : List ℕ} {value : A}
      → first text ≡ (text', ok value)
      → (first >>= next) text ≡ next value text'
  >>=-eq-ok q = ap rest_of q

  pub >>=-eq-err :
      {text text' : List ℕ} {fault : LoadFault}
      → first text ≡ (text', err fault)
      → (first >>= next) text ≡ (text', err fault)
  >>=-eq-err q = ap rest_of q
