-- ===== src/Cpu/Steps.antt =====
-- Running code: decode at the head, execute, go on behind.
use rane_processing_language.Base.{ℕ, ◌≡◌, sym, List, ◌++◌, append_assoc, some}
use mathlib.Core.Path.{subst}
use rane_processing_language.Cpu.{Instr, Machine, exec}
use rane_processing_language.Cpu.Decode.{decode}

-- From code `c` and machine `m` the processor comes to code `c'` and machine `m'`.
pub data Steps (c : List ℕ) (m : Machine) : List ℕ → Machine → Type 0 where
  here : Steps c m c m
  next :
      {c₁ c₂ : List ℕ} {m₁ m₂ : Machine} (i : Instr)
      → Steps c m c₁ m₁
      → decode c₁ ≡ some (i, c₂)
      → exec i m₁ ≡ some m₂
      → Steps c m c₂ m₂

pub Steps-trans :
    {c c₁ : List ℕ} {m m₁ : Machine} {c₂ : List ℕ} {m₂ : Machine}
    → Steps c m c₁ m₁
    → Steps c₁ m₁ c₂ m₂
    → Steps c m c₂ m₂
Steps-trans s here = s
Steps-trans s (next i t d x) = next i (Steps-trans s t) d x

-- The code runs to its end, whatever code follows it.
abbrev pub Runs : List ℕ → Machine → Machine → Type 0
Runs code m m' = (rest : List ℕ) → Steps (code ++ rest) m rest m'

pub Runs-append :
    (a b : List ℕ) {m m₁ m₂ : Machine} → Runs a m m₁ → Runs b m₁ m₂ → Runs (a ++ b) m m₂
Runs-append a b {m} {m₁} {m₂} f g rest =
    subst (λ (c : List ℕ). Steps c m rest m₂) (sym (append_assoc a b rest))
      (Steps-trans (f (b ++ rest)) (g rest))

-- Code that is one instruction.
pub Runs-one :
    (code : List ℕ) (i : Instr) (m m' : Machine)
    → ((rest : List ℕ) → decode (code ++ rest) ≡ some (i, rest))
    → exec i m ≡ some m'
    → Runs code m m'
Runs-one code i m m' d x rest = next i here (d rest) x
