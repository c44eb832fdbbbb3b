-- ===== src/Emitter/Slots.antt =====
-- The cells of the frame: `[rbp - off]`, for offsets up to 2 GiB.
use rane_processing_language.Base.{
  ℕ, ◌+◌, ◌%◌, ◌^◌, ◌≤◌, ◌<◌, ◌≡◌, ◌≢◌, refl, sym, ap, ◌∙◌, arith, Option, some,
}
use rane_processing_language.Base.Bytes.{u32_mod, u64_mod}
use rane_processing_language.Plan.{SymbolId}
use rane_processing_language.X64.{Reg, rax, rbp, mov_mrbp_r64, mov_r64_mrbp}
use rane_processing_language.X64.Encoders.{mov_mrbp_r64-DecodesTo, mov_r64_mrbp-DecodesTo}
use rane_processing_language.Cpu.{Machine, exec, extend, set_reg, set_mem}
use rane_processing_language.Cpu.Steps.{Runs, Runs-one}
use rane_processing_language.Emitter.{FrameLayout, find, rbp_disp_from_off}

-- The address of `[rbp - off]`.
unfoldable pub cell : ℕ → ℕ → ℕ
cell b off = (b + extend (rbp_disp_from_off off % u32_mod)) % u64_mod

cell_ne :
    (b off off' : ℕ)
    → 0 < off
    → 0 < off'
    → off ≤ 2 ^ 31
    → off' ≤ 2 ^ 31
    → off ≢ off'
    → cell b off ≢ cell b off'
unfolding cell extend
cell_ne b off off' p q r s ne e = ground arith

pub set_mem_other :
    (m : Machine) (b off off' v : ℕ)
    → 0 < off
    → 0 < off'
    → off ≤ 2 ^ 31
    → off' ≤ 2 ^ 31
    → off ≢ off'
    → (set_mem m (cell b off') v).mem (cell b off) ≡ m.mem (cell b off)
set_mem_other m b off off' v p q r s ne = ground (arith, cell_ne b off off' p q r s ne)

pub set_mem_same : (m : Machine) (a v : ℕ) → (set_mem m a v).mem a ≡ v
set_mem_same m a v = ground arith

pub run_store :
    (off : ℕ) (m : Machine)
    → Runs
        (mov_mrbp_r64 (rbp_disp_from_off off) rax)
        m
        (set_mem m (cell (m.reg rbp) off) (m.reg rax))
unfolding exec cell
run_store off m = Runs-one _ _ m _ (mov_mrbp_r64-DecodesTo (rbp_disp_from_off off) rax) refl

pub run_load :
    (r : Reg) (off : ℕ) (m : Machine)
    → Runs (mov_r64_mrbp r (rbp_disp_from_off off)) m (set_reg m r (m.mem (cell (m.reg rbp) off)))
unfolding exec cell
run_load r off m = Runs-one _ _ m _ (mov_r64_mrbp-DecodesTo r (rbp_disp_from_off off)) refl

-- From one machine to the next `rbp` stays, and so does every cell nearer to it than `lim`.
pub record Keeps (lim : ℕ) (m m' : Machine) : Type 0 where
  pub rbp_eq : m'.reg rbp ≡ m.reg rbp
  pub mem_eq :
      (off : ℕ) → 0 < off → off < lim → m'.mem (cell (m.reg rbp) off) ≡ m.mem (cell (m.reg rbp) off)

pub Keeps-trans : {lim : ℕ} {m m₁ m₂ : Machine} → Keeps lim m m₁ → Keeps lim m₁ m₂ → Keeps lim m m₂
Keeps-trans {lim} {m} {m₁} {m₂} k l = record {
  rbp_eq = l.rbp_eq ∙ k.rbp_eq;
  mem_eq = λ off p q.
      ap (λ (b : ℕ). m₂.mem (cell b off)) (sym k.rbp_eq)
      ∙ l.mem_eq off p q
      ∙ ap (λ (b : ℕ). m₁.mem (cell b off)) k.rbp_eq
      ∙ k.mem_eq off p q;
}

pub Keeps-le : {lim lim' : ℕ} {m m' : Machine} → lim ≤ lim' → Keeps lim' m m' → Keeps lim m m'
Keeps-le le k = record { rbp_eq = k.rbp_eq; mem_eq = λ off p q. k.mem_eq off p (omega arith) }

-- Every local with a value has a slot nearer than the temps, and its cell holds the value.
abbrev pub Holds : FrameLayout → (SymbolId → Option ℕ) → Machine → Type 0
Holds frame env m =
    (local x : ℕ)
    → env local ≡ some x
    → (off : ℕ) × (find local frame.local_off ≡ some off)
      × (0 < off)
      × (off < frame.temp_base_off)
      × (m.mem (cell (m.reg rbp) off) ≡ x)

pub Holds-Keeps :
    (frame : FrameLayout) (env : SymbolId → Option ℕ) {lim : ℕ} {m m' : Machine}
    → frame.temp_base_off ≤ lim
    → Keeps lim m m'
    → Holds frame env m
    → Holds frame env m'
Holds-Keeps frame env {lim} {m} {m'} le k h local x q =
    let (off, found, p, lt, v) = h local x q in
    (
      off,
      found,
      p,
      lt,
      ap (λ (b : ℕ). m'.mem (cell b off)) k.rbp_eq ∙ k.mem_eq off p (omega arith) ∙ v,
    )
