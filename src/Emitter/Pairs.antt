-- ===== src/Emitter/Pairs.antt =====
-- Two operands in a row: `emit_pair` computes the first into `r11` and the second into `rax`.
use rane_processing_language.Base.{
  ℕ, ◌+◌, ◌-◌, ◌*◌, ◌%◌, ◌^◌, ◌≤◌, ◌<◌, ◌≡◌, refl, sym, ap, ◌∙◌, arith, List, ◌++◌, Option,
  append_assoc,
}
use mathlib.Core.Path.{subst}
use rane_processing_language.Base.Bytes.{u32_mod}
use rane_processing_language.Base.Result.{ok}
use rane_processing_language.Plan.{SymbolId}
use rane_processing_language.X64.{rax, rbp, r11, mov_mrbp_r64, mov_r64_mrbp}
use rane_processing_language.Cpu.{Machine, set_reg, set_mem}
use rane_processing_language.Cpu.Steps.{Runs, Runs-append}
use rane_processing_language.Emitter.{
  FrameLayout, Emitter, temp_alloc, temp_free, temp_offset, rbp_disp_from_off,
}
use rane_processing_language.Emitter.Value.{Emit, emit_pair, spill, reload}
use rane_processing_language.Emitter.Operations.{Leaves}
use rane_processing_language.Emitter.Slots.{
  cell, set_mem_other, set_mem_same, run_store, run_load, Keeps, Keeps-trans, Keeps-le, Holds,
  Holds-Keeps,
}

-- The offset of the first temp that is free.
abbrev pub limit : Emitter → ℕ
limit e = e.frame.temp_base_off + 8 * e.temp_sp

-- The emitter went from `e` to `e'`, and its new code takes `m` to a machine with `x` in `rax` in
-- which the locals and the temps in use are as before.
pub record Computed (x : ℕ) (e : Emitter) (m : Machine) (e' : Emitter) : Type 0 where
  pub bytes : List ℕ
  pub code_eq : e'.code ≡ e.code ++ bytes
  pub frame_eq : e'.frame ≡ e.frame
  pub sp_eq : e'.temp_sp ≡ e.temp_sp
  pub final : Machine
  pub runs : Runs bytes m final
  pub rax_eq : final.reg rax ≡ x
  pub keeps : Keeps (limit e) m final

-- The same with the first of two operands in `r11`.
pub record PairComputed (x y : ℕ) (e : Emitter) (m : Machine) (e' : Emitter) : Type 0 where
  pub bytes : List ℕ
  pub code_eq : e'.code ≡ e.code ++ bytes
  pub frame_eq : e'.frame ≡ e.frame
  pub sp_eq : e'.temp_sp ≡ e.temp_sp
  pub final : Machine
  pub runs : Runs bytes m final
  pub r11_eq : final.reg r11 ≡ x
  pub rax_eq : final.reg rax ≡ y
  pub keeps : Keeps (limit e) m final

abbrev pub Fits : ℕ → Emitter → Type 0
Fits v e = (0 < e.frame.temp_base_off) × (limit e + 8 * (v + 1) ≤ 2 ^ 31)

-- The emitter step succeeds on `e`, and its code does what `P` says.
abbrev pub Succeeds : (Emitter → Type 0) → Emit → Emitter → Type 0
Succeeds P f e = (e' : Emitter) × (f e ≡ ok e') × P e'

-- Wherever it fits, the step succeeds and its code computes `x`.
abbrev pub IsCorrect : (SymbolId → Option ℕ) → Emit → ℕ → ℕ → Type 0
IsCorrect env f x v =
    (e : Emitter) (m : Machine) → Fits v e → Holds e.frame env m → Succeeds (Computed x e m) f e

-- The store of the first operand leaves everything nearer than its temp alone.
store-Keeps :
    (lim : ℕ) (m : Machine)
    → 0 < lim
    → lim ≤ 2 ^ 31
    → Keeps lim m (set_mem m (cell (m.reg rbp) lim) (m.reg rax))
store-Keeps lim m p q = record {
  rbp_eq = refl;
  mem_eq =
      λ off r s. set_mem_other m (m.reg rbp) off lim (m.reg rax) r p (omega arith) q (omega arith);
}

load-Keeps : (lim x : ℕ) (m : Machine) → Keeps lim m (set_reg m r11 x)
load-Keeps lim x m = record { rbp_eq = refl; mem_eq = λ off p q. refl }

-- The offset of a temp is exact where the frame fits.
temp_offset_exact :
    (base sp sp₁ : ℕ)
    → sp₁ ≡ sp
    → base + 8 * sp + 8 ≤ 2 ^ 31
    → (base + sp₁ * 8 % u32_mod) % u32_mod ≡ base + 8 * sp
temp_offset_exact base sp sp₁ p q = omega arith

popped :
    (sp sp₁ sp₃ : ℕ)
    → sp₁ ≡ sp
    → sp + 1 < u32_mod
    → sp₃ ≡ (sp₁ + 1) % u32_mod
    → (0 < sp₃) × (sp₃ - 1 ≡ sp)
popped sp sp₁ sp₃ p q r = omega arith

temp_free_ok :
    (e : Emitter) → 0 < e.temp_sp → temp_free e ≡ ok (record e { temp_sp = e.temp_sp - 1 })
unfolding temp_free
temp_free_ok e p = ground arith

-- The machines around a pair: `m₁` has the first operand in `rax`, `m₃` the second, with the first
-- stored between the two.
module _ (x y lim : ℕ) (m m₁ m₃ : Machine) (p : 0 < lim) (q : lim ≤ 2 ^ 31) (k₁ : Keeps lim m m₁)
    (x_eq : m₁.reg rax ≡ x) where
  abbrev stored : Machine
  stored = set_mem m₁ (cell (m₁.reg rbp) lim) (m₁.reg rax)

  abbrev reloaded : Machine
  reloaded = set_reg m₃ r11 (m₃.mem (cell (m₃.reg rbp) lim))

  reloaded_first : Keeps (lim + 8) stored m₃ → reloaded.reg r11 ≡ x
  reloaded_first k₃ =
      ap (λ (b : ℕ). m₃.mem (cell b lim)) k₃.rbp_eq
      ∙ k₃.mem_eq lim p (omega arith)
      ∙ set_mem_same m₁ (cell (m₁.reg rbp) lim) (m₁.reg rax)
      ∙ x_eq

  reloaded-Keeps : Keeps (lim + 8) stored m₃ → Keeps lim m reloaded
  reloaded-Keeps k₃ = Keeps-trans k₁ (
      Keeps-trans (store-Keeps lim m₁ p q)
        (Keeps-trans (Keeps-le (omega arith) k₃) (load-Keeps lim _ m₃)))

pub Leaves-Keeps :
    (lim : ℕ) {code : List ℕ} {m : Machine} {x : ℕ} (l : Leaves code m x) → Keeps lim m l.final
Leaves-Keeps lim {code} {m} l = record {
  rbp_eq = l.rbp_eq;
  mem_eq = λ off p q. ap (λ (mem : ℕ → ℕ). mem (cell (m.reg rbp) off)) l.mem_eq;
}

pair_code :
    (code c₁ c₃ b₁ s b₃ l : List ℕ)
    → c₁ ≡ code ++ b₁
    → c₃ ≡ (c₁ ++ s) ++ b₃
    → c₃ ++ l ≡ code ++ (b₁ ++ (s ++ (b₃ ++ l)))
pair_code code c₁ c₃ b₁ s b₃ l p q =
    rw (q, p)
      (append_assoc (code ++ b₁ ++ s) b₃ l
        ∙ append_assoc (code ++ b₁) s (b₃ ++ l)
        ∙ append_assoc code b₁ (s ++ (b₃ ++ l)))

-- The emitter states around a pair: `e₁` behind the first operand, `e₃` behind the second.
module _ (env : SymbolId → Option ℕ) (x y v : ℕ) (e : Emitter) (m : Machine) (fits : Fits v e)
    (positive : 0 < v) (e₁ : Emitter) (c₁ : Computed x e m e₁) where
  abbrev between : Emitter
  between = spill e₁.temp_sp (temp_alloc e₁).1

  abbrev m₂ : Machine
  m₂ = set_mem c₁.final (cell (c₁.final.reg rbp) (limit e)) (c₁.final.reg rax)

  sp_next : (temp_alloc e₁).1.temp_sp ≡ e.temp_sp + 1
  unfolding temp_alloc
  sp_next = let (p, q) = fits in omega (arith, c₁.sp_eq)

  limit_next : limit between ≡ limit e + 8
  unfolding spill temp_alloc
  limit_next =
      let (p, q) = fits in
      let base : e₁.frame.temp_base_off ≡ e.frame.temp_base_off =
        ap (λ (fr : FrameLayout). fr.temp_base_off) c₁.frame_eq in
      omega (arith, c₁.sp_eq, sp_next, base)

  between-Fits : (b : ℕ) → b < v → Fits b between
  unfolding spill temp_alloc
  between-Fits b lt =
      let (p, q) = fits in
      let base : e₁.frame.temp_base_off ≡ e.frame.temp_base_off =
        ap (λ (fr : FrameLayout). fr.temp_base_off) c₁.frame_eq in
      (omega arith, omega (arith, limit_next))

  between-Holds : Holds e.frame env m → Holds between.frame env m₂
  unfolding spill temp_alloc
  between-Holds held =
      let (p, q) = fits in
      subst (λ (fr : FrameLayout). Holds fr env m₂) (sym c₁.frame_eq)
        (Holds-Keeps e.frame env (omega arith)
          (Keeps-trans c₁.keeps (store-Keeps (limit e) c₁.final (omega arith) (omega arith))) held)

  slot_exact : (fr : FrameLayout) → fr ≡ e₁.frame → temp_offset fr e₁.temp_sp ≡ limit e
  slot_exact fr eq =
      let (p, q) = fits in
      ap (λ (fr : FrameLayout). temp_offset fr e₁.temp_sp) (eq ∙ c₁.frame_eq)
      ∙ temp_offset_exact e.frame.temp_base_off e.temp_sp e₁.temp_sp c₁.sp_eq (omega arith)

  module _ (e₃ : Emitter) (c₃ : Computed y between m₂ e₃) where
    abbrev last : Machine
    last = set_reg c₃.final r11 (c₃.final.mem (cell (c₃.final.reg rbp) (limit e)))

    frame_last : e₃.frame ≡ e₁.frame
    unfolding spill temp_alloc
    frame_last = c₃.frame_eq

    sp_last : (0 < e₃.temp_sp) × (e₃.temp_sp - 1 ≡ e.temp_sp)
    unfolding spill temp_alloc
    sp_last =
        let (p, q) = fits in popped e.temp_sp e₁.temp_sp e₃.temp_sp c₁.sp_eq (omega arith) c₃.sp_eq

    Keeps-last : Keeps (limit e + 8) m₂ c₃.final
    Keeps-last = subst (λ (l : ℕ). Keeps l m₂ c₃.final) limit_next c₃.keeps

    Runs-last :
        Runs
          (c₁.bytes
            ++ (mov_mrbp_r64 (rbp_disp_from_off (limit e)) rax
                ++ (c₃.bytes ++ mov_r64_mrbp r11 (rbp_disp_from_off (limit e)))))
          m
          last
    Runs-last = Runs-append c₁.bytes _ c₁.runs (
        Runs-append (mov_mrbp_r64 (rbp_disp_from_off (limit e)) rax) _
          (run_store (limit e) c₁.final)
          (Runs-append c₃.bytes _ c₃.runs (run_load r11 (limit e) c₃.final)))

    code_last :
        (reload r11 e₁.temp_sp e₃).code
        ≡ e.code
          ++ (c₁.bytes
              ++ (mov_mrbp_r64 (rbp_disp_from_off (limit e)) rax
                  ++ (c₃.bytes ++ mov_r64_mrbp r11 (rbp_disp_from_off (limit e)))))
    unfolding reload spill temp_alloc
    code_last = rw (slot_exact e₃.frame frame_last) (
        pair_code e.code e₁.code e₃.code c₁.bytes _ c₃.bytes _ c₁.code_eq (
          c₃.code_eq
          ∙ ap (λ (t : ℕ). e₁.code ++ mov_mrbp_r64 (rbp_disp_from_off t) rax ++ c₃.bytes)
              (slot_exact e₁.frame refl)))

    pair_computed :
        PairComputed x y e m (record (reload r11 e₁.temp_sp e₃) { temp_sp = e₃.temp_sp - 1 })
    unfolding reload
    pair_computed =
        let (p, q) = fits in
        record {
          bytes = _;
          code_eq = code_last;
          frame_eq = frame_last ∙ c₁.frame_eq;
          sp_eq = sp_last.1;
          final = last;
          runs = Runs-last;
          r11_eq =
              reloaded_first x y (limit e) m c₁.final c₃.final (omega arith) (omega arith) c₁.keeps
                c₁.rax_eq Keeps-last;
          rax_eq = c₃.rax_eq;
          keeps =
              reloaded-Keeps x y (limit e) m c₁.final c₃.final (omega arith) (omega arith) c₁.keeps
                c₁.rax_eq Keeps-last;
        }

emit_pair-eq-ok :
    (f g : Emit) (e e₁ e₃ : Emitter)
    → f e ≡ ok e₁
    → g (spill e₁.temp_sp (temp_alloc e₁).1) ≡ ok e₃
    → 0 < e₃.temp_sp
    → emit_pair f g e ≡ ok (record (reload r11 e₁.temp_sp e₃) { temp_sp = e₃.temp_sp - 1 })
unfolding emit_pair reload temp_alloc
emit_pair-eq-ok f g e e₁ e₃ r₁ r₃ p = rw (r₁, r₃) (temp_free_ok (reload r11 e₁.temp_sp e₃) p)

-- Two operands: the first is stored in a new temp while the second is computed.
pub pair_correct :
    (env : SymbolId → Option ℕ) (f g : Emit) (x y a b v : ℕ)
    → IsCorrect env f x a
    → IsCorrect env g y b
    → a < v
    → b < v
    → (e : Emitter) (m : Machine) → Fits v e
    → Holds e.frame env m
    → Succeeds (PairComputed x y e m) (emit_pair f g) e
pair_correct env f g x y a b v hf hg la lb e m fits held =
    let (e₁, r₁, c₁) = hf e m (fits.0, omega (arith, fits.1)) held in
    let (e₃, r₃, c₃) =
      hg (between env x y v e m fits (omega arith) e₁ c₁)
        (m₂ env x y v e m fits (omega arith) e₁ c₁)
        (between-Fits env x y v e m fits (omega arith) e₁ c₁ b lb)
        (between-Holds env x y v e m fits (omega arith) e₁ c₁ held) in
    (
      _,
      emit_pair-eq-ok f g e e₁ e₃ r₁ r₃ (sp_last env x y v e m fits (omega arith) e₁ c₁ e₃ c₃).0,
      pair_computed env x y v e m fits (omega arith) e₁ c₁ e₃ c₃,
    )
