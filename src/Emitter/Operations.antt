-- ===== src/Emitter/Operations.antt =====
-- The instructions that `emit_value` writes behind the operands, run on a machine: `r11` holds the
-- first operand of two, `rax` the second or the only one, and the result is left in `rax`.
use rane_processing_language.Base.{
  ℕ, ◌+◌, ◌-◌, ◌*◌, ◌%◌, ◌≡◌, refl, ap, ◌∙◌, arith, List, ◌++◌, some, bit_and, ◌==◌,
}
use mathlib.Core.Path.{subst}
use rane_processing_language.Base.Bits.{bit_and_self}
use rane_processing_language.Base.Bytes.{u64_mod}
use rane_processing_language.Base.Result.{ok}
use rane_processing_language.Plan.{CmpOp, BinOp, UnOp}
use rane_processing_language.X64.{
  Reg, rax, rbp, r10, r11, mov_rr, add_rr, sub_rr, imul_rr, cmp_rr, test_rr, SetCc, setcc_al,
  movzx_rax_al,
}
use rane_processing_language.X64.Encoders.{
  rr_encoders, setcc_al-DecodesTo, movzx_rax_al-DecodesTo, cond,
}
use rane_processing_language.Cpu.{
  Machine, Instr, exec, direct, set_reg, neg, bit_not, holds, compare_flags, low_byte,
}
use rane_processing_language.Cpu.Decode.{decode}
use rane_processing_language.Cpu.Steps.{Runs, Runs-append, Runs-one}
use rane_processing_language.Emitter.Value.{unary_code, binary_code, compare_code}
use rane_processing_language.Emitter.Meaning.{eval_unary, eval_binary, eval_compare, bool_word}

-- Code that leaves `x` in `rax`, and leaves the memory and `rbp` alone.
pub record Leaves (code : List ℕ) (m : Machine) (x : ℕ) : Type 0 where
  pub final : Machine
  pub runs : Runs code m final
  pub rax_eq : final.reg rax ≡ x
  pub rbp_eq : final.reg rbp ≡ m.reg rbp
  pub mem_eq : final.mem ≡ m.mem

run_mov : (dst src : Reg) (m : Machine) → Runs (mov_rr dst src) m (set_reg m dst (m.reg src))
unfolding exec
run_mov dst src m = Runs-one _ _ m _ (λ rest. (rr_encoders dst src rest).0) refl

run_add :
    (dst src : Reg) (m : Machine)
    → Runs (add_rr dst src) m (set_reg m dst ((m.reg dst + m.reg src) % u64_mod))
unfolding exec
run_add dst src m = Runs-one _ _ m _ (λ rest. (rr_encoders dst src rest).1) refl

run_sub :
    (dst src : Reg) (m : Machine)
    → Runs (sub_rr dst src) m (set_reg m dst ((m.reg dst + u64_mod - m.reg src) % u64_mod))
unfolding exec
run_sub dst src m = Runs-one _ _ m _ (λ rest. (rr_encoders dst src rest).2) refl

run_imul :
    (dst src : Reg) (m : Machine)
    → Runs (imul_rr dst src) m (set_reg m dst (m.reg dst * m.reg src % u64_mod))
unfolding exec
run_imul dst src m = Runs-one _ _ m _ (λ rest. (rr_encoders dst src rest).3) refl

run_cmp :
    (left right : Reg) (m : Machine)
    → Runs (cmp_rr left right) m (compare_flags m (m.reg left) (m.reg right))
unfolding exec
run_cmp left right m = Runs-one _ _ m _ (λ rest. (rr_encoders left right rest).4) refl

run_test :
    (a b : Reg) (m : Machine)
    → Runs (test_rr a b) m (compare_flags m (bit_and (m.reg a) (m.reg b)) 0)
unfolding exec
run_test a b m = Runs-one _ _ m _ (λ rest. (rr_encoders a b rest).5) refl

-- `setcc al` and `movzx rax, al`: the truth of the condition.
run_flag :
    (cc : SetCc) (m : Machine)
    → Leaves (setcc_al cc ++ movzx_rax_al) m (bool_word (holds m (cond cc)))
unfolding exec
run_flag cc m =
    let m₁ : Machine = set_reg m rax (low_byte (m.reg rax) (holds m (cond cc))) in
    record {
      final = set_reg m₁ rax (m₁.reg rax % 256);
      runs =
          Runs-append (setcc_al cc) movzx_rax_al (Runs-one _ _ m m₁ (setcc_al-DecodesTo cc) refl)
            (Runs-one _ _ m₁ _ movzx_rax_al-DecodesTo refl);
      rax_eq = ground arith;
      rbp_eq = refl;
      mem_eq = refl;
    }

after :
    (a b : List ℕ) {m m₁ : Machine} {x : ℕ}
    → Runs a m m₁
    → m₁.reg rbp ≡ m.reg rbp
    → m₁.mem ≡ m.mem
    → Leaves b m₁ x
    → Leaves (a ++ b) m x
after a b r p q l = record {
  final = l.final;
  runs = Runs-append a b r l.runs;
  rax_eq = l.rax_eq;
  rbp_eq = l.rbp_eq ∙ p;
  mem_eq = l.mem_eq ∙ q;
}

pub retarget : {code : List ℕ} {m : Machine} {x y : ℕ} → x ≡ y → Leaves code m x → Leaves code m y
retarget p l = record {
  final = l.final;
  runs = l.runs;
  rax_eq = l.rax_eq ∙ p;
  rbp_eq = l.rbp_eq;
  mem_eq = l.mem_eq;
}

-- One instruction that sets `rax`.
pub sets_rax :
    (code : List ℕ) (i : Instr) (m : Machine) (x : ℕ)
    → ((rest : List ℕ) → decode (code ++ rest) ≡ some (i, rest))
    → exec i m ≡ some (set_reg m rax x)
    → Leaves code m x
sets_rax code i m x d e = record {
  final = set_reg m rax x;
  runs = Runs-one code i m _ d e;
  rax_eq = refl;
  rbp_eq = refl;
  mem_eq = refl;
}

pub unary_leaves : (op : UnOp) (m : Machine) → Leaves (unary_code op) m (eval_unary op (m.reg rax))
unfolding unary_code decode exec
unary_leaves UnOp.neg m = sets_rax _ (neg (direct rax)) m _ (λ rest. refl) refl
unary_leaves UnOp.bit_not m = sets_rax _ (bit_not (direct rax)) m _ (λ rest. refl) refl
unary_leaves UnOp.not m = after _ _ (run_test rax rax m) refl refl (
    retarget (ap (λ (t : ℕ). bool_word (t == 0)) (bit_and_self (m.reg rax)))
      (run_flag SetCc.e (compare_flags m (bit_and (m.reg rax) (m.reg rax)) 0)))

moved_back : (m : Machine) → Leaves (mov_rr rax r11) m (m.reg r11)
moved_back m = record {
  final = set_reg m rax (m.reg r11);
  runs = run_mov rax r11 m;
  rax_eq = refl;
  rbp_eq = refl;
  mem_eq = refl;
}

product_leaves :
    (m : Machine)
    → Leaves
        (mov_rr r10 rax ++ (mov_rr rax r11 ++ imul_rr rax r10))
        m
        (m.reg r11 * m.reg rax % u64_mod)
product_leaves m =
    let m₁ : Machine = set_reg m r10 (m.reg rax) in
    let m₂ : Machine = set_reg m₁ rax (m.reg r11) in
    after (mov_rr r10 rax) _ (run_mov r10 rax m) refl refl (
      after (mov_rr rax r11) _ (run_mov rax r11 m₁) refl refl (record {
        final = set_reg m₂ rax (m.reg r11 * m.reg rax % u64_mod);
        runs = run_imul rax r10 m₂;
        rax_eq = refl;
        rbp_eq = refl;
        mem_eq = refl;
      }))

pub binary_leaves :
    (op : BinOp) (m : Machine) (code : List ℕ) (x : ℕ)
    → binary_code op ≡ ok code
    → eval_binary op (m.reg r11) (m.reg rax) ≡ some x
    → Leaves code m x
unfolding binary_code
binary_leaves BinOp.add m code x q v =
    subst (λ (c : List ℕ). Leaves c m x) (cc q)
      (after (add_rr r11 rax) (mov_rr rax r11) (run_add r11 rax m) refl refl
        (retarget (cc v) (moved_back _)))
binary_leaves BinOp.sub m code x q v =
    subst (λ (c : List ℕ). Leaves c m x) (cc q)
      (after (sub_rr r11 rax) (mov_rr rax r11) (run_sub r11 rax m) refl refl
        (retarget (cc v) (moved_back _)))
binary_leaves BinOp.mul m code x q v =
    subst (λ (c : List ℕ). Leaves c m x) (cc q) (retarget (cc v) (product_leaves m))
binary_leaves _ m code x q v = absurd (cc v)

pub compare_leaves :
    (op : CmpOp) (m : Machine)
    → Leaves (compare_code op) m (bool_word (eval_compare op (m.reg r11) (m.reg rax)))
unfolding compare_code
compare_leaves CmpOp.eq m = after _ _ (run_cmp r11 rax m) refl refl (run_flag SetCc.e _)
compare_leaves CmpOp.ne m = after _ _ (run_cmp r11 rax m) refl refl (run_flag SetCc.ne _)
compare_leaves CmpOp.lt m = after _ _ (run_cmp r11 rax m) refl refl (run_flag SetCc.l _)
compare_leaves CmpOp.le m = after _ _ (run_cmp r11 rax m) refl refl (run_flag SetCc.le _)
compare_leaves CmpOp.gt m = after _ _ (run_cmp r11 rax m) refl refl (run_flag SetCc.g _)
compare_leaves CmpOp.ge m = after _ _ (run_cmp r11 rax m) refl refl (run_flag SetCc.ge _)
