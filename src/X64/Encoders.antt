-- ===== src/X64/Encoders.antt =====
-- The encoders of `namespace enc`, read back by the decoder of Cpu/Decode.antt.
use rane_processing_language.Base.{ℕ, ◌%◌, ◌≡◌, refl, List, ◌++◌, some}
use rane_processing_language.Base.Bytes.{u32_mod, u64_mod}
use rane_processing_language.X64.{
  Reg, mov_ri64, mov_mrbp_r64, mov_r64_mrbp, mov_rr, add_rr, sub_rr, imul_rr, cmp_rr, test_rr,
  setcc_al, movzx_rax_al, SetCc, sub_rsp_imm32, push_rbp, pop_rbp, mov_rbp_rsp, mov_rsp_rbp, ret,
}
use rane_processing_language.X64 as X
use rane_processing_language.Cpu.{
  Instr, Cond, direct, at, mov_imm, mov_to_reg, mov_to_rm, alu, test, imul,
}
use rane_processing_language.Cpu as C
use rane_processing_language.Cpu.Decode.{decode, take_u32-bytes_u32, take_u64-bytes_u64}

-- The code starts with this instruction, whatever follows it.
abbrev pub DecodesTo : List ℕ → Instr → Type 0
DecodesTo code i = (rest : List ℕ) → decode (code ++ rest) ≡ some (i, rest)

abbrev pub RrEncoders : Reg → Reg → List ℕ → Type 0
RrEncoders dst src rest =
    (decode (mov_rr dst src ++ rest) ≡ some (mov_to_reg dst (direct src), rest))
    × (decode (add_rr dst src ++ rest) ≡ some (alu C.AluOp.add (direct dst) src, rest))
    × (decode (sub_rr dst src ++ rest) ≡ some (alu C.AluOp.sub (direct dst) src, rest))
    × (decode (imul_rr dst src ++ rest) ≡ some (imul dst (direct src), rest))
    × (decode (cmp_rr dst src ++ rest) ≡ some (alu C.AluOp.cmp (direct dst) src, rest))
    × (decode (test_rr dst src ++ rest) ≡ some (test (direct dst) src, rest))

-- Between any two registers the encoders of `mov`, `add`, `sub`, `imul`, `cmp` and `test` write
-- exactly that instruction with those operands in that order, whatever code follows.
pub rr_encoders : (dst src : Reg) (rest : List ℕ) → RrEncoders dst src rest
unfolding mov_rr add_rr sub_rr imul_rr cmp_rr test_rr decode
rr_encoders X.rax X.rax rest = (refl, refl, refl, refl, refl, refl)
rr_encoders X.rcx X.rcx rest = (refl, refl, refl, refl, refl, refl)
rr_encoders X.rdx X.rdx rest = (refl, refl, refl, refl, refl, refl)
rr_encoders X.rbx X.rbx rest = (refl, refl, refl, refl, refl, refl)
rr_encoders X.rsp X.rsp rest = (refl, refl, refl, refl, refl, refl)
rr_encoders X.rbp X.rbp rest = (refl, refl, refl, refl, refl, refl)
rr_encoders X.rsi X.rsi rest = (refl, refl, refl, refl, refl, refl)
rr_encoders X.rdi X.rdi rest = (refl, refl, refl, refl, refl, refl)
rr_encoders X.r8 X.r8 rest = (refl, refl, refl, refl, refl, refl)
rr_encoders X.r9 X.r9 rest = (refl, refl, refl, refl, refl, refl)
rr_encoders X.r10 X.r10 rest = (refl, refl, refl, refl, refl, refl)
rr_encoders X.r11 X.r11 rest = (refl, refl, refl, refl, refl, refl)
rr_encoders X.r12 X.r12 rest = (refl, refl, refl, refl, refl, refl)
rr_encoders X.r13 X.r13 rest = (refl, refl, refl, refl, refl, refl)
rr_encoders X.r14 X.r14 rest = (refl, refl, refl, refl, refl, refl)
rr_encoders X.r15 X.r15 rest = (refl, refl, refl, refl, refl, refl)
rr_encoders _ _ rest = (refl, refl, refl, refl, refl, refl)

pub mov_mrbp_r64-DecodesTo :
    (disp : ℕ) (src : Reg)
    → DecodesTo (mov_mrbp_r64 disp src) (mov_to_rm (at X.rbp (disp % u32_mod)) src)
unfolding mov_mrbp_r64 decode
mov_mrbp_r64-DecodesTo disp X.rax rest = rw (take_u32-bytes_u32 disp rest)
mov_mrbp_r64-DecodesTo disp _ rest = rw (take_u32-bytes_u32 disp rest)

pub mov_r64_mrbp-DecodesTo :
    (dst : Reg) (disp : ℕ)
    → DecodesTo (mov_r64_mrbp dst disp) (mov_to_reg dst (at X.rbp (disp % u32_mod)))
unfolding mov_r64_mrbp decode
mov_r64_mrbp-DecodesTo X.rax disp rest = rw (take_u32-bytes_u32 disp rest)
mov_r64_mrbp-DecodesTo _ disp rest = rw (take_u32-bytes_u32 disp rest)

pub mov_ri64-DecodesTo :
    (dst : Reg) (imm : ℕ) → DecodesTo (mov_ri64 dst imm) (mov_imm dst (imm % u64_mod))
unfolding mov_ri64 decode
mov_ri64-DecodesTo X.rax imm rest = rw (take_u64-bytes_u64 imm rest)
mov_ri64-DecodesTo _ imm rest = rw (take_u64-bytes_u64 imm rest)

-- The condition that a `setcc` byte stands for.
abbrev pub cond : SetCc → Cond
cond SetCc.e = C.eq
cond SetCc.ne = C.ne
cond SetCc.l = C.lt
cond SetCc.le = C.le
cond SetCc.g = C.gt
cond SetCc.ge = C.ge

pub setcc_al-DecodesTo : (cc : SetCc) → DecodesTo (setcc_al cc) (C.setcc_al (cond cc))
unfolding setcc_al decode
setcc_al-DecodesTo SetCc.e rest = refl
setcc_al-DecodesTo _ rest = refl

pub movzx_rax_al-DecodesTo : DecodesTo movzx_rax_al C.movzx_rax_al
unfolding movzx_rax_al decode
movzx_rax_al-DecodesTo rest = refl
