-- ===== src/Cpu.antt =====
-- What the emitted code means: a part of the x86-64 instruction set, after the processor's manual.
-- It is no code of the repository. It is the independent description that the encoders and the
-- emitter are held against, and it uses none of their helpers.
-- Memory is read and written in cells of 8 bytes, named by their address: right for code whose
-- accesses are all 8 bytes wide and a multiple of 8 apart, as those to locals and temps are.
pub mod Decode
pub mod Steps
use rane_processing_language.Base.{
  ℕ, ◌+◌, ◌-◌, ◌*◌, ◌%◌, ◌^◌, ◌<◌, Bool, true, false, ◌&&◌, ◌||◌, not, List, Option, none, some,
  bit_and, bit_or, bit_xor, ltb, leb, ◌==◌, if◌then◌else◌,
}
use rane_processing_language.Base.Bytes.{u32_mod, u64_mod}
use rane_processing_language.X64.{
  Reg, rax, rcx, rdx, rbx, rsp, rbp, rsi, rdi, r8, r9, r10, r11, r12, r13, r14, r15, reg_code,
}

pub data Operand : Type 0 where
  direct : Reg → Operand
  at : Reg → ℕ → Operand

pub data AluOp : Type 0 where
  add or and sub xor cmp : AluOp

-- The conditions of `setcc` and `jcc`: equal, not equal, and the signed orders.
pub data Cond : Type 0 where
  eq ne lt ge le gt : Cond

pub data Instr : Type 0 where
  mov_imm : Reg → ℕ → Instr
  mov_to_reg : Reg → Operand → Instr
  mov_to_rm : Operand → Reg → Instr
  alu : AluOp → Operand → Reg → Instr
  test : Operand → Reg → Instr
  imul : Reg → Operand → Instr
  imul_imm : Reg → Operand → ℕ → Instr
  neg : Operand → Instr
  bit_not : Operand → Instr
  shl : Operand → ℕ → Instr
  sub_imm : Operand → ℕ → Instr
  setcc_al : Cond → Instr
  movzx_rax_al : Instr
  push pop : Reg → Instr
  jmp : ℕ → Instr
  jcc : Cond → ℕ → Instr
  call : ℕ → Instr
  ret int3 ud2 : Instr

-- The flags are kept as the two facts that the conditions read: the last comparison found its
-- sides equal, or the left one less as a signed number.
pub record Machine : Type 0 where
  pub reg : Reg → ℕ
  pub mem : ℕ → ℕ
  pub is_equal : Bool
  pub is_less : Bool

abbrev pub set_reg : Machine → Reg → ℕ → Machine
set_reg m r v = record m { reg = λ q. if reg_code q == reg_code r then v else m.reg q }

abbrev pub set_mem : Machine → ℕ → ℕ → Machine
set_mem m a v = record m { mem = λ b. if b == a then v else m.mem b }

-- A 32-bit displacement is extended by its sign to 64 bits.
unfoldable pub extend : ℕ → ℕ
extend d = if ltb d (2 ^ 31) then d else d + (u64_mod - u32_mod)

abbrev pub address : Machine → Reg → ℕ → ℕ
address m b d = (m.reg b + extend d) % u64_mod

abbrev pub read : Machine → Operand → ℕ
read m (direct r) = m.reg r
read m (at b d) = m.mem (address m b d)

abbrev pub write : Machine → Operand → ℕ → Machine
write m (direct r) v = set_reg m r v
write m (at b d) v = set_mem m (address m b d) v

-- The order of two 64-bit patterns as signed numbers: flip the sign bits, then compare.
abbrev pub signed_ltb : ℕ → ℕ → Bool
signed_ltb a b = ltb ((a + 2 ^ 63) % u64_mod) ((b + 2 ^ 63) % u64_mod)

abbrev pub compare_flags : Machine → ℕ → ℕ → Machine
compare_flags m a b = record m { is_equal = a == b; is_less = signed_ltb a b }

abbrev pub holds : Machine → Cond → Bool
holds m eq = m.is_equal
holds m ne = not m.is_equal
holds m lt = m.is_less
holds m ge = not m.is_less
holds m le = m.is_equal || m.is_less
holds m gt = not (m.is_equal || m.is_less)

abbrev pub low_byte : ℕ → Bool → ℕ
low_byte v b = v - v % 256 + (if b then 1 else 0)

-- Every instruction of arithmetic sets the flags; after any but `cmp` and `test` the model leaves
-- them as they were, and no code here reads them there.
abbrev pub run_alu : AluOp → Machine → Operand → ℕ → Machine
run_alu add m o v = write m o ((read m o + v) % u64_mod)
run_alu or m o v = write m o (bit_or (read m o) v)
run_alu and m o v = write m o (bit_and (read m o) v)
run_alu sub m o v = write m o ((read m o + u64_mod - v) % u64_mod)
run_alu xor m o v = write m o (bit_xor (read m o) v)
run_alu cmp m o v = compare_flags m (read m o) v

-- One instruction that falls through to the next. Those that transfer control have no such step.
unfoldable pub exec : Instr → Machine → Option Machine
exec (mov_imm r v) m = some (set_reg m r v)
exec (mov_to_reg r o) m = some (set_reg m r (read m o))
exec (mov_to_rm o r) m = some (write m o (m.reg r))
exec (alu op o r) m = some (run_alu op m o (m.reg r))
exec (test o r) m = some (compare_flags m (bit_and (read m o) (m.reg r)) 0)
exec (imul r o) m = some (set_reg m r (m.reg r * read m o % u64_mod))
exec (imul_imm r o v) m = some (set_reg m r (read m o * extend v % u64_mod))
exec (neg o) m = some (write m o ((u64_mod - read m o) % u64_mod))
exec (bit_not o) m = some (write m o (u64_mod - 1 - read m o))
exec (shl o n) m = some (write m o (read m o * 2 ^ n % u64_mod))
exec (sub_imm o v) m = some (write m o ((read m o + u64_mod - extend v) % u64_mod))
exec (setcc_al c) m = some (set_reg m rax (low_byte (m.reg rax) (holds m c)))
exec movzx_rax_al m = some (set_reg m rax (m.reg rax % 256))
exec _ m = none
