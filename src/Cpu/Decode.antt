-- ===== src/Cpu/Decode.antt =====
-- The decoder: REX = 0100WRXB, ModRM = mod (2 bits) reg (3) rm (3). It answers none on a form that
-- it does not know (a SIB byte, a one-byte displacement, an operand that is not 64 bits wide).
use rane_processing_language.Base.{
  ℕ, ◌+◌, ◌*◌, ◌/◌, ◌%◌, ◌≡◌, arith, ◌&&◌, ◌||◌, List, [], ◌∷◌, ◌++◌, Option, none, some, leb, ◌==◌,
  if◌then◌else◌, get_elem?,
}
use rane_processing_language.Base.Bytes.{u32_mod, u64_mod, le32, bytes_u32, bytes_u64}
use rane_processing_language.X64.{
  Reg, rax, rcx, rdx, rbx, rsp, rbp, rsi, rdi, r8, r9, r10, r11, r12, r13, r14, r15,
}
use rane_processing_language.Cpu.{
  Operand, direct, at, AluOp, add, or, and, sub, xor, cmp, Cond, eq, ne, lt, ge, le, gt, Instr,
  mov_imm, mov_to_reg, mov_to_rm, alu, test, imul, imul_imm, neg, bit_not, shl, sub_imm, setcc_al,
  movzx_rax_al, push, pop, jmp, jcc, call, ret, int3, ud2,
}

infixl 5 ◌>>=◌
abbrev ◌>>=◌ {ℓ κ} : {A : Type ℓ} {B : Type κ} → Option A → (A → Option B) → Option B
none >>= f = none
some a >>= f = f a

-- A word at the head of the code, and the code behind it.
unfoldable pub take_u32 : List ℕ → Option (ℕ × List ℕ)
take_u32 (a ∷ b ∷ c ∷ d ∷ rest) = some (le32 a b c d, rest)
take_u32 _ = none

unfoldable pub take_u64 : List ℕ → Option (ℕ × List ℕ)
take_u64 (a ∷ b ∷ c ∷ d ∷ e ∷ f ∷ g ∷ h ∷ rest) = some (le32 a b c d + u32_mod * le32 e f g h, rest)
take_u64 _ = none

pub take_u32-bytes_u32 :
    (v : ℕ) (rest : List ℕ) → take_u32 (bytes_u32 v ++ rest) ≡ some (v % u32_mod, rest)
unfolding take_u32 bytes_u32
take_u32-bytes_u32 v rest = ground arith

pub take_u64-bytes_u64 :
    (v : ℕ) (rest : List ℕ) → take_u64 (bytes_u64 v ++ rest) ≡ some (v % u64_mod, rest)
unfolding take_u64 bytes_u64
take_u64-bytes_u64 v rest = ground arith

abbrev regs : List Reg
regs =
    rax ∷ rcx ∷ rdx ∷ rbx ∷ rsp ∷ rbp ∷ rsi ∷ rdi ∷ r8 ∷ r9 ∷ r10 ∷ r11 ∷ r12 ∷ r13 ∷ r14 ∷ r15 ∷ []

-- The register with the extension bit `x` of the REX byte and the three bits `n`.
abbrev reg_at : ℕ → ℕ → Option Reg
reg_at x n = get_elem? regs (8 * x + n)

-- The operand that `mod` and `rm` name.
rm_operand : ℕ → ℕ → ℕ → List ℕ → Option (Operand × List ℕ)
rm_operand x mode rm code =
    if mode == 3
    then (reg_at x rm >>= λ r. some (direct r, code))
    else (if (mode == 2) && (rm == 4) || (mode == 0) && ((rm == 4) || (rm == 5)) || (mode == 1)
        then none
        else (if mode == 2
            then (reg_at x rm >>= λ r. take_u32 code >>= λ (d, rest). some (at r d, rest))
            else (reg_at x rm >>= λ r. some (at r 0, code))))

-- A ModRM byte: the register, the operand and the code behind.
modrm : ℕ → ℕ → List ℕ → Option (Reg × Operand × List ℕ)
modrm r b [] = none
modrm r b (m ∷ code) = do
  reg ← reg_at r (m / 8 % 8)
  (o, rest) ← rm_operand b (m / 64) (m % 8) code
  some (reg, o, rest)

-- The same where the three bits of `reg` are a part of the opcode.
modrm_digit : ℕ → List ℕ → Option (ℕ × Operand × List ℕ)
modrm_digit b [] = none
modrm_digit b (m ∷ code) = do
  (o, rest) ← rm_operand b (m / 64) (m % 8) code
  some (m / 8 % 8, o, rest)

abbrev alu_op : ℕ → Option AluOp
alu_op o =
    if o == 0x01
    then some add
    else (if o == 0x09
        then some or
        else (if o == 0x21
            then some and
            else (if o == 0x29
                then some sub
                else (if o == 0x31 then some xor else (if o == 0x39 then some cmp else none)))))

abbrev cond_of : ℕ → Option Cond
cond_of c =
    if c == 0x4
    then some eq
    else (if c == 0x5
        then some ne
        else (if c == 0xC
            then some lt
            else (if c == 0xD
                then some ge
                else (if c == 0xE then some le else (if c == 0xF then some gt else none)))))

-- The opcodes behind 0F, with 64-bit operands.
wide_0f : ℕ → ℕ → List ℕ → Option (Instr × List ℕ)
wide_0f r b [] = none
wide_0f r b (o ∷ code) =
    if o == 0xAF
    then (modrm r b code >>= λ (reg, rm, rest). some (imul reg rm, rest))
    else (if o == 0xB6
        then (elim code [
          | [] ↦ none
          | m ∷ rest ↦ if (m == 0xC0) && (r + b == 0) then some (movzx_rax_al, rest) else none
        ])
        else none)

group_f7 : ℕ × Operand × List ℕ → Option (Instr × List ℕ)
group_f7 (d, o, rest) =
    if d == 3 then some (neg o, rest) else (if d == 2 then some (bit_not o, rest) else none)

-- An opcode behind a REX byte with W = 1 and X = 0.
wide : ℕ → ℕ → List ℕ → Option (Instr × List ℕ)
wide r b [] = none
wide r b (o ∷ code) =
    if o == 0x89
    then (modrm r b code >>= λ (reg, rm, rest). some (mov_to_rm rm reg, rest))
    else (if o == 0x8B
        then (modrm r b code >>= λ (reg, rm, rest). some (mov_to_reg reg rm, rest))
        else (if o == 0x85
            then (modrm r b code >>= λ (reg, rm, rest). some (test rm reg, rest))
            else (if (leb 0xB8 o) && (leb o 0xBF)
                then (reg_at b (o % 8) >>= λ reg.
                    take_u64 code >>= λ (v, rest). some (mov_imm reg v, rest))
                else (if o == 0x69
                    then (modrm r b code >>= λ (reg, rm, code').
                        take_u32 code' >>= λ (v, rest). some (imul_imm reg rm v, rest))
                    else (if o == 0x81
                        then (modrm_digit b code >>= λ (d, rm, code').
                            take_u32 code' >>= λ (v, rest).
                            if d == 5 then some (sub_imm rm v, rest) else none)
                        else (if o == 0xC1
                            then (modrm_digit b code >>= λ (d, rm, code'). elim code' [
                              | [] ↦ none
                              | n ∷ rest ↦ if d == 4 then some (shl rm n, rest) else none
                            ])
                            else (if o == 0xF7
                                then (modrm_digit b code >>= group_f7)
                                else (if o == 0x0F
                                    then wide_0f r b code
                                    else (alu_op o >>= λ op. modrm r b code >>= λ (reg, rm, rest).
                                        some (alu op rm reg, rest))))))))))

-- The opcodes behind 0F, with no REX byte.
plain_0f : List ℕ → Option (Instr × List ℕ)
plain_0f [] = none
plain_0f (o ∷ code) =
    if o == 0x0B
    then some (ud2, code)
    else (if o / 16 == 8
        then (cond_of (o % 16) >>= λ c. take_u32 code >>= λ (d, rest). some (jcc c d, rest))
        else (if o / 16 == 9
            then (elim code [
              | [] ↦ none
              | m ∷ rest ↦
                  if m == 0xC0 then (cond_of (o % 16) >>= λ c. some (setcc_al c, rest)) else none
            ])
            else none))

plain : ℕ → List ℕ → Option (Instr × List ℕ)
plain o code =
    if o == 0xE9
    then (take_u32 code >>= λ (d, rest). some (jmp d, rest))
    else (if o == 0xE8
        then (take_u32 code >>= λ (d, rest). some (call d, rest))
        else (if o == 0xC3
            then some (ret, code)
            else (if o == 0xCC
                then some (int3, code)
                else (if o == 0x0F
                    then plain_0f code
                    else (if o / 8 == 10
                        then (reg_at 0 (o % 8) >>= λ r. some (push r, code))
                        else (if o / 8 == 11
                            then (reg_at 0 (o % 8) >>= λ r. some (pop r, code))
                            else none))))))

-- One instruction from the head of the code.
unfoldable pub decode : List ℕ → Option (Instr × List ℕ)
unfolding rm_operand modrm modrm_digit wide_0f group_f7 wide plain_0f plain
decode [] = none
decode (o ∷ code) =
    if o / 16 == 4
    then (if (o / 8 % 2 == 1) && (o / 2 % 2 == 0) then wide (o / 4 % 2) (o % 2) code else none)
    else plain o code
