-- ===== src/X64.antt =====
-- rane_emitter.hpp: the registers, the code buffer and the instruction encoders (`namespace enc`).
-- An encoder is the list of bytes that it appends to the buffer; where it also returns the place
-- of a placeholder, it is a function of the buffer.

pub mod Encoders
use rane_processing_language.Base.{
  ℕ, ◌+◌, ◌*◌, ◌%◌, bit_and, bit_or, Bool, true, false, List, [], ◌∷◌, ◌++◌, length, leb,
  if◌then◌else◌,
}
use rane_processing_language.Base.Bytes.{u8_mod, u32_mod, bytes_u32, bytes_u64}

pub data Reg : Type 0 where
  rax rcx rdx rbx rsp rbp rsi rdi r8 r9 r10 r11 r12 r13 r14 r15 : Reg

-- `(uint8_t)r`
abbrev pub reg_code : Reg → ℕ
reg_code rax = 0
reg_code rcx = 1
reg_code rdx = 2
reg_code rbx = 3
reg_code rsp = 4
reg_code rbp = 5
reg_code rsi = 6
reg_code rdi = 7
reg_code r8 = 8
reg_code r9 = 9
reg_code r10 = 10
reg_code r11 = 11
reg_code r12 = 12
reg_code r13 = 13
reg_code r14 = 14
reg_code r15 = 15

abbrev pub CodeBuf : Type 0
CodeBuf = List ℕ

-- `size()` is cast to 32 bits.
unfoldable pub size : CodeBuf → ℕ
size c = length c % u32_mod

abbrev flag : Bool → ℕ → ℕ
flag b n = if b then n else 0

unfoldable pub rex : Bool → Bool → Bool → Bool → ℕ
rex w r x b = bit_or 0x40 (bit_or (flag w 8) (bit_or (flag r 4) (bit_or (flag x 2) (flag b 1))))

unfoldable pub is_ext : Reg → Bool
is_ext r = leb (reg_code r8) (reg_code r)

unfoldable pub reg3 : Reg → ℕ
reg3 r = bit_and (reg_code r) 7

-- The shapes that the encoders share: a ModRM byte with two registers, and one with
-- `[rbp + disp32]`.
unfoldable pub modrm_rr : Reg → Reg → ℕ
unfolding reg3
modrm_rr reg rm = bit_or 0b11_000_000 (bit_or (reg3 reg * 8) (reg3 rm))

unfoldable pub modrm_rbp : Reg → ℕ
unfolding reg3
modrm_rbp reg = bit_or 0b10_000_101 (reg3 reg * 8)

unfoldable pub mov_ri64 : Reg → ℕ → List ℕ
unfolding rex is_ext reg3
mov_ri64 dst imm = rex true false false (is_ext dst) ∷ (0xB8 + reg3 dst) % u8_mod ∷ bytes_u64 imm

unfoldable pub mov_mrbp_r64 : ℕ → Reg → List ℕ
unfolding rex is_ext modrm_rbp
mov_mrbp_r64 disp src = rex true (is_ext src) false false ∷ 0x89 ∷ modrm_rbp src ∷ bytes_u32 disp

unfoldable pub mov_r64_mrbp : Reg → ℕ → List ℕ
unfolding rex is_ext modrm_rbp
mov_r64_mrbp dst disp = rex true (is_ext dst) false false ∷ 0x8B ∷ modrm_rbp dst ∷ bytes_u32 disp

unfoldable pub mov_rr : Reg → Reg → List ℕ
unfolding rex is_ext modrm_rr
mov_rr dst src = rex true (is_ext dst) false (is_ext src) ∷ 0x8B ∷ modrm_rr dst src ∷ []

unfoldable pub add_rr : Reg → Reg → List ℕ
unfolding rex is_ext modrm_rr
add_rr dst src = rex true (is_ext src) false (is_ext dst) ∷ 0x01 ∷ modrm_rr src dst ∷ []

unfoldable pub sub_rr : Reg → Reg → List ℕ
unfolding rex is_ext modrm_rr
sub_rr dst src = rex true (is_ext src) false (is_ext dst) ∷ 0x29 ∷ modrm_rr src dst ∷ []

unfoldable pub imul_rr : Reg → Reg → List ℕ
unfolding rex is_ext modrm_rr
imul_rr dst src = rex true (is_ext dst) false (is_ext src) ∷ 0x0F ∷ 0xAF ∷ modrm_rr dst src ∷ []

unfoldable pub cmp_rr : Reg → Reg → List ℕ
unfolding rex is_ext modrm_rr
cmp_rr left right = rex true (is_ext right) false (is_ext left) ∷ 0x39 ∷ modrm_rr right left ∷ []

unfoldable pub test_rr : Reg → Reg → List ℕ
unfolding rex is_ext modrm_rr
test_rr a b = rex true (is_ext b) false (is_ext a) ∷ 0x85 ∷ modrm_rr b a ∷ []

pub data SetCc : Type 0 where
  e ne l le g ge : SetCc

abbrev pub setcc_code : SetCc → ℕ
setcc_code e = 0x94
setcc_code ne = 0x95
setcc_code l = 0x9C
setcc_code le = 0x9E
setcc_code g = 0x9F
setcc_code ge = 0x9D

unfoldable pub setcc_al : SetCc → List ℕ
setcc_al cc = 0x0F ∷ setcc_code cc ∷ 0b11_000_000 ∷ []

unfoldable pub movzx_rax_al : List ℕ
movzx_rax_al = 0x48 ∷ 0x0F ∷ 0xB6 ∷ 0xC0 ∷ []

-- The jumps and calls append a zero placeholder and return its place.
unfoldable pub jmp_rel32 : CodeBuf → CodeBuf × ℕ
jmp_rel32 c = let c' = c ++ 0xE9 ∷ [] in (c' ++ bytes_u32 0, size c')

pub data Jcc : Type 0 where
  jz jnz : Jcc

abbrev pub jcc_code : Jcc → ℕ
jcc_code jz = 0x84
jcc_code jnz = 0x85

unfoldable pub jcc_rel32 : CodeBuf → Jcc → CodeBuf × ℕ
jcc_rel32 c cc = let c' = c ++ 0x0F ∷ jcc_code cc ∷ [] in (c' ++ bytes_u32 0, size c')

unfoldable pub call_rel32 : CodeBuf → CodeBuf × ℕ
call_rel32 c = let c' = c ++ 0xE8 ∷ [] in (c' ++ bytes_u32 0, size c')

unfoldable pub push_rbp : List ℕ
push_rbp = 0x55 ∷ []

unfoldable pub pop_rbp : List ℕ
pop_rbp = 0x5D ∷ []

unfoldable pub mov_rbp_rsp : List ℕ
mov_rbp_rsp = 0x48 ∷ 0x89 ∷ 0xE5 ∷ []

unfoldable pub sub_rsp_imm32 : ℕ → List ℕ
sub_rsp_imm32 imm = 0x48 ∷ 0x81 ∷ 0xEC ∷ bytes_u32 imm

unfoldable pub mov_rsp_rbp : List ℕ
mov_rsp_rbp = 0x48 ∷ 0x89 ∷ 0xEC ∷ []

unfoldable pub ret : List ℕ
ret = 0xC3 ∷ []
