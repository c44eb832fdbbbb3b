-- ===== src/Emitter.antt =====
-- rane_emitter.hpp: the state of `struct Emitter`, the frame layout, the patches and labels, and
-- the small helpers. `ILayoutProvider` is implemented by the emitter's user, and a parameter here.
pub mod Temps
pub mod Frame
pub mod Value
pub mod Action
pub mod Proc
pub mod Growth
pub mod Appends
pub mod Patching
pub mod Layout
pub mod Jumps
pub mod TempUse
pub mod TempCount
pub mod Meaning
pub mod Operations
pub mod Slots
pub mod Pairs
pub mod Correct
mod Tests
use rane_processing_language.Base.{
  ◌≡◌, refl, arith, ℕ, ◌+◌, ◌-◌, ◌*◌, ◌%◌, Bool, true, false, bit_and, List, [], ◌∷◌, ◌++◌, Option,
  none, some, ltb, leb, ◌==◌, if◌then◌else◌, length, set, get_elem?,
}
use rane_processing_language.Base.Bytes.{u8_mod, u32_mod}
use rane_processing_language.Base.Result.{Result, ok, err, guard, ◌>>=◌, ◌>>◌}
use rane_processing_language.Plan.{SymbolId, TypeId, BlockId}
use rane_processing_language.X64.{CodeBuf, size, jmp_rel32, jcc_rel32, call_rel32, jz}

-- What stops the emitter: `at` out of range, a failed `assert`, an unchecked access out of range,
-- and a recursion or loop that does not end.
pub data Fault : Type 0 where
  out_of_range assertion undefined diverges : Fault

-- `at(i)`
unfoldable pub elem_at {ℓ} : {A : Type ℓ} → List A → ℕ → Result Fault A
elem_at xs i = elim (get_elem? xs i) [ none ↦ err out_of_range | some x ↦ ok x ]

pub elem_at-eq-some {ℓ} :
    {A : Type ℓ} (xs : List A) (i : ℕ) (x : A) → elem_at xs i ≡ ok x → get_elem? xs i ≡ some x
unfolding elem_at
elem_at-eq-some xs i x h = ground arith

pub elem_at-some {ℓ} :
    {A : Type ℓ} (xs : List A) (i : ℕ) (x : A) → get_elem? xs i ≡ some x → elem_at xs i ≡ ok x
unfolding elem_at
elem_at-some xs i x h = rw (h, elem_at) refl

pub data PatchKind : Type 0 where
  rel32_jmp rel32_jcc rel32_call rip_rel32_addr abs64_imm : PatchKind

pub record Patch : Type 0 where
  pub kind : PatchKind
  pub at : ℕ
  pub target_block : BlockId
  pub target_symbol : SymbolId

pub record Label : Type 0 where
  pub bound : Bool
  pub pos : ℕ

pub record TypeLayout : Type 0 where
  pub size : ℕ
  pub align : ℕ

pub record ILayoutProvider : Type 0 where
  pub type_layout : TypeId → TypeLayout
  pub field_offset : TypeId → SymbolId → ℕ
  pub element_size : TypeId → ℕ

-- `local_off` is the hash map as a list of pairs.
pub record FrameLayout : Type 0 where
  pub shadow_bytes : ℕ
  pub locals_bytes : ℕ
  pub temps_bytes : ℕ
  pub saved_nv_bytes : ℕ
  pub total_bytes : ℕ
  pub align : ℕ
  pub local_off : List (SymbolId × ℕ)
  pub temp_base_off : ℕ

unfoldable pub find : SymbolId → List (SymbolId × ℕ) → Option ℕ
find sym [] = none
find sym ((s, off) ∷ rest) = if s == sym then some off else find sym rest

unfoldable pub local_offset : FrameLayout → SymbolId → Result Fault ℕ
local_offset fr sym = elim (find sym fr.local_off) [ none ↦ err assertion | some off ↦ ok off ]

abbrev pub temp_offset : FrameLayout → ℕ → ℕ
temp_offset fr i = (fr.temp_base_off + i * 8 % u32_mod) % u32_mod

-- `-(int32_t)off` as a 32-bit pattern.
abbrev pub rbp_disp_from_off : ℕ → ℕ
rbp_disp_from_off off = (u32_mod - off) % u32_mod

pub record Emitter : Type 0 where
  pub frame : FrameLayout
  pub code : CodeBuf
  pub block_labels : List Label
  pub patches : List Patch
  pub temp_sp : ℕ
  pub temp_max : ℕ

abbrev pub put : List ℕ → Emitter → Emitter
put bs e = record e { code = e.code ++ bs }

-- The index of the new temp, and the state behind.
unfoldable pub temp_alloc : Emitter → ℕ × Emitter
temp_alloc e =
    let sp = (e.temp_sp + 1) % u32_mod in
    (e.temp_sp, record e { temp_sp = sp; temp_max = if ltb e.temp_max sp then sp else e.temp_max })

unfoldable pub temp_free : Emitter → Result Fault Emitter
temp_free e = if ltb 0 e.temp_sp then ok (record e { temp_sp = e.temp_sp - 1 }) else err assertion

unfoldable pub bind_block : BlockId → Emitter → Result Fault Emitter
bind_block b e =
    if ltb b (length e.block_labels)
    then ok (record e {
      block_labels = set e.block_labels b (record { bound = true; pos = size e.code });
    })
    else err out_of_range

abbrev push_patch : PatchKind → BlockId → SymbolId → CodeBuf × ℕ → Emitter → Emitter
push_patch k b s (code, at) e = record e {
  code = code;
  patches = e.patches ++ record { kind = k; at = at; target_block = b; target_symbol = s } ∷ [];
}

unfoldable pub emit_jmp_block : BlockId → Emitter → Emitter
emit_jmp_block target e = push_patch rel32_jmp target 0 (jmp_rel32 e.code) e

unfoldable pub emit_jz_block : BlockId → Emitter → Emitter
emit_jz_block target e = push_patch rel32_jcc target 0 (jcc_rel32 e.code jz) e

unfoldable pub emit_call_symbol : SymbolId → Emitter → Emitter
emit_call_symbol callee e = push_patch rel32_call 0 callee (call_rel32 e.code) e
