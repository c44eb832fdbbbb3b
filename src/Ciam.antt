-- ===== src/Ciam.antt =====
-- Rane_resolver.cpp, `struct CiamCtx` with the capabilities and the guards that a pass asks for, and the bytes
-- that `emit_exec_meta` writes of them. The JSON text beside them is not modelled.
pub mod Caps
pub mod Meta
pub mod Tests
use rane_processing_language.Base.{
  ℕ, ◌+◌, ◌%◌, ◌/◌, ◌^◌, Bool, true, false, ◌||◌, List, [], ◌∷◌, ◌++◌, ◌==◌, if◌then◌else◌, length,
}
use rane_processing_language.Base.Bytes.{bytes_u32, u32_mod, u8_mod}
use rane_processing_language.Syntax.{Span}

pub data GuardKind : Type 0 where
  bounds cap_boundary determinism_fence : GuardKind

pub data CapKind : Type 0 where
  heap_alloc file_io network_io dynamic_eval syscalls threads channels crypto : CapKind

abbrev pub guard_code : GuardKind → ℕ
guard_code bounds = 1
guard_code cap_boundary = 2
guard_code determinism_fence = 3

abbrev pub cap_code : CapKind → ℕ
cap_code heap_alloc = 1
cap_code file_io = 2
cap_code network_io = 3
cap_code dynamic_eval = 4
cap_code syscalls = 5
cap_code threads = 6
cap_code channels = 7
cap_code crypto = 8

pub record GuardRec : Type 0 where
  pub kind : GuardKind
  pub anchor_tok : ℕ
  pub span : Span

pub record CiamCtx : Type 0 where
  pub required_caps : List CapKind
  pub guards : List GuardRec

-- `std::find` on the capabilities.
unfoldable pub has_cap : CapKind → List CapKind → Bool
has_cap cap [] = false
has_cap cap (c ∷ cs) = (cap_code c == cap_code cap) || has_cap cap cs

unfoldable pub ciam_require_cap : CapKind → CiamCtx → CiamCtx
ciam_require_cap cap ctx =
    if has_cap cap ctx.required_caps
    then ctx
    else record ctx { required_caps = ctx.required_caps ++ cap ∷ [] }

unfoldable pub ciam_emit_guard : GuardKind → ℕ → Span → CiamCtx → CiamCtx
ciam_emit_guard kind anchor_tok span ctx = record ctx {
  guards = ctx.guards ++ record { kind = kind; anchor_tok = anchor_tok; span = span } ∷ [];
}

-- Two bytes, the low one first.
unfoldable pub bytes_u16 : ℕ → List ℕ
bytes_u16 v = v % u8_mod ∷ v / 2 ^ 8 % u8_mod ∷ []

-- `ExecMetaBinHeader`: the magic, the version and the reserved half-word, and four counts.
unfoldable pub header_bytes : ℕ → ℕ → CiamCtx → List ℕ
header_bytes entry_offset code_size ctx =
    bytes_u32 1296390213
    ++ bytes_u16 1
    ++ bytes_u16 0
    ++ bytes_u32 entry_offset
    ++ bytes_u32 (code_size % u32_mod)
    ++ bytes_u32 (length ctx.guards % u32_mod)
    ++ bytes_u32 (length ctx.required_caps % u32_mod)

unfoldable pub guard_bytes : GuardRec → List ℕ
guard_bytes g =
    bytes_u16 (guard_code g.kind)
    ++ bytes_u16 0
    ++ bytes_u32 g.anchor_tok
    ++ bytes_u32 g.span.line
    ++ bytes_u32 g.span.col
    ++ bytes_u32 g.span.len

unfoldable pub guards_bytes : List GuardRec → List ℕ
guards_bytes [] = []
guards_bytes (g ∷ gs) = guard_bytes g ++ guards_bytes gs

unfoldable pub caps_bytes : List CapKind → List ℕ
caps_bytes [] = []
caps_bytes (c ∷ cs) = bytes_u16 (cap_code c) ++ bytes_u16 0 ++ caps_bytes cs

-- What `emit_exec_meta` writes to the binary file.
unfoldable pub exec_meta_bytes : ℕ → ℕ → CiamCtx → List ℕ
exec_meta_bytes entry_offset code_size ctx =
    header_bytes entry_offset code_size ctx
    ++ guards_bytes ctx.guards
    ++ caps_bytes ctx.required_caps
