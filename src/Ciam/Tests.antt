-- ===== src/Ciam/Tests.antt =====
-- Two capabilities and a guard through the context and the exec meta.
use rane_processing_language.Base.{◌+◌, ◌≡◌, refl, arith, List, [], ◌∷◌, some, length}
use rane_processing_language.Ciam.{
  CapKind, GuardRec, CiamCtx, has_cap, ciam_require_cap, ciam_emit_guard, exec_meta_bytes,
  header_bytes, guards_bytes, guard_bytes, caps_bytes, bytes_u16,
}
use rane_processing_language.Ciam as C
use rane_processing_language.Ciam.Caps.{
  Call, require_cap, emit_guard, all_called, asks_for, guards_of, Distinct, no_calls,
  all_called-context,
}
use rane_processing_language.Ciam.Meta.{read_meta, read_meta-bytes}
use rane_processing_language.Base.Bytes.{bytes_u32}

abbrev guard : GuardRec
guard = record { kind = C.bounds; anchor_tok = 7; span = record { line = 2; col = 3; len = 4 } }

abbrev calls : List Call
calls = require_cap C.threads ∷ emit_guard guard ∷ require_cap C.crypto ∷ require_cap C.threads ∷ []

all_called-context_example :
    Distinct (all_called calls no_calls).required_caps
    × ((cap : CapKind) → has_cap cap (all_called calls no_calls).required_caps ≡ asks_for cap calls)
    × ((all_called calls no_calls).guards ≡ guards_of calls)
all_called-context_example = all_called-context calls

abbrev context : CiamCtx
context = record { required_caps = C.threads ∷ C.crypto ∷ []; guards = guard ∷ [] }

called_context : all_called calls no_calls ≡ context
unfolding ciam_require_cap ciam_emit_guard has_cap
called_context = refl

read_meta-bytes_example : read_meta (exec_meta_bytes 0 100 context) ≡ some ((0, 100, context), [])
read_meta-bytes_example =
    read_meta-bytes 0 100 context (omega arith) (omega arith) (omega arith) (omega arith)
      ((omega arith, omega arith, omega arith, omega arith), tt)

size_of_meta : length (exec_meta_bytes 0 100 context) ≡ 24 + 20 + 8
unfolding exec_meta_bytes header_bytes guards_bytes guard_bytes caps_bytes bytes_u16 bytes_u32
size_of_meta = refl
