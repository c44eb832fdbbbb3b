-- ===== src/Loader/Patch.antt =====
-- rane_loader_patcher_win.cpp, `apply_relocs`. The text is a list of bytes that lies at the address
-- `text_base`; numbers of 64 bits are kept as patterns, and signed overflow is undefined.
use rane_processing_language.Base.{
  ℕ, ◌+◌, ◌-◌, ◌%◌, ◌^◌, Bool, not, ◌&&◌, ◌||◌, List, [], ◌∷◌, ltb, leb, ◌==◌, if◌then◌else◌,
}
use rane_processing_language.Base.Bytes.{u32_mod, u64_mod, bytes_u32, bytes_u64}
use rane_processing_language.Base.Result.{Result, ok, err}
use rane_processing_language.Loader.{
  LoadFault, RelocRec, ExecMeta, reloc_oob, rel32_oob, rel32_out_of_range, abs64_oob,
  unsupported_kind, undefined,
}
use rane_processing_language.Loader.Lookup.{ResolveFn, sym_addr_of}
use rane_processing_language.Loader.Patching.{
  Patching, pure, ◌>>=◌, ◌>>◌, lift, guard, text_size, write,
}

pub record PatchStats : Type 0 where
  pub rel32_calls : ℕ
  pub abs64_imms : ℕ

-- `(i64_t)addend` as a pattern, from the pattern of an `i32`.
unfoldable pub i64_of_i32 : ℕ → ℕ
i64_of_i32 a = if ltb a (2 ^ 31) then a else a + (u64_mod - u32_mod)

unfoldable pub is_negative : ℕ → Bool
is_negative a = leb (2 ^ 63) a

unfoldable pub add_i64 : ℕ → ℕ → Result LoadFault ℕ
add_i64 a b =
    let s = (a + b) % u64_mod in
    if (if is_negative a
      then is_negative b && not (is_negative s)
      else not (is_negative b) && is_negative s)
    then err undefined
    else ok s

unfoldable pub sub_i64 : ℕ → ℕ → Result LoadFault ℕ
sub_i64 a b =
    let d = (a + u64_mod - b) % u64_mod in
    if (if is_negative a
      then not (is_negative b) && not (is_negative d)
      else is_negative b && is_negative d)
    then err undefined
    else ok d

unfoldable pub fits_i32 : ℕ → Bool
fits_i32 a = ltb a (2 ^ 31) || leb (u64_mod - 2 ^ 31) a

unfoldable pub patch_rel32 : ℕ → ℕ → RelocRec → PatchStats → Patching PatchStats
patch_rel32 text_base sym_addr r st = do
  size ← text_size
  guard (leb (r.at_code_off + 4) size) rel32_oob
  target ← lift (add_i64 sym_addr (i64_of_i32 r.addend))
  rel64 ← lift (sub_i64 target ((text_base + r.at_code_off + 4) % u64_mod))
  guard (fits_i32 rel64) rel32_out_of_range
  write r.at_code_off (bytes_u32 (rel64 % u32_mod))
  pure (record st { rel32_calls = (st.rel32_calls + 1) % u32_mod })

unfoldable pub patch_abs64 : ℕ → RelocRec → PatchStats → Patching PatchStats
patch_abs64 sym_addr r st = do
  size ← text_size
  guard (leb (r.at_code_off + 8) size) abs64_oob
  write r.at_code_off (bytes_u64 ((sym_addr + i64_of_i32 r.addend) % u64_mod))
  pure (record st { abs64_imms = (st.abs64_imms + 1) % u32_mod })

unfoldable pub patch_kind : ℕ → ℕ → RelocRec → PatchStats → Patching PatchStats
patch_kind text_base sym_addr r st =
    if r.kind == 0
    then patch_rel32 text_base sym_addr r st
    else if r.kind == 1
    then patch_abs64 sym_addr r st
    else lift (err unsupported_kind)

-- One round of the loop.
unfoldable pub apply_reloc : ExecMeta → ResolveFn → ℕ → RelocRec → PatchStats → Patching PatchStats
apply_reloc em resolve text_base r st = do
  size ← text_size
  guard (ltb r.at_code_off size) reloc_oob
  sym_addr ← lift (sym_addr_of em resolve r)
  patch_kind text_base sym_addr r st

-- The loop.
unfoldable pub apply_each :
    ExecMeta → ResolveFn → ℕ → List RelocRec → PatchStats → Patching PatchStats
apply_each em resolve text_base [] st = pure st
apply_each em resolve text_base (r ∷ rs) st = do
  st' ← apply_reloc em resolve text_base r st
  apply_each em resolve text_base rs st'

unfoldable pub apply_relocs : ExecMeta → ResolveFn → ℕ → Patching PatchStats
apply_relocs em resolve text_base =
    apply_each em resolve text_base em.relocs (record { rel32_calls = 0; abs64_imms = 0 })
