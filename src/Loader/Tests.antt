-- ===== src/Loader/Tests.antt =====
-- A small blob and a small text run through the loader, and the theorems applied to them.
use rane_processing_language.Base.{
  ℕ, ◌≡◌, inl, inr, refl, arith, List, [], ◌∷◌, some, length, replicate,
}
use rane_processing_language.Base.Bytes.{read_u16, read_u32, bytes_u32, bytes_u64}
use rane_processing_language.Base.Memory.{slice, write_bytes}
use rane_processing_language.Base.Result.{Result, ok, err}
use rane_processing_language.Loader.{
  LoadFault, Header, SymRec, RelocRec, ExecMeta, find_id, emplace_id, until_nul, sym_name,
  unsupported_kind,
}
use rane_processing_language.Loader.Parse.{
  View, u32_field, u16_field, first_byte, read_header, read_sym, header_at, bytes_at, cstr_at,
  copy_table, index_syms, parse_execmeta,
}
use rane_processing_language.Loader.Lookup.{ResolveFn, sym_addr_of}
use rane_processing_language.Loader.Patch.{
  PatchStats, i64_of_i32, is_negative, add_i64, sub_i64, fits_i32, patch_rel32, patch_abs64,
  patch_kind, apply_reloc, apply_each, apply_relocs,
}
use rane_processing_language.Loader.Sites.{Patched}
use rane_processing_language.Loader.Apply.{
  Untouched, StoppedAt, apply_relocs-Patched, apply_relocs-Untouched, apply_relocs-StoppedAt,
}
use rane_processing_language.Loader.Names.{parse_execmeta-names}

-- A symbol 3, whose name is "f"; a call at 1 and an immediate at 5.
abbrev f_sym : SymRec
f_sym = record { symbol_id = 3; name_str_off = 0; kind = 2; aux0 = 0; aux1 = 0 }

abbrev call_reloc : RelocRec
call_reloc = record { at_code_off = 1; symbol_id = 3; kind = 0; addend = 0 }

abbrev immediate_reloc : RelocRec
immediate_reloc = record { at_code_off = 5; symbol_id = 3; kind = 1; addend = 8 }

abbrev bad_reloc : RelocRec
bad_reloc = record { at_code_off = 0; symbol_id = 3; kind = 2; addend = 0 }

abbrev small_header : Header
small_header = record {
  magic = 0x314D4552;
  version = 1;
  endian = 1;
  header_size = 44;
  proc_count = 0;
  sym_count = 1;
  reloc_count = 2;
  str_bytes = 2;
  procs_off = 44;
  syms_off = 44;
  relocs_off = 64;
  str_off = 64;
}

abbrev small_meta : List RelocRec → ExecMeta
small_meta rs = record {
  hdr = small_header;
  procs = [];
  syms = f_sym ∷ [];
  relocs = rs;
  strtab_base = 102 ∷ 0 ∷ [];
  strtab_size = 2;
  sym_by_id = (3, f_sym) ∷ [];
}

abbrev two_relocs : ExecMeta
two_relocs = small_meta (call_reloc ∷ immediate_reloc ∷ [])

abbrev at_4096 : ResolveFn
at_4096 s name = ok 4096

abbrev blank_text : List ℕ
blank_text = replicate 16 144

abbrev outcome : ExecMeta → List ℕ
outcome em = (apply_relocs em at_4096 8192 blank_text).0

abbrev two_stats : PatchStats
two_stats = record { rel32_calls = 1; abs64_imms = 1 }

two_run : apply_relocs two_relocs at_4096 8192 blank_text ≡ (outcome two_relocs, ok two_stats)
unfolding apply_relocs apply_each apply_reloc sym_addr_of find_id sym_name until_nul patch_kind
    patch_rel32 patch_abs64 add_i64 sub_i64 is_negative i64_of_i32 fits_i32 write_bytes bytes_u32
    bytes_u64
two_run = refl

-- The call, behind which the immediate's site is apart.
apply_relocs-Patched_example :
    (addr : ℕ) × (sym_addr_of two_relocs at_4096 call_reloc ≡ ok addr)
    × Patched 8192 addr call_reloc (outcome two_relocs)
apply_relocs-Patched_example =
    apply_relocs-Patched two_relocs at_4096 8192 blank_text (outcome two_relocs) two_stats []
      call_reloc (immediate_reloc ∷ []) two_run refl (inl (omega arith), tt)

-- A reloc of the kind that the loader does not support, behind one that it does.
abbrev bad_relocs : ExecMeta
bad_relocs = small_meta (call_reloc ∷ bad_reloc ∷ [])

bad_run :
    apply_relocs bad_relocs at_4096 8192 blank_text ≡ (outcome bad_relocs, err unsupported_kind)
unfolding apply_relocs apply_each apply_reloc sym_addr_of find_id sym_name until_nul patch_kind
    patch_rel32 patch_abs64 add_i64 sub_i64 is_negative i64_of_i32 fits_i32 write_bytes bytes_u32
    bytes_u64
bad_run = refl

apply_relocs-StoppedAt_example :
    (length (outcome bad_relocs) ≡ 16)
    × StoppedAt bad_relocs at_4096 8192 bad_relocs.relocs
        (record { rel32_calls = 0; abs64_imms = 0 })
        blank_text
        (outcome bad_relocs)
        unsupported_kind
apply_relocs-StoppedAt_example =
    apply_relocs-StoppedAt bad_relocs at_4096 8192 blank_text (outcome bad_relocs) unsupported_kind
      bad_run

last-Untouched : Untouched 13 3 bad_relocs.relocs
last-Untouched = (inr (omega arith), (inr (omega arith), tt))

apply_relocs-Untouched_example : slice (outcome bad_relocs) 13 3 ≡ slice blank_text 13 3
apply_relocs-Untouched_example =
    apply_relocs-Untouched bad_relocs at_4096 8192 blank_text 13 3 last-Untouched

-- A blob with that one symbol.
abbrev small_blob : View
small_blob =
    0x52 ∷ 0x45 ∷ 0x4D ∷ 0x31 ∷ 1 ∷ 0 ∷ 1 ∷ 0 ∷ 44 ∷ 0 ∷ 0 ∷ 0 ∷ 0 ∷ 0 ∷ 0 ∷ 0 ∷ 1 ∷ 0 ∷ 0 ∷ 0 ∷ 0
    ∷ 0 ∷ 0 ∷ 0 ∷ 2 ∷ 0 ∷ 0 ∷ 0 ∷ 44 ∷ 0 ∷ 0 ∷ 0 ∷ 44 ∷ 0 ∷ 0 ∷ 0 ∷ 64 ∷ 0 ∷ 0 ∷ 0 ∷ 64 ∷ 0 ∷ 0 ∷ 0
    ∷ 3 ∷ 0 ∷ 0 ∷ 0 ∷ 0 ∷ 0 ∷ 0 ∷ 0 ∷ 2 ∷ 0 ∷ 0 ∷ 0 ∷ 0 ∷ 0 ∷ 0 ∷ 0 ∷ 0 ∷ 0 ∷ 0 ∷ 0 ∷ 102 ∷ 0 ∷ []

abbrev parsed : Result LoadFault ExecMeta → ExecMeta
parsed (ok em) = em
parsed (err e) = two_relocs

abbrev small_parsed : ExecMeta
small_parsed = parsed (parse_execmeta small_blob)

small_facts :
    (parse_execmeta small_blob ≡ ok small_parsed) × (find_id 3 small_parsed.sym_by_id ≡ some f_sym)
unfolding parse_execmeta header_at read_header u32_field u16_field first_byte read_u32 read_u16
    bytes_at copy_table read_sym index_syms cstr_at until_nul emplace_id find_id
small_facts = (refl, refl)

parse_execmeta-names_example :
    (f_sym.symbol_id ≡ 3) × ((name : List ℕ) × (sym_name small_parsed f_sym ≡ ok name))
parse_execmeta-names_example =
    parse_execmeta-names small_blob small_parsed 3 f_sym (omega arith) small_facts.0 small_facts.1
