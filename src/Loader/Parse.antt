-- ===== src/Loader/Parse.antt =====
-- rane_loader_patcher_win.cpp, `View` and `parse_execmeta`.
use rane_processing_language.Base.{
  ℕ, zero, suc, ◌+◌, ◌*◌, ◌%◌, List, [], ◌∷◌, none, some, drop, ltb, leb, ◌==◌, if◌then◌else◌,
  length,
}
use rane_processing_language.Base.Bytes.{u32_mod, read_u16, read_u32}
use rane_processing_language.Base.Result.{Result, ok, err, ◌>>=◌, ◌>>◌, guard}
use rane_processing_language.Loader.{
  LoadFault, Header, ProcRec, SymRec, RelocRec, ExecMeta, emplace_id, until_nul, oob_read,
  oob_string, unterminated_string, bad_magic, unsupported_endian, unsupported_version,
  bad_header_size, bad_strtab, bad_name_str_off, undefined,
}

-- The bytes that a view is over; their number is its `n`.
abbrev pub View : Type 0
View = List ℕ

-- One field of a packed struct, at its offset from the struct's start.
unfoldable pub u32_field : View → ℕ → Result LoadFault ℕ
u32_field p off = elim (read_u32 (drop off p)) [ none ↦ err undefined | some w ↦ ok w ]

unfoldable pub u16_field : View → ℕ → Result LoadFault ℕ
u16_field p off = elim (read_u16 (drop off p)) [ none ↦ err undefined | some w ↦ ok w ]

unfoldable pub first_byte : View → Result LoadFault ℕ
first_byte [] = err undefined
first_byte (b ∷ bs) = ok b

abbrev pub u8_field : View → ℕ → Result LoadFault ℕ
u8_field p off = first_byte (drop off p)

unfoldable pub read_header : View → Result LoadFault Header
read_header p = do
  magic ← u32_field p 0
  version ← u16_field p 4
  endian ← u16_field p 6
  header_size ← u32_field p 8
  proc_count ← u32_field p 12
  sym_count ← u32_field p 16
  reloc_count ← u32_field p 20
  str_bytes ← u32_field p 24
  procs_off ← u32_field p 28
  syms_off ← u32_field p 32
  relocs_off ← u32_field p 36
  str_off ← u32_field p 40
  ok (record {
    magic = magic;
    version = version;
    endian = endian;
    header_size = header_size;
    proc_count = proc_count;
    sym_count = sym_count;
    reloc_count = reloc_count;
    str_bytes = str_bytes;
    procs_off = procs_off;
    syms_off = syms_off;
    relocs_off = relocs_off;
    str_off = str_off;
  })

unfoldable pub read_proc : View → Result LoadFault ProcRec
read_proc p = do
  proc_symbol_id ← u32_field p 0
  name_str_off ← u32_field p 4
  code_off ← u32_field p 8
  code_size ← u32_field p 12
  caps_word_off ← u32_field p 16
  caps_word_count ← u32_field p 20
  frame_size ← u32_field p 24
  reserved ← u32_field p 28
  ok (record {
    proc_symbol_id = proc_symbol_id;
    name_str_off = name_str_off;
    code_off = code_off;
    code_size = code_size;
    caps_word_off = caps_word_off;
    caps_word_count = caps_word_count;
    frame_size = frame_size;
    reserved = reserved;
  })

unfoldable pub read_sym : View → Result LoadFault SymRec
read_sym p = do
  symbol_id ← u32_field p 0
  name_str_off ← u32_field p 4
  kind ← u8_field p 8
  aux0 ← u32_field p 12
  aux1 ← u32_field p 16
  ok (record {
    symbol_id = symbol_id;
    name_str_off = name_str_off;
    kind = kind;
    aux0 = aux0;
    aux1 = aux1;
  })

unfoldable pub read_reloc : View → Result LoadFault RelocRec
read_reloc p = do
  at_code_off ← u32_field p 0
  symbol_id ← u32_field p 4
  kind ← u8_field p 8
  addend ← u32_field p 12
  ok (record { at_code_off = at_code_off; symbol_id = symbol_id; kind = kind; addend = addend })

-- `View::at<Header>`
unfoldable pub header_at : View → ℕ → Result LoadFault Header
header_at v off = if ltb (length v) (off + 44) then err oob_read else read_header (drop off v)

unfoldable pub bytes_at : View → ℕ → ℕ → Result LoadFault (List ℕ)
bytes_at v off len = if ltb (length v) (off + len) then err oob_read else ok (drop off v)

unfoldable pub cstr_at : View → ℕ → Result LoadFault (List ℕ)
cstr_at v off =
    if leb (length v) off
    then err oob_string
    else elim (until_nul (drop off v)) [ none ↦ err unterminated_string | some s ↦ ok s ]

-- `resize` and `memcpy`: `count` structs of `stride` bytes.
unfoldable pub copy_table {ℓ} :
    {A : Type ℓ} → (View → Result LoadFault A) → ℕ → ℕ → View → Result LoadFault (List A)
copy_table read stride zero p = ok []
copy_table read stride (suc count) p = do
  a ← read p
  rest ← copy_table read stride count (drop stride p)
  ok (a ∷ rest)

unfoldable pub index_syms :
    View → Header → List (ℕ × SymRec) → List SymRec → Result LoadFault (List (ℕ × SymRec))
index_syms v hdr by_id [] = ok by_id
index_syms v hdr by_id (s ∷ ss) = do
  guard (ltb s.name_str_off hdr.str_bytes) bad_name_str_off
  _ ← cstr_at v ((hdr.str_off + s.name_str_off) % u32_mod)
  index_syms v hdr (emplace_id s.symbol_id s by_id) ss

unfoldable pub parse_execmeta : View → Result LoadFault ExecMeta
parse_execmeta v = do
  hdr ← header_at v 0
  guard (hdr.magic == 0x314D4552) bad_magic
  guard (hdr.endian == 1) unsupported_endian
  guard (hdr.version == 1) unsupported_version
  guard (leb 44 hdr.header_size) bad_header_size
  guard (leb ((hdr.str_off + hdr.str_bytes) % u32_mod) (length v)) bad_strtab
  p ← bytes_at v hdr.procs_off (hdr.proc_count * 32)
  procs ← copy_table read_proc 32 hdr.proc_count p
  q ← bytes_at v hdr.syms_off (hdr.sym_count * 20)
  syms ← copy_table read_sym 20 hdr.sym_count q
  r ← bytes_at v hdr.relocs_off (hdr.reloc_count * 16)
  relocs ← copy_table read_reloc 16 hdr.reloc_count r
  strtab ← bytes_at v hdr.str_off hdr.str_bytes
  by_id ← index_syms v hdr [] syms
  ok (record {
    hdr = hdr;
    procs = procs;
    syms = syms;
    relocs = relocs;
    strtab_base = strtab;
    strtab_size = hdr.str_bytes;
    sym_by_id = by_id;
  })
