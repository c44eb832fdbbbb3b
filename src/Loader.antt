-- ===== src/Loader.antt =====
-- rane_loader_patcher_win.cpp: the tables of ExecMeta, and what stops the loader. A record is read
-- from the bytes where it lies, as the packed structs are.
pub mod Parse
pub mod Lookup
pub mod Patching
pub mod Patch
pub mod Resolver
pub mod Names
pub mod Sites
pub mod Apply
mod Tests
use rane_processing_language.Base.{
  ℕ, ◌+◌, ◌%◌, List, [], ◌∷◌, Option, none, some, zero, suc, drop, ltb, leb, ◌==◌, if◌then◌else◌,
  length,
}
use rane_processing_language.Base.Bytes.{u32_mod, read_u16, read_u32}
use rane_processing_language.Base.Result.{Result, ok, err, ◌>>=◌}

-- The exceptions by their messages, and undefined behaviour.
pub data LoadFault : Type 0 where
  oob_read oob_string unterminated_string : LoadFault
  bad_magic unsupported_endian unsupported_version bad_header_size bad_strtab bad_name_str_off :
      LoadFault
  reloc_oob unknown_symbol_id zero_address rel32_oob rel32_out_of_range abs64_oob unsupported_kind :
      LoadFault
  proc_out_of_text undefined : LoadFault

pub record Header : Type 0 where
  pub magic : ℕ
  pub version : ℕ
  pub endian : ℕ
  pub header_size : ℕ
  pub proc_count : ℕ
  pub sym_count : ℕ
  pub reloc_count : ℕ
  pub str_bytes : ℕ
  pub procs_off : ℕ
  pub syms_off : ℕ
  pub relocs_off : ℕ
  pub str_off : ℕ

pub record ProcRec : Type 0 where
  pub proc_symbol_id : ℕ
  pub name_str_off : ℕ
  pub code_off : ℕ
  pub code_size : ℕ
  pub caps_word_off : ℕ
  pub caps_word_count : ℕ
  pub frame_size : ℕ
  pub reserved : ℕ

pub record SymRec : Type 0 where
  pub symbol_id : ℕ
  pub name_str_off : ℕ
  pub kind : ℕ
  pub aux0 : ℕ
  pub aux1 : ℕ

pub record RelocRec : Type 0 where
  pub at_code_off : ℕ
  pub symbol_id : ℕ
  pub kind : ℕ
  pub addend : ℕ

-- `strtab_base` is the memory of the blob from the start of the string table on.
pub record ExecMeta : Type 0 where
  pub hdr : Header
  pub procs : List ProcRec
  pub syms : List SymRec
  pub relocs : List RelocRec
  pub strtab_base : List ℕ
  pub strtab_size : ℕ
  pub sym_by_id : List (ℕ × SymRec)

-- A map by number: `find`, and `emplace`, which keeps what is there.
unfoldable pub find_id {ℓ} : {A : Type ℓ} → ℕ → List (ℕ × A) → Option A
find_id id [] = none
find_id id ((k, a) ∷ rest) = if k == id then some a else find_id id rest

unfoldable pub emplace_id {ℓ} : {A : Type ℓ} → ℕ → A → List (ℕ × A) → List (ℕ × A)
emplace_id id a m = elim (find_id id m) [ none ↦ (id, a) ∷ m | some _ ↦ m ]

-- The bytes in front of the first zero byte, if there is one.
unfoldable pub until_nul : List ℕ → Option (List ℕ)
until_nul [] = none
until_nul (zero ∷ bs) = some []
until_nul (suc b ∷ bs) = elim (until_nul bs) [ none ↦ none | some s ↦ some (suc b ∷ s) ]

-- `strlen` from a place in the string table. It runs on behind the table; behind the blob that is
-- undefined.
unfoldable pub sym_name : ExecMeta → SymRec → Result LoadFault (List ℕ)
sym_name em s = elim (until_nul (drop s.name_str_off em.strtab_base)) [
  | none ↦ err undefined
  | some name ↦ ok name
]
