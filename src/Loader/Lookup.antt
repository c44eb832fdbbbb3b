-- ===== src/Loader/Lookup.antt =====
-- rane_loader_patcher_win.cpp, `apply_relocs`: the symbol of a reloc and its address.
use rane_processing_language.Base.{ℕ, not, List, none, some, ◌==◌}
use rane_processing_language.Base.Result.{Result, ok, err, ◌>>=◌, ◌>>◌, guard}
use rane_processing_language.Loader.{
  LoadFault, SymRec, RelocRec, ExecMeta, find_id, sym_name, unknown_symbol_id, zero_address,
}

-- `ResolveFn`: an address, or what it throws.
abbrev pub ResolveFn : Type 0
ResolveFn = SymRec → List ℕ → Result LoadFault ℕ

-- The symbol of a reloc, named and resolved.
unfoldable pub sym_addr_of : ExecMeta → ResolveFn → RelocRec → Result LoadFault ℕ
sym_addr_of em resolve r = elim (find_id r.symbol_id em.sym_by_id) [
  | none ↦ err unknown_symbol_id
  | some sym ↦ do
    name ← sym_name em sym
    sym_addr ← resolve sym name
    guard (not (sym_addr == 0)) zero_address
    ok sym_addr
]
