-- ===== src/Loader/Resolver.antt =====
-- rane_loader_patcher_win.cpp, namespace `loader_demo`: the module context and the resolver.
use rane_processing_language.Base.{
  ℕ, ◌+◌, ◌%◌, Bool, true, false, ◌&&◌, List, [], ◌∷◌, none, some, ltb, ◌==◌, if◌then◌else◌,
}
use rane_processing_language.Base.Bytes.{u64_mod}
use rane_processing_language.Base.Result.{Result, ok, err}
use rane_processing_language.Loader.{
  LoadFault, ProcRec, SymRec, ExecMeta, find_id, emplace_id, proc_out_of_text,
}
use rane_processing_language.Loader.Lookup.{ResolveFn}

pub record ModuleContext : Type 0 where
  pub text_base : ℕ
  pub text_size : ℕ
  pub proc_by_symbol : List (ℕ × ProcRec)
  pub imports : List (List ℕ × ℕ)
  pub globals : List (List ℕ × ℕ)

unfoldable pub same_bytes : List ℕ → List ℕ → Bool
same_bytes [] [] = true
same_bytes (a ∷ as') (b ∷ bs) = a == b && same_bytes as' bs
same_bytes _ _ = false

-- The address of a name, or 0.
unfoldable pub find_name : List ℕ → List (List ℕ × ℕ) → ℕ
find_name name [] = 0
find_name name ((k, addr) ∷ rest) = if same_bytes k name then addr else find_name name rest

unfoldable pub index_from : List ProcRec → List (ℕ × ProcRec) → List (ℕ × ProcRec)
index_from [] m = m
index_from (p ∷ ps) m = index_from ps (emplace_id p.proc_symbol_id p m)

unfoldable pub index_procs : ModuleContext → ExecMeta → ModuleContext
index_procs m em = record m { proc_by_symbol = index_from em.procs m.proc_by_symbol }

unfoldable pub resolve_proc : ModuleContext → SymRec → List ℕ → Result LoadFault ℕ
resolve_proc m s name = elim (find_id s.symbol_id m.proc_by_symbol) [
  | none ↦ ok (find_name name m.imports)
  | some pr ↦
      if ltb m.text_size (pr.code_off + pr.code_size)
      then err proc_out_of_text
      else ok ((m.text_base + pr.code_off) % u64_mod)
]

unfoldable pub make_resolver : ModuleContext → ResolveFn
make_resolver m s name =
    if s.kind == 0
    then resolve_proc m s name
    else if s.kind == 2
    then ok (find_name name m.imports)
    else if s.kind == 1
    then ok (find_name name m.globals)
    else ok 0
