-- ===== src/Loader/Names.antt =====
-- `parse_execmeta`: the names of the symbols that it accepts.
use rane_processing_language.Base.{
  ℕ, zero, suc, ◌+◌, ◌*◌, ◌%◌, ◌≤◌, ◌<◌, ◌≡◌, refl, sym, ap, ◌∙◌, arith, List, [], ◌∷◌, some, drop,
  ltb, leb, ltb→lt, ◌==◌, length, All, Option-cases, Bool-cases, inl, inr,
}
use mathlib.Core.Path.{subst}
use mathlib.Core.Option.{some-injective}
use rane_processing_language.Base.Bytes.{u32_mod}
use rane_processing_language.Base.Result.{
  ok, guard, guard-eq-true, Ensures, succeeds, Ensures-from, Ensures-bind, Ensures-ok,
}
use rane_processing_language.Loader.{
  Header, SymRec, ExecMeta, find_id, emplace_id, until_nul, sym_name,
}
use rane_processing_language.Loader.Parse.{
  View, header_at, bytes_at, cstr_at, copy_table, read_proc, read_sym, read_reloc, index_syms,
  parse_execmeta,
}

abbrev no_bytes : List ℕ
no_bytes = []

drop-nil : (n : ℕ) → drop n no_bytes ≡ []
drop-nil zero = refl
drop-nil (suc n) = refl

drop-drop : (a b n : ℕ) (v : List ℕ) → n ≡ b + a → drop a (drop b v) ≡ drop n v
drop-drop a zero n v q = let q' : a ≡ n = omega arith in ap (λ (t : ℕ). drop t v) q'
drop-drop a (suc b) zero v q = absurd (omega arith)
drop-drop a (suc b) (suc n) [] q = drop-nil a
drop-drop a (suc b) (suc n) (x ∷ v) q = drop-drop a b n v (omega arith)

bytes_at-eq-ok :
    (v : View) (off len : ℕ) (p : List ℕ)
    → bytes_at v off len ≡ ok p
    → (drop off v ≡ p) × (off + len ≤ length v)
unfolding bytes_at
bytes_at-eq-ok v off len p h = elim (Bool-cases (ltb (length v) (off + len))) [
  | inl b ↦ absurd (cc (rw (b, bytes_at) at h))
  | inr b ↦ (cc (rw (b, bytes_at) at h), ground arith)
]

cstr_at-eq-ok :
    (v : View) (off : ℕ) (s : List ℕ) → cstr_at v off ≡ ok s → until_nul (drop off v) ≡ some s
unfolding cstr_at
cstr_at-eq-ok v off s h = elim (Bool-cases (leb (length v) off)) [
  | inl b ↦ absurd (cc (rw (b, cstr_at) at h))
  | inr b ↦ elim (Option-cases (until_nul (drop off v))) [
    | inl none_eq ↦ absurd (cc (rw (b, none_eq, cstr_at) at h))
    | inr (t, some_eq) ↦ some_eq ∙ ap (λ (x : List ℕ). some x) (cc (rw (b, some_eq, cstr_at) at h))
  ]
]

-- A symbol under its own number, whose name ends inside the blob.
abbrev Named : View → Header → ℕ × SymRec → Type 0
Named v hdr (k, s) =
    (s.symbol_id ≡ k)
    × ((name : List ℕ) × (until_nul (drop s.name_str_off (drop hdr.str_off v)) ≡ some name))

emplace_id-Named :
    (v : View) (hdr : Header) (s : SymRec) (by_id : List (ℕ × SymRec))
    → Named v hdr (s.symbol_id, s)
    → All (Named v hdr) by_id
    → All (Named v hdr) (emplace_id s.symbol_id s by_id)
unfolding emplace_id
emplace_id-Named v hdr s by_id n all = elim (Option-cases (find_id s.symbol_id by_id)) [
  | inl q ↦ rw (q, emplace_id) (n, all)
  | inr (_, q) ↦ rw (q, emplace_id) all
]

index_syms-Named :
    (v : View) (hdr : Header) (ss : List SymRec) (by_id : List (ℕ × SymRec))
    → hdr.str_off + hdr.str_bytes ≤ u32_mod
    → All (Named v hdr) by_id
    → Ensures (All (Named v hdr)) (index_syms v hdr by_id ss)
unfolding index_syms
index_syms-Named v hdr [] by_id le all = succeeds all
index_syms-Named v hdr (s ∷ ss) by_id le all =
    Ensures-from (guard (ltb s.name_str_off hdr.str_bytes) _) _ λ _ g.
      Ensures-from (cstr_at v ((hdr.str_off + s.name_str_off) % u32_mod)) _ λ name c.
        let lt : s.name_str_off < hdr.str_bytes = ltb→lt _ _ (guard-eq-true _ _ g) in
        let exact : (hdr.str_off + s.name_str_off) % u32_mod ≡ hdr.str_off + s.name_str_off =
          omega arith in
        let named : Named v hdr (s.symbol_id, s) = (
          refl,
          (
            name,
            ap until_nul (drop-drop s.name_str_off hdr.str_off _ v exact)
                ∙ cstr_at-eq-ok v _ name c,
          ),
        ) in
        index_syms-Named v hdr ss (emplace_id s.symbol_id s by_id) le
          (emplace_id-Named v hdr s by_id named all)

find_id-Named :
    (v : View) (hdr : Header) (id : ℕ) (s : SymRec) (by_id : List (ℕ × SymRec))
    → All (Named v hdr) by_id
    → find_id id by_id ≡ some s
    → Named v hdr (id, s)
unfolding find_id
find_id-Named v hdr id s [] all q = absurd (cc q)
find_id-Named v hdr id s ((k, t) ∷ rest) (n, all) q = elim (Bool-cases (k == id)) [
  | inl b ↦
      let key : k ≡ id = ground arith in
      let same : t ≡ s = some-injective t s (rw (b, find_id) at q) in
      subst (λ (x : ℕ × SymRec). Named v hdr x) (λ i. (key i, same i)) n
  | inr b ↦ find_id-Named v hdr id s rest all (rw (b, find_id) at q)
]

abbrev Accepted : View → ExecMeta → Type 0
Accepted v em = All (Named v em.hdr) em.sym_by_id × (em.strtab_base ≡ drop em.hdr.str_off v)

parse_accepts : (v : View) → length v ≤ u32_mod → Ensures (Accepted v) (parse_execmeta v)
unfolding parse_execmeta
parse_accepts v le = Ensures-from (header_at v 0) _ λ hdr _.
    Ensures-from (guard (hdr.magic == 0x314D4552) _) _ λ _ _.
      Ensures-from (guard (hdr.endian == 1) _) _ λ _ _.
        Ensures-from (guard (hdr.version == 1) _) _ λ _ _.
          Ensures-from (guard (leb 44 hdr.header_size) _) _ λ _ _.
            Ensures-from (guard (leb ((hdr.str_off + hdr.str_bytes) % u32_mod) (length v)) _) _
              λ _ _. Ensures-from (bytes_at v hdr.procs_off (hdr.proc_count * 32)) _ λ p _.
                Ensures-from (copy_table read_proc 32 hdr.proc_count p) _ λ procs _.
                  Ensures-from (bytes_at v hdr.syms_off (hdr.sym_count * 20)) _ λ q _.
                    Ensures-from (copy_table read_sym 20 hdr.sym_count q) _ λ syms _.
                      Ensures-from (bytes_at v hdr.relocs_off (hdr.reloc_count * 16)) _ λ r _.
                        Ensures-from (copy_table read_reloc 16 hdr.reloc_count r) _ λ relocs _.
                          Ensures-from (bytes_at v hdr.str_off hdr.str_bytes) _ λ strtab t.
                            let (base, room) =
                              bytes_at-eq-ok v hdr.str_off hdr.str_bytes strtab t in
                            Ensures-bind _ (index_syms-Named v hdr syms [] (omega arith) tt)
                              λ by_id all. succeeds (all, sym base)

-- In what `parse_execmeta` accepts from a blob of at most 4 GiB, every symbol that the index finds
-- for a number has that number, and reading its name ends inside the blob: `sym_name`, which has no
-- check of its own, gives a name.
pub parse_execmeta-names :
    (v : View) (em : ExecMeta) (id : ℕ) (s : SymRec)
    → length v ≤ u32_mod
    → parse_execmeta v ≡ ok em
    → find_id id em.sym_by_id ≡ some s
    → (s.symbol_id ≡ id) × ((name : List ℕ) × (sym_name em s ≡ ok name))
unfolding sym_name
parse_execmeta-names v em id s le run found =
    let (all, base) = Ensures-ok {P = Accepted v} (parse_accepts v le) run in
    let (key, (name, q)) = find_id-Named v em.hdr id s em.sym_by_id all found in
    let q' : until_nul (drop s.name_str_off em.strtab_base) ≡ some name =
      ap (λ (t : List ℕ). until_nul (drop s.name_str_off t)) base ∙ q in
    (key, (name, rw (q', sym_name) refl))
