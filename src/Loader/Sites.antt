-- ===== src/Loader/Sites.antt =====
-- One round of the loop of `apply_relocs`: what it writes, and where.
use rane_processing_language.Base.{
  ℕ, ◌+◌, ◌-◌, ◌%◌, ◌≤◌, ◌<◌, ◌≡◌, refl, sym, ap, ◌∙◌, arith, Bool, true, false, List, some, ltb,
  leb, leb→le, ◌==◌, if◌then◌else◌, length,
}
use rane_processing_language.Base.Bytes.{u32_mod, u64_mod, bytes_u32, bytes_u64, read_u32, read_u64}
use rane_processing_language.Base.Memory.{
  slice, length-write_bytes, word_at, long_at, word_at-write_bytes, long_at-write_bytes,
  slice-write_bytes_before, slice-write_bytes_behind,
}
use rane_processing_language.Base.Result as Result
use rane_processing_language.Base.Result.{Result, ok, err, guard-eq-true}
use rane_processing_language.Cpu.{extend}
use rane_processing_language.Loader.{
  LoadFault, RelocRec, ExecMeta, reloc_oob, rel32_oob, rel32_out_of_range, abs64_oob,
}
use rane_processing_language.Loader.Lookup.{ResolveFn, sym_addr_of}
use rane_processing_language.Loader.Patch.{
  PatchStats, i64_of_i32, add_i64, sub_i64, fits_i32, patch_rel32, patch_abs64, patch_kind,
  apply_reloc,
}
use rane_processing_language.Loader.Patching.{Patching}

-- The bytes that a reloc of a kind covers.
abbrev pub width : RelocRec → ℕ
width r = if r.kind == 0 then 4 else 8

-- What a processor finds at a patched site: a call whose displacement, extended by its sign and
-- added to the address behind it, is the target; or the target as an immediate.
pub data Patched (text_base addr : ℕ) (r : RelocRec) (text : List ℕ) : Type 0 where
  call :
      (w : ℕ)
      → r.kind ≡ 0
      → word_at text r.at_code_off ≡ some w
      → (text_base + r.at_code_off + 4 + extend w) % u64_mod ≡ (addr + extend r.addend) % u64_mod
      → Patched text_base addr r text
  immediate :
      r.kind ≡ 1
      → long_at text r.at_code_off ≡ some ((addr + extend r.addend) % u64_mod)
      → Patched text_base addr r text

-- One step from `text` to `text'`.
pub record Writes (text_base addr : ℕ) (r : RelocRec) (text text' : List ℕ) : Type 0 where
  pub same_length : length text' ≡ length text
  pub inside : r.at_code_off + width r ≤ length text
  pub before : (q n : ℕ) → q + n ≤ r.at_code_off → slice text' q n ≡ slice text q n
  pub behind : (q n : ℕ) → r.at_code_off + width r ≤ q → slice text' q n ≡ slice text q n
  pub patched : Patched text_base addr r text'

if_ok : (b : Bool) (f : LoadFault) (s t : ℕ) → (if b then err f else ok s) ≡ ok t → s ≡ t
if_ok true f s t q = absurd (cc q)
if_ok false f s t q = cc q

add_i64-eq-ok : (a b s : ℕ) → add_i64 a b ≡ ok s → (a + b) % u64_mod ≡ s
unfolding add_i64
add_i64-eq-ok a b s q = if_ok _ _ _ s q

sub_i64-eq-ok : (a b d : ℕ) → sub_i64 a b ≡ ok d → (a + u64_mod - b) % u64_mod ≡ d
unfolding sub_i64
sub_i64-eq-ok a b d q = if_ok _ _ _ d q

extend_low : (rel : ℕ) → rel < u64_mod → fits_i32 rel ≡ true → extend (rel % u32_mod) ≡ rel
unfolding fits_i32 extend
extend_low rel lt f = ground arith

back_to_target :
    (rip target rel : ℕ)
    → target < u64_mod
    → (target + u64_mod - rip % u64_mod) % u64_mod ≡ rel
    → (rip + rel) % u64_mod ≡ target
back_to_target rip target rel lt q = omega arith

displacement :
    (base at addr addend target rel : ℕ)
    → add_i64 addr (i64_of_i32 addend) ≡ ok target
    → sub_i64 target ((base + at + 4) % u64_mod) ≡ ok rel
    → fits_i32 rel ≡ true
    → (base + at + 4 + extend (rel % u32_mod)) % u64_mod ≡ (addr + extend addend) % u64_mod
unfolding i64_of_i32 extend
displacement base at addr addend target rel p q f =
    let p' : (addr + i64_of_i32 addend) % u64_mod ≡ target = add_i64-eq-ok addr _ target p in
    let q' : (target + u64_mod - (base + at + 4) % u64_mod) % u64_mod ≡ rel =
      sub_i64-eq-ok target _ rel q in
    ap (λ (t : ℕ). (base + at + 4 + t) % u64_mod) (extend_low rel (omega arith) f)
    ∙ back_to_target (base + at + 4) target rel (omega arith) q'
    ∙ sym p'

-- What a run that began with `text` gives: a text of which `Q` holds, or an exception with the text
-- as it was.
pub data Atomic (text : List ℕ) (Q : List ℕ → Type 0)
    : List ℕ × Result LoadFault PatchStats → Type 0 where
  returns : {text' : List ℕ} {st : PatchStats} → Q text' → Atomic text Q (text', ok st)
  throws : {e : LoadFault} → Atomic text Q (text, err e)

module _ {text : List ℕ} {Q : List ℕ → Type 0} where
  Atomic-lift {ℓ} :
      {A : Type ℓ} (m : Result LoadFault A) (f : A → List ℕ × Result LoadFault PatchStats)
      → ((a : A) → m ≡ ok a → Atomic text Q (f a))
      → Atomic text Q (elim m [ err fault ↦ (text, err fault) | ok value ↦ f value ])
  Atomic-lift (ok a) f k = k a refl
  Atomic-lift (err e) f k = throws

  Atomic-if :
      (b : Bool) (x y : Patching PatchStats)
      → (b ≡ true → Atomic text Q (x text))
      → (b ≡ false → Atomic text Q (y text))
      → Atomic text Q ((if b then x else y) text)
  Atomic-if true x y h k = h refl
  Atomic-if false x y h k = k refl

  Atomic-map :
      {P : List ℕ → Type 0} {o : List ℕ × Result LoadFault PatchStats}
      → Atomic text P o
      → ((text' : List ℕ) → P text' → Q text')
      → Atomic text Q o
  Atomic-map (returns h) f = returns (f _ h)
  Atomic-map throws f = throws

module _ (text_base addr : ℕ) (r : RelocRec) (text : List ℕ) (st : PatchStats) where
  abbrev Step : List ℕ → Type 0
  Step text' = Writes text_base addr r text text'

  rel32_writes : r.kind ≡ 0 → Atomic text Step (patch_rel32 text_base addr r st text)
  unfolding patch_rel32 bytes_u32
  rel32_writes k =
      Atomic-lift (Result.guard (leb (r.at_code_off + 4) (length text)) rel32_oob) _ λ _ g.
        Atomic-lift (add_i64 addr (i64_of_i32 r.addend)) _ λ target p.
          Atomic-lift (sub_i64 target ((text_base + r.at_code_off + 4) % u64_mod)) _ λ rel q.
            Atomic-lift (Result.guard (fits_i32 rel) rel32_out_of_range) _ λ _ f.
              let room : r.at_code_off + 4 ≤ length text = leb→le _ _ (guard-eq-true _ _ g) in
              let four : width r ≡ 4 = ap (λ (t : ℕ). if t == 0 then 4 else 8) k in
              returns (record {
                same_length = length-write_bytes text r.at_code_off _;
                inside = omega arith;
                before = λ s n h. slice-write_bytes_before text r.at_code_off _ s n h;
                behind = λ s n h. slice-write_bytes_behind text r.at_code_off _ s n (omega arith);
                patched =
                    call (rel % u32_mod) k
                      (word_at-write_bytes text r.at_code_off (rel % u32_mod) room (omega arith))
                      (displacement text_base r.at_code_off addr r.addend target rel p q
                        (guard-eq-true _ _ f));
              })

  abs64_writes : r.kind ≡ 1 → Atomic text Step (patch_abs64 addr r st text)
  unfolding patch_abs64 bytes_u64 extend i64_of_i32
  abs64_writes k =
      Atomic-lift (Result.guard (leb (r.at_code_off + 8) (length text)) abs64_oob) _ λ _ g.
        let room : r.at_code_off + 8 ≤ length text = leb→le _ _ (guard-eq-true _ _ g) in
        let eight : width r ≡ 8 = ap (λ (t : ℕ). if t == 0 then 4 else 8) k in
        returns (record {
          same_length = length-write_bytes text r.at_code_off _;
          inside = omega arith;
          before = λ s n h. slice-write_bytes_before text r.at_code_off _ s n h;
          behind = λ s n h. slice-write_bytes_behind text r.at_code_off _ s n (omega arith);
          patched = immediate k (long_at-write_bytes text r.at_code_off _ room (omega arith));
        })

  kind_writes : Atomic text Step (patch_kind text_base addr r st text)
  unfolding patch_kind
  kind_writes =
      Atomic-if (r.kind == 0) _ _ (λ k. rel32_writes (ground (arith, k)))
        (λ _. Atomic-if (r.kind == 1) _ _ (λ k. abs64_writes (ground (arith, k))) (λ _. throws))

-- A round writes its own site and nothing else, or it throws and has written nothing.
pub apply_reloc-Atomic :
    (em : ExecMeta) (resolve : ResolveFn) (text_base : ℕ) (r : RelocRec) (st : PatchStats)
    (text : List ℕ)
    → Atomic text
        (λ text'.
          (addr : ℕ) × (sym_addr_of em resolve r ≡ ok addr) × Writes text_base addr r text text')
        (apply_reloc em resolve text_base r st text)
unfolding apply_reloc
apply_reloc-Atomic em resolve text_base r st text =
    Atomic-lift (Result.guard (ltb r.at_code_off (length text)) reloc_oob) _ λ _ _.
      Atomic-lift (sym_addr_of em resolve r) _
        λ addr q. Atomic-map (kind_writes text_base addr r text st) (λ text' w. (addr, q, w))

-- A site elsewhere is as before.
pub Patched-slice :
    (text_base addr : ℕ) (r : RelocRec) (text text' : List ℕ)
    → slice text' r.at_code_off (width r) ≡ slice text r.at_code_off (width r)
    → Patched text_base addr r text
    → Patched text_base addr r text'
Patched-slice text_base addr r text text' e (call w k word target) =
    call w k (ap read_u32 (rw k at e) ∙ word) target
Patched-slice text_base addr r text text' e (immediate k long) =
    immediate k (ap read_u64 (rw k at e) ∙ long)
