-- ===== src/Emitter/Growth.antt =====
-- What every part of the emitter leaves alone: it appends to the code and to the patches, and each
-- new patch lies in the new code, behind the patch before it.
use rane_processing_language.Base.{
  ℕ, ◌+◌, ◌≤◌, ◌<◌, ◌≡◌, refl, sym, ap, ◌∙◌, arith, List, [], ◌∷◌, ◌++◌, append_assoc, append-nil,
  length, length-append, ltb,
}
use rane_processing_language.Base.Bytes.{u32_mod, bytes_u32}
use rane_processing_language.Base.Result.{Ensures, succeeds, fails, Ensures-if}
use rane_processing_language.X64.{size, call_rel32, jmp_rel32, jcc_rel32}
use rane_processing_language.Emitter.{
  Patch, Emitter, put, temp_alloc, temp_free, emit_call_symbol, emit_jmp_block, emit_jz_block,
}

-- The patches lie in `[lo, hi)`, in order, and no two of their words overlap.
abbrev pub PatchesFit : ℕ → ℕ → List Patch → Type 0
PatchesFit lo hi [] = lo ≤ hi
PatchesFit lo hi (p ∷ ps) = (lo ≤ p.at) × PatchesFit (p.at + 4) hi ps

pub PatchesFit-append :
    (lo mid hi : ℕ) (ps qs : List Patch)
    → PatchesFit lo mid ps
    → PatchesFit mid hi qs
    → PatchesFit lo hi (ps ++ qs)
PatchesFit-append lo mid hi [] [] h k = omega arith
PatchesFit-append lo mid hi [] (q ∷ qs) h (k, ks) = (omega arith, ks)
PatchesFit-append lo mid hi (p ∷ ps) qs (h, hs) k =
    (h, PatchesFit-append (p.at + 4) mid hi ps qs hs k)

pub PatchesFit-le : (lo hi : ℕ) (ps : List Patch) → PatchesFit lo hi ps → lo ≤ hi
PatchesFit-le lo hi [] h = h
PatchesFit-le lo hi (p ∷ ps) (h, hs) = omega (arith, PatchesFit-le (p.at + 4) hi ps hs)

PatchesFit-up :
    (lo hi hi' : ℕ) (ps : List Patch) → PatchesFit lo hi ps → hi ≤ hi' → PatchesFit lo hi' ps
PatchesFit-up lo hi hi' [] h k = omega arith
PatchesFit-up lo hi hi' (p ∷ ps) (h, hs) k = (h, PatchesFit-up (p.at + 4) hi hi' ps hs k)

pub PatchesFit-widen :
    (lo hi hi' : ℕ) (ps : List Patch) → PatchesFit lo hi ps → hi ≤ hi' → PatchesFit 0 hi' ps
PatchesFit-widen lo hi hi' [] h k = omega arith
PatchesFit-widen lo hi hi' (p ∷ ps) (h, hs) k =
    (omega arith, PatchesFit-up (p.at + 4) hi hi' ps hs k)

pub record Grows (e e' : Emitter) : Type 0 where
  pub bytes : List ℕ
  pub added : List Patch
  pub code_eq : e'.code ≡ e.code ++ bytes
  pub patches_eq : e'.patches ≡ e.patches ++ added
  pub fits : length e'.code < u32_mod → PatchesFit (length e.code) (length e'.code) added
  pub frame_eq : e'.frame ≡ e.frame
  pub labels_eq : e'.block_labels ≡ e.block_labels

pub Grows-put : (bs : List ℕ) (e : Emitter) → Grows e (put bs e)
Grows-put bs e = record {
  bytes = bs;
  added = [];
  code_eq = refl;
  patches_eq = sym (append-nil e.patches);
  fits = λ h. omega (arith, length-append e.code bs);
  frame_eq = refl;
  labels_eq = refl;
}

-- A step that changes neither code nor patches.
pub Grows-same :
    (e e' : Emitter)
    → e'.code ≡ e.code
    → e'.patches ≡ e.patches
    → e'.frame ≡ e.frame
    → e'.block_labels ≡ e.block_labels
    → Grows e e'
Grows-same e e' c p f l = record {
  bytes = [];
  added = [];
  code_eq = c ∙ sym (append-nil e.code);
  patches_eq = p ∙ sym (append-nil e.patches);
  fits = λ h. omega (arith, ap (λ (xs : List ℕ). length xs) c);
  frame_eq = f;
  labels_eq = l;
}

pub Grows-trans : {e e₁ e₂ : Emitter} → Grows e e₁ → Grows e₁ e₂ → Grows e e₂
Grows-trans {e} {e₁} {e₂} g h = record {
  bytes = g.bytes ++ h.bytes;
  added = g.added ++ h.added;
  code_eq =
      h.code_eq ∙ ap (λ (c : List ℕ). c ++ h.bytes) g.code_eq ∙ append_assoc e.code g.bytes h.bytes;
  patches_eq =
      h.patches_eq
      ∙ ap (λ (c : List Patch). c ++ h.added) g.patches_eq
      ∙ append_assoc e.patches g.added h.added;
  fits = λ lt.
      PatchesFit-append (length e.code) (length e₁.code) (length e₂.code) g.added h.added
        (g.fits (omega (arith, PatchesFit-le _ _ h.added (h.fits lt)))) (h.fits lt);
  frame_eq = h.frame_eq ∙ g.frame_eq;
  labels_eq = h.labels_eq ∙ g.labels_eq;
}

-- A patch of a placeholder that stands behind `head`.
Grows-patch :
    (head : List ℕ) (e e' : Emitter) (p : Patch)
    → p.at ≡ size (e.code ++ head)
    → e'.code ≡ (e.code ++ head) ++ bytes_u32 0
    → e'.patches ≡ e.patches ++ p ∷ []
    → e'.frame ≡ e.frame
    → e'.block_labels ≡ e.block_labels
    → Grows e e'
unfolding size bytes_u32
Grows-patch head e e' p a c q f l = record {
  bytes = head ++ bytes_u32 0;
  added = p ∷ [];
  code_eq = c ∙ append_assoc e.code head (bytes_u32 0);
  patches_eq = q;
  fits = λ lt.
      let whole : length e'.code ≡ length e.code + length head + 4 =
        ap (λ (xs : List ℕ). length xs) c
        ∙ omega (arith, length-append (e.code ++ head) (bytes_u32 0), length-append e.code head) in
      (omega (arith, length-append e.code head), omega (arith, length-append e.code head));
  frame_eq = f;
  labels_eq = l;
}

pub emit_call_symbol-Grows : (s : ℕ) (e : Emitter) → Grows e (emit_call_symbol s e)
unfolding emit_call_symbol call_rel32
emit_call_symbol-Grows s e = Grows-patch (0xE8 ∷ []) e _ _ refl refl refl refl refl

pub emit_jmp_block-Grows : (b : ℕ) (e : Emitter) → Grows e (emit_jmp_block b e)
unfolding emit_jmp_block jmp_rel32
emit_jmp_block-Grows b e = Grows-patch (0xE9 ∷ []) e _ _ refl refl refl refl refl

pub emit_jz_block-Grows : (b : ℕ) (e : Emitter) → Grows e (emit_jz_block b e)
unfolding emit_jz_block jcc_rel32
emit_jz_block-Grows b e = Grows-patch (0x0F ∷ 0x84 ∷ []) e _ _ refl refl refl refl refl

pub temp_alloc-Grows : (e : Emitter) → Grows e (temp_alloc e).1
unfolding temp_alloc
temp_alloc-Grows e = Grows-same e _ refl refl refl refl

pub temp_free-Grows : (e : Emitter) → Ensures (Grows e) (temp_free e)
unfolding temp_free
temp_free-Grows e =
    Ensures-if (ltb 0 e.temp_sp) (λ _. succeeds (Grows-same e _ refl refl refl refl)) (λ _. fails)
