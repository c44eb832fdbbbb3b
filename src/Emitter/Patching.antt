-- ===== src/Emitter/Patching.antt =====
-- The jumps of an emitted procedure: the patches lie apart in the code, and the patched word of
-- each is the distance to the place where the code of its block stands.
use rane_processing_language.Base.{
  ℕ, ◌+◌, ◌%◌, ◌≤◌, ◌<◌, ◌≡◌, ◌⊎◌, inl, inr, refl, ◌∙◌, arith, Bool, true, false, List, [], ◌∷◌,
  some, length, get_elem?, if◌then◌else◌, leb, All,
}
use rane_processing_language.Base.Bytes.{u32_mod, bytes_u32}
use rane_processing_language.Base.Memory.{
  slice, word_at, word_at-write_bytes, length-write_bytes, slice-write_bytes_before,
  slice-write_bytes_behind,
}
use rane_processing_language.Base.Result.{
  Result, ok, guard, Ensures, succeeds, Ensures-bind, Ensures-from, Ensures-map, guard-eq-true,
}
use rane_processing_language.X64.{CodeBuf}
use rane_processing_language.Emitter.{Fault, Patch, Label, elem_at, elem_at-eq-some}
use rane_processing_language.Emitter.Proc.{
  patch_u32, patch_block, patch_blocks, rel_of, is_block_patch,
}
use rane_processing_language.Emitter.Growth.{PatchesFit, PatchesFit-le}

-- What a patch needs of the labels, and what it is then in the code.
pub record Resolved (labels : List Label) (c : CodeBuf) (p : Patch) : Type 0 where
  pub label : Label
  pub label_eq : get_elem? labels p.target_block ≡ some label
  pub is_bound : label.bound ≡ true
  pub word_eq : word_at c p.at ≡ some (rel_of label.pos p.at)

abbrev pub ResolvedIfBlock : List Label → CodeBuf → Patch → Type 0
ResolvedIfBlock labels c p = is_block_patch p.kind ≡ true → Resolved labels c p

-- A patch changes its own word only.
record Patched (c c' : CodeBuf) (at v : ℕ) : Type 0 where
  pub same_length : length c' ≡ length c
  pub word_eq : word_at c' at ≡ some v
  pub before : (q n : ℕ) → q + n ≤ at → slice c' q n ≡ slice c q n
  pub behind : (q n : ℕ) → at + 4 ≤ q → slice c' q n ≡ slice c q n

patch_u32-Patched :
    (c : CodeBuf) (at v : ℕ)
    → at + 4 ≤ length c
    → v < u32_mod
    → Ensures (λ c'. Patched c c' at v) (patch_u32 c at v)
unfolding patch_u32
patch_u32-Patched c at v h lt =
    Ensures-from (guard (leb ((at + 4) % u32_mod) (length c)) _) _ λ _ _. succeeds (record {
      same_length = length-write_bytes c at (bytes_u32 v);
      word_eq = word_at-write_bytes c at v h lt;
      before = λ q n. slice-write_bytes_before c at (bytes_u32 v) q n;
      behind = λ q n k. slice-write_bytes_behind c at (bytes_u32 v) q n (unfold bytes_u32 in k);
    })

-- A run of bytes away from the words of the patches.
abbrev pub Away : ℕ → ℕ → List Patch → Type 0
Away q n = All (λ p. (q + n ≤ p.at) ⊎ (p.at + 4 ≤ q))

-- What the patches before `lo` keep, and what holds of those from there on.
pub record Done (labels : List Label) (ps : List Patch) (lo : ℕ) (c c' : CodeBuf) : Type 0 where
  pub same_length : length c' ≡ length c
  pub kept : (q n : ℕ) → q + n ≤ lo → slice c' q n ≡ slice c q n
  pub outside : (q n : ℕ) → Away q n ps → slice c' q n ≡ slice c q n
  pub resolved : All (ResolvedIfBlock labels c') ps

record StepDone (labels : List Label) (p : Patch) (c c' : CodeBuf) : Type 0 where
  pub same_length : length c' ≡ length c
  pub before : (q n : ℕ) → q + n ≤ p.at → slice c' q n ≡ slice c q n
  pub behind : (q n : ℕ) → p.at + 4 ≤ q → slice c' q n ≡ slice c q n
  pub resolved : ResolvedIfBlock labels c' p

step_outside :
    {labels : List Label} {p : Patch} {c c' : CodeBuf}
    → StepDone labels p c c'
    → (q n : ℕ) → (q + n ≤ p.at) ⊎ (p.at + 4 ≤ q)
    → slice c' q n ≡ slice c q n
step_outside s q n (inl h) = s.before q n h
step_outside s q n (inr h) = s.behind q n h

abbrev patch_step : List Label → Patch → CodeBuf → Bool → Result Fault CodeBuf
patch_step labels p c b = if b then patch_block labels p c else ok c

patch_step-StepDone :
    (labels : List Label) (p : Patch) (c : CodeBuf) (b : Bool)
    → is_block_patch p.kind ≡ b
    → p.at + 4 ≤ length c
    → Ensures (StepDone labels p c) (patch_step labels p c b)
unfolding patch_block
patch_step-StepDone labels p c false e h = succeeds (record {
  same_length = refl;
  before = λ q n k. refl;
  behind = λ q n k. refl;
  resolved = λ t. absurd (cc);
})
patch_step-StepDone labels p c true e h = Ensures-from (elem_at labels p.target_block) _ λ l le.
    Ensures-from (guard l.bound _) _ λ _ b.
      Ensures-map (patch_u32-Patched c p.at (rel_of l.pos p.at) h (omega arith)) λ c' d. record {
        same_length = d.same_length;
        before = d.before;
        behind = d.behind;
        resolved = λ _. record {
          label = l;
          label_eq = elem_at-eq-some labels p.target_block l le;
          is_bound = guard-eq-true l.bound _ b;
          word_eq = d.word_eq;
        };
      }

moved :
    (labels : List Label) (c c' : CodeBuf) (p : Patch)
    → slice c' p.at 4 ≡ slice c p.at 4
    → ResolvedIfBlock labels c p
    → ResolvedIfBlock labels c' p
moved labels c c' p e r t = record {
  label = (r t).label;
  label_eq = (r t).label_eq;
  is_bound = (r t).is_bound;
  word_eq = rw e (r t).word_eq;
}

pub patch_blocks-Done :
    (labels : List Label) (lo : ℕ) (ps : List Patch) (c : CodeBuf)
    → PatchesFit lo (length c) ps
    → Ensures (Done labels ps lo c) (patch_blocks labels ps c)
unfolding patch_blocks
patch_blocks-Done labels lo [] c fit =
    succeeds
      (record { same_length = refl; kept = λ q n h. refl; outside = λ q n a. refl; resolved = tt })
patch_blocks-Done labels lo (p ∷ ps) c (h, fit) =
    Ensures-bind _ (patch_step-StepDone labels p c _ refl (PatchesFit-le _ _ ps fit)) λ c₁ s.
      Ensures-map (patch_blocks-Done labels (p.at + 4) ps c₁ (rw s.same_length fit)) λ c' d.
        record {
          same_length = d.same_length ∙ s.same_length;
          outside = λ q n a. d.outside q n a.1 ∙ step_outside s q n a.0;
          kept = λ q n k. d.kept q n (omega arith) ∙ s.before q n (omega arith);
          resolved = (moved labels c₁ c' p (d.kept p.at 4 (omega arith)) s.resolved, d.resolved);
        }

patch_step-length :
    (labels : List Label) (p : Patch) (c : CodeBuf) (b : Bool)
    → Ensures (λ (c' : CodeBuf). length c' ≡ length c) (patch_step labels p c b)
unfolding patch_block patch_u32
patch_step-length labels p c false = succeeds refl
patch_step-length labels p c true = Ensures-from (elem_at labels p.target_block) _ λ l _.
    Ensures-from (guard l.bound _) _ λ _ _.
      Ensures-from (guard (leb ((p.at + 4) % u32_mod) (length c)) _) _
        λ _ _. succeeds (length-write_bytes c p.at (bytes_u32 (rel_of l.pos p.at)))

-- Patching keeps the length, whatever the patches.
pub patch_blocks-length :
    (labels : List Label) (ps : List Patch) (c : CodeBuf)
    → Ensures (λ (c' : CodeBuf). length c' ≡ length c) (patch_blocks labels ps c)
unfolding patch_blocks
patch_blocks-length labels [] c = succeeds refl
patch_blocks-length labels (p ∷ ps) c =
    Ensures-bind _ (patch_step-length labels p c (is_block_patch p.kind))
      λ c₁ e. Ensures-map (patch_blocks-length labels ps c₁) λ c' e'. e' ∙ e
