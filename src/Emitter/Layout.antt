-- ===== src/Emitter/Layout.antt =====
-- `emit_proc`: where the blocks stand in the code.
use rane_processing_language.Base.{
  ℕ, ◌<◌, ◌≡◌, ◌≢◌, refl, sym, ap, ◌∙◌, true, List, [], ◌∷◌, ◌++◌, some, length, get_elem?, set,
  ltb, ltb→lt, All, append_assoc, append-nil, get_elem?-set_self, get_elem?-set_ne,
}
use rane_processing_language.Base.Result.{
  Result, ok, ◌>>=◌, >>=-eq-ok, Ensures, succeeds, fails, Ensures-from, Ensures-if, Ensures-map,
  Ensures-ok,
}
use rane_processing_language.Plan.{ValueNode, Block, BlockId}
use rane_processing_language.X64.{CodeBuf, size}
use rane_processing_language.Emitter.{ILayoutProvider, Label, Emitter, bind_block}
use rane_processing_language.Emitter.Action.{emit_actions}
use rane_processing_language.Emitter.Proc.{emit_blocks}
use rane_processing_language.Emitter.Growth.{Grows, Grows-same, Grows-trans}
use rane_processing_language.Emitter.Appends.{emit_actions-Appends}
use mathlib.Core.Path.{subst}
use native.Mathlib.Decide.{ℕ_discrete}

abbrev relabel : List Label → Emitter → Emitter
relabel labels e = record e { block_labels = labels }

Grows-relabel :
    (labels : List Label) {e e' : Emitter}
    → Grows e e'
    → Grows (relabel labels e) (relabel labels e')
Grows-relabel labels g = record {
  bytes = g.bytes;
  added = g.added;
  code_eq = g.code_eq;
  patches_eq = g.patches_eq;
  fits = g.fits;
  frame_eq = g.frame_eq;
  labels_eq = refl;
}

>>=-eq :
    {E A B : Type 0} (first : Result E A) (next : A → Result E B) {a : A}
    → first ≡ ok a
    → (first >>= next) ≡ next a
>>=-eq first next q = ap (λ x. x >>= next) q

All-snoc :
    {A : Type 0} (P : A → Type 0) (xs : List A) (x : A) → All P xs → P x → All P (xs ++ x ∷ [])
All-snoc P [] x h p = (p, tt)
All-snoc P (y ∷ xs) x (h, hs) p = (h, All-snoc P xs x hs p)

module _ (values : List ValueNode) (layout : ILayoutProvider) (fuel : ℕ) where
  -- Of the blocks `bs`, emitted in turn from `start`, the last with the id `b` is the one that
  -- stands at `pos` in `code`: the emitter has written that much when it comes to the block, and
  -- `bytes` is what it then writes for it.
  pub record StartsAt (start : Emitter) (bs : List Block) (b : BlockId) (pos : ℕ) (code : CodeBuf)
      : Type 0 where
    pub front : List Block
    pub block : Block
    pub back : List Block
    pub split : bs ≡ front ++ block ∷ back
    pub id_eq : block.id ≡ b
    pub is_last : All (λ (c : Block). c.id ≢ b) back
    pub before : Emitter
    pub before_run : emit_blocks values layout fuel front start ≡ ok before
    pub pos_eq : size before.code ≡ pos
    pub after : Emitter
    pub block_run : emit_blocks values layout fuel (block ∷ []) before ≡ ok after
    pub bytes : List ℕ
    pub bytes_eq : after.code ≡ before.code ++ bytes
    pub tail : List ℕ
    pub code_eq : code ≡ after.code ++ tail

  pub StartsAt-append :
      {start : Emitter} {bs : List Block} {b pos : ℕ} {code : CodeBuf} (more : List ℕ)
      → StartsAt start bs b pos code
      → StartsAt start bs b pos (code ++ more)
  StartsAt-append more s = record {
    front = s.front;
    block = s.block;
    back = s.back;
    split = s.split;
    id_eq = s.id_eq;
    is_last = s.is_last;
    before = s.before;
    before_run = s.before_run;
    pos_eq = s.pos_eq;
    after = s.after;
    block_run = s.block_run;
    bytes = s.bytes;
    bytes_eq = s.bytes_eq;
    tail = s.tail ++ more;
    code_eq = ap (λ (c : List ℕ). c ++ more) s.code_eq ∙ append_assoc s.after.code s.tail more;
  }

  -- Behind one more block, with another id.
  StartsAt-snoc :
      {start : Emitter} {bs : List Block} {b pos : ℕ} {code : CodeBuf} (c : Block)
      → c.id ≢ b
      → StartsAt start bs b pos code
      → StartsAt start (bs ++ c ∷ []) b pos code
  StartsAt-snoc c ne s = record {
    front = s.front;
    block = s.block;
    back = s.back ++ c ∷ [];
    split =
        ap (λ (x : List Block). x ++ c ∷ []) s.split
        ∙ append_assoc s.front (s.block ∷ s.back) (c ∷ []);
    id_eq = s.id_eq;
    is_last = All-snoc _ s.back c s.is_last ne;
    before = s.before;
    before_run = s.before_run;
    pos_eq = s.pos_eq;
    after = s.after;
    block_run = s.block_run;
    bytes = s.bytes;
    bytes_eq = s.bytes_eq;
    tail = s.tail;
    code_eq = s.code_eq;
  }

  abbrev LabelsHold : Emitter → List Block → CodeBuf → List Label → Type 0
  LabelsHold start bs code labels =
      (b : BlockId) (l : Label)
      → get_elem? labels b ≡ some l
      → l.bound ≡ true
      → StartsAt start bs b l.pos code

  pub record Laid (start : Emitter) (bs : List Block) (e e' : Emitter) : Type 0 where
    pub grows : Grows e (relabel e.block_labels e')
    pub run : emit_blocks values layout fuel bs start ≡ ok e'
    pub holds : LabelsHold start bs e'.code e'.block_labels

  emit_blocks-append :
      (bs cs : List Block) (e e₁ : Emitter)
      → emit_blocks values layout fuel bs e ≡ ok e₁
      → emit_blocks values layout fuel (bs ++ cs) e ≡ emit_blocks values layout fuel cs e₁
  unfolding emit_blocks
  emit_blocks-append [] cs e e₁ q =
      let same : e ≡ e₁ = cc q in ap (emit_blocks values layout fuel cs) same
  emit_blocks-append (b ∷ bs) cs e e₁ q =
      let (f, p, q₁) = >>=-eq-ok (bind_block b.id e) _ q in
      let (g, r, q₂) = >>=-eq-ok (emit_actions values layout fuel b.actions f) _ q₁ in
      >>=-eq _ _ p ∙ >>=-eq _ _ r ∙ emit_blocks-append bs cs g e₁ q₂

  one_block :
      (b : Block) (e e₁ e₂ : Emitter)
      → bind_block b.id e ≡ ok e₁
      → emit_actions values layout fuel b.actions e₁ ≡ ok e₂
      → emit_blocks values layout fuel (b ∷ []) e ≡ ok e₂
  unfolding emit_blocks
  one_block b e e₁ e₂ p q = >>=-eq _ _ p ∙ >>=-eq _ _ q

  bind_block-eq :
      (b : BlockId) (e : Emitter)
      → Ensures
          (λ e₁.
            (b < length e.block_labels)
            × (e₁ ≡ relabel (set e.block_labels b (record { bound = true; pos = size e.code })) e))
          (bind_block b e)
  unfolding bind_block
  bind_block-eq b e =
      Ensures-if (ltb b (length e.block_labels)) (λ t. succeeds (ltb→lt _ _ t, refl)) (λ _. fails)

  -- The label that a block binds, and those that it leaves.
  labels_step :
      (start : Emitter) (done : List Block) (block : Block) (e e₂ : Emitter)
      → emit_blocks values layout fuel done start ≡ ok e
      → LabelsHold start done e.code e.block_labels
      → block.id < length e.block_labels
      → (e₁ : Emitter)
      → e₁ ≡ relabel (set e.block_labels block.id (record { bound = true; pos = size e.code })) e
      → emit_blocks values layout fuel (block ∷ []) e ≡ ok e₂
      → Grows e₁ e₂
      → LabelsHold start (done ++ block ∷ []) e₂.code e₂.block_labels
  labels_step start done block e e₂ run₀ old lt e₁ q run g b l lq t =
      let new : Label = record { bound = true; pos = size e.code } in
      let lq' : get_elem? (set e.block_labels block.id new) b ≡ some l =
        ap (λ (ls : List Label). get_elem? ls b)
          (sym (g.labels_eq ∙ ap (λ (x : Emitter). x.block_labels) q))
        ∙ lq in
      let code₂ : e₂.code ≡ e.code ++ g.bytes =
        g.code_eq ∙ ap (λ (x : Emitter). x.code ++ g.bytes) q in
      elim (ℕ_discrete block.id b) [
        | yes same ↦
            let here : some new ≡ some l =
              sym (get_elem?-set_self e.block_labels block.id new lt)
              ∙ ap (get_elem? (set e.block_labels block.id new)) same
              ∙ lq' in
            record {
              front = done;
              block = block;
              back = [];
              split = refl;
              id_eq = same;
              is_last = tt;
              before = e;
              before_run = run₀;
              pos_eq = cc here;
              after = e₂;
              block_run = run;
              bytes = g.bytes;
              bytes_eq = code₂;
              tail = [];
              code_eq = sym (append-nil e₂.code);
            }
        | no ne ↦ subst (StartsAt start (done ++ block ∷ []) b l.pos) (sym code₂) (
            StartsAt-append g.bytes (
              StartsAt-snoc block ne
                (old b l (sym (get_elem?-set_ne e.block_labels block.id b new ne) ∙ lq') t)))
      ]

  block-Grows :
      (labels : List Label) (e e₁ e₂ : Emitter)
      → e₁ ≡ relabel labels e
      → Grows e₁ e₂
      → Grows e (relabel e.block_labels e₂)
  block-Grows labels e e₁ e₂ q g =
      subst (λ (x : Emitter). Grows x (relabel e.block_labels e₂)) (ap (relabel e.block_labels) q)
        (Grows-relabel e.block_labels g)

  pub emit_blocks-Laid :
      (start : Emitter) (done bs : List Block) (e : Emitter)
      → emit_blocks values layout fuel done start ≡ ok e
      → LabelsHold start done e.code e.block_labels
      → Ensures (Laid start (done ++ bs) e) (emit_blocks values layout fuel bs e)
  unfolding emit_blocks
  emit_blocks-Laid start done [] e run old =
      rw (append-nil done)
        (succeeds (record { grows = Grows-same e e refl refl refl refl; run = run; holds = old }))
  emit_blocks-Laid start done (b ∷ bs) e run old = Ensures-from (bind_block b.id e) _ λ e₁ bound.
      let (lt, q) = Ensures-ok (bind_block-eq b.id e) bound in
      Ensures-from (emit_actions values layout fuel b.actions e₁) _ λ e₂ acted.
        let g : Grows e₁ e₂ =
          Ensures-ok (emit_actions-Appends values layout fuel b.actions e₁) acted in
        let one : emit_blocks values layout fuel (b ∷ []) e ≡ ok e₂ =
          one_block b e e₁ e₂ bound acted in
        Ensures-map
          (emit_blocks-Laid start (done ++ b ∷ []) bs e₂
            (emit_blocks-append done (b ∷ []) start e run ∙ one)
            (labels_step start done b e e₂ run old lt e₁ q one g))
          λ e₃ laid.
            let same : (done ++ b ∷ []) ++ bs ≡ done ++ b ∷ bs = append_assoc done (b ∷ []) bs in
            record {
              grows =
                  Grows-trans (block-Grows _ e e₁ e₂ q g) (Grows-relabel e.block_labels laid.grows);
              run = subst (λ xs. emit_blocks values layout fuel xs start ≡ ok e₃) same laid.run;
              holds = subst (λ xs. LabelsHold start xs e₃.code e₃.block_labels) same laid.holds;
            }
