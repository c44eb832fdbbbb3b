-- ===== src/Loader/Apply.antt =====
-- `apply_relocs` as a whole: every site in the final text, everything else, the statistics, and
-- what an exception leaves behind.
use rane_processing_language.Base.{
  ℕ, ◌+◌, ◌≤◌, ◌≡◌, ◌⊎◌, inl, inr, refl, sym, ap, ◌∙◌, List, [], ◌∷◌, ◌++◌, length, All,
}
use mathlib.Core.Path.{subst}
use rane_processing_language.Base.Memory.{slice}
use rane_processing_language.Base.Result.{Result, ok, err}
use rane_processing_language.Loader.{LoadFault, RelocRec, ExecMeta}
use rane_processing_language.Loader.Lookup.{ResolveFn, sym_addr_of}
use rane_processing_language.Loader.Patch.{PatchStats, apply_reloc, apply_each, apply_relocs}
use rane_processing_language.Loader.Patching.{>>=-eq-ok, >>=-eq-err}
use rane_processing_language.Loader.Sites.{
  width, Patched, Writes, Atomic, returns, throws, apply_reloc-Atomic, Patched-slice,
}

-- A run of bytes of length `n` at `q` does not overlap the site of a reloc.
abbrev pub Off : ℕ → ℕ → RelocRec → Type 0
Off q n r = (q + n ≤ r.at_code_off) ⊎ (r.at_code_off + width r ≤ q)

-- A run of bytes away from every site.
abbrev pub Untouched : ℕ → ℕ → List RelocRec → Type 0
Untouched q n = All (Off q n)

module _ (em : ExecMeta) (resolve : ResolveFn) (text_base : ℕ) where
  abbrev Outcome : Type 0
  Outcome = List ℕ × Result LoadFault PatchStats

  abbrev Step : RelocRec → List ℕ → List ℕ → Type 0
  Step r text text' =
      (addr : ℕ) × (sym_addr_of em resolve r ≡ ok addr) × Writes text_base addr r text text'

  -- The two ways of a round.
  round :
      (r : RelocRec) (st : PatchStats) (text : List ℕ)
      → ((text' : List ℕ) × (st' : PatchStats) × (apply_reloc em resolve text_base r st text
            ≡ (text', ok st'))
          × Step r text text')
        ⊎ ((e : LoadFault) × (apply_reloc em resolve text_base r st text ≡ (text, err e)))
  round r st text = ways _ (apply_reloc-Atomic em resolve text_base r st text)
    where
      ways :
          (o : Outcome)
          → Atomic text (Step r text) o
          → ((text' : List ℕ) × (st' : PatchStats) × (o ≡ (text', ok st')) × Step r text text')
            ⊎ ((e : LoadFault) × (o ≡ (text, err e)))
      ways o (returns {text'} {st} h) = inl (text', st, refl, h)
      ways o (throws {e}) = inr (e, refl)

  goes_on :
      (r : RelocRec) (rs : List RelocRec) (st st' : PatchStats) (text text' : List ℕ)
      → apply_reloc em resolve text_base r st text ≡ (text', ok st')
      → apply_each em resolve text_base (r ∷ rs) st text
        ≡ apply_each em resolve text_base rs st' text'
  unfolding apply_each
  goes_on r rs st st' text text' q =
      >>=-eq-ok (apply_reloc em resolve text_base r st) (apply_each em resolve text_base rs) q

  stops :
      (r : RelocRec) (rs : List RelocRec) (st : PatchStats) (text text' : List ℕ) (e : LoadFault)
      → apply_reloc em resolve text_base r st text ≡ (text', err e)
      → apply_each em resolve text_base (r ∷ rs) st text ≡ (text', err e)
  unfolding apply_each
  stops r rs st text text' e q =
      >>=-eq-err (apply_reloc em resolve text_base r st) (apply_each em resolve text_base rs) q

  Writes-slice :
      {r : RelocRec} {text text' : List ℕ} (q n : ℕ)
      → Step r text text'
      → Off q n r
      → slice text' q n ≡ slice text q n
  Writes-slice q n (addr, _, w) (inl h) = w.before q n h
  Writes-slice q n (addr, _, w) (inr h) = w.behind q n h

  abbrev slice_of : ℕ → ℕ → Outcome → List ℕ
  slice_of q n o = slice o.0 q n

  each-Untouched :
      (rs : List RelocRec) (st : PatchStats) (text : List ℕ) (q n : ℕ)
      → Untouched q n rs
      → slice (apply_each em resolve text_base rs st text).0 q n ≡ slice text q n
  unfolding apply_each
  each-Untouched [] st text q n u = refl
  each-Untouched (r ∷ rs) st text q n (u, us) = elim (round r st text) [
    | inl (text', st', run, step) ↦
        ap (slice_of q n) (goes_on r rs st st' text text' run)
        ∙ each-Untouched rs st' text' q n us
        ∙ Writes-slice q n step u
    | inr (e, run) ↦ ap (slice_of q n) (stops r rs st text text e run)
  ]

  -- The reloc `r` found its symbol, and a processor finds the target at its site.
  abbrev pub Served : RelocRec → List ℕ → Type 0
  Served r text = (addr : ℕ) × (sym_addr_of em resolve r ≡ ok addr) × Patched text_base addr r text

  each-Served :
      (front : List RelocRec) (r : RelocRec) (back : List RelocRec) (st st' : PatchStats)
      (text text' : List ℕ)
      → Untouched r.at_code_off (width r) back
      → apply_each em resolve text_base (front ++ r ∷ back) st text ≡ (text', ok st')
      → Served r text'
  each-Served [] r back st st' text text' u h = elim (round r st text) [
    | inl (text₁, st₁, run, (addr, q, w)) ↦
        let rest : apply_each em resolve text_base back st₁ text₁ ≡ (text', ok st') =
          sym (goes_on r back st st₁ text text₁ run) ∙ h in
        (
          addr,
          q,
          Patched-slice text_base addr r text₁ text'
              (sym (ap (slice_of r.at_code_off (width r)) rest)
                ∙ each-Untouched back st₁ text₁ r.at_code_off (width r) u)
              w.patched,
        )
    | inr (e, run) ↦ absurd (cc (sym (stops r back st text text e run) ∙ h))
  ]
  each-Served (f ∷ front) r back st st' text text' u h = elim (round f st text) [
    | inl (text₁, st₁, run, _) ↦
        each-Served front r back st₁ st' text₁ text' u
          (sym (goes_on f (front ++ r ∷ back) st st₁ text text₁ run) ∙ h)
    | inr (e, run) ↦ absurd (cc (sym (stops f (front ++ r ∷ back) st text text e run) ∙ h))
  ]

  -- Where `apply_relocs` throws nothing, take any reloc whose site no later reloc's site overlaps.
  -- Its symbol has an address, and in the final text a processor finds it: at a call site, the
  -- displacement extended by its sign and added to the address behind it is the target; at an
  -- immediate, the 8 bytes are the target. The target is the address plus the addend, modulo 2^64.
  pub apply_relocs-Patched :
      (text text' : List ℕ) (st : PatchStats) (front : List RelocRec) (r : RelocRec)
      (back : List RelocRec)
      → apply_relocs em resolve text_base text ≡ (text', ok st)
      → em.relocs ≡ front ++ r ∷ back
      → Untouched r.at_code_off (width r) back
      → Served r text'
  unfolding apply_relocs
  apply_relocs-Patched text text' st front r back h split u =
      each-Served front r back _ st text text' u (
        ap
          (λ rs.
            apply_each em resolve text_base rs (record { rel32_calls = 0; abs64_imms = 0 }) text)
          (sym split)
        ∙ h)

  -- Whatever the outcome of `apply_relocs`, an exception included, a run of bytes that overlaps no
  -- reloc's site is in the text it leaves as it was before.
  pub apply_relocs-Untouched :
      (text : List ℕ) (q n : ℕ)
      → Untouched q n em.relocs
      → slice (apply_relocs em resolve text_base text).0 q n ≡ slice text q n
  unfolding apply_relocs
  apply_relocs-Untouched text q n u = each-Untouched em.relocs _ text q n u

  abbrev length_of : Outcome → ℕ
  length_of o = length o.0

  each_length :
      (rs : List RelocRec) (st : PatchStats) (text : List ℕ)
      → length (apply_each em resolve text_base rs st text).0 ≡ length text
  unfolding apply_each
  each_length [] st text = refl
  each_length (r ∷ rs) st text = elim (round r st text) [
    | inl (text', st', run, (_, _, w)) ↦
        ap length_of (goes_on r rs st st' text text' run) ∙ each_length rs st' text' ∙ w.same_length
    | inr (e, run) ↦ ap length_of (stops r rs st text text e run)
  ]

  -- What stopped the loop, and where: the relocs of `done` went through and gave `text'`, and the
  -- round behind them throws on that text and leaves it as it is.
  pub record StoppedAt (rs : List RelocRec) (st : PatchStats) (text text' : List ℕ) (e : LoadFault)
      : Type 0 where
    pub done : List RelocRec
    pub culprit : RelocRec
    pub rest : List RelocRec
    pub split : rs ≡ done ++ (culprit ∷ rest)
    pub stats : PatchStats
    pub done_ok : apply_each em resolve text_base done st text ≡ (text', ok stats)
    pub culprit_err : apply_reloc em resolve text_base culprit stats text' ≡ (text', err e)

  abbrev SameOutcome : Outcome → Outcome → Type 0
  SameOutcome x y = x ≡ y

  stopped_here :
      (r : RelocRec) (rs : List RelocRec) (st : PatchStats) (text text' : List ℕ) (e f : LoadFault)
      → apply_reloc em resolve text_base r st text ≡ (text, err f)
      → SameOutcome (text, err f) (text', err e)
      → StoppedAt (r ∷ rs) st text text' e
  unfolding apply_each
  stopped_here r rs st text text' e f run q =
      let same : text ≡ text' = cc q in
      record {
        done = [];
        culprit = r;
        rest = rs;
        split = refl;
        stats = st;
        done_ok = ap (λ (t : List ℕ). (t, ok st)) same;
        culprit_err =
            subst (λ (t : List ℕ). apply_reloc em resolve text_base r st t ≡ (text', err e)) same
              (run ∙ q);
      }

  each_stopped :
      (rs : List RelocRec) (st : PatchStats) (text text' : List ℕ) (e : LoadFault)
      → apply_each em resolve text_base rs st text ≡ (text', err e)
      → StoppedAt rs st text text' e
  unfolding apply_each
  each_stopped [] st text text' e h = absurd (cc h)
  each_stopped (r ∷ rs) st text text' e h = elim (round r st text) [
    | inl (text₁, st₁, run, _) ↦
        let rest =
          each_stopped rs st₁ text₁ text' e (sym (goes_on r rs st st₁ text text₁ run) ∙ h) in
        record {
          done = r ∷ rest.done;
          culprit = rest.culprit;
          rest = rest.rest;
          split = ap (λ (t : List RelocRec). r ∷ t) rest.split;
          stats = rest.stats;
          done_ok = goes_on r rest.done st st₁ text text₁ run ∙ rest.done_ok;
          culprit_err = rest.culprit_err;
        }
    | inr (f, run) ↦
        stopped_here r rs st text text' e f run (sym (stops r rs st text text f run) ∙ h)
  ]

  -- Where `apply_relocs` throws, the text it leaves behind has its length, and there is a first
  -- reloc whose round throws that exception: the relocs before it went through, the text that is
  -- left is the one they gave, and the round that throws has written nothing.
  pub apply_relocs-StoppedAt :
      (text text' : List ℕ) (e : LoadFault)
      → apply_relocs em resolve text_base text ≡ (text', err e)
      → (length text' ≡ length text)
        × StoppedAt em.relocs (record { rel32_calls = 0; abs64_imms = 0 }) text text' e
  unfolding apply_relocs
  apply_relocs-StoppedAt text text' e h =
      (sym (ap length_of h) ∙ each_length em.relocs _ text, each_stopped em.relocs _ text text' e h)
