-- ===== src/Ciam/Caps.antt =====
-- Rane_resolver.cpp, `ciam_require_cap` and `ciam_emit_guard`: what a sequence of calls leaves in the context.
use rane_processing_language.Base.{
  ◌≡◌, refl, sym, ap, ◌∙◌, arith, Bool, true, false, ◌||◌, List, [], ◌∷◌, ◌++◌, append_assoc,
  append-nil, ◌==◌, Bool-cases, inl, inr,
}
use rane_processing_language.Ciam.{
  CapKind, cap_code, GuardRec, CiamCtx, has_cap, ciam_require_cap, ciam_emit_guard,
}

-- A call of one of the two functions.
pub data Call : Type 0 where
  require_cap : CapKind → Call
  emit_guard : GuardRec → Call

abbrev pub called : Call → CiamCtx → CiamCtx
called (require_cap cap) ctx = ciam_require_cap cap ctx
called (emit_guard g) ctx = ciam_emit_guard g.kind g.anchor_tok g.span ctx

abbrev pub all_called : List Call → CiamCtx → CiamCtx
all_called [] ctx = ctx
all_called (c ∷ cs) ctx = all_called cs (called c ctx)

-- What the calls ask for: the capabilities as a set, the guards as a sequence.
abbrev pub asks_for : CapKind → List Call → Bool
asks_for cap [] = false
asks_for cap (require_cap c ∷ cs) = (cap_code c == cap_code cap) || asks_for cap cs
asks_for cap (emit_guard g ∷ cs) = asks_for cap cs

abbrev pub guards_of : List Call → List GuardRec
guards_of [] = []
guards_of (require_cap c ∷ cs) = guards_of cs
guards_of (emit_guard g ∷ cs) = g ∷ guards_of cs

-- No capability stands twice.
abbrev pub Distinct : List CapKind → Type 0
Distinct [] = Unit {0}
Distinct (c ∷ cs) = (has_cap c cs ≡ false) × Distinct cs

has_cap-append :
    (cap c : CapKind) (cs : List CapKind)
    → has_cap cap (cs ++ c ∷ []) ≡ has_cap cap cs || (cap_code c == cap_code cap)
unfolding has_cap
has_cap-append cap c [] = ground arith
has_cap-append cap c (d ∷ ds) = let rest = has_cap-append cap c ds in rw rest (ground arith)

Distinct-append :
    (c : CapKind) (cs : List CapKind) → has_cap c cs ≡ false → Distinct cs → Distinct (cs ++ c ∷ [])
unfolding has_cap
Distinct-append c [] h d = (refl, tt)
Distinct-append c (x ∷ xs) h d =
    (has_cap-append x c xs ∙ ground (arith, h, d.0), Distinct-append c xs (ground (arith, h)) d.1)

has_cap-same :
    (c d : CapKind) (cs : List CapKind)
    → (cap_code c == cap_code d) ≡ true
    → has_cap c cs ≡ true
    → has_cap d cs ≡ true
unfolding has_cap
has_cap-same c d [] q h = h
has_cap-same c d (x ∷ xs) q h = elim (Bool-cases (cap_code x == cap_code c)) [
  | inl e ↦ ground (arith, q, e)
  | inr e ↦
      let tail : has_cap c xs ≡ true = rw e at h in
      let rest : has_cap d xs ≡ true = has_cap-same c d xs q tail in ground (arith, rest)
]

-- The context behind the calls, from the one before.
record After (cs : List Call) (ctx result : CiamCtx) : Type 0 where
  distinct : Distinct result.required_caps
  asked :
      (cap : CapKind)
      → has_cap cap result.required_caps ≡ has_cap cap ctx.required_caps || asks_for cap cs
  in_order : result.guards ≡ ctx.guards ++ guards_of cs

after :
    (cs : List Call) (ctx : CiamCtx) → Distinct ctx.required_caps → After cs ctx (all_called cs ctx)
unfolding ciam_require_cap ciam_emit_guard
after [] ctx d = record {
  distinct = d;
  asked = λ cap. ground arith;
  in_order = sym (append-nil ctx.guards);
}
after (emit_guard g ∷ cs) ctx d =
    let r = after cs (ciam_emit_guard g.kind g.anchor_tok g.span ctx) d in
    record {
      distinct = r.distinct;
      asked = r.asked;
      in_order = r.in_order ∙ append_assoc ctx.guards (g ∷ []) (guards_of cs);
    }
after (require_cap c ∷ cs) ctx d = elim (Bool-cases (has_cap c ctx.required_caps)) [
  | inl h ↦
      let r = after cs ctx d in
      rw h (record {
        distinct = r.distinct;
        asked = λ cap. r.asked cap ∙ known cap h;
        in_order = r.in_order;
      })
  | inr h ↦
      let r =
        after cs (record ctx { required_caps = ctx.required_caps ++ c ∷ [] })
          (Distinct-append c ctx.required_caps h d) in
      rw h (record {
        distinct = r.distinct;
        asked = λ cap.
            r.asked cap
            ∙ ap (λ b. b || asks_for cap cs) (has_cap-append cap c ctx.required_caps)
            ∙ ground arith;
        in_order = r.in_order;
      })
]
  where
    known :
        (cap : CapKind)
        → has_cap c ctx.required_caps ≡ true
        → has_cap cap ctx.required_caps || asks_for cap cs
          ≡ has_cap cap ctx.required_caps || ((cap_code c == cap_code cap) || asks_for cap cs)
    known cap h = elim (Bool-cases (cap_code c == cap_code cap)) [
      | inl q ↦ let there = has_cap-same c cap ctx.required_caps q h in rw there refl
      | inr q ↦ rw q refl
    ]

abbrev pub no_calls : CiamCtx
no_calls = record { required_caps = []; guards = [] }

-- From an empty context, any calls leave the capabilities as a set, those that were asked for and each once, and the guards
-- as the sequence in which they were asked for.
pub all_called-context :
    (cs : List Call)
    → Distinct (all_called cs no_calls).required_caps
      × ((cap : CapKind) → has_cap cap (all_called cs no_calls).required_caps ≡ asks_for cap cs)
      × ((all_called cs no_calls).guards ≡ guards_of cs)
unfolding has_cap
all_called-context cs =
    let r : After cs no_calls (all_called cs no_calls) = after cs no_calls tt in
    (r.distinct, r.asked, r.in_order)
