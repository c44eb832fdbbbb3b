-- ===== src/Ids/Ranks.antt =====
-- The comparison that the candidates are sorted by is a strict order on what it reads.
use rane_processing_language.Base.{
  ℕ, ◌≡◌, refl, sym, ap, ◌∙◌, arith, Bool, true, false, List, [], ◌∷◌, ltb, if◌then◌else◌,
}
use rane_processing_language.Ids.{StableKey, IdCandidate, key_less, tie, before}

-- The fields that identify a candidate, without the id.
abbrev pub fields : IdCandidate → List ℕ
fields a =
    a.key.hi ∷ a.key.lo ∷ a.fn ∷ a.span.line ∷ a.span.col ∷ a.span.len ∷ a.rule_id ∷ a.role_tag
    ∷ a.nid ∷ []

abbrev then_by : ℕ → ℕ → Bool → Bool
then_by x y r = if ltb x y then true else if ltb y x then false else r

-- The order of the dictionary.
unfoldable lex : List ℕ → List ℕ → Bool
lex [] [] = false
lex [] (y ∷ ys) = true
lex (x ∷ xs) [] = false
lex (x ∷ xs) (y ∷ ys) = then_by x y (lex xs ys)

tie-then_by : (a b : ℕ) (r : Bool) → tie a b r ≡ then_by a b r
unfolding tie
tie-then_by a b r = ground arith

key-then_by :
    (a b : StableKey) (r : Bool)
    → (if key_less a b then true else if key_less b a then false else r)
      ≡ then_by a.hi b.hi (then_by a.lo b.lo r)
unfolding key_less
key-then_by a b r = ground arith

last-then_by : (a b : ℕ) → ltb a b ≡ then_by a b false
last-then_by a b = ground arith

ties :
    (c d e f g h i c' d' e' f' g' h' i' : ℕ)
    → tie c c' (tie d d' (tie e e' (tie f f' (tie g g' (tie h h' (ltb i i'))))))
      ≡ then_by c c' (
          then_by d d'
            (then_by e e' (then_by f f' (then_by g g' (then_by h h' (then_by i i' false))))))
ties c d e f g h i c' d' e' f' g' h' i' =
    tie-then_by c c' _
    ∙ ap (then_by c c') (
        tie-then_by d d' _
        ∙ ap (then_by d d') (
            tie-then_by e e' _
            ∙ ap (then_by e e') (
                tie-then_by f f' _
                ∙ ap (then_by f f') (
                    tie-then_by g g' _
                    ∙ ap (then_by g g')
                        (tie-then_by h h' _ ∙ ap (then_by h h') (last-then_by i i'))))))

before-lex : (a b : IdCandidate) → before a b ≡ lex (fields a) (fields b)
unfolding before lex
before-lex a b =
    key-then_by a.key b.key _
    ∙ ap (λ (r : Bool). then_by a.key.hi b.key.hi (then_by a.key.lo b.key.lo r))
        (ties _ _ _ _ _ _ _ _ _ _ _ _ _ _)

then_by_trans :
    (x y z : ℕ) (r s t : Bool)
    → (r ≡ true → s ≡ true → t ≡ true)
    → then_by x y r ≡ true
    → then_by y z s ≡ true
    → then_by x z t ≡ true
then_by_trans x y z true true t h p q = let t' : t ≡ true = h refl refl in ground arith
then_by_trans x y z false s t h p q = ground arith
then_by_trans x y z true false t h p q = ground arith

lex_trans : (xs ys zs : List ℕ) → lex xs ys ≡ true → lex ys zs ≡ true → lex xs zs ≡ true
unfolding lex
lex_trans [] [] zs p q = absurd (cc p)
lex_trans [] (y ∷ ys) [] p q = absurd (cc q)
lex_trans [] (y ∷ ys) (z ∷ zs) p q = refl
lex_trans (x ∷ xs) [] zs p q = absurd (cc p)
lex_trans (x ∷ xs) (y ∷ ys) [] p q = absurd (cc q)
lex_trans (x ∷ xs) (y ∷ ys) (z ∷ zs) p q =
    then_by_trans x y z (lex xs ys) (lex ys zs) (lex xs zs) (lex_trans xs ys zs) p q

then_by-total :
    (x y : ℕ) (r s : Bool)
    → then_by x y r ≡ false
    → then_by y x s ≡ false
    → (x ≡ y) × (r ≡ false) × (s ≡ false)
then_by-total x y r s p q = ground arith

lex-total : (xs ys : List ℕ) → lex xs ys ≡ false → lex ys xs ≡ false → xs ≡ ys
unfolding lex
lex-total [] [] p q = refl
lex-total [] (y ∷ ys) p q = absurd (cc p)
lex-total (x ∷ xs) [] p q = absurd (cc q)
lex-total (x ∷ xs) (y ∷ ys) p q =
    let (same, r, s) = then_by-total x y (lex xs ys) (lex ys xs) p q in
    let rest : xs ≡ ys = lex-total xs ys r s in λ i. same i ∷ rest i

-- The comparison is transitive: of three candidates, the first of which stands before the second
-- and the second before the third, the first stands before the third.
pub before_trans : (a b c : IdCandidate) → before a b ≡ true → before b c ≡ true → before a c ≡ true
before_trans a b c p q =
    before-lex a c
    ∙ lex_trans (fields a) (fields b) (fields c) (sym (before-lex a b) ∙ p)
        (sym (before-lex b c) ∙ q)

-- Two candidates neither of which stands before the other agree in every field but the id, so
-- candidates that differ in any such field are in one order only.
pub before-total :
    (a b : IdCandidate) → before a b ≡ false → before b a ≡ false → fields a ≡ fields b
before-total a b p q =
    lex-total (fields a) (fields b) (sym (before-lex a b) ∙ p) (sym (before-lex b a) ∙ q)
