-- ===== src/Ciam/Meta.antt =====
-- Rane_resolver.cpp, `emit_exec_meta`: the bytes against a reader of the layout, which is no code of the repository.
use rane_processing_language.Base.{
  ℕ, zero, suc, ◌+◌, ◌*◌, ◌%◌, ◌/◌, ◌^◌, ◌<◌, ◌≡◌, refl, sym, ap, ◌∙◌, arith, List, [], ◌∷◌, ◌++◌,
  append-nil, ◌==◌, if◌then◌else◌, Option, none, some, length, All,
}
use rane_processing_language.Base.Bytes.{bytes_u32, u32_mod, u8_mod, le32}
use rane_processing_language.Ciam.{
  GuardKind, CapKind, guard_code, cap_code, GuardRec, CiamCtx, bytes_u16, header_bytes, guard_bytes,
  guards_bytes, caps_bytes, exec_meta_bytes,
}
use rane_processing_language.Ciam as C

-- A reader takes a value off the front of the bytes.
abbrev pub Reads : Type 0 → Type 0
Reads A = List ℕ → Option (A × List ℕ)

infixl 1 ◌>>=◌
abbrev pub ◌>>=◌ : {A B : Type 0} → Option (A × List ℕ) → (A → Reads B) → Option (B × List ℕ)
none >>= f = none
some (a, bs) >>= f = f a bs

infixl 1 ◌>>>◌
abbrev pub ◌>>>◌ : {A B : Type 0} → Reads A → (A → Reads B) → Reads B
p >>> f = λ bs. p bs >>= f

unfoldable pub u16 : Reads ℕ
u16 (a ∷ (b ∷ rest)) = some (a + 2 ^ 8 * b, rest)
u16 _ = none

unfoldable pub u32 : Reads ℕ
u32 (a ∷ (b ∷ (c ∷ (d ∷ rest)))) = some (le32 a b c d, rest)
u32 _ = none

unfoldable pub guard_of : ℕ → List ℕ → Option (GuardKind × List ℕ)
guard_of k bs =
    if k == 1
    then some (C.bounds, bs)
    else if k == 2
    then some (C.cap_boundary, bs)
    else if k == 3
    then some (C.determinism_fence, bs)
    else none

unfoldable pub cap_of : ℕ → List ℕ → Option (CapKind × List ℕ)
cap_of k bs =
    if k == 1
    then some (C.heap_alloc, bs)
    else if k == 2
    then some (C.file_io, bs)
    else if k == 3
    then some (C.network_io, bs)
    else if k == 4
    then some (C.dynamic_eval, bs)
    else if k == 5
    then some (C.syscalls, bs)
    else if k == 6
    then some (C.threads, bs)
    else if k == 7
    then some (C.channels, bs)
    else if k == 8
    then some (C.crypto, bs)
    else none

unfoldable pub read_guard : Reads GuardRec
read_guard bs = u16 bs >>= λ k. u16 >>> λ pad. guard_of k >>> λ kind. u32 >>> λ anchor.
    u32 >>> λ line. u32 >>> λ col. u32 >>> λ len. λ rest. some (
      record {
        kind = kind;
        anchor_tok = anchor;
        span = record { line = line; col = col; len = len };
      },
      rest,
    )

unfoldable pub read_guards : ℕ → Reads (List GuardRec)
read_guards zero bs = some ([], bs)
read_guards (suc n) bs = read_guard bs >>= λ g. read_guards n >>> λ gs. λ rest. some (g ∷ gs, rest)

unfoldable pub read_cap : Reads CapKind
read_cap bs = u16 bs >>= λ k. u16 >>> λ pad. cap_of k

unfoldable pub read_caps : ℕ → Reads (List CapKind)
read_caps zero bs = some ([], bs)
read_caps (suc n) bs = read_cap bs >>= λ c. read_caps n >>> λ cs. λ rest. some (c ∷ cs, rest)

-- The entry offset, the code size and the context.
unfoldable pub read_meta : Reads (ℕ × ℕ × CiamCtx)
read_meta bs = u32 bs >>= λ magic. u16 >>> λ version. u16 >>> λ reserved. u32 >>> λ entry_offset.
    u32 >>> λ code_size. u32 >>> λ guard_count. u32 >>> λ cap_count.
    read_guards guard_count >>> λ guards. read_caps cap_count >>> λ caps.
    λ rest. some ((entry_offset, code_size, record { required_caps = caps; guards = guards }), rest)

module _ {A B : Type 0} where
  got :
      {x : Option (A × List ℕ)} {a : A} {bs : List ℕ} {r : Option (B × List ℕ)} (f : A → Reads B)
      → x ≡ some (a, bs)
      → f a bs ≡ r
      → (x >>= f) ≡ r
  got f q k = ap (λ y. y >>= f) q ∙ k

u16-bytes : (v : ℕ) (rest : List ℕ) → v < 2 ^ 16 → u16 (bytes_u16 v ++ rest) ≡ some (v, rest)
unfolding u16 bytes_u16
u16-bytes v rest lt =
    let q : v % u8_mod + 2 ^ 8 * (v / 2 ^ 8 % u8_mod) ≡ v = ground (arith, lt) in
    ap (λ x. some (x, rest)) q

u32-bytes : (v : ℕ) (rest : List ℕ) → v < u32_mod → u32 (bytes_u32 v ++ rest) ≡ some (v, rest)
unfolding u32 bytes_u32
u32-bytes v rest lt = ap (λ x. some (x, rest)) (ground (arith, lt))

-- The numbers of a guard are of 32 bits.
abbrev pub Fits : GuardRec → Type 0
Fits g =
    (g.anchor_tok < u32_mod)
    × (g.span.line < u32_mod)
    × (g.span.col < u32_mod)
    × (g.span.len < u32_mod)

guard_of-code :
    (k : GuardKind) (bs : List ℕ)
    → (guard_code k < 2 ^ 16) × (guard_of (guard_code k) bs ≡ some (k, bs))
unfolding guard_of
guard_of-code C.bounds bs = (omega arith, refl)
guard_of-code C.cap_boundary bs = (omega arith, refl)
guard_of-code C.determinism_fence bs = (omega arith, refl)

cap_of-code :
    (k : CapKind) (bs : List ℕ) → (cap_code k < 2 ^ 16) × (cap_of (cap_code k) bs ≡ some (k, bs))
unfolding cap_of
cap_of-code C.heap_alloc bs = (omega arith, refl)
cap_of-code C.file_io bs = (omega arith, refl)
cap_of-code C.network_io bs = (omega arith, refl)
cap_of-code C.dynamic_eval bs = (omega arith, refl)
cap_of-code C.syscalls bs = (omega arith, refl)
cap_of-code C.threads bs = (omega arith, refl)
cap_of-code C.channels bs = (omega arith, refl)
cap_of-code C.crypto bs = (omega arith, refl)

read_guard-bytes :
    (g : GuardRec) (rest : List ℕ) → Fits g → read_guard (guard_bytes g ++ rest) ≡ some (g, rest)
unfolding read_guard guard_bytes bytes_u16 bytes_u32
read_guard-bytes g rest fits =
    let (small, known) = guard_of-code g.kind (
      bytes_u32 g.anchor_tok
      ++ (bytes_u32 g.span.line ++ (bytes_u32 g.span.col ++ (bytes_u32 g.span.len ++ rest)))) in
    got _ (u16-bytes (guard_code g.kind) _ small) (
      got _ (u16-bytes 0 _ (omega arith)) (
        got _ known (
          got _ (u32-bytes g.anchor_tok _ fits.0) (
            got _ (u32-bytes g.span.line _ fits.1) (
              got _ (u32-bytes g.span.col _ fits.2)
                (got _ (u32-bytes g.span.len _ fits.3) refl))))))

read_guards-bytes :
    (gs : List GuardRec) (rest : List ℕ)
    → All Fits gs
    → read_guards (length gs) (guards_bytes gs ++ rest) ≡ some (gs, rest)
unfolding read_guards guards_bytes guard_bytes bytes_u16 bytes_u32
read_guards-bytes [] rest fits = refl
read_guards-bytes (g ∷ gs) rest fits =
    got _ (read_guard-bytes g (guards_bytes gs ++ rest) fits.0)
      (got _ (read_guards-bytes gs rest fits.1) refl)

read_caps-bytes :
    (cs : List CapKind) (rest : List ℕ)
    → read_caps (length cs) (caps_bytes cs ++ rest) ≡ some (cs, rest)
unfolding read_caps read_cap caps_bytes bytes_u16
read_caps-bytes [] rest = refl
read_caps-bytes (c ∷ cs) rest =
    let (small, known) = cap_of-code c (caps_bytes cs ++ rest) in
    got _ (got _ (u16-bytes (cap_code c) _ small) (got _ (u16-bytes 0 _ (omega arith)) known))
      (got _ (read_caps-bytes cs rest) refl)

-- The bytes of the exec meta are read back: the entry offset, the code size, the guards in order and the
-- capabilities, where the numbers are of 32 bits and so are the counts.
pub read_meta-bytes :
    (entry_offset code_size : ℕ) (ctx : CiamCtx)
    → entry_offset < u32_mod
    → code_size < u32_mod
    → length ctx.guards < u32_mod
    → length ctx.required_caps < u32_mod
    → All Fits ctx.guards
    → read_meta (exec_meta_bytes entry_offset code_size ctx)
      ≡ some ((entry_offset, code_size, ctx), [])
unfolding read_meta exec_meta_bytes header_bytes bytes_u16 bytes_u32
read_meta-bytes entry_offset code_size ctx e c gs cs fits =
    let whole_size : code_size % u32_mod ≡ code_size = ground (arith, c) in
    let whole_guards : length ctx.guards % u32_mod ≡ length ctx.guards = ground (arith, gs) in
    let whole_caps : length ctx.required_caps % u32_mod ≡ length ctx.required_caps =
      ground (arith, cs) in
    rw (whole_size, whole_guards, whole_caps)
      (got _ (u32-bytes 1296390213 _ (omega arith)) (
        got _ (u16-bytes 1 _ (omega arith)) (
          got _ (u16-bytes 0 _ (omega arith)) (
            got _ (u32-bytes entry_offset _ e) (
              got _ (u32-bytes code_size _ c) (
                got _ (u32-bytes (length ctx.guards) _ gs) (
                  got _ (u32-bytes (length ctx.required_caps) _ cs) (
                    got _ (read_guards-bytes ctx.guards _ fits) (
                      got _
                        (ap (λ bs. read_caps (length ctx.required_caps) bs) (sym (append-nil _))
                          ∙ read_caps-bytes ctx.required_caps [])
                        refl)))))))))
