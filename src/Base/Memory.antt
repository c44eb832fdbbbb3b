-- ===== src/Base/Memory.antt =====
-- Byte arrays that code writes into: a run of bytes copied to a place, and a run read back.
use rane_processing_language.Base.{
  ℕ, zero, suc, ◌+◌, ◌≤◌, ◌<◌, ◌≡◌, refl, ap, ◌∙◌, arith, List, [], ◌∷◌, Option, length, length-set,
  set, take, drop, append-nil, some,
}
use rane_processing_language.Base.Bytes.{
  u32_mod, u64_mod, bytes_u32, bytes_u64, read_u32, read_u64, read_u32-bytes_u32,
  read_u64-bytes_u64,
}

-- `memcpy(c + at, bs)`, byte by byte. A byte past the end is dropped.
unfoldable pub write_bytes : List ℕ → ℕ → List ℕ → List ℕ
write_bytes c at [] = c
write_bytes c at (b ∷ bs) = write_bytes (set c at b) (suc at) bs

abbrev pub slice : List ℕ → ℕ → ℕ → List ℕ
slice c at n = take n (drop at c)

pub length-write_bytes :
    (c : List ℕ) (at : ℕ) (bs : List ℕ) → length (write_bytes c at bs) ≡ length c
unfolding write_bytes
length-write_bytes c at [] = refl
length-write_bytes c at (b ∷ bs) = length-write_bytes (set c at b) (suc at) bs ∙ length-set c at b

nil-write_bytes : (at : ℕ) (bs : List ℕ) → write_bytes [] at bs ≡ []
unfolding write_bytes
nil-write_bytes at [] = refl
nil-write_bytes at (b ∷ bs) = nil-write_bytes (suc at) bs

cons-write_bytes :
    (x : ℕ) (c : List ℕ) (at : ℕ) (bs : List ℕ)
    → write_bytes (x ∷ c) (suc at) bs ≡ x ∷ write_bytes c at bs
unfolding write_bytes
cons-write_bytes x c at [] = refl
cons-write_bytes x c at (b ∷ bs) = cons-write_bytes x (set c at b) (suc at) bs

head-write_bytes :
    (x b : ℕ) (c bs : List ℕ) → write_bytes (x ∷ c) 0 (b ∷ bs) ≡ b ∷ write_bytes c 0 bs
head-write_bytes x b c bs = unfold write_bytes in cons-write_bytes b c 0 bs

-- What was written is read back.
pub slice-write_bytes :
    (c : List ℕ) (at : ℕ) (bs : List ℕ)
    → at + length bs ≤ length c
    → slice (write_bytes c at bs) at (length bs) ≡ bs
slice-write_bytes c at [] h = refl
slice-write_bytes [] at (b ∷ bs) h = absurd (omega arith)
slice-write_bytes (x ∷ c) zero (b ∷ bs) h =
    rw (head-write_bytes x b c bs)
      (ap (λ (t : List ℕ). b ∷ t) (slice-write_bytes c 0 bs (omega arith)))
slice-write_bytes (x ∷ c) (suc at) (b ∷ bs) h =
    rw (cons-write_bytes x c at (b ∷ bs)) (slice-write_bytes c at (b ∷ bs) (omega arith))

-- A run before or behind the place is what it was.
pub slice-write_bytes_before :
    (c : List ℕ) (at : ℕ) (bs : List ℕ) (q n : ℕ)
    → q + n ≤ at
    → slice (write_bytes c at bs) q n ≡ slice c q n
slice-write_bytes_before [] at bs q n h = rw (nil-write_bytes at bs)
slice-write_bytes_before (x ∷ c) zero bs zero zero h = refl
slice-write_bytes_before (x ∷ c) zero bs zero (suc n) h = absurd (omega arith)
slice-write_bytes_before (x ∷ c) zero bs (suc q) n h = absurd (omega arith)
slice-write_bytes_before (x ∷ c) (suc at) bs zero zero h = refl
slice-write_bytes_before (x ∷ c) (suc at) bs zero (suc n) h =
    rw (cons-write_bytes x c at bs)
      (ap (λ (t : List ℕ). x ∷ t) (slice-write_bytes_before c at bs 0 n (omega arith)))
slice-write_bytes_before (x ∷ c) (suc at) bs (suc q) n h =
    rw (cons-write_bytes x c at bs) (slice-write_bytes_before c at bs q n (omega arith))

pub slice-write_bytes_behind :
    (c : List ℕ) (at : ℕ) (bs : List ℕ) (q n : ℕ)
    → at + length bs ≤ q
    → slice (write_bytes c at bs) q n ≡ slice c q n
slice-write_bytes_behind [] at bs q n h = rw (nil-write_bytes at bs)
slice-write_bytes_behind (x ∷ c) at [] q n h = unfold write_bytes in refl
slice-write_bytes_behind (x ∷ c) zero (b ∷ bs) zero n h = absurd (omega arith)
slice-write_bytes_behind (x ∷ c) zero (b ∷ bs) (suc q) n h =
    rw (head-write_bytes x b c bs) (slice-write_bytes_behind c 0 bs q n (omega arith))
slice-write_bytes_behind (x ∷ c) (suc at) (b ∷ bs) zero n h = absurd (omega arith)
slice-write_bytes_behind (x ∷ c) (suc at) (b ∷ bs) (suc q) n h =
    rw (cons-write_bytes x c at (b ∷ bs)) (slice-write_bytes_behind c at (b ∷ bs) q n (omega arith))

-- The words that stand at a place.
abbrev pub word_at : List ℕ → ℕ → Option ℕ
word_at c at = read_u32 (slice c at 4)

abbrev pub long_at : List ℕ → ℕ → Option ℕ
long_at c at = read_u64 (slice c at 8)

slice_u32 :
    (c : List ℕ) (at v : ℕ)
    → at + 4 ≤ length c
    → slice (write_bytes c at (bytes_u32 v)) at 4 ≡ bytes_u32 v
unfolding bytes_u32
slice_u32 c at v h = slice-write_bytes c at (bytes_u32 v) h

slice_u64 :
    (c : List ℕ) (at v : ℕ)
    → at + 8 ≤ length c
    → slice (write_bytes c at (bytes_u64 v)) at 8 ≡ bytes_u64 v
unfolding bytes_u64
slice_u64 c at v h = slice-write_bytes c at (bytes_u64 v) h

pub word_at-write_bytes :
    (c : List ℕ) (at v : ℕ)
    → at + 4 ≤ length c
    → v < u32_mod
    → word_at (write_bytes c at (bytes_u32 v)) at ≡ some v
word_at-write_bytes c at v h lt =
    rw (slice_u32 c at v h) (rw append-nil at (read_u32-bytes_u32 v [] lt))

pub long_at-write_bytes :
    (c : List ℕ) (at v : ℕ)
    → at + 8 ≤ length c
    → v < u64_mod
    → long_at (write_bytes c at (bytes_u64 v)) at ≡ some v
long_at-write_bytes c at v h lt =
    rw (slice_u64 c at v h) (rw append-nil at (read_u64-bytes_u64 v [] lt))
