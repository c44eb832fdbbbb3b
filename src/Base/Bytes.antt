-- ===== src/Base/Bytes.antt =====
-- Machine words as byte lists, lowest byte first.
use rane_processing_language.Base.{
  ℕ, ◌+◌, ◌*◌, ◌/◌, ◌%◌, ◌^◌, ◌<◌, ◌≡◌, arith, List, [], ◌∷◌, ◌++◌, Option, none, some,
}

abbrev pub u8_mod : ℕ
u8_mod = 2 ^ 8

abbrev pub u32_mod : ℕ
u32_mod = 2 ^ 32

abbrev pub u64_mod : ℕ
u64_mod = 2 ^ 64

abbrev pub IsByte : ℕ → Type 0
IsByte b = b < u8_mod

-- Four bytes as a `uint32_t`, and eight as a `uint64_t`.
abbrev pub le32 : ℕ → ℕ → ℕ → ℕ → ℕ
le32 a b c d = a + 2 ^ 8 * b + 2 ^ 16 * c + 2 ^ 24 * d

-- The word that starts at the head of a list of bytes.
unfoldable pub read_u16 : List ℕ → Option ℕ
read_u16 (a ∷ b ∷ _) = some (a + 2 ^ 8 * b)
read_u16 _ = none

unfoldable pub read_u32 : List ℕ → Option ℕ
read_u32 (a ∷ b ∷ c ∷ d ∷ _) = some (le32 a b c d)
read_u32 _ = none

unfoldable pub read_u64 : List ℕ → Option ℕ
read_u64 (a ∷ b ∷ c ∷ d ∷ e ∷ f ∷ g ∷ h ∷ _) = some (le32 a b c d + 2 ^ 32 * le32 e f g h)
read_u64 _ = none

-- The bytes of a word, as `(uint8_t)(v >> 8 * i)`.
unfoldable pub bytes_u32 : ℕ → List ℕ
bytes_u32 v = v % u8_mod ∷ v / 2 ^ 8 % u8_mod ∷ v / 2 ^ 16 % u8_mod ∷ v / 2 ^ 24 % u8_mod ∷ []

unfoldable pub bytes_u64 : ℕ → List ℕ
bytes_u64 v =
    v % u8_mod
    ∷ v / 2 ^ 8 % u8_mod
    ∷ v / 2 ^ 16 % u8_mod
    ∷ v / 2 ^ 24 % u8_mod
    ∷ v / 2 ^ 32 % u8_mod
    ∷ v / 2 ^ 40 % u8_mod
    ∷ v / 2 ^ 48 % u8_mod
    ∷ v / 2 ^ 56 % u8_mod
    ∷ []

pub read_u32-bytes_u32 :
    (v : ℕ) (rest : List ℕ) → v < u32_mod → read_u32 (bytes_u32 v ++ rest) ≡ some v
unfolding read_u32 bytes_u32
read_u32-bytes_u32 v rest h = ground arith

pub read_u64-bytes_u64 :
    (v : ℕ) (rest : List ℕ) → v < u64_mod → read_u64 (bytes_u64 v ++ rest) ≡ some v
unfolding read_u64 bytes_u64
read_u64-bytes_u64 v rest h = ground arith
