-- ===== src/Ids.antt =====
-- ciam_ids.h: stable keys, and ids by rank. `std::sort` is the standard library's, and a parameter.
pub mod Ranks
mod Tests
use rane_processing_language.Base.{
  ℕ, zero, suc, ◌+◌, ◌*◌, ◌/◌, ◌%◌, ◌^◌, bit_xor, Bool, true, false, not, ◌&&◌, ◌||◌, List, [], ◌∷◌,
  ltb, ◌==◌, if◌then◌else◌, length,
}
use rane_processing_language.Base.Bytes.{u32_mod, u64_mod, bytes_u32}

-- The hash of bytes, from the hash so far.
unfoldable pub fnv1a64_from : ℕ → List ℕ → ℕ
fnv1a64_from h [] = h
fnv1a64_from h (b ∷ bs) = fnv1a64_from (bit_xor h b * 1099511628211 % u64_mod) bs

abbrev pub fnv1a64 : List ℕ → ℕ
fnv1a64 bytes = fnv1a64_from 1469598103934665603 bytes

abbrev pub make_stable_seed_from_canonical_source : List ℕ → ℕ
make_stable_seed_from_canonical_source canonical_utf8 = fnv1a64 canonical_utf8

pub record Span : Type 0 where
  pub line : ℕ
  pub col : ℕ
  pub len : ℕ

pub record StableKey : Type 0 where
  pub hi : ℕ
  pub lo : ℕ

unfoldable pub key_less : StableKey → StableKey → Bool
key_less a b = ltb a.hi b.hi || (a.hi == b.hi && ltb a.lo b.lo)

unfoldable pub mix_key : ℕ → ℕ → ℕ → ℕ → StableKey
mix_key a b c d = record {
  hi = bit_xor (a * 0x9E3779B185EBCA87 % u64_mod) ((c + 0xD6E8FEB86659FD93) % u64_mod);
  lo = bit_xor (b * 0xC2B2AE3D27D4EB4F % u64_mod) ((d + 0x165667B19E3779F9) % u64_mod);
}

-- `uint64_t(x) << 32` of a 32-bit number.
abbrev high : ℕ → ℕ
high x = x * 2 ^ 32 % u64_mod

unfoldable pub fold_path : ℕ → List ℕ → ℕ
fold_path hp [] = hp
fold_path hp (x ∷ path) =
    fold_path (bit_xor hp (fnv1a64 (bytes_u32 x)) * 1099511628211 % u64_mod) path

unfoldable pub key_from_lexical_path : ℕ → ℕ → List ℕ → ℕ → ℕ → StableKey
key_from_lexical_path stable_seed fn path rule_id role_tag =
    mix_key (bit_xor (bit_xor stable_seed (high fn)) rule_id) (bit_xor 0xA5A5A5A5A5A5A5A5 role_tag)
      (fold_path 1469598103934665603 path) (bit_xor (fn * 2 % u64_mod) stable_seed)

unfoldable pub key_from_span_fallback : ℕ → ℕ → Span → ℕ → ℕ → ℕ → StableKey
key_from_span_fallback stable_seed fn s rule_id role_tag neighborhood_hint =
    mix_key (bit_xor (bit_xor stable_seed (high fn)) rule_id) (bit_xor (high s.line) s.col)
      (bit_xor (high s.len) role_tag)
      (bit_xor neighborhood_hint (fn * 0x9E3779B185EBCA87 % u64_mod))

pub record NodeStability : Type 0 where
  pub has_stable_node_id : Bool
  pub has_lexical_path : Bool
  pub lexical_path : List ℕ

unfoldable pub make_best_key_for_node : ℕ → ℕ → ℕ → ℕ → ℕ → NodeStability → Span → ℕ → StableKey
make_best_key_for_node stable_seed fn rule_id role_tag nid st where_ neighborhood_hint =
    if st.has_lexical_path && not (length st.lexical_path == 0)
    then key_from_lexical_path stable_seed fn st.lexical_path rule_id role_tag
    else if st.has_stable_node_id && not (nid == 0)
    then key_from_lexical_path stable_seed fn (nid ∷ []) rule_id role_tag
    else key_from_span_fallback stable_seed fn where_ rule_id role_tag neighborhood_hint

pub record IdCandidate : Type 0 where
  pub key : StableKey
  pub fn : ℕ
  pub span : Span
  pub rule_id : ℕ
  pub role_tag : ℕ
  pub nid : ℕ
  pub assigned : ℕ

-- The comparison that `std::sort` is given, and one link of its chain of ties.
unfoldable pub tie : ℕ → ℕ → Bool → Bool
tie a b rest = if not (a == b) then ltb a b else rest

unfoldable pub before : IdCandidate → IdCandidate → Bool
before a b =
    if key_less a.key b.key
    then true
    else if key_less b.key a.key
    then false
    else tie a.fn b.fn (
        tie a.span.line b.span.line (
          tie a.span.col b.span.col (
            tie a.span.len b.span.len
              (tie a.rule_id b.rule_id (tie a.role_tag b.role_tag (ltb a.nid b.nid))))))

unfoldable pub number_from : ℕ → List IdCandidate → List IdCandidate
number_from next [] = []
number_from next (it ∷ items) =
    record it { assigned = next } ∷ number_from ((next + 1) % u32_mod) items

module _ (sort : (IdCandidate → IdCandidate → Bool) → List IdCandidate → List IdCandidate) where
  unfoldable pub assign_ids_sorted : List IdCandidate → ℕ → List IdCandidate
  assign_ids_sorted items start_at = number_from start_at (sort before items)

abbrev pub role_guard : ℕ
role_guard = 0x47415244

abbrev pub role_trace : ℕ
role_trace = 0x54524143

abbrev pub role_block : ℕ
role_block = 0x424C4B21

abbrev pub role_tag_guard : ℕ → ℕ
role_tag_guard guard_kind = bit_xor role_guard (guard_kind * 2 ^ 16 % u32_mod)

abbrev pub role_tag_trace : ℕ → ℕ
role_tag_trace trace_kind = bit_xor role_trace (trace_kind * 2 ^ 16 % u32_mod)

abbrev pub role_tag_block : ℕ → ℕ
role_tag_block block_kind = bit_xor role_block (block_kind * 2 ^ 16 % u32_mod)
