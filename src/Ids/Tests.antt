-- ===== src/Ids/Tests.antt =====
-- Candidates in a row, and the theorems applied to them.
use rane_processing_language.Base.{ℕ, ◌≡◌, refl, true, false}
use rane_processing_language.Ids.{IdCandidate, key_less, tie, before}
use rane_processing_language.Ids.Ranks.{fields, before_trans, before-total}

-- A candidate with this node and this id; the key and the other fields are the same for all.
abbrev candidate : ℕ → ℕ → IdCandidate
candidate nid assigned = record {
  key = record { hi = 1; lo = 2 };
  fn = 3;
  span = record { line = 4; col = 5; len = 6 };
  rule_id = 7;
  role_tag = 8;
  nid = nid;
  assigned = assigned;
}

one_before_two : before (candidate 1 0) (candidate 2 0) ≡ true
unfolding before key_less tie
one_before_two = refl

two_before_three : before (candidate 2 0) (candidate 3 0) ≡ true
unfolding before key_less tie
two_before_three = refl

before_trans_example : before (candidate 1 0) (candidate 3 0) ≡ true
before_trans_example =
    before_trans (candidate 1 0) (candidate 2 0) (candidate 3 0) one_before_two two_before_three

neither_before : before (candidate 1 0) (candidate 1 9) ≡ false
unfolding before key_less tie
neither_before = refl

nor_behind : before (candidate 1 9) (candidate 1 0) ≡ false
unfolding before key_less tie
nor_behind = refl

before-total_example : fields (candidate 1 0) ≡ fields (candidate 1 9)
before-total_example = before-total (candidate 1 0) (candidate 1 9) neither_before nor_behind
