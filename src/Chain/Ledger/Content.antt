-- ===== src/Chain/Ledger/Content.antt =====
-- comment_object.hpp: comments and the votes on them. `id` is the number that the code finds a comment
-- by. The text of a comment, and what only its place in a discussion tells, are left out.
use vidpow.Prelude.{ℕ, Bool, List}
use vidpow.Prelude.Int.{ℤ}

pub record Beneficiary : Type 0 where
  pub account : ℕ
  pub weight : ℕ

pub record Comment : Type 0 where
  pub id : ℕ
  pub author : ℕ
  pub last_payout : ℕ
  pub net_rshares : ℤ
  pub abs_rshares : ℤ
  pub vote_rshares : ℤ
  pub children_abs_rshares : ℤ
  pub cashout_time : ℕ
  pub max_cashout_time : ℕ
  pub total_vote_weight : ℕ
  pub reward_weight : ℕ
  pub total_payout_value : ℤ
  pub curator_payout_value : ℤ
  pub beneficiary_payout_value : ℤ
  pub author_rewards : ℤ
  pub max_accepted_payout : ℤ
  pub allow_curation_rewards : Bool
  pub beneficiaries : List Beneficiary

pub record CommentVote : Type 0 where
  pub voter : ℕ
  pub comment : ℕ
  pub weight : ℕ
