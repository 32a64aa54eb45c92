-- ===== src/Chain/Cashout.antt =====
-- database.cpp: the payout of a comment to its curators, its beneficiaries and its author, in the build
-- with all fields and with old votes cleared (IS_LOW_MEM off, CLEAR_VOTES on). `divide` is the division
-- of `share_type` by a number and `to_uint64` that of `uint128_t`, which are the fc library's.
pub mod Rounds
pub mod Balances
pub mod Conservation
pub mod Dates
pub mod Counts
pub mod Runs
mod Tests
use vidpow.Prelude.{
  ℕ, ◌*◌, ◌/◌, ◌%◌, ◌^◌, ◌-◌, Bool, true, false, not, Option, none, some, List, [], ◌∷◌, ◌++◌, ltb,
  ◌==◌, ◌&&◌, if◌then◌else◌, find, filter, sort_by,
}
use vidpow.Prelude.{Result, ok, ◌>>=◌, or_throw, unknown_object}
use vidpow.Prelude.Int.{ℤ, pos, ◌+ℤ◌, ◌-ℤ◌, ◌*ℤ◌, ltb_ℤ}
use vidpow.Prelude.Sums.{replace_first}
use vidpow.Protocol.Asset.{signed64, to_u128}
use vidpow.Chain.Rewards.{WideNumbers, RewardContext, get_rshare_reward}
use vidpow.Chain.Ledger.Content.{Beneficiary, Comment, CommentVote}
use vidpow.Chain.Ledger.State.{Account, RewardFund, Chain, post_fund, get_account, modify_account}
use vidpow.Chain.Ledger.Supply.{wls, create_vesting}

-- `get_reward_fund`, of any comment.
unfoldable pub get_reward_fund : Chain → Result RewardFund
get_reward_fund c = or_throw (find (λ f. f.name == post_fund) c.funds) unknown_object

abbrev pub is_comment : ℕ → Comment → Bool
is_comment id comment = comment.id == id

unfoldable pub modify_comment : ℕ → (Comment → Result Comment) → Chain → Result Chain
modify_comment id change c = do
  comment ← or_throw (find (is_comment id) c.comments) unknown_object
  comment' ← change comment
  ok (record c { comments = replace_first (is_comment id) comment' c.comments })

-- The votes on a comment, by voter, and in the order of `by_comment_weight_voter`.
abbrev pub votes_by : ℕ → List Account → List CommentVote → List CommentVote
votes_by id [] votes = []
votes_by id (a ∷ more) votes =
    filter (λ v. v.comment == id && v.voter == a.name) votes ++ votes_by id more votes

unfoldable pub votes_on : ℕ → Chain → List CommentVote
votes_on id c = sort_by (λ v w. ltb w.weight v.weight) (votes_by id c.accounts c.comment_votes)

-- The loop that removes the votes of a comment.
abbrev pub remove_votes : ℕ → Chain → Chain
remove_votes id c = record c { comment_votes = filter (λ v. not (v.comment == id)) c.comment_votes }

-- A payout is only made for positive rshares; negative ones stay.
unfoldable pub reset_comment : ℕ → Comment → Result Comment
reset_comment now comment = ok (record comment {
  net_rshares = if ltb_ℤ (pos 0) comment.net_rshares then pos 0 else comment.net_rshares;
  children_abs_rshares = pos 0;
  abs_rshares = pos 0;
  vote_rshares = pos 0;
  total_vote_weight = 0;
  max_cashout_time = 2 ^ 32 - 1;
  cashout_time = 2 ^ 32 - 1;
  last_payout = now;
})

module _ (safe : ℤ → Result ℤ) (divide : ℤ → ℕ → Result ℤ) (to_uint64 : ℕ → Result ℕ) where
  unfoldable pub add_curation : ℤ → Account → Result Account
  add_curation claim a = do
    total ← safe (a.curation_rewards +ℤ claim)
    ok (record a { curation_rewards = total })

  unfoldable pub add_posting : ℤ → Account → Result Account
  add_posting tokens a = do
    total ← safe (a.posting_rewards +ℤ tokens)
    ok (record a { posting_rewards = total })

  unfoldable pub pay_curator : ℕ → ℤ → Chain → Result Chain
  pay_curator voter claim c = do
    a ← get_account voter c
    (_, c') ← create_vesting safe a.name (wls claim) true c
    modify_account a.name (add_curation claim) c'

  -- The loop of `pay_curators`: what is left of the rewards.
  unfoldable pub pay_votes : ℤ → ℕ → ℤ → List CommentVote → Chain → Result (ℤ × Chain)
  pay_votes max_rewards total_weight unclaimed [] c = ok (unclaimed, c)
  pay_votes max_rewards total_weight unclaimed (v ∷ vs) c = do
    claim ← to_uint64 (to_u128 max_rewards * v.weight % 2 ^ 128 / total_weight)
    if claim == 0 then pay_votes max_rewards total_weight unclaimed vs c else (do
      left ← safe (unclaimed -ℤ signed64 claim)
      c' ← pay_curator v.voter (signed64 claim) c
      pay_votes max_rewards total_weight left vs c')

  -- `pay_curators`: the unclaimed rewards, and what `max_rewards` is at the end.
  unfoldable pub pay_curators : Comment → ℤ → Chain → Result (ℤ × ℤ × Chain)
  pay_curators comment max_rewards c =
      if not comment.allow_curation_rewards
      then (do claimed ← safe (pos 0 -ℤ pos 0); ok (pos 0, claimed, c))
      else (do
        (unclaimed, c') ←
            (if ltb 0 comment.total_vote_weight
              then pay_votes max_rewards comment.total_vote_weight max_rewards
                  (votes_on comment.id c) c
              else ok (max_rewards, c))
        claimed ← safe (max_rewards -ℤ unclaimed)
        ok (unclaimed, claimed, c'))

  -- The loop over the beneficiaries.
  unfoldable pub pay_beneficiaries : ℤ → ℤ → List Beneficiary → Chain → Result (ℤ × Chain)
  pay_beneficiaries author_tokens total [] c = ok (total, c)
  pay_beneficiaries author_tokens total (b ∷ bs) c = do
    product ← safe (author_tokens *ℤ pos b.weight)
    tokens ← divide product 10000
    a ← get_account b.account c
    (_, c') ← create_vesting safe a.name (wls tokens) true c
    total' ← safe (total +ℤ tokens)
    pay_beneficiaries author_tokens total' bs c'

  unfoldable pub adjust_total_payout : ℤ → ℤ → ℤ → Comment → Result Comment
  adjust_total_payout payout curators beneficiaries comment = do
    p ← safe (comment.total_payout_value +ℤ payout)
    q ← safe (comment.curator_payout_value +ℤ curators)
    r ← safe (comment.beneficiary_payout_value +ℤ beneficiaries)
    ok (record comment {
      total_payout_value = p;
      curator_payout_value = q;
      beneficiary_payout_value = r;
    })

  unfoldable pub add_author_rewards : ℤ → Comment → Result Comment
  add_author_rewards tokens comment = do
    total ← safe (comment.author_rewards +ℤ tokens)
    ok (record comment { author_rewards = total })

  -- What the author gets, with the totals of the comment and of the account.
  unfoldable pub pay_author : Comment → ℤ → ℤ → ℤ → Chain → Result Chain
  pay_author comment tokens curation beneficiaries c = do
    a ← get_account comment.author c
    (_, c1) ← create_vesting safe a.name (wls tokens) true c
    c2 ← modify_comment comment.id (adjust_total_payout tokens curation beneficiaries) c1
    c3 ← modify_comment comment.id (add_author_rewards tokens) c2
    modify_account a.name (add_posting tokens) c3

  -- The payout of a positive reward: what is claimed of the fund.
  unfoldable pub pay_reward : Comment → ℕ → ℕ → Chain → Result (ℤ × Chain)
  pay_reward comment percent reward c = do
    curators ← to_uint64 (reward * percent % 2 ^ 128 / 10000)
    all ← to_uint64 reward
    author ← safe (signed64 all -ℤ signed64 curators)
    (unclaimed, curation, c1) ← pay_curators comment (signed64 curators) c
    author_tokens ← safe (author +ℤ unclaimed)
    claimed ← safe (author_tokens +ℤ curation)
    (beneficiaries, c2) ← pay_beneficiaries author_tokens (pos 0) comment.beneficiaries c1
    rest ← safe (author_tokens -ℤ beneficiaries)
    c3 ← pay_author comment rest curation beneficiaries c2
    ok (claimed, c3)

  module _ (wide : WideNumbers) where
    -- The payout of positive rshares, with the total of claims and the balance of the fund.
    unfoldable pub pay_rshares : ℕ → ℤ → Comment → Chain → Result (ℤ × Chain)
    pay_rshares recent_claims balance comment c = do
      rf ← get_reward_fund c
      reward ← get_rshare_reward wide (record {
        rshares = comment.net_rshares;
        reward_weight = comment.reward_weight;
        max_payout = comment.max_accepted_payout;
        total_reward_shares2 = recent_claims;
        total_reward_fund_steem = balance;
        reward_curve = rf.author_reward_curve;
        content_constant = rf.content_constant;
      })
      let reward_tokens = to_u128 (signed64 reward)
      if reward_tokens == 0
          then ok (pos 0, c)
          else pay_reward comment rf.percent_curation_rewards reward_tokens c

    -- `cashout_comment_helper`: what is claimed of the fund.
    unfoldable pub cashout_comment_helper : ℕ → ℤ → Comment → Chain → Result (ℤ × Chain)
    cashout_comment_helper recent_claims balance comment c = do
      (claimed, c1) ←
          (if ltb_ℤ (pos 0) comment.net_rshares
            then pay_rshares recent_claims balance comment c
            else ok (pos 0, c))
      c2 ← modify_comment comment.id (reset_comment c1.gpo.time) c1
      ok (claimed, remove_votes comment.id c2)
