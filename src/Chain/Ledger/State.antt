-- ===== src/Chain/Ledger/State.antt =====
-- account_object.hpp, witness_objects.hpp, global_property_object.hpp and wls_objects.hpp: the rows of
-- the tables, and reading and modifying a row.
use vidpow.Prelude.{ℕ, ◌+◌, ◌*◌, ◌^◌, ◌≡◌, Bool, some, List, ◌==◌, find}
use vidpow.Prelude.{
  Result, ok, ◌>>=◌, or_throw, or_throw-ok, ok-injective, >>=-eq-ok, unknown_object,
}
use vidpow.Prelude.Int.{ℤ}
use vidpow.Prelude.Sums.{replace_first}
use vidpow.Chain.Rewards.{CurveId}
use vidpow.Chain.Ledger.Content.{Comment, CommentVote}

-- `fc::array< share_type, WLS_MAX_PROXY_RECURSION_DEPTH >`, of four entries.
pub record ProxiedVotes : Type 0 where
  pub at_0 : ℤ
  pub at_1 : ℤ
  pub at_2 : ℤ
  pub at_3 : ℤ

pub record Account : Type 0 where
  pub name : ℕ
  pub proxy : ℕ
  pub voting_power : ℕ
  pub last_vote_time : ℕ
  pub balance : ℤ
  pub reward_steem_balance : ℤ
  pub reward_vesting_balance : ℤ
  pub reward_vesting_steem : ℤ
  pub curation_rewards : ℤ
  pub posting_rewards : ℤ
  pub vesting_shares : ℤ
  pub vesting_withdraw_rate : ℤ
  pub next_vesting_withdrawal : ℕ
  pub withdrawn : ℤ
  pub to_withdraw : ℤ
  pub withdraw_routes : ℕ
  pub proxied_vsf_votes : ProxiedVotes
  pub witnesses_voted_for : ℕ

pub data WitnessScheduleType : Type 0 where
  top19 timeshare miner unscheduled : WitnessScheduleType

pub record Witness : Type 0 where
  pub owner : ℕ
  pub signing_key : ℕ
  pub account_creation_fee : ℤ
  pub maximum_block_size : ℕ
  pub votes : ℤ
  pub schedule : WitnessScheduleType
  pub virtual_last_update : ℕ
  pub virtual_position : ℕ
  pub virtual_scheduled_time : ℕ
  pub total_missed : ℕ
  pub last_aslot : ℕ
  pub last_confirmed_block_num : ℕ
  pub running_version : ℕ
  pub hardfork_version_vote : ℕ
  pub hardfork_time_vote : ℕ

pub record WitnessVote : Type 0 where
  pub witness : ℕ
  pub account : ℕ

pub record WithdrawRoute : Type 0 where
  pub from_account : ℕ
  pub to_account : ℕ
  pub percent : ℕ
  pub auto_vest : Bool

pub record RewardFund : Type 0 where
  pub name : ℕ
  pub reward_balance : ℤ
  pub recent_claims : ℕ
  pub last_update : ℕ
  pub content_constant : ℕ
  pub percent_curation_rewards : ℕ
  pub percent_content_rewards : ℕ
  pub author_reward_curve : CurveId

pub record GlobalProperties : Type 0 where
  pub head_block_number : ℕ
  pub head_block_id : ℕ
  pub time : ℕ
  pub current_witness : ℕ
  pub current_supply : ℤ
  pub total_vesting_fund_steem : ℤ
  pub total_vesting_shares : ℤ
  pub total_reward_fund_steem : ℤ
  pub pending_rewarded_vesting_shares : ℤ
  pub pending_rewarded_vesting_steem : ℤ
  pub current_aslot : ℕ
  pub recent_slots_filled : ℕ
  pub participation_count : ℕ
  pub last_irreversible_block_num : ℕ
  pub maximum_block_size : ℕ
  pub vote_power_reserve_rate : ℕ

pub record WitnessSchedule : Type 0 where
  pub current_virtual_time : ℕ
  pub next_shuffle_block_num : ℕ
  pub current_shuffled_witnesses : List ℕ
  pub num_scheduled_witnesses : ℕ
  pub top19_weight : ℕ
  pub timeshare_weight : ℕ
  pub witness_pay_normalization_factor : ℕ
  pub median_account_creation_fee : ℤ
  pub median_maximum_block_size : ℕ

pub record HardforkProperty : Type 0 where
  -- The times of the hardforks that were processed, in their order.
  pub processed_hardforks : List ℕ
  pub last_hardfork : ℕ
  pub current_hardfork_version : ℕ
  pub next_hardfork : ℕ
  pub next_hardfork_time : ℕ

-- An entry of the table against duplicates.
pub record Transaction : Type 0 where
  pub trx_id : ℕ
  pub expiration : ℕ

-- `transactions` is the index `by_expiration`; a block summary is the id of a block.
pub record Chain : Type 0 where
  pub accounts : List Account
  pub witnesses : List Witness
  pub witness_votes : List WitnessVote
  pub comments : List Comment
  pub comment_votes : List CommentVote
  pub routes : List WithdrawRoute
  pub funds : List RewardFund
  pub gpo : GlobalProperties
  pub schedule : WitnessSchedule
  pub block_summaries : List ℕ
  pub transactions : List Transaction
  pub hardforks : HardforkProperty

-- WLS_PROXY_TO_SELF_ACCOUNT, the empty name.
abbrev pub proxy_to_self : ℕ
proxy_to_self = 0

-- WLS_POST_REWARD_FUND_NAME, "post": the number of its letters.
abbrev pub post_fund : ℕ
post_fund = b'p' + b'o' * 2 ^ 8 + b's' * 2 ^ 16 + b't' * 2 ^ 24

abbrev pub named : ℕ → Account → Bool
named n a = a.name == n

abbrev pub owned_by : ℕ → Witness → Bool
owned_by n w = w.owner == n

-- `database::get_account` and `database::get_witness`
unfoldable pub get_account : ℕ → Chain → Result Account
get_account n c = or_throw (find (named n) c.accounts) unknown_object

unfoldable pub get_witness : ℕ → Chain → Result Witness
get_witness n c = or_throw (find (owned_by n) c.witnesses) unknown_object

-- `modify`, on the row that a name leads to.
unfoldable pub modify_account : ℕ → (Account → Result Account) → Chain → Result Chain
modify_account n change c = do
  a ← get_account n c
  a' ← change a
  ok (record c { accounts = replace_first (named n) a' c.accounts })

unfoldable pub modify_witness : ℕ → (Witness → Result Witness) → Chain → Result Chain
modify_witness n change c = do
  w ← get_witness n c
  w' ← change w
  ok (record c { witnesses = replace_first (owned_by n) w' c.witnesses })

pub modify_account-ok :
    (n : ℕ) (change : Account → Result Account) (c : Chain) {c' : Chain}
    → modify_account n change c ≡ ok c'
    → (a : Account) × (a' : Account) × (find (named n) c.accounts ≡ some a)
      × (change a ≡ ok a')
      × (record c { accounts = replace_first (named n) a' c.accounts } ≡ c')
unfolding modify_account get_account
modify_account-ok n change c e =
    let (a, fa, e1) = >>=-eq-ok (get_account n c) _ e in
    let (a', ca, e2) = >>=-eq-ok (change a) _ e1 in
    (a, a', or_throw-ok _ unknown_object fa, ca, ok-injective e2)

pub modify_witness-ok :
    (n : ℕ) (change : Witness → Result Witness) (c : Chain) {c' : Chain}
    → modify_witness n change c ≡ ok c'
    → (w : Witness) × (w' : Witness) × (find (owned_by n) c.witnesses ≡ some w)
      × (change w ≡ ok w')
      × (record c { witnesses = replace_first (owned_by n) w' c.witnesses } ≡ c')
unfolding modify_witness get_witness
modify_witness-ok n change c e =
    let (w, fw, e1) = >>=-eq-ok (get_witness n c) _ e in
    let (w', cw, e2) = >>=-eq-ok (change w) _ e1 in
    (w, w', or_throw-ok _ unknown_object fw, cw, ok-injective e2)
