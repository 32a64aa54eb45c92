-- ===== src/Chain/Rewards.antt =====
-- libraries/chain/util/reward.cpp: the reward curves and the reward of a comment. A `uint128_t` and a
-- `u256` are numbers with their wrap-around written out. WLS_MIN_PAYOUT_STEEM is 20.
pub mod Payouts
pub mod Tests
use Prim.Native.Nat.{bit_or}
use vidpow.Prelude.{
  ℕ, zero, suc, ◌+◌, ◌-◌, ◌*◌, ◌/◌, ◌%◌, ◌^◌, min, Bool, true, false, ◌==◌, ltb, leb, if◌then◌else◌,
}
use vidpow.Prelude.{Result, ok, err, ◌>>=◌, ◌>>◌, assert}
use vidpow.Prelude.Int.{ℤ, pos, negsuc}

-- What reward.cpp takes from the libraries: the highest bit of a positive 64-bit number, and the
-- division of `fc::uint128`, which may fail at 0.
pub record WideNumbers : Type 0 where
  pub find_msb : ℕ → ℕ
  pub div : ℕ → ℕ → Result ℕ

pub data CurveId : Type 0 where
  quadratic quadratic_curation linear square_root : CurveId

pub record RewardContext : Type 0 where
  pub rshares : ℤ
  pub reward_weight : ℕ
  pub max_payout : ℤ
  pub total_reward_shares2 : ℕ
  pub total_reward_fund_steem : ℤ
  pub reward_curve : CurveId
  pub content_constant : ℕ

-- An `int64_t` as an unsigned number of `w` bits.
abbrev pub to_unsigned : ℕ → ℤ → ℕ
to_unsigned w (pos n) = n % 2 ^ w
to_unsigned w (negsuc n) = 2 ^ w - 1 - n

abbrev positive : ℤ → Bool
positive (pos n) = ltb 0 n
positive (negsuc n) = false

module _ (wide : WideNumbers) where
  pub find_msb : ℕ → ℕ
  find_msb u =
      let hi = u / 2 ^ 64 in
      let lo = u % 2 ^ 64 in
      if hi == 0
      then wide.find_msb (if lo == 0 then 1 else lo) % 2 ^ 8
      else (wide.find_msb hi + 64) % 2 ^ 8

  pub approx_sqrt : ℕ → ℕ
  unfolding find_msb
  approx_sqrt x =
      let msb_x = find_msb x in
      let msb_z = msb_x / 2 in
      let msb_z_bit = 2 ^ msb_z % 2 ^ 64 in
      let mantissa_x = x % 2 ^ msb_x in
      let mantissa_z_hi = if msb_x % 2 == 0 then 0 else msb_z_bit in
      let mantissa_z_lo = mantissa_x / 2 ^ (msb_x - msb_z) % 2 ^ 64 in
      if x == 0 then 0 else bit_or msb_z_bit (bit_or mantissa_z_hi mantissa_z_lo / 2)

  unfoldable pub evaluate_reward_curve : ℕ → CurveId → ℕ → Result ℕ
  unfolding approx_sqrt
  evaluate_reward_curve rshares quadratic s =
      let t = (rshares + s) % 2 ^ 128 in
      ok ((t * t % 2 ^ 128 + 2 ^ 128 - s * s % 2 ^ 128) % 2 ^ 128)
  evaluate_reward_curve rshares quadratic_curation s =
      wide.div (rshares % 2 ^ 64 * 2 ^ 64) ((s * 2 % 2 ^ 128 + rshares) % 2 ^ 128)
  evaluate_reward_curve rshares linear s = ok rshares
  evaluate_reward_curve rshares square_root s = ok (approx_sqrt rshares)

  unfoldable pub claim_of : RewardContext → Result ℕ
  unfolding evaluate_reward_curve
  claim_of ctx = do
    c ← evaluate_reward_curve (to_unsigned 128 ctx.rshares) ctx.reward_curve ctx.content_constant
    ok (c * ctx.reward_weight % 2 ^ 256 / 10000)

  unfoldable pub get_rshare_reward : RewardContext → Result ℕ
  unfolding claim_of
  get_rshare_reward ctx = do
    assert (positive ctx.rshares)
    assert (ltb 0 ctx.total_reward_shares2)
    claim ← claim_of ctx
    let fund = to_unsigned 256 ctx.total_reward_fund_steem
    let payout = fund * claim % 2 ^ 256 / ctx.total_reward_shares2
    assert (leb payout (2 ^ 63 - 1))
    let paid = if ltb payout 20 then 0 else payout
    ok (min paid (to_unsigned 64 ctx.max_payout))
