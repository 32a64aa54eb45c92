-- ===== src/Chain/PowerDown/Tests.antt =====
-- Tests of the withdrawals: account 2, which has account 1 as its proxy, withdraws 200 shares, of which
-- 30% go to account 4 as shares. A route to account 1, whose id is 0, is passed over.
use vidpow.Prelude.{
  ℕ, suc, ◌-◌, ◌/◌, ◌%◌, ◌^◌, ◌≡◌, refl, true, Bool-cases, inl, inr, some, [], ◌∷◌, if◌then◌else◌,
  arith,
}
use vidpow.Prelude.{Result, ok, err, assertion, ok-injective}
use vidpow.Prelude.Int.{ℤ, pos, ◌+ℤ◌, ◌-ℤ◌, ltb_ℤ}
use vidpow.Protocol.Asset.{
  IsExact, IsWord64, asset_add, asset_sub, mul_price, convert, symbol_name, same_text, c_string,
  signed64, to_u128,
}
use vidpow.Chain.Ledger.State.{
  Account, Chain, get_account, get_witness, modify_account, modify_witness,
}
use vidpow.Chain.Ledger.Votes.{
  scheduled_time, change_votes, adjust_witness_vote, adjust_each, adjust_witness_votes, add_proxied,
  proxy_votes, adjust_proxied, adjust_proxied_witness_votes,
}
use vidpow.Chain.Ledger.Supply.{get_vesting_share_price, add_vesting}
use vidpow.Chain.Evaluators.Tests.{chain, account, witness}
use vidpow.Chain.Funds.Tests.{without_rewards}
use vidpow.Chain.PowerDown.{
  routes_to, routes_of, following, amount_due, route_part, deposit_vests, first_pass, take_fund,
  second_pass, reschedule, withdraw_shares, convert_rest, withdraw, process_from,
  process_vesting_withdrawals,
}
use vidpow.Chain.PowerDown.Balances.{IsLowWord}
use vidpow.Chain.PowerDown.Runs.{Loop, process_vesting_withdrawals-Loop}
use vidpow.Chain.PowerDown.Conservation.{
  KeepsSign, Withdrawable, process_vesting_withdrawals-Withdrawable,
}

-- `int64_t` arithmetic that throws where it overflows.
abbrev safe : ℤ → Result ℤ
safe x = if ltb_ℤ (pos (2 ^ 63 - 1)) x then err assertion else ok x

exact : IsExact safe
exact x y e = elim (Bool-cases (ltb_ℤ (pos (2 ^ 63 - 1)) x)) [
  | inl t ↦ absurd (ground (arith, e))
  | inr f ↦ ok-injective (rw f at e)
]

fits : IsWord64 safe
fits x y e = ground (arith, e)

abbrev remainder : ℤ → ℤ → Result ℤ
remainder (pos x) (pos (suc y)) = ok (pos (x % suc y))
remainder _ _ = err assertion

sign : KeepsSign remainder
sign x y r p q e = ground (arith, e)

abbrev to_uint64 : ℕ → Result ℕ
to_uint64 x = ok (x % 2 ^ 64)

words : IsLowWord to_uint64
words x y h e = ground (arith, e)

abbrev never : ℕ
never = 2 ^ 32 - 1

-- The chain with a power down, by the shares and balances of the three accounts and the funds.
abbrev powering_down : ℤ → Account → ℤ → ℤ → ℤ → Chain
powering_down proxied from others fund vesting = record chain {
  accounts =
      record (account 1 0 (pos 1000) (pos 1000) proxied) { next_vesting_withdrawal = never }
      ∷ from
      ∷ record (without_rewards 4 (pos 0) others) { next_vesting_withdrawal = never }
      ∷ [];
  witnesses = witness (pos 3000) ∷ [];
  routes =
      record { from_account = 2; to_account = 1; percent = 5000; auto_vest = true }
      ∷ record { from_account = 2; to_account = 4; percent = 3000; auto_vest = true }
      ∷ [];
  gpo = record chain.gpo { total_vesting_fund_steem = fund; total_vesting_shares = vesting };
}

abbrev before : Chain
before =
    powering_down (pos 2000)
      (record (account 2 1 (pos 500) (pos 2000) (pos 0)) {
        next_vesting_withdrawal = 21;
        vesting_withdraw_rate = pos 200;
        to_withdraw = pos 2600;
      })
      (pos 0) (pos 300) (pos 3000)

abbrev after : Chain
after =
    record (powering_down (pos 1800)
      (record (account 2 1 (pos 514) (pos 1800) (pos 0)) {
        next_vesting_withdrawal = 604821;
        vesting_withdraw_rate = pos 200;
        to_withdraw = pos 2600;
        withdrawn = pos 200;
      })
      (pos 60) (pos 286) (pos 2860)) {
        witnesses =
            record (witness (pos 2800)) { virtual_scheduled_time = (2 ^ 128 - 1) / 2801 } ∷ [];
      }

before-Withdrawable : Withdrawable before
unfolding ◌+ℤ◌
before-Withdrawable = record {
  balanced = record { supply = refl; vesting = refl; votes = refl; pending = refl };
  solvent = (
    record { shares = omega arith; wanted = omega arith; rate = omega arith; small = omega arith },
    (
      record {
        shares = omega arith;
        wanted = omega arith;
        rate = omega arith;
        small = omega arith;
      },
      (
        record {
          shares = omega arith;
          wanted = omega arith;
          rate = omega arith;
          small = omega arith;
        },
        tt,
      ),
    ),
  );
  percents = (omega arith, (omega arith, tt));
  unique = ((refl, (refl, tt)), ((refl, tt), (tt, tt)));
}

withdrawn : process_vesting_withdrawals safe remainder to_uint64 before ≡ ok after
unfolding process_vesting_withdrawals process_from following withdraw amount_due routes_of routes_to
    first_pass second_pass route_part deposit_vests take_fund withdraw_shares reschedule
    convert_rest asset_add asset_sub get_account get_witness modify_account add_vesting
    get_vesting_share_price mul_price convert symbol_name same_text c_string signed64 to_u128
    adjust_proxied_witness_votes adjust_proxied proxy_votes add_proxied adjust_witness_votes
    adjust_each adjust_witness_vote modify_witness change_votes scheduled_time ◌+ℤ◌ ◌-ℤ◌
withdrawn = refl

process_vesting_withdrawals-Withdrawable_example : Withdrawable after
process_vesting_withdrawals-Withdrawable_example =
    process_vesting_withdrawals-Withdrawable safe exact fits remainder sign to_uint64 words before
      {c' = after} before-Withdrawable withdrawn

process_vesting_withdrawals-Loop_example :
    Loop safe exact fits remainder to_uint64
      (some 2)
      before
      (process_vesting_withdrawals safe remainder to_uint64 before)
process_vesting_withdrawals-Loop_example =
    process_vesting_withdrawals-Loop safe exact fits remainder to_uint64 before
      ((refl, (refl, tt)), ((refl, tt), (tt, tt)))
