-- ===== src/Chain/Evaluators/Witnesses/Tests.antt =====
-- The theorem on votes for witnesses, where account 1 takes its vote for the witness 3 back.
use vidpow.Prelude.{
  ◌-◌, ◌^◌, ◌≡◌, refl, false, [], ◌∷◌, arith, ok, err, assertion, null_pointer, true,
}
use vidpow.Prelude.Int.{pos, ◌+ℤ◌, ◌-ℤ◌}
use vidpow.Protocol.Asset.{to_u128}
use vidpow.Chain.Ledger.State.{
  Account, Chain, get_account, get_witness, modify_account, modify_witness,
}
use vidpow.Chain.Ledger.Votes.{scheduled_time, change_votes, adjust_witness_vote}
use vidpow.Chain.Evaluators.Witnesses.{
  proxy_chain, count_down, vote_weight, withdraw_vote, account_witness_vote,
}
use vidpow.Chain.Evaluators.Witnesses.Counts.{Counted, account_witness_vote-Counted}
use vidpow.Chain.Evaluators.Tests.{account, witness, chain}

chain-Counted : Counted chain
chain-Counted = record { counts = λ n a e. ground arith; bound = λ n a e. ground arith }

abbrev after_vote : Chain
after_vote = record chain {
  accounts =
      record (account 1 0 (pos 1000) (pos 1000) (pos 2000)) { witnesses_voted_for = 0 }
      ∷ account 2 1 (pos 500) (pos 2000) (pos 0)
      ∷ [];
  witnesses = record (witness (pos 0)) { virtual_scheduled_time = 2 ^ 128 - 1 } ∷ [];
  witness_votes = [];
}

taken_back : account_witness_vote ok 1 3 false chain ≡ ok after_vote
unfolding account_witness_vote get_account get_witness withdraw_vote vote_weight adjust_witness_vote
    modify_witness change_votes scheduled_time to_u128 modify_account count_down ◌+ℤ◌ ◌-ℤ◌
taken_back = refl

twice : account_witness_vote ok 1 3 true chain ≡ err assertion
unfolding account_witness_vote get_account get_witness
twice = refl

account_witness_vote-Counted_example : Counted after_vote
account_witness_vote-Counted_example =
    account_witness_vote-Counted ok 1 3 false chain {c' = after_vote} chain-Counted taken_back

-- Account 2 has the proxy 1: the loop that looks for a cycle ends where that is one, or else it reads
-- an object that is gone. With account 1, which has no proxy, it returns.
abbrev second : Account
second = account 2 1 (pos 500) (pos 2000) (pos 0)

no_chain : proxy_chain (4 ∷ 1 ∷ []) (account 1 0 (pos 1000) (pos 1000) (pos 2000)) chain ≡ ok tt
unfolding proxy_chain
no_chain = refl

dead_object : proxy_chain (4 ∷ 2 ∷ []) second chain ≡ err null_pointer
unfolding proxy_chain get_account
dead_object = refl

cycle : proxy_chain (1 ∷ 2 ∷ []) second chain ≡ err assertion
unfolding proxy_chain get_account
cycle = refl
