-- ===== src/Chain/Ledger/Debts.antt =====
-- database.cpp: the sums of `validate_invariants` in the middle of an operation that moves tokens,
-- shares and votes one after the other.
use vidpow.Prelude.{ℕ, ◌≡◌, refl, ◌∙◌, find, some}
use vidpow.Prelude.{Result, ok}
use vidpow.Prelude.Int.{ℤ, pos, ◌+ℤ◌, ◌-ℤ◌, int_laws}
use vidpow.Prelude.Sums.{sum_by}
use vidpow.Protocol.Asset.{IsExact}
use vidpow.Chain.Ledger.State.{Account, Chain, named}
use vidpow.Chain.Ledger.Votes.{adjust_proxied_witness_votes}
use vidpow.Chain.Ledger.Invariants.{vsf_votes, vesting_of, total_supply, Balanced, Moves}
use vidpow.Chain.Ledger.Conservation.{walked, adjust_proxied-Moves}

-- `k` tokens, `v` shares and `n` votes are in the global properties, and in no account yet.
pub record Debts (c : Chain) (k v n : ℤ) : Type 0 where
  pub supply : c.gpo.current_supply ≡ total_supply c +ℤ k
  pub vesting :
      c.gpo.total_vesting_shares +ℤ c.gpo.pending_rewarded_vesting_shares
      ≡ sum_by vesting_of c.accounts +ℤ v
  pub votes : c.gpo.total_vesting_shares ≡ sum_by vsf_votes c.accounts +ℤ n
  pub pending :
      c.gpo.pending_rewarded_vesting_steem ≡ sum_by (λ a. a.reward_vesting_steem) c.accounts

pub Balanced-Debts : {c : Chain} → Balanced c → Debts c (pos 0) (pos 0) (pos 0)
Balanced-Debts b = record {
  supply = b.supply ∙ omega int_laws;
  vesting = b.vesting ∙ omega int_laws;
  votes = b.votes ∙ omega int_laws;
  pending = b.pending;
}

pub Debts-Balanced :
    {c : Chain} (k v n : ℤ) → k ≡ pos 0 → v ≡ pos 0 → n ≡ pos 0 → Debts c k v n → Balanced c
Debts-Balanced k v n ek ev en b = record {
  supply = b.supply ∙ rw ek (omega int_laws);
  vesting = b.vesting ∙ rw ev (omega int_laws);
  votes = b.votes ∙ rw en (omega int_laws);
  pending = b.pending;
}

pub Moves-Debts :
    {c c' : Chain} (k v n h w m : ℤ)
    → Moves c c' h w m (pos 0)
    → Debts c k v n
    → Debts c' (k -ℤ h) (v -ℤ w) (n -ℤ m)
Moves-Debts {c} {c'} k v n h w m s b = record {
  supply = rw (s.gpo, s.funds, s.held) (grind (int_laws, b.supply));
  vesting = rw (s.gpo, s.vesting) (grind (int_laws, b.vesting));
  votes = rw (s.gpo, s.votes) (grind (int_laws, b.votes));
  pending = rw (s.gpo, s.pending) (grind (int_laws, b.pending));
}

module _ (safe : ℤ → Result ℤ) (exact : IsExact safe) where
  -- The walk along the proxies of an account that is found.
  pub walk-Debts :
      (name : ℕ) (shares : ℤ) (a : Account) {c c' : Chain} (k v n : ℤ)
      → find (named name) c.accounts ≡ some a
      → Debts c k v n
      → adjust_proxied_witness_votes safe name shares c ≡ ok c'
      → Debts c' k v (n -ℤ walked safe exact 4 a shares)
  unfolding adjust_proxied_witness_votes
  walk-Debts name shares a {c} {c'} k v n f b e =
      let m = adjust_proxied-Moves safe exact 4 0 name shares c {c' = c'} a refl f e in
      let d = Moves-Debts k v n (pos 0) (pos 0) (walked safe exact 4 a shares) m b in
      record {
        supply = d.supply ∙ omega int_laws;
        vesting = d.vesting ∙ omega int_laws;
        votes = d.votes;
        pending = d.pending;
      }
