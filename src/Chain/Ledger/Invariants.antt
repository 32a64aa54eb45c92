-- ===== src/Chain/Ledger/Invariants.antt =====
-- `database::validate_invariants`, as equations, and how an operation moves the sums in it.
use vidpow.Prelude.{ℕ, ◌≡◌, refl, ◌∙◌, some, ◌==◌, if◌then◌else◌, find}
use vidpow.Prelude.Int.{ℤ, pos, ◌+ℤ◌, ◌-ℤ◌, cancel, int_laws}
use vidpow.Prelude.Sums.{replace_first, sum_by, sum_by-replace}
use vidpow.Chain.Ledger.State.{Account, Chain, named, proxy_to_self}

-- `witness_vote_weight`, and what an account adds to `total_vsf_votes`.
abbrev pub witness_vote_weight : Account → ℤ
witness_vote_weight a =
    let p = a.proxied_vsf_votes in a.vesting_shares +ℤ p.at_0 +ℤ p.at_1 +ℤ p.at_2 +ℤ p.at_3

abbrev pub vsf_votes : Account → ℤ
vsf_votes a = if a.proxy == proxy_to_self then witness_vote_weight a else a.proxied_vsf_votes.at_3

abbrev pub held : Account → ℤ
held a = a.balance +ℤ a.reward_steem_balance

abbrev pub vesting_of : Account → ℤ
vesting_of a = a.vesting_shares +ℤ a.reward_vesting_balance

abbrev pub total_supply : Chain → ℤ
total_supply c =
    sum_by held c.accounts
    +ℤ sum_by (λ f. f.reward_balance) c.funds
    +ℤ (c.gpo.total_vesting_fund_steem +ℤ c.gpo.total_reward_fund_steem
        +ℤ c.gpo.pending_rewarded_vesting_steem)

-- The four `FC_ASSERT`s on sums.
pub record Balanced (c : Chain) : Type 0 where
  pub supply : c.gpo.current_supply ≡ total_supply c
  pub vesting :
      c.gpo.total_vesting_shares +ℤ c.gpo.pending_rewarded_vesting_shares
      ≡ sum_by vesting_of c.accounts
  pub votes : c.gpo.total_vesting_shares ≡ sum_by vsf_votes c.accounts
  pub pending :
      c.gpo.pending_rewarded_vesting_steem ≡ sum_by (λ a. a.reward_vesting_steem) c.accounts

-- An operation on accounts alone moves the sums over them by `h` tokens, `v` vesting shares, `n` votes
-- and `p` pending tokens.
pub record Moves (c c' : Chain) (h v n p : ℤ) : Type 0 where
  pub held : sum_by held c'.accounts ≡ sum_by held c.accounts +ℤ h
  pub vesting : sum_by vesting_of c'.accounts ≡ sum_by vesting_of c.accounts +ℤ v
  pub votes : sum_by vsf_votes c'.accounts ≡ sum_by vsf_votes c.accounts +ℤ n
  pub pending :
      sum_by (λ a. a.reward_vesting_steem) c'.accounts
      ≡ sum_by (λ a. a.reward_vesting_steem) c.accounts +ℤ p
  pub funds : c'.funds ≡ c.funds
  pub gpo : c'.gpo ≡ c.gpo

pub Moves-none :
    (c c' : Chain)
    → c'.accounts ≡ c.accounts
    → c'.funds ≡ c.funds
    → c'.gpo ≡ c.gpo
    → Moves c c' (pos 0) (pos 0) (pos 0) (pos 0)
Moves-none c c' a f g = record {
  held = rw a (omega int_laws);
  vesting = rw a (omega int_laws);
  votes = rw a (omega int_laws);
  pending = rw a (omega int_laws);
  funds = f;
  gpo = g;
}

pub Moves-trans :
    {c d e : Chain} {h v n p h' v' n' p' : ℤ}
    → Moves c d h v n p
    → Moves d e h' v' n' p'
    → Moves c e (h +ℤ h') (v +ℤ v') (n +ℤ n') (p +ℤ p')
Moves-trans m k = record {
  held = grind (int_laws, m.held, k.held);
  vesting = grind (int_laws, m.vesting, k.vesting);
  votes = grind (int_laws, m.votes, k.votes);
  pending = grind (int_laws, m.pending, k.pending);
  funds = k.funds ∙ m.funds;
  gpo = k.gpo ∙ m.gpo;
}

-- One account changes.
pub replace-Moves :
    (n : ℕ) (a a' : Account) (c : Chain) {h v w p : ℤ}
    → find (named n) c.accounts ≡ some a
    → held a' ≡ held a +ℤ h
    → vesting_of a' ≡ vesting_of a +ℤ v
    → vsf_votes a' ≡ vsf_votes a +ℤ w
    → a'.reward_vesting_steem ≡ a.reward_vesting_steem +ℤ p
    → Moves c (record c { accounts = replace_first (named n) a' c.accounts }) h v w p
replace-Moves n a a' c {h} {v} {w} {p} f eh ev ew ep = record {
  held = shift held h eh;
  vesting = shift vesting_of v ev;
  votes = shift vsf_votes w ew;
  pending = shift (λ b. b.reward_vesting_steem) p ep;
  funds = refl;
  gpo = refl;
}
  where
    shift :
        (g : Account → ℤ) (d : ℤ)
        → g a' ≡ g a +ℤ d
        → sum_by g (replace_first (named n) a' c.accounts) ≡ sum_by g c.accounts +ℤ d
    shift g d e =
        cancel (sum_by g (replace_first (named n) a' c.accounts)) (g a) (sum_by g c.accounts) d
          (g a') (sum_by-replace g (named n) a a' c.accounts f) e

-- The sums while `k` tokens of the supply are held by no object, as between the two halves of a
-- transfer.
pub record InFlight (c : Chain) (k : ℤ) : Type 0 where
  pub supply : c.gpo.current_supply ≡ total_supply c +ℤ k
  pub vesting :
      c.gpo.total_vesting_shares +ℤ c.gpo.pending_rewarded_vesting_shares
      ≡ sum_by vesting_of c.accounts
  pub votes : c.gpo.total_vesting_shares ≡ sum_by vsf_votes c.accounts
  pub pending :
      c.gpo.pending_rewarded_vesting_steem ≡ sum_by (λ a. a.reward_vesting_steem) c.accounts

pub Balanced-InFlight : {c : Chain} → Balanced c → InFlight c (pos 0)
Balanced-InFlight b = record {
  supply = b.supply ∙ omega int_laws;
  vesting = b.vesting;
  votes = b.votes;
  pending = b.pending;
}

pub InFlight-Balanced : {c : Chain} (k : ℤ) → k ≡ pos 0 → InFlight c k → Balanced c
InFlight-Balanced {c} k z b = record {
  supply = b.supply ∙ (rw z (omega int_laws));
  vesting = b.vesting;
  votes = b.votes;
  pending = b.pending;
}

-- An operation on accounts alone takes what it gives to them out of the tokens in flight.
pub Moves-InFlight :
    {c c' : Chain} (k h : ℤ)
    → Moves c c' h (pos 0) (pos 0) (pos 0)
    → InFlight c k
    → InFlight c' (k -ℤ h)
Moves-InFlight {c} {c'} k h m b = record {
  supply = rw (m.gpo, m.funds, m.held) (grind (int_laws, b.supply));
  vesting = rw (m.gpo, m.vesting) (grind (int_laws, b.vesting));
  votes = rw (m.gpo, m.votes) (grind (int_laws, b.votes));
  pending = rw (m.gpo, m.pending) (grind (int_laws, b.pending));
}
