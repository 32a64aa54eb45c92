-- ===== src/Chain/Cashout/Conservation.antt =====
-- database.cpp: the payouts of a block against the sums of `validate_invariants`: the funds lose what the
-- accounts are paid.
use vidpow.Prelude.{
  ℕ, zero, suc, ◌*◌, ◌/◌, ◌%◌, ◌^◌, ◌≡◌, refl, sym, ◌∙◌, Option, none, some, List, [], ◌∷◌, map,
  length, leb, ◌==◌, if◌then◌else◌,
}
use vidpow.Prelude.{Result, ok, ◌>>=◌, Ensures, after, finally, Ensures-if}
use vidpow.Prelude.Int.{ℤ, pos, ◌+ℤ◌, ◌-ℤ◌, ltb_ℤ, int_laws}
use vidpow.Prelude.Sums.{sum_by}
use vidpow.Protocol.Asset.{IsExact, signed64, to_u128}
use vidpow.Chain.Rewards.{WideNumbers, evaluate_reward_curve, get_rshare_reward}
use vidpow.Chain.Ledger.Content.{Comment}
use vidpow.Chain.Ledger.State.{RewardFund, Chain}
use vidpow.Chain.Ledger.Invariants.{Balanced, InFlight, Balanced-InFlight}
use vidpow.Chain.Cashout.{
  get_reward_fund, modify_comment, reset_comment, pay_curators, pay_beneficiaries, pay_author,
  pay_reward, pay_rshares, cashout_comment_helper,
}
use vidpow.Chain.Cashout.Rounds.{
  FundContext, decay, context, fund_id, context_at, modify_context, by_cashout_time, first_due,
  add_claim, add_claims, award, write_funds, pay_comment, next_turn, pay_comments,
  process_comment_cashout,
}
use vidpow.Chain.Cashout.Balances.{
  InFlight-cast, modify_comment-InFlight, pay_curators-InFlight, pay_beneficiaries-InFlight,
  pay_author-InFlight,
}

abbrev funded : List RewardFund → ℤ
funded fs = sum_by (λ f. f.reward_balance) fs

abbrev awarded : List FundContext → ℤ
awarded xs = sum_by (λ x. x.steem_awarded) xs

decay-funded : (now : ℕ) (fs : List RewardFund) → funded (map (decay now) fs) ≡ funded fs
unfolding decay
decay-funded now [] = refl
decay-funded now (f ∷ fs) = rw (decay-funded now fs) refl

context-awarded : (fs : List RewardFund) → awarded (map context fs) ≡ pos 0
context-awarded [] = refl
context-awarded (f ∷ fs) = rw (context-awarded fs) (omega int_laws)

modify_context-awarded :
    (d : ℤ) (i : ℕ) (change : FundContext → Result FundContext) (xs : List FundContext)
    → ((x : FundContext) → Ensures (change x) (λ y. y.steem_awarded ≡ x.steem_awarded +ℤ d))
    → Ensures (modify_context i change xs) (λ ys. awarded ys ≡ awarded xs +ℤ d)
unfolding modify_context
modify_context-awarded d i change [] k = record { on_ok = λ ys e. cc }
modify_context-awarded d zero change (x ∷ xs) k =
    after (change x) (λ y ey. let e = (k x).on_ok y ey in finally (grind (int_laws, e)))
modify_context-awarded d (suc i) change (x ∷ xs) k = after (modify_context i change xs) (λ ys es.
    let e = (modify_context-awarded d i change xs k).on_ok ys es in finally (grind (int_laws, e)))

add_claims-awarded :
    (wide : WideNumbers) (c : Chain) (xs : List Comment) (funds : List FundContext)
    → Ensures (add_claims wide c xs funds) (λ ys. awarded ys ≡ awarded funds)
unfolding add_claims add_claim
add_claims-awarded wide c [] funds = finally refl
add_claims-awarded wide c (x ∷ xs) funds =
    Ensures-if (leb x.cashout_time c.gpo.time) _ _
      (λ _.
        after
          (if ltb_ℤ (pos 0) x.net_rshares
            then (get_reward_fund c >>= λ rf. fund_id c.funds >>= λ i.
                evaluate_reward_curve wide (to_u128 x.net_rshares) rf.author_reward_curve
                  rf.content_constant
                >>= λ claim. modify_context i (add_claim claim) funds)
            else ok funds)
          (λ ys es. record {
            on_ok = λ zs e.
                let first =
                  (Ensures-if {P = λ ys. awarded ys ≡ awarded funds +ℤ pos 0}
                      (ltb_ℤ (pos 0) x.net_rshares) _ _
                      (λ _. after (get_reward_fund c) (λ rf _. after (fund_id c.funds) (λ i _.
                        after
                          (evaluate_reward_curve wide (to_u128 x.net_rshares) rf.author_reward_curve
                            rf.content_constant)
                          (λ claim _.
                            modify_context-awarded (pos 0) i (add_claim claim) funds
                              (λ y. finally (omega int_laws))))))
                      (λ _. finally (omega int_laws))).on_ok
                    ys es in
                (add_claims-awarded wide c xs ys).on_ok zs e ∙ first ∙ omega int_laws;
          }))
      (λ _. finally refl)

module _ (safe : ℤ → Result ℤ) (exact : IsExact safe) where
  write_funds-funded :
      (xs : List FundContext) (fs : List RewardFund)
      → Ensures (write_funds safe xs fs) (λ gs. funded gs +ℤ awarded xs ≡ funded fs)
  unfolding write_funds
  write_funds-funded [] fs = finally (omega int_laws)
  write_funds-funded (x ∷ xs) [] = record { on_ok = λ gs e. cc }
  write_funds-funded (x ∷ xs) (f ∷ fs) = after (safe (f.reward_balance -ℤ x.steem_awarded)) (λ b eb.
      after (write_funds safe xs fs) (λ rest er.
        let q = exact _ b eb in
        let ih = (write_funds-funded xs fs).on_ok rest er in finally (grind (int_laws, q, ih))))

  module _ (divide : ℤ → ℕ → Result ℤ) (to_uint64 : ℕ → Result ℕ) where
    pay_reward-InFlight :
        (x : Comment) (percent reward : ℕ) (k : ℤ) (c : Chain)
        → InFlight c k
        → Ensures
            (pay_reward safe divide to_uint64 x percent reward c)
            (λ r. InFlight r.1 (k -ℤ r.0))
    unfolding pay_reward
    pay_reward-InFlight x percent reward k c b =
        after (to_uint64 (reward * percent % 2 ^ 128 / 10000)) (λ curators _.
          after (to_uint64 reward) (λ total _.
            after (safe (signed64 total -ℤ signed64 curators)) (λ author _.
              after (pay_curators safe divide to_uint64 x (signed64 curators) c) (λ s es.
                after (safe (author +ℤ s.0)) (λ tokens _.
                  after (safe (tokens +ℤ s.1)) (λ claimed ec.
                    after
                      (pay_beneficiaries safe divide to_uint64 tokens (pos 0) x.beneficiaries s.2)
                      (λ t et. after (safe (tokens -ℤ t.0)) (λ rest er.
                        after (pay_author safe divide to_uint64 x rest s.1 t.0 t.1) (λ c3 e3.
                          let b1 =
                            (pay_curators-InFlight safe exact divide to_uint64 x (signed64 curators)
                                k c b).on_ok
                              s es in
                          let b2 =
                            (pay_beneficiaries-InFlight safe exact divide to_uint64 tokens (pos 0)
                                x.beneficiaries (k -ℤ s.1) s.2 b1).on_ok
                              t et in
                          let b3 =
                            (pay_author-InFlight safe exact divide to_uint64 x rest s.1 t.0
                                (k -ℤ s.1 -ℤ (t.0 -ℤ pos 0)) t.1 b2).on_ok
                              c3 e3 in
                          finally (
                            InFlight-cast (k -ℤ s.1 -ℤ (t.0 -ℤ pos 0) -ℤ rest) (k -ℤ claimed)
                              (split k s.1 t.0 tokens rest claimed (exact _ claimed ec)
                                (exact _ rest er))
                              b3))))))))))
      where
        split :
            (k curation paid tokens rest claimed : ℤ)
            → tokens +ℤ curation ≡ claimed
            → tokens -ℤ paid ≡ rest
            → k -ℤ curation -ℤ (paid -ℤ pos 0) -ℤ rest ≡ k -ℤ claimed
        split k curation paid tokens rest claimed e f = grind (int_laws, e, f)

    module _ (wide : WideNumbers) where
      cashout_comment_helper-InFlight :
          (claims : ℕ) (balance : ℤ) (x : Comment) (k : ℤ) (c : Chain)
          → InFlight c k
          → Ensures
              (cashout_comment_helper safe divide to_uint64 wide claims balance x c)
              (λ r. InFlight r.1 (k -ℤ r.0))
      unfolding cashout_comment_helper pay_rshares
      cashout_comment_helper-InFlight claims balance x k c b =
          after
            (if ltb_ℤ (pos 0) x.net_rshares
              then pay_rshares safe divide to_uint64 wide claims balance x c
              else ok (pos 0, c))
            (λ r er. after (modify_comment x.id (reset_comment r.1.gpo.time) r.1) (λ c2 e2.
              let b1 =
                (Ensures-if {P = λ r. InFlight r.1 (k -ℤ r.0)} (ltb_ℤ (pos 0) x.net_rshares) _ _
                    (λ _. paid) (λ _. finally (unpaid))).on_ok
                  r er in
              let b2 =
                (modify_comment-InFlight x.id (reset_comment r.1.gpo.time) (k -ℤ r.0) r.1 b1).on_ok
                  c2 e2 in
              finally (record {
                supply = b2.supply;
                vesting = b2.vesting;
                votes = b2.votes;
                pending = b2.pending;
              })))
        where
          unpaid : InFlight c (k -ℤ pos 0)
          unpaid = InFlight-cast k (k -ℤ pos 0) (omega int_laws) b

          paid :
              Ensures
                (pay_rshares safe divide to_uint64 wide claims balance x c)
                (λ r. InFlight r.1 (k -ℤ r.0))
          paid = after (get_reward_fund c) (λ rf _.
              after
                (get_rshare_reward wide (record {
                  rshares = x.net_rshares;
                  reward_weight = x.reward_weight;
                  max_payout = x.max_accepted_payout;
                  total_reward_shares2 = claims;
                  total_reward_fund_steem = balance;
                  reward_curve = rf.author_reward_curve;
                  content_constant = rf.content_constant;
                }))
                (λ reward _.
                  Ensures-if (to_u128 (signed64 reward) == 0) _ _ (λ _. finally unpaid)
                    (λ _.
                      pay_reward-InFlight x rf.percent_curation_rewards (to_u128 (signed64 reward))
                        k c b)))

      pay_comment-InFlight :
          (funds : List FundContext) (x : Comment) (c : Chain)
          → InFlight c (pos 0 -ℤ awarded funds)
          → Ensures
              (pay_comment safe divide to_uint64 wide funds x c)
              (λ r. InFlight r.1 (pos 0 -ℤ awarded r.0))
      unfolding pay_comment award
      pay_comment-InFlight funds x c b = after (fund_id c.funds) (λ i _.
          after (context_at i funds) (λ f _.
            after
              (cashout_comment_helper safe divide to_uint64 wide f.recent_claims f.reward_balance x
                c)
              (λ r er. after (modify_context i (award safe r.0) funds) (λ ys es.
                let b1 =
                  (cashout_comment_helper-InFlight f.recent_claims f.reward_balance x
                      (pos 0 -ℤ awarded funds) c b).on_ok
                    r er in
                let q =
                  (modify_context-awarded r.0 i (award safe r.0) funds (λ y.
                      after (safe (y.steem_awarded +ℤ r.0))
                        (λ t et. finally (sym (exact _ t et))))).on_ok
                    ys es in
                finally (
                  InFlight-cast (pos 0 -ℤ awarded funds -ℤ r.0) (pos 0 -ℤ awarded ys)
                    (rw q (omega int_laws)) b1)))))

      next_turn-InFlight :
          (rest : List FundContext → Chain → Result (List FundContext × Chain)) (m : Option Comment)
          (funds : List FundContext) (c : Chain)
          → ((gs : List FundContext) (d : Chain)
              → InFlight d (pos 0 -ℤ awarded gs)
              → Ensures (rest gs d) (λ r. InFlight r.1 (pos 0 -ℤ awarded r.0)))
          → InFlight c (pos 0 -ℤ awarded funds)
          → Ensures
              (next_turn safe divide to_uint64 wide rest m funds c)
              (λ r. InFlight r.1 (pos 0 -ℤ awarded r.0))
      unfolding next_turn
      next_turn-InFlight rest none funds c k b = finally b
      next_turn-InFlight rest (some x) funds c k b =
          after (pay_comment safe divide to_uint64 wide funds x c)
            (λ r er. k r.0 r.1 ((pay_comment-InFlight funds x c b).on_ok r er))

      pay_comments-InFlight :
          (fuel : ℕ) (funds : List FundContext) (c : Chain)
          → InFlight c (pos 0 -ℤ awarded funds)
          → Ensures
              (pay_comments safe divide to_uint64 wide fuel funds c)
              (λ r. InFlight r.1 (pos 0 -ℤ awarded r.0))
      unfolding pay_comments
      pay_comments-InFlight zero funds c b = record { on_ok = λ r e. cc }
      pay_comments-InFlight (suc fuel) funds c b =
          next_turn-InFlight (pay_comments safe divide to_uint64 wide fuel) (first_due c) funds c
            (λ gs d h. pay_comments-InFlight fuel gs d h) b

      process_comment_cashout-Ensures :
          (c : Chain)
          → Balanced c
          → Ensures (process_comment_cashout safe divide to_uint64 wide c) Balanced
      unfolding process_comment_cashout
      process_comment_cashout-Ensures c b =
          let d = record c { funds = map (decay c.gpo.time) c.funds } in
          after (add_claims wide d (by_cashout_time d.comments) (map context d.funds)) (λ fs ef.
            after (pay_comments safe divide to_uint64 wide (suc (length d.comments)) fs d) (λ r er.
              after (write_funds safe r.0 r.1.funds) (λ gs eg.
                let z =
                  (add_claims-awarded wide d (by_cashout_time d.comments)
                      (map context d.funds)).on_ok
                    fs ef
                  ∙ context-awarded d.funds in
                let same = decay-funded c.gpo.time c.funds in
                let b0 = Balanced-InFlight b in
                let bd : InFlight d (pos 0 -ℤ awarded fs) = record {
                  supply = rw (z, same) (b0.supply ∙ omega int_laws);
                  vesting = b.vesting;
                  votes = b.votes;
                  pending = b.pending;
                } in
                let b1 = (pay_comments-InFlight (suc (length d.comments)) fs d bd).on_ok r er in
                let w = (write_funds-funded r.0 r.1.funds).on_ok gs eg in
                finally (record {
                  supply = grind (int_laws, b1.supply, w);
                  vesting = b1.vesting;
                  votes = b1.votes;
                  pending = b1.pending;
                }))))

      -- The payouts of the comments that are due, made from a state with the four sums of
      -- `validate_invariants` in order, leave a state with them in order, where the arithmetic on
      -- shares returns only exact values: the reward funds lose what the curators, the
      -- beneficiaries and the authors are paid.
      pub process_comment_cashout-Balanced :
          (c : Chain) {c' : Chain}
          → Balanced c
          → process_comment_cashout safe divide to_uint64 wide c ≡ ok c'
          → Balanced c'
      process_comment_cashout-Balanced c {c'} b e = (process_comment_cashout-Ensures c b).on_ok c' e
