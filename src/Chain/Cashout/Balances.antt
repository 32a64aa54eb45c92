-- ===== src/Chain/Cashout/Balances.antt =====
-- database.cpp: the payout of a comment against the sums of `validate_invariants`. What is claimed of the
-- fund is what the curators, the beneficiaries and the author are paid.
use vidpow.Prelude.{
  ℕ, ◌*◌, ◌/◌, ◌%◌, ◌^◌, ◌≡◌, refl, subst, true, not, List, [], ◌∷◌, ltb, ◌==◌, find, if◌then◌else◌,
}
use vidpow.Prelude.{
  >>=-eq-ok, ok-injective, Result, ok, Ensures, after, finally, Ensures-if, or_throw,
  unknown_object,
}
use vidpow.Prelude.Int.{ℤ, pos, ◌+ℤ◌, ◌-ℤ◌, ◌*ℤ◌, int_laws}
use vidpow.Protocol.Asset.{IsExact, signed64, to_u128}
use vidpow.Chain.Ledger.Content.{Beneficiary, Comment, CommentVote}
use vidpow.Chain.Ledger.State.{Account, Chain, get_account, modify_account}
use vidpow.Chain.Ledger.Supply.{wls, create_vesting}
use vidpow.Chain.Ledger.Invariants.{InFlight, Moves-InFlight}
use vidpow.Chain.Ledger.Effects.{Effect, modify_account-Moves}
use vidpow.Chain.Ledger.Flight.{create_vesting-InFlight}
use vidpow.Chain.Cashout.{
  is_comment, modify_comment, votes_on, add_curation, add_posting, pay_curator, pay_votes,
  pay_curators, pay_beneficiaries, adjust_total_payout, add_author_rewards, pay_author,
}

-- A change of comments or votes alone.
pub modify_comment-InFlight :
    (id : ℕ) (change : Comment → Result Comment) (k : ℤ) (c : Chain)
    → InFlight c k
    → Ensures (modify_comment id change c) (λ c'. InFlight c' k)
unfolding modify_comment
modify_comment-InFlight id change k c b =
    after (or_throw (find (is_comment id) c.comments) unknown_object) (λ x _.
      after (change x) (λ y _.
        finally (record {
          supply = b.supply;
          vesting = b.vesting;
          votes = b.votes;
          pending = b.pending;
        })))

pub InFlight-cast : {c : Chain} (k k' : ℤ) → k ≡ k' → InFlight c k → InFlight c k'
InFlight-cast {c} k k' e b = subst (InFlight c) e b

module _ (safe : ℤ → Result ℤ) (exact : IsExact safe) (divide : ℤ → ℕ → Result ℤ)
    (to_uint64 : ℕ → Result ℕ) where
  add_curation-Effect :
      (claim : ℤ)
      → Effect safe exact
          (add_curation safe divide to_uint64 claim)
          (pos 0)
          (pos 0)
          (λ a. pos 0)
          (pos 0)
  unfolding add_curation
  add_curation-Effect claim a a' e =
      let (x, _, q) =
        >>=-eq-ok (safe (a.curation_rewards +ℤ claim)) (λ x. ok (record a { curation_rewards = x }))
          e in
      let t = ok-injective q in
      (
        rw (← t) (omega int_laws),
        rw (← t) (omega int_laws),
        rw (← t) (omega int_laws),
        rw (← t) (omega int_laws),
        rw (← t) refl,
        rw (← t) refl,
      )

  add_posting-Effect :
      (tokens : ℤ)
      → Effect safe exact
          (add_posting safe divide to_uint64 tokens)
          (pos 0)
          (pos 0)
          (λ a. pos 0)
          (pos 0)
  unfolding add_posting
  add_posting-Effect tokens a a' e =
      let (x, _, q) =
        >>=-eq-ok (safe (a.posting_rewards +ℤ tokens)) (λ x. ok (record a { posting_rewards = x }))
          e in
      let t = ok-injective q in
      (
        rw (← t) (omega int_laws),
        rw (← t) (omega int_laws),
        rw (← t) (omega int_laws),
        rw (← t) (omega int_laws),
        rw (← t) refl,
        rw (← t) refl,
      )

  -- A change of an account that is in no sum.
  aside-InFlight :
      (name : ℕ) (change : Account → Result Account) (k : ℤ) (c : Chain)
      → Effect safe exact change (pos 0) (pos 0) (λ a. pos 0) (pos 0)
      → InFlight c k
      → Ensures (modify_account name change c) (λ c'. InFlight c' k)
  aside-InFlight name change k c effect b = record {
    on_ok = λ c' e.
        let (_, _, m, _, _) =
          modify_account-Moves safe exact name change (pos 0) (pos 0) (λ a. pos 0) (pos 0) c
            {c' = c'} effect e in
        InFlight-cast (k -ℤ pos 0) k (omega int_laws) (Moves-InFlight k (pos 0) m b);
  }

  pay_curator-InFlight :
      (voter : ℕ) (claim k : ℤ) (c : Chain)
      → InFlight c k
      → Ensures (pay_curator safe divide to_uint64 voter claim c) (λ c'. InFlight c' (k -ℤ claim))
  unfolding pay_curator
  pay_curator-InFlight voter claim k c b = after (get_account voter c) (λ a _.
      after (create_vesting safe a.name (wls claim) true c) (λ r er.
        aside-InFlight a.name (add_curation safe divide to_uint64 claim) (k -ℤ claim) r.1
          (add_curation-Effect claim)
          (create_vesting-InFlight safe exact a.name (wls claim) true k c {shares = r.0} {c' = r.1}
            b er)))

  pay_votes-InFlight :
      (most : ℤ) (total : ℕ) (unclaimed : ℤ) (vs : List CommentVote) (k : ℤ) (c : Chain)
      → InFlight c k
      → Ensures
          (pay_votes safe divide to_uint64 most total unclaimed vs c)
          (λ r. InFlight r.1 (k -ℤ (unclaimed -ℤ r.0)))
  unfolding pay_votes
  pay_votes-InFlight most total unclaimed [] k c b =
      finally (InFlight-cast k (k -ℤ (unclaimed -ℤ unclaimed)) (omega int_laws) b)
  pay_votes-InFlight most total unclaimed (v ∷ vs) k c b =
      after (to_uint64 (to_u128 most * v.weight % 2 ^ 128 / total)) (λ claim _.
        Ensures-if (claim == 0) _ _ (λ _. pay_votes-InFlight most total unclaimed vs k c b)
          (λ _. after (safe (unclaimed -ℤ signed64 claim)) (λ left el.
            after (pay_curator safe divide to_uint64 v.voter (signed64 claim) c) (λ c' ec. record {
              on_ok = λ r e.
                  let q = exact _ left el in
                  let b1 = (pay_curator-InFlight v.voter (signed64 claim) k c b).on_ok c' ec in
                  let b2 =
                    (pay_votes-InFlight most total left vs (k -ℤ signed64 claim) c' b1).on_ok r e in
                  InFlight-cast (k -ℤ signed64 claim -ℤ (left -ℤ r.0)) (k -ℤ (unclaimed -ℤ r.0))
                    (rw (← q) (omega int_laws)) b2;
            }))))

  pub pay_curators-InFlight :
      (x : Comment) (most k : ℤ) (c : Chain)
      → InFlight c k
      → Ensures (pay_curators safe divide to_uint64 x most c) (λ r. InFlight r.2 (k -ℤ r.1))
  unfolding pay_curators
  pay_curators-InFlight x most k c b =
      Ensures-if (not x.allow_curation_rewards) _ _
        (λ _. after (safe (pos 0 -ℤ pos 0)) (λ z ez.
          let q = exact _ z ez in finally (InFlight-cast k (k -ℤ z) (rw (← q) (omega int_laws)) b)))
        (λ _.
          after
            (if ltb 0 x.total_vote_weight
              then pay_votes safe divide to_uint64 most x.total_vote_weight most (votes_on x.id c) c
              else ok (most, c))
            (λ r er. after (safe (most -ℤ r.0)) (λ claimed el.
              let q = exact _ claimed el in
              let b1 =
                (Ensures-if {P = λ r. InFlight r.1 (k -ℤ (most -ℤ r.0))} (ltb 0 x.total_vote_weight)
                    _ _
                    (λ _. pay_votes-InFlight most x.total_vote_weight most (votes_on x.id c) k c b)
                    (λ _. finally (InFlight-cast k (k -ℤ (most -ℤ most)) (omega int_laws) b))).on_ok
                  r er in
              finally (InFlight-cast (k -ℤ (most -ℤ r.0)) (k -ℤ claimed) (rw q refl) b1))))

  pub pay_beneficiaries-InFlight :
      (tokens total : ℤ) (bs : List Beneficiary) (k : ℤ) (c : Chain)
      → InFlight c k
      → Ensures
          (pay_beneficiaries safe divide to_uint64 tokens total bs c)
          (λ r. InFlight r.1 (k -ℤ (r.0 -ℤ total)))
  unfolding pay_beneficiaries
  pay_beneficiaries-InFlight tokens total [] k c b =
      finally (InFlight-cast k (k -ℤ (total -ℤ total)) (omega int_laws) b)
  pay_beneficiaries-InFlight tokens total (x ∷ xs) k c b =
      after (safe (tokens *ℤ pos x.weight)) (λ p _. after (divide p 10000) (λ t _.
        after (get_account x.account c) (λ a _.
          after (create_vesting safe a.name (wls t) true c) (λ r er.
            after (safe (total +ℤ t)) (λ total' et. record {
              on_ok = λ s e.
                  let q = exact _ total' et in
                  let b1 =
                    create_vesting-InFlight safe exact a.name (wls t) true k c {shares = r.0}
                      {c' = r.1} b er in
                  let b2 =
                    (pay_beneficiaries-InFlight tokens total' xs (k -ℤ t) r.1 b1).on_ok s e in
                  InFlight-cast (k -ℤ t -ℤ (s.0 -ℤ total')) (k -ℤ (s.0 -ℤ total))
                    (rw (← q) (omega int_laws)) b2;
            })))))

  pub pay_author-InFlight :
      (x : Comment) (tokens curation beneficiaries k : ℤ) (c : Chain)
      → InFlight c k
      → Ensures
          (pay_author safe divide to_uint64 x tokens curation beneficiaries c)
          (λ c'. InFlight c' (k -ℤ tokens))
  unfolding pay_author
  pay_author-InFlight x tokens curation beneficiaries k c b = after (get_account x.author c) (λ a _.
      after (create_vesting safe a.name (wls tokens) true c) (λ r er.
        let totals = adjust_total_payout safe divide to_uint64 tokens curation beneficiaries in
        let rewards = add_author_rewards safe divide to_uint64 tokens in
        after (modify_comment x.id totals r.1) (λ c2 e2.
          after (modify_comment x.id rewards c2) (λ c3 e3.
            let b1 =
              create_vesting-InFlight safe exact a.name (wls tokens) true k c {shares = r.0}
                {c' = r.1} b er in
            let b2 = (modify_comment-InFlight x.id totals (k -ℤ tokens) r.1 b1).on_ok c2 e2 in
            let b3 = (modify_comment-InFlight x.id rewards (k -ℤ tokens) c2 b2).on_ok c3 e3 in
            aside-InFlight a.name (add_posting safe divide to_uint64 tokens) (k -ℤ tokens) c3
              (add_posting-Effect tokens) b3))))
