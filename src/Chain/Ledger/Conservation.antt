-- ===== src/Chain/Ledger/Conservation.antt =====
-- database.cpp: how the votes of an account's shares are counted along its proxies.
use vidpow.Prelude.{
  ℕ, zero, suc, ◌+◌, ◌<◌, ◌≡◌, refl, sym, ◌∙◌, ap, subst, subst₂, false, some, List, [], ◌∷◌, ◌==◌,
  if◌then◌else◌, arith, find, Bool-cases, inl, inr,
}
use vidpow.Prelude.{Result, ok, >>=-eq-ok, ok-injective}
use vidpow.Prelude.Int.{ℤ, pos, ◌+ℤ◌, int_laws}
use vidpow.Prelude.Sums.{replace_first}
use vidpow.Protocol.Asset.{IsExact}
use vidpow.Chain.Ledger.State.{
  ProxiedVotes, Account, Chain, WitnessVote, named, proxy_to_self, get_account, modify_account,
  modify_account-ok, modify_witness-ok,
}
use vidpow.Chain.Ledger.Votes.{
  adjust_witness_vote, change_votes, adjust_each, adjust_witness_votes, add_proxied, proxy_votes,
  adjust_proxied,
}
use vidpow.Chain.Ledger.Invariants.{
  Moves, Moves-none, Moves-trans, replace-Moves, vsf_votes, held, vesting_of,
}

-- A row that replaces another under the same name is found under it.
pub find-replace :
    (n : ℕ) (a a' : Account) (xs : List Account)
    → find (named n) xs ≡ some a
    → a'.name ≡ a.name
    → find (named n) (replace_first (named n) a' xs) ≡ some a'
find-replace n a a' [] f e = cc
find-replace n a a' (x ∷ xs) f e = ground (arith, find-replace n a a' xs)

abbrev pub Still : Chain → Chain → Type 0
Still c c' =
    (c'.accounts ≡ c.accounts)
    × (c'.funds ≡ c.funds)
    × (c'.gpo ≡ c.gpo)
    × (c'.routes ≡ c.routes)
    × (c'.comments ≡ c.comments)

module _ (safe : ℤ → Result ℤ) (exact : IsExact safe) where
  adjust_witness_vote-Still :
      (w : ℕ) (delta : ℤ) (c : Chain) {c' : Chain}
      → adjust_witness_vote safe w delta c ≡ ok c'
      → Still c c'
  unfolding adjust_witness_vote
  adjust_witness_vote-Still w delta c {c'} e =
      let (_, _, _, _, q) = modify_witness-ok w (change_votes safe c delta) c {c' = c'} e in
      (
        ap (λ d. d.accounts) (sym q),
        ap (λ d. d.funds) (sym q),
        ap (λ d. d.gpo) (sym q),
        ap (λ d. d.routes) (sym q),
        ap (λ d. d.comments) (sym q),
      )

  pub adjust_each-Still :
      (name : ℕ) (delta : ℤ) (vs : List WitnessVote) (c : Chain) {c' : Chain}
      → adjust_each safe name delta vs c ≡ ok c'
      → Still c c'
  unfolding adjust_each
  adjust_each-Still name delta [] c e =
      let q = ok-injective e in
      (
        ap (λ d. d.accounts) (sym q),
        ap (λ d. d.funds) (sym q),
        ap (λ d. d.gpo) (sym q),
        ap (λ d. d.routes) (sym q),
        ap (λ d. d.comments) (sym q),
      )
  adjust_each-Still name delta (v ∷ vs) c {c'} e = elim (Bool-cases (v.account == name)) [
    | inr f ↦ adjust_each-Still name delta vs c {c' = c'} (ground arith)
    | inl t ↦
        let (d, p, q) =
          >>=-eq-ok (adjust_witness_vote safe v.witness delta c) (adjust_each safe name delta vs)
            (ground arith) in
        let s = adjust_witness_vote-Still v.witness delta c {c' = d} p in
        let r = adjust_each-Still name delta vs d {c' = c'} q in
        (r.0 ∙ s.0, r.1 ∙ s.1, r.2 ∙ s.2, r.3 ∙ s.3, r.4 ∙ s.4)
  ]

  -- Votes that reach the witnesses move no sum over the accounts.
  pub adjust_witness_votes-Moves :
      (name : ℕ) (delta : ℤ) (c : Chain) {c' : Chain}
      → adjust_witness_votes safe name delta c ≡ ok c'
      → Moves c c' (pos 0) (pos 0) (pos 0) (pos 0)
  unfolding adjust_witness_votes
  adjust_witness_votes-Moves name delta c {c'} e =
      let (a, f, g, _, _) = adjust_each-Still name delta c.witness_votes c {c' = c'} e in
      Moves-none c c' a f g

  -- What a change at level `depth` of the proxied votes adds to the account's part of the votes.
  abbrev proxied_part : ℕ → Account → ℤ → ℤ
  proxied_part depth a delta =
      if a.proxy == proxy_to_self then delta else if depth == 3 then delta else pos 0

  -- The entry at `depth` alone changes.
  add_proxied-sums :
      (depth : ℕ) (delta : ℤ) (p : ProxiedVotes) {p' : ProxiedVotes}
      → depth < 4
      → add_proxied safe depth delta p ≡ ok p'
      → ((v : ℤ)
          → v +ℤ p'.at_0 +ℤ p'.at_1 +ℤ p'.at_2 +ℤ p'.at_3
            ≡ v +ℤ p.at_0 +ℤ p.at_1 +ℤ p.at_2 +ℤ p.at_3 +ℤ delta)
        × (p'.at_3 ≡ p.at_3 +ℤ (if depth == 3 then delta else pos 0))
  unfolding add_proxied
  add_proxied-sums zero delta p {p'} h e =
      let (x, ex, q) = >>=-eq-ok (safe (p.at_0 +ℤ delta)) _ e in
      let s = exact _ x ex in
      let r = ok-injective q in (λ v. rw (← r, ← s) (omega int_laws), rw (← r) (omega int_laws))
  add_proxied-sums (suc zero) delta p {p'} h e =
      let (x, ex, q) = >>=-eq-ok (safe (p.at_1 +ℤ delta)) _ e in
      let s = exact _ x ex in
      let r = ok-injective q in (λ v. rw (← r, ← s) (omega int_laws), rw (← r) (omega int_laws))
  add_proxied-sums (suc (suc zero)) delta p {p'} h e =
      let (x, ex, q) = >>=-eq-ok (safe (p.at_2 +ℤ delta)) _ e in
      let s = exact _ x ex in
      let r = ok-injective q in (λ v. rw (← r, ← s) (omega int_laws), rw (← r) (omega int_laws))
  add_proxied-sums (suc (suc (suc zero))) delta p {p'} h e =
      let (x, ex, q) = >>=-eq-ok (safe (p.at_3 +ℤ delta)) _ e in
      let s = exact _ x ex in
      let r = ok-injective q in (λ v. rw (← r, ← s) (omega int_laws), rw (← r, ← s) refl)
  add_proxied-sums (suc (suc (suc (suc n)))) delta p h e = absurd (omega arith)

  proxy_votes-part :
      (depth : ℕ) (delta : ℤ) (a : Account) {a' : Account}
      → depth < 4
      → proxy_votes safe depth delta a ≡ ok a'
      → (a'.name ≡ a.name)
        × (a'.proxy ≡ a.proxy)
        × (held a' ≡ held a +ℤ pos 0)
        × (vesting_of a' ≡ vesting_of a +ℤ pos 0)
        × (vsf_votes a' ≡ vsf_votes a +ℤ proxied_part depth a delta)
        × (a'.reward_vesting_steem ≡ a.reward_vesting_steem +ℤ pos 0)
  unfolding proxy_votes
  proxy_votes-part depth delta a {a'} h e =
      let (p, ep, q) = >>=-eq-ok (add_proxied safe depth delta a.proxied_vsf_votes) _ e in
      let r = ok-injective q in
      let (total, last) = add_proxied-sums depth delta a.proxied_vsf_votes {p' = p} h ep in
      (
        ap (λ b. b.name) (sym r),
        ap (λ b. b.proxy) (sym r),
        rw (← r) (omega int_laws),
        rw (← r) (omega int_laws),
        rw (← r) (elim (Bool-cases (a.proxy == proxy_to_self)) [
          | inl b ↦ rw b (total a.vesting_shares)
          | inr b ↦ rw b last
        ]),
        rw (← r) (omega int_laws),
      )

  -- What the walk along the proxies adds to the votes, from level `4 - left` on: all of the change, or
  -- nothing where the account votes for itself or the last level is passed.
  abbrev pub walked : ℕ → Account → ℤ → ℤ
  walked zero a delta = pos 0
  walked (suc left) a delta = if a.proxy == proxy_to_self then pos 0 else delta

  Moves-cast : {c c' : Chain} {h v n p n' : ℤ} → n ≡ n' → Moves c c' h v n p → Moves c c' h v n' p
  Moves-cast {c} {c'} {h} {v} {n} {p} q m = subst (λ k. Moves c c' h v k p) q m

  cast-Moves :
      {c c' : Chain} {n n' : ℤ}
      → n ≡ n'
      → Moves c c' (pos 0 +ℤ pos 0) (pos 0 +ℤ pos 0) n (pos 0 +ℤ pos 0)
      → Moves c c' (pos 0) (pos 0) n' (pos 0)
  cast-Moves {c} {c'} {n} {n'} q m =
      let z : pos 0 +ℤ pos 0 ≡ pos 0 = omega int_laws in subst₂ (λ k x. Moves c c' k k x k) z q m

  own_votes :
      (name : ℕ) (delta : ℤ) (c : Chain) {c' : Chain} (n : ℤ)
      → n ≡ pos 0
      → adjust_witness_votes safe name delta c ≡ ok c'
      → Moves c c' (pos 0) (pos 0) n (pos 0)
  own_votes name delta c {c'} n z e =
      Moves-cast (sym z) (adjust_witness_votes-Moves name delta c {c' = c'} e)

  -- One level takes the change, or the walk goes on with it.
  part-walked :
      (left depth : ℕ) (delta : ℤ) (p p' : Account)
      → suc left + depth ≡ 4
      → p'.proxy ≡ p.proxy
      → proxied_part depth p delta +ℤ walked left p' delta ≡ delta
  part-walked zero depth delta p p' l e =
      let d : depth ≡ 3 = omega arith in
      rw d (elim (Bool-cases (p.proxy == proxy_to_self)) [
        | inl t ↦ rw t (omega int_laws)
        | inr t ↦ rw t (omega int_laws)
      ])
  part-walked (suc left) depth delta p p' l e =
      let d : (depth == 3) ≡ false = grind arith in
      rw (e, d)
        (elim (Bool-cases (p.proxy == proxy_to_self)) [
          | inl t ↦ rw t (omega int_laws)
          | inr t ↦ rw t (omega int_laws)
        ])

  pub adjust_proxied-Moves :
      (left depth name : ℕ) (delta : ℤ) (c : Chain) {c' : Chain} (a : Account)
      → left + depth ≡ 4
      → find (named name) c.accounts ≡ some a
      → adjust_proxied safe left depth name delta c ≡ ok c'
      → Moves c c' (pos 0) (pos 0) (walked left a delta) (pos 0)
  unfolding adjust_proxied get_account
  adjust_proxied-Moves zero depth name delta c {c'} a l f e =
      elim (Bool-cases (a.proxy == proxy_to_self)) [
        | inl t ↦ own_votes a.name delta c {c' = c'} (pos 0) refl (ground (arith, f))
        | inr b ↦
            let q : c ≡ c' = ground (arith, f) in
            Moves-none c c' (ap (λ d. d.accounts) (sym q)) (ap (λ d. d.funds) (sym q))
              (ap (λ d. d.gpo) (sym q))
      ]
  adjust_proxied-Moves (suc left) depth name delta c {c'} a l f e =
      elim (Bool-cases (a.proxy == proxy_to_self)) [
        | inl t ↦ rw t (own_votes a.name delta c {c' = c'} (pos 0) refl (ground (arith, f)))
        | inr b ↦
            let (d, m, r) =
              >>=-eq-ok (modify_account a.proxy (proxy_votes safe depth delta) c)
                (adjust_proxied safe left (suc depth) a.proxy delta) (ground (arith, f)) in
            let low : depth < 4 = omega arith in
            let next : left + suc depth ≡ 4 = omega arith in
            let (p, p', fp, cp, q) =
              modify_account-ok a.proxy (proxy_votes safe depth delta) c {c' = d} m in
            let (en, ep, eh, ev, ew, es) = proxy_votes-part depth delta p {a' = p'} low cp in
            let first =
              subst (λ x. Moves c x (pos 0) (pos 0) (proxied_part depth p delta) (pos 0)) q
                (replace-Moves a.proxy p p' c fp eh ev ew es) in
            let rest =
              adjust_proxied-Moves left (suc depth) a.proxy delta d {c' = c'} p' next
                (subst (λ x. find (named a.proxy) x.accounts ≡ some p') q
                  (find-replace a.proxy p p' c.accounts fp en))
                r in
            subst (λ t. Moves c c' (pos 0) (pos 0) (if t then pos 0 else delta) (pos 0)) (sym b)
              (cast-Moves (part-walked left depth delta p p' l ep) (Moves-trans first rest))
      ]
