-- ===== src/Chain/PowerDown/Runs.antt =====
-- database.cpp: the loop over the withdrawals as it runs, whatever its number of turns.
use vidpow.Prelude.{
  ℕ, zero, suc, ◌+◌, ◌-◌, ◌*◌, ◌≤◌, ◌<◌, ◌≡◌, refl, sym, ap, subst, false, Bool-cases, ◌⊎◌, inl,
  inr, some, none, Option, List, [], ◌∷◌, leb, ◌==◌, arith, find, All, length,
}
use vidpow.Prelude.{Result, ok, err, Error, Result-cases}
use vidpow.Prelude.Int.{ℤ}
use vidpow.Protocol.Asset.{IsExact, IsWord64}
use vidpow.Chain.Slots.Inflation.{mul_le}
use vidpow.Chain.Ledger.State.{Account, Chain, named, get_account}
use vidpow.Chain.Ledger.Rows.{Each, Related, find-Each}
use vidpow.Chain.PowerDown.{
  least, behind, following, withdraw, process_from, process_vesting_withdrawals,
}
use vidpow.Chain.PowerDown.Turns.{Turned, withdraw-Turned}
use vidpow.Chain.PowerDown.Order.{
  Unique, position, position-lt, found, named-name, least-In, behind-later,
}

module _ (R : Account → Account → Type 0) (kept : (a b : Account) → R a b → b.name ≡ a.name) where
  position-Each : (n : ℕ) (xs ys : List Account) → Each R xs ys → position n ys ≡ position n xs
  position-Each n [] [] e = refl
  position-Each n [] (y ∷ ys) e = elim e [ ]
  position-Each n (x ∷ xs) [] e = elim e [ ]
  position-Each n (x ∷ xs) (y ∷ ys) e = rw (kept x y e.0, position-Each n xs ys e.1) refl

  length-Each : (xs ys : List Account) → Each R xs ys → length ys ≡ length xs
  length-Each [] [] e = refl
  length-Each [] (y ∷ ys) e = elim e [ ]
  length-Each (x ∷ xs) [] e = elim e [ ]
  length-Each (x ∷ xs) (y ∷ ys) e = ap suc (length-Each xs ys e.1)

  differ-Each :
      (n : ℕ) (xs ys : List Account)
      → Each R xs ys
      → All (λ x. (n == x.name) ≡ false) xs
      → All (λ y. (n == y.name) ≡ false) ys
  differ-Each n [] [] e h = tt
  differ-Each n [] (y ∷ ys) e h = elim e [ ]
  differ-Each n (x ∷ xs) [] e h = elim e [ ]
  differ-Each n (x ∷ xs) (y ∷ ys) e h = (rw (kept x y e.0) h.0, differ-Each n xs ys e.1 h.1)

  pub Unique-Each : (xs ys : List Account) → Each R xs ys → Unique xs → Unique ys
  Unique-Each [] [] e u = tt
  Unique-Each [] (y ∷ ys) e u = elim e [ ]
  Unique-Each (x ∷ xs) [] e u = elim e [ ]
  Unique-Each (x ∷ xs) (y ∷ ys) e u = (
    subst (λ n. All (λ z. (n == z.name) ≡ false) ys) (sym (kept x y e.0))
        (differ-Each x.name xs ys e.1 u.0),
    Unique-Each xs ys e.1 u.1,
  )

differ : (m n : ℕ) → (m == n) ≡ false → (n == m) ≡ false
differ m n e = ground arith

-- The dates and the places in the table, as one order.
abbrev rank : Account → List Account → ℕ
rank a xs = a.next_vesting_withdrawal * length xs + position a.name xs

rank-le :
    (t : ℕ) (a : Account) (xs : List Account)
    → position a.name xs < length xs
    → a.next_vesting_withdrawal ≤ t
    → rank a xs < (t + 1) * length xs
rank-le t a xs p h =
    omega (arith, mul_le (a.next_vesting_withdrawal + 1) (t + 1) (length xs) (omega arith))

rank-lt :
    (a b : Account) (xs : List Account)
    → position a.name xs < length xs
    → ((a.next_vesting_withdrawal < b.next_vesting_withdrawal)
        ⊎ ((a.next_vesting_withdrawal ≤ b.next_vesting_withdrawal)
            × (position a.name xs < position b.name xs)))
    → rank a xs < rank b xs
rank-lt a b xs p (inl h) = omega (
  arith,
  mul_le (a.next_vesting_withdrawal + 1) b.next_vesting_withdrawal (length xs) (omega arith),
)
rank-lt a b xs p (inr (h, q)) =
    omega (arith, mul_le a.next_vesting_withdrawal b.next_vesting_withdrawal (length xs) h)

module _ (safe : ℤ → Result ℤ) (exact : IsExact safe) (fits : IsWord64 safe)
    (remainder : ℤ → ℤ → Result ℤ) (to_uint64 : ℕ → Result ℕ) where
  -- `while( current != widx.end() && current->next_vesting_withdrawal <= head_block_time() )`: the
  -- state that the loop ends in, or the exception that leaves it.
  pub data Loop : Option ℕ → Chain → Result Chain → Type 0 where
    at_end : (c : Chain) → Loop none c (ok c)
    not_due :
        (n : ℕ) (a : Account) (c : Chain)
        → find (named n) c.accounts ≡ some a
        → c.gpo.time < a.next_vesting_withdrawal
        → Loop (some n) c (ok c)
    thrown :
        (n : ℕ) (a : Account) (c : Chain) (e : Error)
        → find (named n) c.accounts ≡ some a
        → a.next_vesting_withdrawal ≤ c.gpo.time
        → withdraw safe remainder to_uint64 a c ≡ err e
        → Loop (some n) c (err e)
    turn :
        (n : ℕ) (a : Account) (c c' : Chain) (r : Result Chain)
        → find (named n) c.accounts ≡ some a
        → a.next_vesting_withdrawal ≤ c.gpo.time
        → withdraw safe remainder to_uint64 a c ≡ ok c'
        → Loop (following a c) c' r
        → Loop (some n) c r

  -- Fuel for the dates up to the head block's, and for the places that are left.
  abbrev Fuelled : ℕ → Chain → Option ℕ → Type 0
  Fuelled fuel c none = 0 < fuel
  Fuelled fuel c (some n) =
      (a : Account) × (find (named n) c.accounts ≡ some a)
      × ((c.gpo.time + 1) * length c.accounts - rank a c.accounts < fuel)

  next-Fuelled :
      (fuel n : ℕ) (a : Account) (c c' : Chain)
      → Unique c.accounts
      → find (named n) c.accounts ≡ some a
      → a.next_vesting_withdrawal ≤ c.gpo.time
      → (c.gpo.time + 1) * length c.accounts - rank a c.accounts < suc fuel
      → Related (Turned a.name) c c'
      → (m : Option ℕ) → following a c ≡ m
      → Fuelled fuel c' m
  unfolding following
  next-Fuelled fuel n a c c' u f d h r m e =
      let an = named-name n c.accounts {a = a} f in
      let place : position a.name c.accounts < length c.accounts =
        rw an (position-lt n c.accounts {a = a} f) in
      let low = rank-le c.gpo.time a c.accounts place d in go low place m e
    where
      go :
          rank a c.accounts < (c.gpo.time + 1) * length c.accounts
          → position a.name c.accounts < length c.accounts
          → (m : Option ℕ) → least (behind a false c.accounts) ≡ m
          → Fuelled fuel c' m
      go low place none e = omega arith
      go low place (some k) e =
          let (b, ib, nb) = least-In (behind a false c.accounts) {n = k} e in
          let (i, ne, later) = behind-later a b c.accounts u ib in
          let fb = subst (λ x. find (named x) c.accounts ≡ some b) nb (found b c.accounts u i) in
          let (b', fb', t) =
            find-Each (Turned a.name) k c.accounts c'.accounts {a = b} (λ x y q. q.name) r.rows
              fb in
          let due : b'.next_vesting_withdrawal ≡ b.next_vesting_withdrawal =
            t.due (differ a.name b.name ne) in
          let up = rank-lt a b c.accounts place later in
          let same : rank b' c'.accounts ≡ rank b c.accounts =
            rw
              (
                due,
                t.name,
                position-Each (Turned a.name) (λ x y q. q.name) b.name c.accounts c'.accounts
                    r.rows,
                length-Each (Turned a.name) (λ x y q. q.name) c.accounts c'.accounts r.rows,
              )
              refl in
          (
            b',
            fb',
            rw
                (
                  r.time,
                  same,
                  length-Each (Turned a.name) (λ x y q. q.name) c.accounts c'.accounts r.rows,
                )
                (omega arith),
          )

  process-Loop :
      (fuel : ℕ) (current : Option ℕ) (c : Chain)
      → Unique c.accounts
      → Fuelled fuel c current
      → Loop current c (process_from safe remainder to_uint64 fuel current c)
  unfolding process_from get_account
  process-Loop zero none c u h = absurd (omega arith)
  process-Loop (suc fuel) none c u h = at_end c
  process-Loop zero (some n) c u (a, f, h) = absurd (omega arith)
  process-Loop (suc fuel) (some n) c u (a, f, h) =
      rw f (elim (Bool-cases (leb a.next_vesting_withdrawal c.gpo.time)) [
        | inr late ↦ rw late (not_due n a c f (ground arith))
        | inl due ↦
            let d : a.next_vesting_withdrawal ≤ c.gpo.time = ground arith in
            rw due (elim (Result-cases (withdraw safe remainder to_uint64 a c)) [
              | inr (e, q) ↦ rw q (thrown n a c e f d q)
              | inl (c', q) ↦
                  let own : find (named a.name) c.accounts ≡ some a =
                    subst (λ m. find (named m) c.accounts ≡ some a)
                      (sym (named-name n c.accounts {a = a} f)) f in
                  let r =
                    (withdraw-Turned safe exact fits remainder to_uint64 a c own).on_ok c' q in
                  rw q (
                    turn n a c c' (process_from safe remainder to_uint64 fuel (following a c) c') f
                      d q
                      (process-Loop fuel (following a c) c'
                        (Unique-Each (Turned a.name) (λ x y t. t.name) c.accounts c'.accounts r.rows
                          u)
                        (next-Fuelled fuel n a c c' u f d h r (following a c) refl)))
            ])
      ])

  -- Where names are unique, the fuel is enough: what the model of the withdrawals returns or throws
  -- is the end of the loop itself, which goes along the index by the date of the next withdrawal
  -- while its rows change. The arithmetic on shares returns only exact values of 64 bits.
  pub process_vesting_withdrawals-Loop :
      (c : Chain)
      → Unique c.accounts
      → Loop (least c.accounts) c (process_vesting_withdrawals safe remainder to_uint64 c)
  unfolding process_vesting_withdrawals
  process_vesting_withdrawals-Loop c u =
      let bound = (c.gpo.time + 1) * length c.accounts in
      process-Loop (suc bound) (least c.accounts) c u (first (least c.accounts) refl)
    where
      first :
          (m : Option ℕ)
          → least c.accounts ≡ m
          → Fuelled (suc ((c.gpo.time + 1) * length c.accounts)) c m
      first none e = omega arith
      first (some k) e =
          let (b, i, n) = least-In c.accounts {n = k} e in
          (
            b,
            subst (λ x. find (named x) c.accounts ≡ some b) n (found b c.accounts u i),
            omega arith,
          )
