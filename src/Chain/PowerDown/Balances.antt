-- ===== src/Chain/PowerDown/Balances.antt =====
-- database.cpp: the withdrawals of vesting shares against the sums of `validate_invariants`.
use vidpow.Prelude.{
  ℕ, ◌-◌, ◌*◌, ◌/◌, ◌%◌, ◌^◌, ◌≤◌, ◌<◌, ◌≡◌, refl, false, List, [], ◌∷◌, ◌==◌, if◌then◌else◌, arith,
  All,
}
use vidpow.Prelude.{Result, ok, Ensures, after, finally, Ensures-if}
use vidpow.Prelude.Int.{ℤ, pos, negsuc, ◌+ℤ◌, ◌-ℤ◌, ◌≤ℤ◌, ltb_ℤ, int_laws}
use vidpow.Protocol.Asset.{IsExact, signed64, to_u128}
use vidpow.Chain.Slots.Inflation.{mul_le}
use vidpow.Chain.Ledger.State.{
  Account, WithdrawRoute, Chain, proxy_to_self, get_account, modify_account,
}
use vidpow.Chain.Ledger.Effects.{modify_account-Moves, add_vesting-Effect}
use vidpow.Chain.Ledger.Conservation.{walked}
use vidpow.Chain.Ledger.Flight.{once}
use vidpow.Chain.Ledger.Debts.{Debts, Moves-Debts, walk-Debts}
use vidpow.Chain.Ledger.Supply.{add_vesting}
use vidpow.Chain.PowerDown.{route_part, deposit_vests, first_pass}

pub Debts-cast :
    {c : Chain} (k v n k' v' n' : ℤ) → k ≡ k' → v ≡ v' → n ≡ n' → Debts c k v n → Debts c k' v' n'
Debts-cast k v n k' v' n' ek ev en b = record {
  supply = rw (← ek) b.supply;
  vesting = rw (← ev) b.vesting;
  votes = rw (← en) b.votes;
  pending = b.pending;
}

-- The documented behaviour of `to_uint64`: a number of 64 bits is returned as it is.
abbrev pub IsLowWord : (ℕ → Result ℕ) → Type 0
IsLowWord to_uint64 = (x y : ℕ) → x < 2 ^ 64 → to_uint64 x ≡ ok y → y ≡ x

-- At most all of a withdrawal goes along one route.
abbrev pub IsPercent : WithdrawRoute → Type 0
IsPercent r = r.percent ≤ 10000

module _ (safe : ℤ → Result ℤ) (exact : IsExact safe) (remainder : ℤ → ℤ → Result ℤ)
    (to_uint64 : ℕ → Result ℕ) (words : IsLowWord to_uint64) where
  signed64-pos : (w : ℕ) → w < 2 ^ 63 → pos 0 ≤ℤ signed64 w
  unfolding signed64
  signed64-pos w h = ground arith

  part-lt : (n percent : ℕ) → n ≤ 2 ^ 63 - 1 → percent ≤ 10000 → n * percent % 2 ^ 128 / 10000 ≤ n
  part-lt n percent h p = omega (arith, mul_le percent 10000 n p)

  pub route_part-pos :
      (tw : ℤ) (route : WithdrawRoute)
      → IsPercent route
      → pos 0 ≤ℤ tw
      → tw ≤ℤ pos (2 ^ 63 - 1)
      → Ensures (route_part safe remainder to_uint64 tw route) (λ d. pos 0 ≤ℤ d)
  unfolding route_part to_u128
  route_part-pos (negsuc n) route p z s = absurd (omega arith)
  route_part-pos (pos n) route p z s =
      let m : n ≤ 2 ^ 63 - 1 = omega arith in
      let e : n % 2 ^ 128 ≡ n = omega arith in
      let l = part-lt n route.percent m p in
      after (to_uint64 (n % 2 ^ 128 * route.percent % 2 ^ 128 / 10000)) (λ w ew.
        let q : w ≡ n % 2 ^ 128 * route.percent % 2 ^ 128 / 10000 =
          words _ w (rw e (omega (arith, l))) ew in
        let low : w < 2 ^ 63 = rw (q, e) (omega (arith, l)) in finally (signed64-pos w low))

  deposit_vests-Debts :
      (to : ℕ) (d k v n : ℤ) (c : Chain)
      → Debts c k v n
      → Ensures (deposit_vests safe remainder to_uint64 to d c) (λ c'. Debts c' k (v -ℤ d) (n -ℤ d))
  unfolding deposit_vests
  deposit_vests-Debts to d k v n c b = after (get_account to c) (λ t _.
      after (modify_account t.name (add_vesting safe d) c) (λ c1 e1.
        let own = λ (a : Account). if a.proxy == proxy_to_self then d else pos 0 in
        let (a, a', m, found, kept) =
          modify_account-Moves safe exact t.name (add_vesting safe d) (pos 0) d own (pos 0) c
            {c' = c1} (add_vesting-Effect safe exact d) e1 in
        let b1 = Moves-Debts k v n (pos 0) d (own a) m b in
        record {
          on_ok = λ c2 e2.
              let sum = once safe exact a a' d kept in
              Debts-cast (k -ℤ pos 0) (v -ℤ d) (n -ℤ own a -ℤ walked safe exact 4 a' d) k (v -ℤ d)
                (n -ℤ d) (omega int_laws) refl (grind (int_laws, sum))
                (walk-Debts safe exact t.name d a' {c = c1} {c' = c2} (k -ℤ pos 0) (v -ℤ d)
                  (n -ℤ own a) found b1 e2);
        }))

  pub zero_of : (d : ℤ) → pos 0 ≤ℤ d → ltb_ℤ (pos 0) d ≡ false → d ≡ pos 0
  zero_of d p h = grind int_laws

  pub first_pass-Debts :
      (tw total k v n : ℤ) (routes : List WithdrawRoute) (c : Chain)
      → All IsPercent routes
      → pos 0 ≤ℤ tw
      → tw ≤ℤ pos (2 ^ 63 - 1)
      → Debts c k v n
      → Ensures
          (first_pass safe remainder to_uint64 tw total routes c)
          (λ r. Debts r.1 k (v -ℤ (r.0 -ℤ total)) (n -ℤ (r.0 -ℤ total)))
  unfolding first_pass
  first_pass-Debts tw total k v n [] c h z s b = finally (
      Debts-cast k v n k (v -ℤ (total -ℤ total)) (n -ℤ (total -ℤ total)) refl (omega int_laws)
        (omega int_laws) b)
  first_pass-Debts tw total k v n (route ∷ routes) c h z s b =
      Ensures-if route.auto_vest _ _
        (λ _. after (route_part safe remainder to_uint64 tw route) (λ d ed.
          after (safe (total +ℤ d)) (λ t et.
            after
              (if ltb_ℤ (pos 0) d
                then deposit_vests safe remainder to_uint64 route.to_account d c
                else ok c)
              (λ c1 e1. record {
                on_ok = λ r e.
                    let q = exact _ t et in
                    let p = (route_part-pos tw route h.0 z s).on_ok d ed in
                    let b1 =
                      (Ensures-if {P = λ c'. Debts c' k (v -ℤ d) (n -ℤ d)} (ltb_ℤ (pos 0) d) _ _
                          (λ _. deposit_vests-Debts route.to_account d k v n c b)
                          (λ f. finally (
                            let o = zero_of d p f in
                            Debts-cast k v n k (v -ℤ d) (n -ℤ d) refl (rw o (omega int_laws))
                              (rw o (omega int_laws)) b))).on_ok
                        c1 e1 in
                    let b2 =
                      (first_pass-Debts tw t k (v -ℤ d) (n -ℤ d) routes c1 h.1 z s b1).on_ok r e in
                    Debts-cast k (v -ℤ d -ℤ (r.0 -ℤ t)) (n -ℤ d -ℤ (r.0 -ℤ t)) k
                      (v -ℤ (r.0 -ℤ total)) (n -ℤ (r.0 -ℤ total)) refl (rw (← q) (omega int_laws))
                      (rw (← q) (omega int_laws)) b2;
              }))))
        (λ _. first_pass-Debts tw total k v n routes c h.1 z s b)
