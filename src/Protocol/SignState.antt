-- ===== src/Protocol/SignState.antt =====
-- libraries/protocol/sign_state.cpp: the check of an authority against signatures and approvals.
-- `check_authority` recurs with the rounds that are left, `max_recursion - depth`: no rounds are left
-- where the code finds `depth == max_recursion`. A getter of authorities may throw.
pub mod Soundness
use vidpow.Prelude.{
  ℕ, zero, suc, ◌+◌, ◌%◌, ◌^◌, Bool, true, false, not, Option, none, some, List, [], ◌∷◌, map, leb,
  ltb, ◌==◌, ◌||◌, if◌then◌else◌, ◌≡◌, inl, inr, arith,
}
use vidpow.Prelude.{Result, ok, err, Result-cases, Error}
use vidpow.Protocol.Authority.{Authority, FlatMap}

pub record SignState : Type 0 where
  pub provided_signatures : List (ℕ × Bool)
  pub approved_by : List ℕ

abbrev pub M : Type 0 → Type 0
M A = SignState → Result (A × SignState)

infixl 5 ◌>>=◌ ◌>>◌
abbrev pub ◌>>=◌ : {A B : Type 0} → M A → (A → M B) → M B
◌>>=◌ m f s = elim (m s) [ err e ↦ err e | ok (a, s') ↦ f a s' ]

abbrev pub ◌>>◌ : {A B : Type 0} → M A → M B → M B
m >> k = m >>= λ _. k

abbrev pub pure : {A : Type 0} → A → M A
pure a s = ok (a, s)

abbrev pub lift : {A : Type 0} → Result A → M A
lift (ok a) s = ok (a, s)
lift (err e) s = err e

-- `WLS_ASSERT( b, e )`
abbrev pub require : Bool → Error → M (Unit {0})
require true e s = ok (tt, s)
require false e s = err e

-- `m || k`, which runs `k` only if it has to.
abbrev pub or_else : M Bool → M Bool → M Bool
or_else m k = m >>= λ b. elim b [ true ↦ pure true | false ↦ k ]

abbrev pub member : ℕ → List ℕ → Bool
member n [] = false
member n (m ∷ ms) = m == n || member n ms

abbrev pub has_key : ℕ → List (ℕ × Bool) → Bool
has_key k [] = false
has_key k ((j, _) ∷ m) = j == k || has_key k m

-- `provided_signatures[k] = true`
unfoldable pub mark : ℕ → List (ℕ × Bool) → List (ℕ × Bool)
mark k [] = (k, true) ∷ []
mark k ((j, b) ∷ m) =
    if ltb k j then (k, true) ∷ (j, b) ∷ m else if j == k then (j, true) ∷ m else (j, b) ∷ mark k m

-- `approved_by.insert( n )`; the order in the set is never read.
unfoldable pub approve : ℕ → M (Unit {0})
approve n s = ok (tt, record s { approved_by = n ∷ s.approved_by })

unfoldable pub is_approved : ℕ → M Bool
is_approved n s = ok (member n s.approved_by, s)

-- Inversion of a chain that returns.
pub >>=-ok :
    {A B : Type 0} (m : M A) (f : A → M B) (s : SignState) {r : B × SignState}
    → (m >>= f) s ≡ ok r
    → (a : A) × (s' : SignState) × (m s ≡ ok (a, s')) × (f a s' ≡ ok r)
>>=-ok m f s {r} e = elim (Result-cases (m s)) [
  | inl (p, q) ↦ (p.0, p.1, q, rw (q, ◌>>=◌) at e)
  | inr (er, q) ↦ absurd (ground arith)
]

-- A branch that the weight so far decides.
abbrev pub enough : ℕ → ℕ → M Bool → M Bool
enough threshold total rest = elim (leb threshold total) [ true ↦ pure true | false ↦ rest ]

abbrev pub add_weight : ℕ → ℕ → ℕ
add_weight total w = (total + w) % 2 ^ 32

module _ (get_active : ℕ → Result Authority) (available_keys : List ℕ) where
  unfoldable pub signed_by : ℕ → M Bool
  unfolding mark
  signed_by k s =
      if has_key k s.provided_signatures || member k available_keys
      then ok (true, record s { provided_signatures = mark k s.provided_signatures })
      else ok (false, s)

  -- The first loop of `check_authority`; `k` goes on with the total.
  unfoldable pub check_keys : ℕ → FlatMap → ℕ → (ℕ → M Bool) → M Bool
  check_keys threshold [] total k = k total
  check_keys threshold ((key, w) ∷ m) total k = do
    signed ← signed_by key
    elim signed [
      | true ↦ enough threshold (add_weight total w) (check_keys threshold m (add_weight total w) k)
      | false ↦ check_keys threshold m total k
    ]

  -- The second loop. `deeper` checks an authority one level down; at the last level there is none.
  unfoldable pub check_accounts : Option (Authority → M Bool) → ℕ → FlatMap → ℕ → M Bool
  check_accounts deeper threshold [] total = pure (leb threshold total)
  check_accounts deeper threshold ((name, w) ∷ m) total = do
    approved ← is_approved name
    elim approved [
      | true ↦
          enough threshold (add_weight total w)
            (check_accounts deeper threshold m (add_weight total w))
      | false ↦ elim deeper [
        | none ↦ check_accounts none threshold m total
        | some check ↦ (do
          auth ← lift (get_active name)
          passed ← check auth
          elim passed [
            | true ↦
                approve name
                >> enough threshold (add_weight total w)
                    (check_accounts (some check) threshold m (add_weight total w))
            | false ↦ check_accounts (some check) threshold m total
          ])
      ]
    ]

  unfoldable pub check_authority : ℕ → Authority → M Bool
  check_authority zero auth =
      check_keys auth.weight_threshold auth.key_auths 0
        (check_accounts none auth.weight_threshold auth.account_auths)
  check_authority (suc left) auth =
      check_keys auth.weight_threshold auth.key_auths 0
        (check_accounts (some (check_authority left)) auth.weight_threshold auth.account_auths)

  -- The overload that takes a name.
  unfoldable pub check_name : ℕ → ℕ → M Bool
  check_name max_recursion id = do
    approved ← is_approved id
    elim approved [
      | true ↦ pure true
      | false ↦ lift (get_active id) >>= check_authority max_recursion
    ]

abbrev pub unused : List (ℕ × Bool) → Bool
unused [] = false
unused ((_, b) ∷ m) = not b || unused m

abbrev pub drop_unused : List (ℕ × Bool) → List (ℕ × Bool)
drop_unused [] = []
drop_unused ((k, b) ∷ m) = if b then (k, b) ∷ drop_unused m else drop_unused m

unfoldable pub remove_unused_signatures : M Bool
remove_unused_signatures s = ok (
  unused s.provided_signatures,
  record s { provided_signatures = drop_unused s.provided_signatures },
)

-- WLS_TEMP_ACCOUNT, the name `temp` as a number.
abbrev pub temp_account : ℕ
temp_account = 0x74656d70

-- The constructor.
unfoldable pub init_state : List ℕ → SignState
init_state sigs = record {
  provided_signatures = map (λ k. (k, false)) sigs;
  approved_by = temp_account ∷ [];
}
