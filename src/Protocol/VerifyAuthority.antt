-- ===== src/Protocol/VerifyAuthority.antt =====
-- libraries/protocol/transaction.cpp: `verify_authority`.
-- The authorities that a list of operations requires are computed in the operation templates, from
-- `operation_get_required_authorities`; here they are given as one record.
pub mod Soundness
pub mod Tests
use vidpow.Prelude.{ℕ, Bool, true, false, not, List, [], ◌∷◌, ◌++◌, if◌then◌else◌}
use vidpow.Prelude.{
  Result, Error, assertion, tx_missing_active_auth, tx_missing_owner_auth, tx_missing_posting_auth,
  tx_missing_other_auth, tx_irrelevant_sig,
}
use vidpow.Protocol.Authority.{Authority}
use vidpow.Protocol.SignState.{
  SignState, M, ◌>>=◌, ◌>>◌, pure, lift, require, or_else, member, check_authority, check_name,
  remove_unused_signatures, init_state,
}

pub record Required : Type 0 where
  pub active : List ℕ
  pub owner : List ℕ
  pub posting : List ℕ
  pub other : List Authority

-- The names that the caller has approved by other means; the callers in this program give none.
pub record Approvals : Type 0 where
  pub active : List ℕ
  pub owner : List ℕ
  pub posting : List ℕ

abbrev pub is_empty {ℓ} : {A : Type ℓ} → List A → Bool
is_empty [] = true
is_empty (_ ∷ _) = false

-- `for( auto x : xs ) WLS_ASSERT( check( x ), e );`
pub require_each : {A : Type 0} → (A → M Bool) → Error → List A → M (Unit {0})
require_each check e [] = pure tt
require_each check e (x ∷ xs) = do passed ← check x; require passed e; require_each check e xs

pub with_approvals : List ℕ → SignState → SignState
with_approvals names s = record s { approved_by = names ++ s.approved_by }

-- `WLS_ASSERT( !s.remove_unused_signatures(), tx_irrelevant_sig )`
pub no_unused : M (Unit {0})
no_unused = remove_unused_signatures >>= λ removed. require (not removed) tx_irrelevant_sig

abbrev pub Getter : Type 0
Getter = ℕ → Result Authority

module _ (get_active get_owner get_posting : Getter) (max_recursion : ℕ) where
  -- The conditions of the three `WLS_ASSERT`s on a name.
  pub posting_passes : ℕ → M Bool
  posting_passes id = or_else (check_name get_posting [] max_recursion id) (
      or_else (lift (get_active id) >>= check_authority get_posting [] max_recursion)
        (lift (get_owner id) >>= check_authority get_posting [] max_recursion))

  pub active_passes : ℕ → M Bool
  active_passes id =
      or_else (check_name get_active [] max_recursion id)
        (lift (get_owner id) >>= check_authority get_active [] max_recursion)

  pub owner_passes : List ℕ → ℕ → M Bool
  owner_passes owner_approvals id =
      or_else (pure (member id owner_approvals))
        (lift (get_owner id) >>= check_authority get_active [] max_recursion)

  -- The branch of a transaction that needs posting authority.
  pub verify_posting : Required → M (Unit {0})
  verify_posting r = do
    require (is_empty r.active) assertion
    require (is_empty r.owner) assertion
    require (is_empty r.other) assertion
    require_each posting_passes tx_missing_posting_auth r.posting
    no_unused

  -- The branch of any other transaction.
  pub verify_other : List ℕ → Required → M (Unit {0})
  verify_other owner_approvals r = do
    require_each (check_authority get_active [] max_recursion) tx_missing_other_auth r.other
    require_each active_passes tx_missing_active_auth r.active
    require_each (owner_passes owner_approvals) tx_missing_owner_auth r.owner
    no_unused

  pub verify_authority : Required → List ℕ → Approvals → Result (Unit {0} × SignState)
  verify_authority r sigs given =
      if is_empty r.posting
      then verify_other given.owner r
          (with_approvals given.owner (with_approvals given.active (init_state sigs)))
      else verify_posting r (with_approvals given.posting (init_state sigs))
