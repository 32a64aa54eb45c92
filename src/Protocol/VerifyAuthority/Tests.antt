-- ===== src/Protocol/VerifyAuthority/Tests.antt =====
-- Tests of the authority checks, and their theorems at an account 1 with a key 10 and an account 2
-- that account 1 acts for.
use vidpow.Prelude.{◌==◌, if◌then◌else◌, ◌≡◌, refl, ◌≢◌, ◌⊎◌, true, [], ◌∷◌, arith}
use vidpow.Prelude.{ok, err, unknown_object, tx_irrelevant_sig, tx_missing_posting_auth}
use vidpow.Protocol.Authority.{Authority, is_impossible, add_weights}
use vidpow.Protocol.SignState.{
  SignState, mark, approve, is_approved, signed_by, check_keys, check_accounts, check_authority,
  check_name, remove_unused_signatures, init_state, temp_account,
}
use vidpow.Protocol.SignState.Soundness.{Satisfied, check_authority-Satisfied, is_impossible-fails}
use vidpow.Protocol.VerifyAuthority.{
  Required, Approvals, Getter, require_each, with_approvals, no_unused, posting_passes,
  verify_posting, verify_authority,
}
use vidpow.Protocol.VerifyAuthority.Soundness.{
  PostingVerified, OtherVerified, posting_start, other_start, verify_authority-Verified,
}

abbrev by_key : Authority
by_key = record { weight_threshold = 1; account_auths = []; key_auths = (10, 1) ∷ [] }

abbrev by_account : Authority
by_account = record { weight_threshold = 2; account_auths = (1, 2) ∷ []; key_auths = (20, 1) ∷ [] }

abbrev impossible : Authority
impossible = record { weight_threshold = 9; account_auths = (1, 2) ∷ []; key_auths = (20, 1) ∷ [] }

abbrev get : Getter
get n = if n == 1 then ok by_key else if n == 2 then ok by_account else err unknown_object

abbrev required : Required
required = record { active = []; owner = []; posting = 2 ∷ []; other = [] }

abbrev given : Approvals
given = record { active = []; owner = []; posting = [] }

abbrev signed : SignState
signed = record { provided_signatures = (10, true) ∷ []; approved_by = 1 ∷ temp_account ∷ [] }

accepted : verify_authority get get get 2 required (10 ∷ []) given ≡ ok (tt, signed)
unfolding verify_authority verify_posting require_each posting_passes no_unused with_approvals
    check_name check_authority check_keys check_accounts signed_by mark approve is_approved
    remove_unused_signatures init_state
accepted = refl

too_deep : verify_authority get get get 0 required (10 ∷ []) given ≡ err tx_missing_posting_auth
unfolding verify_authority verify_posting require_each posting_passes no_unused with_approvals
    check_name check_authority check_keys check_accounts signed_by mark approve is_approved
    remove_unused_signatures init_state
too_deep = refl

irrelevant : verify_authority get get get 2 required (10 ∷ 30 ∷ []) given ≡ err tx_irrelevant_sig
unfolding verify_authority verify_posting require_each posting_passes no_unused with_approvals
    check_name check_authority check_keys check_accounts signed_by mark approve is_approved
    remove_unused_signatures init_state
irrelevant = refl

verify_authority-Verified_example :
    ((required.posting ≢ [])
      × PostingVerified get get get 2 (posting_start get get get 2 (10 ∷ []) given) required signed)
    ⊎ ((required.posting ≡ [])
        × OtherVerified get get get 2
            (other_start get get get 2 (10 ∷ []) given)
            []
            required
            signed)
verify_authority-Verified_example =
    verify_authority-Verified get get get 2 required (10 ∷ []) given {u = tt} {s' = signed} accepted

passed : check_authority get [] 1 by_account (init_state (10 ∷ [])) ≡ ok (true, signed)
unfolding check_authority check_keys check_accounts signed_by mark approve is_approved init_state
passed = refl

check_authority-Satisfied_example : Satisfied get [] (init_state (10 ∷ [])) by_account
check_authority-Satisfied_example =
    check_authority-Satisfied get [] (init_state (10 ∷ [])) 1 by_account signed passed

found_impossible : is_impossible impossible ≡ true
unfolding is_impossible add_weights
found_impossible = refl

is_impossible-fails_example :
    check_authority get [] 1 impossible (init_state (10 ∷ [])) ≢ ok (true, signed)
is_impossible-fails_example =
    is_impossible-fails get [] (init_state (10 ∷ [])) 1 impossible signed (omega arith)
      found_impossible
