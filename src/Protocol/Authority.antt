-- ===== src/Protocol/Authority.antt =====
-- libraries/protocol/authority.cpp, and its twin libraries/chain/shared_authority.cpp.
-- Account names and public keys are numbers, ordered as the code orders them; a `flat_map` is an
-- association list in the order of its keys.
use vidpow.Prelude.{
  ℕ, ◌+◌, ◌%◌, ◌^◌, ◌<◌, ◌≡◌, Bool, true, false, List, [], ◌∷◌, map, arith, ltb, ◌==◌, ◌&&◌,
  if◌then◌else◌, length,
}
use vidpow.Prelude.{Result, ok, ◌>>◌, assert}

abbrev pub FlatMap : Type 0
FlatMap = List (ℕ × ℕ)

pub record Authority : Type 0 where
  pub weight_threshold : ℕ
  pub account_auths : FlatMap
  pub key_auths : FlatMap

-- `m[k] = w`
unfoldable pub insert_auth : ℕ → ℕ → FlatMap → FlatMap
insert_auth k w [] = (k, w) ∷ []
insert_auth k w ((j, u) ∷ m) =
    if ltb k j
    then (k, w) ∷ (j, u) ∷ m
    else if j == k
    then (k, w) ∷ m
    else (j, u) ∷ insert_auth k w m

pub add_key_authority : ℕ → ℕ → Authority → Authority
add_key_authority k w a = record a { key_auths = insert_auth k w a.key_auths }

pub add_account_authority : ℕ → ℕ → Authority → Authority
add_account_authority k w a = record a { account_auths = insert_auth k w a.account_auths }

pub get_keys : Authority → List ℕ
get_keys a = map (λ e. e.0) a.key_auths

-- The `uint64_t` sum of the weights, added to what was there.
unfoldable pub add_weights : ℕ → FlatMap → ℕ
add_weights sum [] = sum
add_weights sum ((_, w) ∷ m) = add_weights ((sum + w) % 2 ^ 64) m

unfoldable pub is_impossible : Authority → Bool
is_impossible a = ltb (add_weights (add_weights 0 a.account_auths) a.key_auths) a.weight_threshold

-- The sum of two `size_t`, returned as a `uint32_t`.
pub num_auths : Authority → ℕ
num_auths a = (length a.account_auths + length a.key_auths) % 2 ^ 32

pub clear : Authority → Authority
clear a = record a { account_auths = []; key_auths = [] }

-- `validate`, over the test of a name.
pub validate : (ℕ → Bool) → FlatMap → Result (Unit {0})
validate is_valid_account_name [] = ok tt
validate is_valid_account_name ((n, _) ∷ m) =
    assert (is_valid_account_name n) >> validate is_valid_account_name m

abbrev same_entries : FlatMap → FlatMap → Bool
same_entries [] [] = true
same_entries ((j, u) ∷ m) ((k, w) ∷ n) = j == k && u == w && same_entries m n
same_entries _ _ = false

-- `operator ==`
pub is_equal : Authority → Authority → Bool
is_equal a b =
    a.weight_threshold == b.weight_threshold
    && same_entries a.account_auths b.account_auths
    && same_entries a.key_auths b.key_auths

-- The sum of the weights with no wrap-around.
abbrev pub total_weight : FlatMap → ℕ
total_weight [] = 0
total_weight ((_, w) ∷ m) = w + total_weight m

pub add_weights-total_weight :
    (sum : ℕ) (m : FlatMap)
    → sum + total_weight m < 2 ^ 64
    → add_weights sum m ≡ sum + total_weight m
unfolding add_weights
add_weights-total_weight sum [] h = omega arith
add_weights-total_weight sum ((n, w) ∷ m) h =
    omega (arith, add_weights-total_weight ((sum + w) % 2 ^ 64) m)
