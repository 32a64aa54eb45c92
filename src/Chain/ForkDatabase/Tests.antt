-- ===== src/Chain/ForkDatabase/Tests.antt =====
-- Tests of the fork database, and its theorems at a small tree of blocks: 1 - 2 - 4 and 1 - 3 - 5.
use vidpow.Prelude.{
  ℕ, suc, length, max, Option, none, false, ◌+◌, ◌-◌, ◌*◌, ◌/◌, ◌%◌, ◌^◌, ◌≤◌, ◌<◌, ◌≡◌, refl, ◌≢◌,
  some, List, [], ◌∷◌, arith, In, ltb, not, filter,
}
use vidpow.Prelude.{ok, err, out_of_fuel}
use vidpow.Protocol.Block.{
  SignedBlock, BlockHash, IsByteSwap, block_num, block_id, num_from_id, num_from_id-block_id,
}
use vidpow.Chain.ForkDatabase.{
  ForkItem, ForkDb, empty, BranchPair, push_block, set_max_size, fetch_branch_from,
  walk_main_branch_to_num, find_id, walk_down, lock, find_address, descend, descend_both,
  previous_id, push_item, make_item, recent, link, longest, insert, oldest,
}
use vidpow.Chain.ForkDatabase.Invariant.{Inv}
use vidpow.Chain.ForkDatabase.Steps.{
  Reach, here, next, pushes, Reach-Inv, IsItemOf, push_block-head,
}
use vidpow.Chain.ForkDatabase.Branches.{
  Meets, Descent, fetch_branch_from-Meets, fetch_branch_from_total,
}
use vidpow.Chain.ForkDatabase.Trim.{
  set_max_size-filter, walk_main_branch_to_num-found, walk_main_branch_to_num_total,
}

abbrev pub swap_bytes : ℕ → ℕ
swap_bytes x = x % 256 * 2 ^ 24 + x / 256 % 256 * 2 ^ 16 + x / 65536 % 256 * 256 + x / 2 ^ 24 % 256

abbrev pub test_hash : BlockHash
test_hash = record { sha224 = λ b. b.content * 2 ^ 32; endian_reverse_u32 = swap_bytes }

pub swap_bytes-IsByteSwap : IsByteSwap swap_bytes
swap_bytes-IsByteSwap = record { word = λ x. omega arith; twice = λ x h. omega arith }

abbrev pub block : ℕ → ℕ → SignedBlock
block previous content = record {
  previous = previous;
  timestamp = 0;
  witness = 0;
  content = content;
}

num_from_id-block_id_example :
    num_from_id test_hash (block_id test_hash (block 0 7)) ≡ block_num test_hash (block 0 7)
num_from_id-block_id_example = num_from_id-block_id test_hash swap_bytes-IsByteSwap (block 0 7)

abbrev pub id_of : ℕ → ℕ → ℕ
id_of num content = content * 2 ^ 32 + swap_bytes num

abbrev pub item : ℕ → Option ℕ → ℕ → ℕ → ForkItem
item a prev num previous = record {
  address = a;
  prev = prev;
  num = num;
  invalid = false;
  id = id_of num (suc a);
  data_block = block previous (suc a);
}

abbrev pub item_0 : ForkItem
item_0 = item 0 none 1 0

abbrev pub item_1 : ForkItem
item_1 = item 1 (some 0) 2 (id_of 1 1)

abbrev pub item_2 : ForkItem
item_2 = item 2 (some 0) 2 (id_of 1 1)

abbrev pub item_3 : ForkItem
item_3 = item 3 (some 1) 3 (id_of 2 2)

abbrev pub item_4 : ForkItem
item_4 = item 4 (some 2) 3 (id_of 2 3)

abbrev pub db_of : List ForkItem → ForkItem → ForkDb
db_of items h = record {
  max_size = 1024;
  unlinked = [];
  index = items;
  head = some h;
  next_address = length items;
}

abbrev pub db_4 : ForkDb
db_4 = db_of (item_0 ∷ item_1 ∷ item_2 ∷ item_3 ∷ []) item_3

abbrev pub tree : ForkDb
tree = db_of (item_0 ∷ item_1 ∷ item_2 ∷ item_3 ∷ item_4 ∷ []) item_3

push_4 : push_block test_hash item_4.data_block db_4 ≡ ok tree
unfolding push_block push_item make_item recent link longest insert oldest find_id previous_id
    block_id block_num num_from_id
push_4 = refl

pub tree-Reach : Reach test_hash tree
unfolding push_block push_item make_item recent link longest insert oldest find_id previous_id
    block_id block_num num_from_id empty
tree-Reach =
    next {db = db_4}
      (next {db = db_of (item_0 ∷ item_1 ∷ item_2 ∷ []) item_1}
        (next {db = db_of (item_0 ∷ item_1 ∷ []) item_1}
          (next {db = db_of (item_0 ∷ []) item_0}
            (next {db = empty} here (pushes item_0.data_block refl))
            (pushes item_1.data_block refl))
          (pushes item_2.data_block refl))
        (pushes item_3.data_block refl))
      (pushes item_4.data_block refl)

Reach-Inv_example : Inv test_hash tree
Reach-Inv_example = Reach-Inv test_hash tree-Reach

abbrev branches : BranchPair
branches = record { firsts = item_4 ∷ item_2 ∷ []; seconds = item_3 ∷ item_1 ∷ [] }

fetch_branch_from-Meets_example :
    (x : ForkItem) × (y : ForkItem) × (find_id item_4.id tree.index ≡ some x)
    × (find_id item_3.id tree.index ≡ some y)
    × Meets tree x y branches
unfolding fetch_branch_from find_id descend descend_both lock find_address previous_id
fetch_branch_from-Meets_example =
    fetch_branch_from-Meets tree item_4.id item_3.id {r = branches} refl

fetch_branch_from_total_example : fetch_branch_from tree item_4.id item_3.id ≢ err out_of_fuel
fetch_branch_from_total_example =
    fetch_branch_from_total test_hash tree Reach-Inv_example item_4.id item_3.id

set_max_size-filter_example :
    set_max_size 1 tree
    ≡ record tree { max_size = 1; index = filter (λ x. not (ltb x.num (3 - 1))) tree.index }
set_max_size-filter_example = set_max_size-filter test_hash tree Reach-Inv_example 1 item_3 refl

push_block-head_example :
    (h' : ForkItem) × (tree.head ≡ some h')
    × (block_num test_hash item_4.data_block ≤ item_3.num → h' ≡ item_3)
    × (item_3.num < block_num test_hash item_4.data_block → IsItemOf test_hash item_4.data_block h')
    × (h'.num ≡ max item_3.num (block_num test_hash item_4.data_block))
    × ((x : ForkItem) → In x tree.index → x.num ≤ h'.num)
push_block-head_example =
    push_block-head test_hash db_4 item_4.data_block {db' = tree} item_3 refl (λ x m. ground arith)
      push_4

walk_main_branch_to_num-found_example :
    (h : ForkItem) × (tree.head ≡ some h)
    × (item_0.num ≡ 1)
    × (xs : List ForkItem) × Descent tree h xs item_0
unfolding walk_main_branch_to_num walk_down lock find_address
walk_main_branch_to_num-found_example =
    walk_main_branch_to_num-found test_hash tree Reach-Inv_example swap_bytes-IsByteSwap 1
      {z = item_0} refl

walk_main_branch_to_num_total_example : walk_main_branch_to_num 1 tree ≢ err out_of_fuel
walk_main_branch_to_num_total_example =
    walk_main_branch_to_num_total test_hash tree Reach-Inv_example 1
