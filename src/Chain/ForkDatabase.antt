-- ===== src/Chain/ForkDatabase.antt =====
-- libraries/chain/fork_database.cpp: the tree of blocks that may become the chain.
-- `make_shared` gives each item an address of its own, from a counter. A `weak_ptr` is the address
-- of its item, and locks while the index or the head still holds that item. What a caller's own
-- `shared_ptr` keeps alive, as `branches` and `new_head` of `_push_block` do, is not counted. The lists `index` and
-- `unlinked` are the multi-index containers in the order of insertion.
pub mod Invariant
pub mod Reaches
pub mod Steps
pub mod Branches
pub mod Trim
pub mod Pops
pub mod Tests
use vidpow.Prelude.{
  ℕ, zero, suc, ◌-◌, Bool, true, false, not, Option, none, some, List, [], ◌∷◌, ◌++◌, max, ltb,
  ◌==◌, if◌then◌else◌, find, filter, length,
}
use vidpow.Prelude.{
  Result, ok, err, ◌>>=◌, ◌>>◌, assert, or_throw, assertion, unlinkable_block, null_pointer,
  out_of_fuel,
}
use vidpow.Protocol.Block.{SignedBlock, BlockHash, block_num, block_id}

pub record ForkItem : Type 0 where
  pub address : ℕ
  pub prev : Option ℕ
  pub num : ℕ
  pub invalid : Bool
  pub id : ℕ
  pub data_block : SignedBlock

pub record ForkDb : Type 0 where
  pub max_size : ℕ
  pub unlinked : List ForkItem
  pub index : List ForkItem
  pub head : Option ForkItem
  pub next_address : ℕ

-- The constructor, and `reset`, which keeps `_max_size`.
pub empty : ForkDb
empty = record { max_size = 1024; unlinked = []; index = []; head = none; next_address = 0 }

pub reset : ForkDb → ForkDb
reset db = record db { index = []; head = none }

unfoldable pub previous_id : ForkItem → ℕ
previous_id x = x.data_block.previous

unfoldable pub find_id : ℕ → List ForkItem → Option ForkItem
find_id i = find (λ x. x.id == i)

-- The `hashed_unique` index on the id: an item whose id is there already is not inserted.
unfoldable pub insert : ForkItem → List ForkItem → List ForkItem
unfolding find_id
insert x xs = elim (find_id x.id xs) [ none ↦ xs ++ x ∷ [] | some _ ↦ xs ]

unfoldable pub find_address : ℕ → ForkDb → Option ForkItem
find_address p db = elim (find (λ x. x.address == p) db.index) [
  | some x ↦ some x
  | none ↦ elim db.head [ none ↦ none | some h ↦ if h.address == p then some h else none ]
]

-- `prev.lock()`
unfoldable pub lock : ForkDb → ForkItem → Option ForkItem
unfolding find_address
lock db x = elim x.prev [ none ↦ none | some p ↦ find_address p db ]

unfoldable pub pop_block : ForkDb → Result ForkDb
unfolding lock
pop_block db = do
  h ← or_throw db.head assertion
  p ← or_throw (lock db h) assertion
  ok (record db { head = some p })

unfoldable pub set_head : ForkItem → ForkDb → ForkDb
set_head h db = record db { head = some h }

unfoldable pub remove : ℕ → ForkDb → ForkDb
remove i db = record db { index = filter (λ x. not (x.id == i)) db.index }

pub is_known_block : ℕ → ForkDb → Bool
unfolding find_id
is_known_block i db = elim (find_id i db.index) [
  | some _ ↦ true
  | none ↦ elim (find_id i db.unlinked) [ none ↦ false | some _ ↦ true ]
]

unfoldable pub fetch_block : ℕ → ForkDb → Option ForkItem
unfolding find_id
fetch_block i db = elim (find_id i db.index) [ some x ↦ some x | none ↦ find_id i db.unlinked ]

-- The `ordered_non_unique` index keeps items of one number in the order of insertion.
pub fetch_block_by_number : ℕ → ForkDb → List ForkItem
fetch_block_by_number n db = filter (λ x. x.num == n) db.index

-- Items below this number are too old. It is computed over `int64_t` and bounded by 0 from below,
-- as a subtraction on ℕ is.
unfoldable pub oldest : ForkDb → ForkItem → ℕ
oldest db h = max 0 (h.num - db.max_size)

unfoldable pub recent : ForkDb → ForkItem → Result (Unit {0})
unfolding oldest
recent db item = elim db.head [ none ↦ ok tt | some h ↦ assert (ltb (oldest db h) item.num) ]

-- The item with its `prev` set, where it needs one.
unfoldable pub link : ForkDb → ForkItem → Result ForkItem
unfolding find_id previous_id
link db item = elim db.head [
  | none ↦ ok item
  | some h ↦ if previous_id item == 0 then ok item else (do
    p ← or_throw (find_id (previous_id item) db.index) unlinkable_block
    assert (not p.invalid)
    ok (record item { prev = some p.address }))
]

unfoldable pub longest : Option ForkItem → ForkItem → ForkItem
longest none item = item
longest (some h) item = if ltb h.num item.num then item else h

-- `_push_block`
unfoldable pub push_item : ForkDb → ForkItem → Result ForkDb
push_item db item = do
  recent db item
  x ← link db item
  ok (record db { index = insert x db.index; head = some (longest db.head x) })

-- The first item of the `block_num` index.
unfoldable pub least : List ForkItem → Option ForkItem
least [] = none
least (x ∷ xs) = elim (least xs) [
  | none ↦ some x
  | some y ↦ if ltb y.num x.num then some y else some x
]

unfoldable pub erase : ℕ → List ForkItem → List ForkItem
erase a [] = []
erase a (x ∷ xs) = if x.address == a then xs else x ∷ erase a xs

-- `while( itr != end ) if( num < bound ) erase( itr ); else break;`, each round from `begin()`.
unfoldable pub trim : ℕ → ℕ → List ForkItem → List ForkItem
unfolding least erase
trim zero bound xs = xs
trim (suc fuel) bound xs = elim (least xs) [
  | none ↦ xs
  | some x ↦ let rest = trim fuel bound (erase x.address xs) in if ltb x.num bound then rest else xs
]

unfoldable pub set_max_size : ℕ → ForkDb → ForkDb
set_max_size s db = elim db.head [
  | none ↦ record db { max_size = s }
  | some h ↦
      let sized = record db { max_size = s } in
      record sized {
        index = trim (length db.index) (oldest sized h) db.index;
        unlinked = trim (length db.unlinked) (oldest sized h) db.unlinked;
      }
]

-- The first two loops of `fetch_branch_from`: the items passed on the way down to number `n`, and
-- the item where the loop ends.
unfoldable pub descend : ForkDb → ℕ → ℕ → ForkItem → Result (List ForkItem × ForkItem)
unfolding lock
descend db zero n x = err out_of_fuel
descend db (suc fuel) n x = elim (ltb n x.num) [
  | false ↦ ok ([], x)
  | true ↦ elim (lock db x) [
    | none ↦ err assertion
    | some y ↦ elim (descend db fuel n y) [ err e ↦ err e | ok (xs, z) ↦ ok (x ∷ xs, z) ]
  ]
]

pub record BranchPair : Type 0 where
  pub firsts : List ForkItem
  pub seconds : List ForkItem

abbrev pub cons_both : ForkItem → ForkItem → Result BranchPair → Result BranchPair
cons_both x y (ok r) = ok (record { firsts = x ∷ r.firsts; seconds = y ∷ r.seconds })
cons_both x y (err e) = err e

-- The third loop, and the last two items, which it leaves in `first_branch` and `second_branch`.
unfoldable pub descend_both : ForkDb → ℕ → ForkItem → ForkItem → Result BranchPair
unfolding lock previous_id
descend_both db zero x y = err out_of_fuel
descend_both db (suc fuel) x y = elim (previous_id x == previous_id y) [
  | true ↦ ok (record { firsts = x ∷ []; seconds = y ∷ [] })
  | false ↦ elim (lock db x) [
    | none ↦ err assertion
    | some x' ↦ elim (lock db y) [
      | none ↦ err assertion
      | some y' ↦ cons_both x y (descend_both db fuel x' y')
    ]
  ]
]

unfoldable pub fetch_branch_from : ForkDb → ℕ → ℕ → Result BranchPair
fetch_branch_from db first second = do
  a ← or_throw (find_id first db.index) assertion
  b ← or_throw (find_id second db.index) assertion
  (xs, a') ← descend db db.next_address b.num a
  (ys, b') ← descend db db.next_address a'.num b
  r ← descend_both db db.next_address a' b'
  ok (record { firsts = xs ++ r.firsts; seconds = ys ++ r.seconds })

-- `while( next && next->num > block_num ) next = next->prev.lock();`
pub walk_down : ForkDb → ℕ → ℕ → ForkItem → Result (Option ForkItem)
unfolding lock
walk_down db zero n x = err out_of_fuel
walk_down db (suc fuel) n x = elim (ltb n x.num) [
  | false ↦ ok (some x)
  | true ↦ elim (lock db x) [ none ↦ ok none | some y ↦ walk_down db fuel n y ]
]

pub walk_main_branch_to_num : ℕ → ForkDb → Result (Option ForkItem)
walk_main_branch_to_num n db = elim db.head [
  | none ↦ err null_pointer
  | some h ↦ if ltb h.num n then ok none else walk_down db db.next_address n h
]

pub fetch_block_on_main_branch_by_number : ℕ → ForkDb → Result (Option ForkItem)
fetch_block_on_main_branch_by_number n db = elim (fetch_block_by_number n db) [
  | [] ↦ ok none
  | x ∷ rest ↦ elim rest [ [] ↦ ok (some x) | _ ∷ _ ↦ walk_main_branch_to_num n db ]
]

module _ (hash : BlockHash) where
  -- `make_shared< fork_item >( b )`
  unfoldable pub make_item : ForkDb → SignedBlock → ForkItem
  make_item db b = record {
    address = db.next_address;
    prev = none;
    num = block_num hash b;
    invalid = false;
    id = block_id hash b;
    data_block = b;
  }

  pub start_block : SignedBlock → ForkDb → ForkDb
  unfolding make_item insert
  start_block b db =
      let item = make_item db b in
      record db {
        index = insert item db.index;
        head = some item;
        next_address = suc db.next_address;
      }

  -- An unlinkable block is logged and the exception rethrown; the caching line after `throw` is dead.
  unfoldable pub push_block : SignedBlock → ForkDb → Result ForkDb
  push_block b db = push_item (record db { next_address = suc db.next_address }) (make_item db b)
