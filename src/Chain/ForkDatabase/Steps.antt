-- ===== src/Chain/ForkDatabase/Steps.antt =====
-- fork_database.cpp: sequences of operations, the invariant along them, and what a push returns.
use vidpow.Prelude.{
  ℕ, suc, ◌≤◌, ◌<◌, ◌≡◌, refl, subst, inl, inr, not, none, some, ◌==◌, arith, In, max, find-In,
  In-filter, length, Option-cases, Bool-cases,
}
use vidpow.Prelude.{>>=-eq-ok, ok}
use vidpow.Protocol.Block.{SignedBlock, BlockHash, block_num, block_id}
use vidpow.Chain.ForkDatabase.{
  ForkItem, ForkDb, empty, reset, set_head, previous_id, find_id, insert, lock, pop_block, remove,
  recent, link, longest, push_item, set_max_size, oldest, make_item, start_block, push_block,
}
use vidpow.Chain.ForkDatabase.Invariant.{Live, Inv, Inv-shrink, Inv-extend, IsNew}
use vidpow.Chain.ForkDatabase.Reaches.{insert-In, lock-Live, trim-In, trim-nil}

module _ (hash : BlockHash) where
  empty-Inv : Inv hash empty
  unfolding empty
  empty-Inv = record {
    fresh = λ x l. absurd (ground arith);
    same = λ x y l. absurd (ground arith);
    older = λ x p l. absurd (ground arith);
    linked = λ x y l. absurd (ground arith);
    number = λ x l. absurd (ground arith);
    name = λ x l. absurd (ground arith);
    valid = λ x l. absurd (ground arith);
    no_unlinked = refl;
  }

  pub pop_block-Inv :
      (db : ForkDb) {db' : ForkDb} → pop_block db ≡ ok db' → Inv hash db → Inv hash db'
  unfolding pop_block
  pop_block-Inv db {db'} e v = elim (Option-cases db.head) [
    | inl n ↦ absurd (ground arith)
    | inr (h, eh) ↦ elim (Option-cases (lock db h)) [
      | inl n ↦ absurd (ground arith)
      | inr (p, ep) ↦
          let live = lock-Live db h {y = p} ep in
          Inv-shrink hash db db' (λ x l. ground (arith, live)) (ground arith)
            (ground (arith, v.no_unlinked)) v
    ]
  ]

  pub set_head-Inv :
      (db : ForkDb) (h : ForkItem) → Live db h → Inv hash db → Inv hash (set_head h db)
  unfolding set_head
  set_head-Inv db h live v =
      Inv-shrink hash db _ (λ x l. ground (arith, live)) (omega arith) v.no_unlinked v

  pub remove-Inv : (db : ForkDb) (i : ℕ) → Inv hash db → Inv hash (remove i db)
  unfolding remove
  remove-Inv db i v =
      Inv-shrink hash db _ (λ x l. ground (arith, In-filter (λ y. not (y.id == i)) x db.index))
        (omega arith) v.no_unlinked v

  pub reset-Inv : (db : ForkDb) → Inv hash db → Inv hash (reset db)
  unfolding reset
  reset-Inv db v = Inv-shrink hash db _ (λ x l. absurd (ground arith)) (omega arith) v.no_unlinked v

  pub set_max_size-Inv : (db : ForkDb) (s : ℕ) → Inv hash db → Inv hash (set_max_size s db)
  unfolding set_max_size
  set_max_size-Inv db s v = elim (Option-cases db.head) [
    | inl e ↦
        Inv-shrink hash db _ (λ x l. ground (arith, e)) (ground arith)
          (ground (arith, v.no_unlinked)) v
    | inr (h, e) ↦
        Inv-shrink hash db _
          (λ x l. ground (
            arith,
            e,
            trim-In (length db.index) (oldest (record db { max_size = s }) h) x db.index,
          ))
          (ground arith)
          (ground (
            arith,
            trim-nil (oldest (record db { max_size = s }) h) db.unlinked v.no_unlinked,
            v.no_unlinked,
          ))
          v
  ]

  make_item-IsNew : (db : ForkDb) (b : SignedBlock) → IsNew hash db (make_item hash db b)
  unfolding make_item
  make_item-IsNew db b = record {
    address = refl;
    older = λ p e. absurd (ground arith);
    linked = λ y l e. absurd (ground arith);
    number = refl;
    name = refl;
    valid = refl;
  }

  pub start_block-Inv :
      (db : ForkDb) (b : SignedBlock) → Inv hash db → Inv hash (start_block hash b db)
  unfolding start_block
  start_block-Inv db b v =
      Inv-extend hash db _ (make_item hash db b)
        (λ x l. ground (arith, insert-In (make_item hash db b) x db.index)) (omega arith)
        v.no_unlinked (make_item-IsNew db b) v

  found :
      (db : ForkDb) (item p : ForkItem)
      → find_id (previous_id item) db.index ≡ some p
      → In p db.index × (p.id ≡ item.data_block.previous)
  unfolding find_id previous_id
  found db item p e =
      let f = find-In (λ (y : ForkItem). y.id == previous_id item) db.index e in
      (f.0, ground (arith, f.1))

  points_to :
      (db : ForkDb) (item p : ForkItem)
      → IsNew hash db item
      → In p db.index × (p.id ≡ item.data_block.previous)
      → Inv hash db
      → IsNew hash db (record item { prev = some p.address })
  points_to db item p n (m, e) v = record {
    address = n.address;
    older = λ q eq. ground (arith, v.fresh p (inr m));
    linked = λ y l eq. ground (arith, v.same y p l (inr m));
    number = n.number;
    name = n.name;
    valid = n.valid;
  }

  -- Linking points a new item at the indexed block that its data names.
  link-IsNew :
      (db : ForkDb) (item : ForkItem) {x : ForkItem}
      → link db item ≡ ok x
      → item.prev ≡ none
      → Inv hash db
      → IsNew hash db item
      → IsNew hash db x
  unfolding link
  link-IsNew db item {x} e np v n = elim (Option-cases db.head) [
    | inl eh ↦ let q : item ≡ x = ground arith in subst (IsNew hash db) q n
    | inr (h, eh) ↦ elim (Bool-cases (previous_id item == 0)) [
      | inl z ↦ let q : item ≡ x = ground arith in subst (IsNew hash db) q n
      | inr z ↦ elim (Option-cases (find_id (previous_id item) db.index)) [
        | inl ef ↦ absurd (ground arith)
        | inr (p, ef) ↦ elim (Bool-cases (not p.invalid)) [
          | inr bad ↦ absurd (ground arith)
          | inl fine ↦
              let q : record item { prev = some p.address } ≡ x = ground arith in
              subst (IsNew hash db) q (points_to db item p n (found db item p ef) v)
        ]
      ]
    ]
  ]

  -- A push that succeeds: the item is recent and linked, and goes into the index.
  pub push_block-ok :
      (db : ForkDb) (b : SignedBlock) {db' : ForkDb}
      → push_block hash b db ≡ ok db'
      → (x : ForkItem) × (recent db (make_item hash db b) ≡ ok tt)
        × (link db (make_item hash db b) ≡ ok x)
        × (db' ≡ record db {
          index = insert x db.index;
          head = some (longest db.head x);
          next_address = suc db.next_address;
        })
  unfolding push_block push_item recent link
  push_block-ok db b {db'} e =
      let item = make_item hash db b in
      let (_, r, e1) = >>=-eq-ok (recent bumped item) _ e in
      let (x, l, e2) = >>=-eq-ok (link bumped item) _ e1 in (x, r, l, ground arith)
    where
      bumped : ForkDb
      bumped = record db { next_address = suc db.next_address }

  link-num : (db : ForkDb) (item : ForkItem) {x : ForkItem} → link db item ≡ ok x → x.num ≡ item.num
  unfolding link
  link-num db item {x} e =
      ground (arith, Option-cases db.head, Option-cases (find_id (previous_id item) db.index))

  link-id : (db : ForkDb) (item : ForkItem) {x : ForkItem} → link db item ≡ ok x → x.id ≡ item.id
  unfolding link
  link-id db item {x} e =
      ground (arith, Option-cases db.head, Option-cases (find_id (previous_id item) db.index))

  link-block :
      (db : ForkDb) (item : ForkItem) {x : ForkItem}
      → link db item ≡ ok x
      → x.data_block ≡ item.data_block
  unfolding link
  link-block db item {x} e =
      ground (arith, Option-cases db.head, Option-cases (find_id (previous_id item) db.index))

  pub push_block-Inv :
      (db : ForkDb) (b : SignedBlock) {db' : ForkDb}
      → push_block hash b db ≡ ok db'
      → Inv hash db
      → Inv hash db'
  unfolding make_item longest
  push_block-Inv db b {db'} e v =
      let (x, _, l, eq) = push_block-ok db b {db' = db'} e in
      let n = link-IsNew db (make_item hash db b) {x = x} l refl v (make_item-IsNew db b) in
      Inv-extend hash db db' x (λ y m. ground (arith, eq, insert-In x y db.index))
        (ground (arith, eq)) (ground (arith, eq, v.no_unlinked)) n v

  -- The operations that change the database, as its callers use them: `set_head` is given an item
  -- of the index.
  pub data Step (db : ForkDb) : ForkDb → Type 0 where
    starts : (b : SignedBlock) → Step db (start_block hash b db)
    pushes : (b : SignedBlock) {db' : ForkDb} → push_block hash b db ≡ ok db' → Step db db'
    pops : {db' : ForkDb} → pop_block db ≡ ok db' → Step db db'
    sets_head : (h : ForkItem) → In h db.index → Step db (set_head h db)
    removes : (i : ℕ) → Step db (remove i db)
    resizes : (s : ℕ) → Step db (set_max_size s db)
    resets : Step db (reset db)

  pub data Reach : ForkDb → Type 0 where
    here : Reach empty
    next : {db db' : ForkDb} → Reach db → Step db db' → Reach db'

  Step-Inv : {db db' : ForkDb} → Step db db' → Inv hash db → Inv hash db'
  Step-Inv {db} (starts b) v = start_block-Inv db b v
  Step-Inv {db} (pushes b {db' = d} e) v = push_block-Inv db b {db' = d} e v
  Step-Inv {db} (pops {db' = d} e) v = pop_block-Inv db {db' = d} e v
  Step-Inv {db} (sets_head h m) v = set_head-Inv db h (inr m) v
  Step-Inv {db} (removes i) v = remove-Inv db i v
  Step-Inv {db} (resizes s) v = set_max_size-Inv db s v
  Step-Inv {db} resets v = reset-Inv db v

  -- After any sequence of the operations of the fork database, from an empty one, every item that a
  -- pointer can reach has an address of its own, the number and the id of its block, and a `prev`
  -- that leads to an older item, whose id is the `previous` of its block; nothing waits in the
  -- unlinked index.
  pub Reach-Inv : {db : ForkDb} → Reach db → Inv hash db
  Reach-Inv here = empty-Inv
  Reach-Inv (next r s) = Step-Inv s (Reach-Inv r)

  -- The item holds the block, under its id.
  abbrev pub IsItemOf : SignedBlock → ForkItem → Type 0
  IsItemOf b x = (x.data_block ≡ b) × (x.id ≡ block_id hash b)

  -- If no indexed item is higher than the head, a push that succeeds leaves a head that no indexed
  -- item exceeds: the item of the new block, under its id, if its number is higher than that of the
  -- old head, and else the old head itself, also on a tie.
  pub push_block-head :
      (db : ForkDb) (b : SignedBlock) {db' : ForkDb} (h : ForkItem)
      → db.head ≡ some h
      → ((x : ForkItem) → In x db.index → x.num ≤ h.num)
      → push_block hash b db ≡ ok db'
      → (h' : ForkItem) × (db'.head ≡ some h')
        × (block_num hash b ≤ h.num → h' ≡ h)
        × (h.num < block_num hash b → IsItemOf b h')
        × (h'.num ≡ max h.num (block_num hash b))
        × ((x : ForkItem) → In x db'.index → x.num ≤ h'.num)
  unfolding longest make_item
  push_block-head db b {db'} h eh top e =
      let (x, _, l, eq) = push_block-ok db b {db' = db'} e in
      let n : x.num ≡ block_num hash b = link-num db (make_item hash db b) {x = x} l in
      let held : x.data_block ≡ b = link-block db (make_item hash db b) {x = x} l in
      let named : x.id ≡ block_id hash b = link-id db (make_item hash db b) {x = x} l in
      (
        longest (some h) x,
        ground (arith, eq),
        (λ low. ground (arith, n)),
        (λ high. (ground (arith, n, held), ground (arith, n, named))),
        ground (arith, n),
        λ y m. ground (arith, eq, insert-In x y db.index, top y),
      )
