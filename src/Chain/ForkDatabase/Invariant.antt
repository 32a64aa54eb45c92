-- ===== src/Chain/ForkDatabase/Invariant.antt =====
-- The invariant of fork_database.cpp.
use vidpow.Prelude.{ℕ, suc, ◌≤◌, ◌<◌, ◌≡◌, sym, ◌∙◌, ◌⊎◌, inl, inr, true, not, some, [], arith, In}
use vidpow.Protocol.Block.{BlockHash, block_num, block_id}
use vidpow.Chain.ForkDatabase.{ForkItem, ForkDb}

-- The items that a `weak_ptr` can still reach.
abbrev pub Live : ForkDb → ForkItem → Type 0
Live db x = (db.head ≡ some x) ⊎ In x db.index

module _ (hash : BlockHash) where
  -- Addresses are fresh, name one item each and fall along `prev`; `prev` leads to the block that
  -- the data names; number and id are those of the data; nothing is marked invalid or left unlinked.
  pub record Inv (db : ForkDb) : Type 0 where
    pub fresh : (x : ForkItem) → Live db x → x.address < db.next_address
    pub same : (x y : ForkItem) → Live db x → Live db y → x.address ≡ y.address → x ≡ y
    pub older : (x : ForkItem) (p : ℕ) → Live db x → x.prev ≡ some p → p < x.address
    pub linked :
        (x y : ForkItem)
        → Live db x
        → Live db y
        → x.prev ≡ some y.address
        → y.id ≡ x.data_block.previous
    pub number : (x : ForkItem) → Live db x → x.num ≡ block_num hash x.data_block
    pub name : (x : ForkItem) → Live db x → x.id ≡ block_id hash x.data_block
    pub valid : (x : ForkItem) → Live db x → not x.invalid ≡ true
    pub no_unlinked : db.unlinked ≡ []

  -- An operation that reaches no new item keeps the invariant.
  pub Inv-shrink :
      (db db' : ForkDb)
      → ((x : ForkItem) → Live db' x → Live db x)
      → db.next_address ≤ db'.next_address
      → db'.unlinked ≡ []
      → Inv db
      → Inv db'
  Inv-shrink db db' sub grow none_left v = record {
    fresh = λ x l. omega (arith, v.fresh x (sub x l));
    same = λ x y l m. v.same x y (sub x l) (sub y m);
    older = λ x p l. v.older x p (sub x l);
    linked = λ x y l m. v.linked x y (sub x l) (sub y m);
    number = λ x l. v.number x (sub x l);
    name = λ x l. v.name x (sub x l);
    valid = λ x l. v.valid x (sub x l);
    no_unlinked = none_left;
  }

  -- What a new item has to be.
  pub record IsNew (db : ForkDb) (item : ForkItem) : Type 0 where
    pub address : item.address ≡ db.next_address
    pub older : (p : ℕ) → item.prev ≡ some p → p < db.next_address
    pub linked :
        (y : ForkItem) → Live db y → item.prev ≡ some y.address → y.id ≡ item.data_block.previous
    pub number : item.num ≡ block_num hash item.data_block
    pub name : item.id ≡ block_id hash item.data_block
    pub valid : not item.invalid ≡ true

  -- An operation that reaches one new item keeps the invariant.
  pub Inv-extend :
      (db db' : ForkDb) (item : ForkItem)
      → ((x : ForkItem) → Live db' x → (x ≡ item) ⊎ Live db x)
      → suc db.next_address ≤ db'.next_address
      → db'.unlinked ≡ []
      → IsNew db item
      → Inv db
      → Inv db'
  Inv-extend db db' item sub grow none_left n v = record {
    fresh = λ x l. elim (sub x l) [
      | inl e ↦ ground (arith, n.address)
      | inr m ↦ ground (arith, v.fresh x m)
    ];
    same = λ x y l m e. elim (sub x l) [
      | inl p ↦ elim (sub y m) [
        | inl q ↦ p ∙ sym q
        | inr k ↦ absurd (ground (arith, v.fresh y k, n.address))
      ]
      | inr k ↦ elim (sub y m) [
        | inl q ↦ absurd (ground (arith, v.fresh x k, n.address))
        | inr j ↦ v.same x y k j e
      ]
    ];
    older = λ x p l e. elim (sub x l) [
      | inl q ↦ ground (arith, n.older p, n.address)
      | inr m ↦ v.older x p m e
    ];
    linked = λ x y l m e. elim (sub x l) [
      | inl p ↦ elim (sub y m) [
        | inl q ↦ absurd (ground (arith, n.older y.address, n.address))
        | inr k ↦ ground (arith, n.linked y k)
      ]
      | inr k ↦ elim (sub y m) [
        | inl q ↦ absurd (ground (arith, v.older x y.address k, v.fresh x k, n.address))
        | inr j ↦ v.linked x y k j e
      ]
    ];
    number = λ x l. elim (sub x l) [ inl e ↦ rw e n.number | inr m ↦ v.number x m ];
    name = λ x l. elim (sub x l) [ inl e ↦ rw e n.name | inr m ↦ v.name x m ];
    valid = λ x l. elim (sub x l) [ inl e ↦ rw e n.valid | inr m ↦ v.valid x m ];
    no_unlinked = none_left;
  }
