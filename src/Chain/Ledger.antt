-- ===== src/Chain/Ledger.antt =====
-- libraries/chain: the objects that hold and count the tokens, as database.cpp keeps them.
-- An account is known by its name; the code's account ids stand for the names one to one. An asset
-- field of an object is its amount, since the field's symbol is fixed when the object is made. Times
-- are seconds. `safe` is the arithmetic of `share_type` (Protocol/Asset).
pub mod Content
pub mod State
pub mod Invariants
pub mod Votes
pub mod Supply
pub mod Conservation
pub mod Effects
pub mod Flight
pub mod Rows
pub mod Debts
