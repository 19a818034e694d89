-- ===== src/Store/Transactions/Lifetime.antt =====
-- A transaction is found until it is deleted or its time is over.
use vcknots.Common.{
  Option, String, arith, eq_iff, eq_refl, if◌then◌else◌, leb, none, or_else, some, ℕ, ◌+◌, ◌=ˢ◌,
  ◌≡◌,
}
use vcknots.Common.Map
use vcknots.Common.Map.{Map}
use vcknots.Store.Transactions.{
  TransactionRecord, Transaction, default_transaction_expire_in_ms, save, fetch, delete,
}

module _ {Q : Type 0} where
  abbrev pub record_of : Transaction Q → TransactionRecord Q
  record_of t = record {
    dcql_query = t.dcql_query;
    client_id = t.client_id;
    verifier_id = t.verifier_id;
    state = t.state;
    nonce = t.nonce;
  }

  abbrev pub records : Option (Transaction Q) → Option (TransactionRecord Q)
  records none = none
  records (some t) = some (record_of t)

  -- After `save`, `fetch` gives the saved record back up to the last millisecond of its time and
  -- nothing afterwards, and other transactions are found as before; after `delete`, nothing is found.
  pub fetch-save_transaction :
      (expire_in : Option ℕ) (key j : String) (r : TransactionRecord Q) (now now' : ℕ)
      (m : Map (Transaction Q))
      → (records (fetch j now' (save expire_in key r now m)).0 ≡ (
          if key =ˢ j
          then (if leb now' (now + or_else expire_in default_transaction_expire_in_ms)
              then some r
              else none)
          else records (fetch j now' m).0))
        × ((fetch key now' (delete key m)).0 ≡ none)
  unfolding fetch save delete
  fetch-save_transaction expire_in key j r now now' m =
      (grind (arith, Map.get-set, eq_iff key j), grind (arith, Map.get-delete, eq_refl key))
