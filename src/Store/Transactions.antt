-- ===== src/Store/Transactions.antt =====
-- transaction-id.types.ts and in-memory-verifier-transaction-store.ts, over any type of query.
pub mod Lifetime
use vcknots.Common.{Option, String, if◌then◌else◌, ltb, none, or_else, some, ℕ, ◌*◌, ◌+◌}
use vcknots.Common.Map
use vcknots.Common.Map.{Map}

pub record TransactionRecord (Q : Type 0) : Type 0 where
  pub dcql_query : Q
  pub client_id : String
  pub verifier_id : String
  pub state : Option String
  pub nonce : String

pub record Transaction (Q : Type 0) : Type 0 where
  pub transaction_id : String
  pub dcql_query : Q
  pub transaction_data_expires_at : ℕ
  pub client_id : String
  pub verifier_id : String
  pub state : Option String
  pub nonce : String

-- 5 minutes
abbrev pub default_transaction_expire_in_ms : ℕ
default_transaction_expire_in_ms = 5 * 60 * 1000

module _ {Q : Type 0} where
  unfoldable pub save :
      Option ℕ → String → TransactionRecord Q → ℕ → Map (Transaction Q) → Map (Transaction Q)
  save expire_in transaction_id r now states =
      Map.set transaction_id
        (record {
          transaction_id = transaction_id;
          dcql_query = r.dcql_query;
          transaction_data_expires_at = now + or_else expire_in default_transaction_expire_in_ms;
          client_id = r.client_id;
          verifier_id = r.verifier_id;
          state = r.state;
          nonce = r.nonce;
        })
        states

  unfoldable pub fetch :
      String → ℕ → Map (Transaction Q) → Option (Transaction Q) × Map (Transaction Q)
  fetch transaction_id now states = elim (Map.get transaction_id states) [
    | none ↦ (none, states)
    | some t ↦
        if ltb t.transaction_data_expires_at now
        then (none, Map.delete transaction_id states)
        else (some t, states)
  ]

  unfoldable pub delete : String → Map (Transaction Q) → Map (Transaction Q)
  delete transaction_id states = Map.delete transaction_id states
