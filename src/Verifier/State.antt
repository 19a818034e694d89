-- ===== src/Verifier/State.antt =====
-- The stores that a verifier works on, with in-memory-verifier-metadata-store.provider.ts,
-- in-memory-request-object-store.provider.ts and the look-ups of
-- in-memory-verifier-signature-key-store.provider.ts and
-- in-memory-verifier-certificate-store.provider.ts. Each call of a store with lifetimes reads the
-- clock; `clock n` is what the reading number `n` gives.
use vcknots.Common.{Bool, List, Option, String, [], false, none, some, true, ℕ, ◌+◌, ◌∷◌}
use vcknots.Errors.{ok}
use vcknots.Flow.{Flow}
use vcknots.Common.Json.{Fields}
use vcknots.Common.Map
use vcknots.Common.Map.{Map}
use vcknots.Store.Nonce
use vcknots.Store.Nonce.{Nonce, NonceStates}
use vcknots.Store.Transactions
use vcknots.Store.Transactions.{Transaction, TransactionRecord}
use vcknots.Authz.State.{SignatureKeyEntry}
use vcknots.Verifier.Types.{DcqlQuery, VerifierMetadata, RequestObject}

-- One key pair of the encryption key store: the public key as a JWK.
pub record EncryptionKeyEntry : Type 0 where
  pub declared_alg : String
  pub public_key : Fields

pub record Verifier (Material : Type 0) : Type 0 where
  pub clock : ℕ → ℕ
  pub readings : ℕ
  pub transaction_expire_in : Option ℕ
  pub metadata : Map VerifierMetadata
  pub certificates : Map (List String)
  pub keys : Map (List (SignatureKeyEntry Material))
  pub encryption_keys : Map (List EncryptionKeyEntry)
  pub nonces : NonceStates
  pub transactions : Map (Transaction DcqlQuery)
  pub request_objects : Map RequestObject

abbrev pub Action : Type 0 → Type 0 → Type 0
Action M A = Flow (Verifier M) A

module _ {M : Type 0} where
  -- verifier-metadata-store: `fetch` and `save`
  unfoldable pub fetch_metadata : String → Action M (Option VerifierMetadata)
  fetch_metadata verifier s = (ok (Map.get verifier s.metadata), s)

  unfoldable pub save_metadata : String → VerifierMetadata → Action M (Unit {0})
  save_metadata id m s = (ok tt, record s { metadata = Map.set id m s.metadata })

  -- request-object-store: `fetch`, `save` and `delete`
  unfoldable pub fetch_request_object : String → Action M (Option RequestObject)
  fetch_request_object id s = (ok (Map.get id s.request_objects), s)

  unfoldable pub save_request_object : String → RequestObject → Action M (Unit {0})
  save_request_object id o s =
      (ok tt, record s { request_objects = Map.set id o s.request_objects })

  unfoldable pub delete_request_object : String → Action M (Unit {0})
  delete_request_object id s =
      (ok tt, record s { request_objects = Map.delete id s.request_objects })

  -- verifier-transaction-store: `save`, `fetch` and `delete`
  unfoldable pub save_transaction : String → TransactionRecord DcqlQuery → Action M (Unit {0})
  save_transaction id r s = (
    ok tt,
    record s {
      readings = s.readings + 1;
      transactions =
          Transactions.save s.transaction_expire_in id r (s.clock s.readings) s.transactions;
    },
  )

  unfoldable pub fetch_transaction : String → Action M (Option (Transaction DcqlQuery))
  fetch_transaction id s =
      let (found, transactions) = Transactions.fetch id (s.clock s.readings) s.transactions in
      (ok found, record s { readings = s.readings + 1; transactions = transactions })

  unfoldable pub remove_transaction : String → Action M (Unit {0})
  remove_transaction id s =
      (ok tt, record s { transactions = Transactions.delete id s.transactions })

  -- nonce-store: `save`, `validate` and `revoke`
  unfoldable pub save_nonce : Nonce → Action M (Unit {0})
  save_nonce nonce s =
      let (r, nonces) = Nonce.save nonce (s.clock s.readings) s.nonces in
      (r, record s { readings = s.readings + 1; nonces = nonces })

  unfoldable pub validate_nonce : Nonce → Action M Bool
  validate_nonce nonce s =
      let (valid, nonces) = Nonce.validate nonce (s.clock s.readings) s.nonces in
      (ok valid, record s { readings = s.readings + 1; nonces = nonces })

  unfoldable pub revoke_nonce : Nonce → Action M Bool
  revoke_nonce nonce s =
      let (found, nonces) = Nonce.revoke nonce s.nonces in (ok found, record s { nonces = nonces })

  -- verifier-certificate-store: how many certificates `fetch` gives.
  abbrev pub has_certificate : String → Verifier M → Bool
  has_certificate verifier s = elim (Map.get verifier s.certificates) [
    | none ↦ false
    | some certificates ↦ elim certificates [ [] ↦ false | _ ∷ _ ↦ true ]
  ]

  -- `save`
  unfoldable pub save_certificates : String → List String → Action M (Unit {0})
  save_certificates verifier certificates s =
      (ok tt, record s { certificates = Map.set verifier certificates s.certificates })
