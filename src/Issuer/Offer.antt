-- ===== src/Issuer/Offer.antt =====
-- issuer.flows.ts, `offerCredential`, with providers/credential-offer.provider.ts. The code and the
-- random numbers that are generated are arguments.
pub mod Kept
pub mod Redeemable
use vcknots.Common.{
  Bool, List, Option, String, [], false, includes, none, not, some, true, ℕ, ◌&&◌, ◌∷◌,
}
use vcknots.Errors.{
  unsupported_grant_type, invalid_credential_request, unknown_credential_configuration,
}
use vcknots.Flow.{pure, throw, guard, lift, ◌>>=◌, ◌>>◌}
use vcknots.Common.Map
use vcknots.Common.Number.{Number}
use vcknots.Store.PreAuthorizedCode.{TxCode, SaveOptions, TxCodeInputMode}
use vcknots.Issuer.Types.{CredentialConfiguration, CredentialIssuerMetadata}
use vcknots.Issuer.TransactionCode.{TxCodeOptions, generate}
use vcknots.Issuer.Metadata.{require_issuer_metadata}
use vcknots.Authz.Jose.{Jose}
use vcknots.Authz.State.{Action, save_code}
use vcknots.Authz.AccessToken.{truthy}

pub data OfferOptions : Type 0 where
  authorization_code_offer : OfferOptions
  pre_auth_offer : Option TxCodeOptions → Option Number → Option String → OfferOptions

-- A credential offer with a pre-authorized code, the only kind that is made.
pub record CredentialOffer : Type 0 where
  pub credential_issuer : String
  pub credential_configuration_ids : List String
  pub pre_authorized_code : String
  pub tx_code : Option TxCodeOptions
  pub authorization_server : Option String

pub record CredentialOfferResponse : Type 0 where
  pub offer : CredentialOffer
  pub tx_code : Option TxCode

-- `new Set(xs).size === xs.length`
unfoldable pub all_distinct : List String → Bool
all_distinct [] = true
all_distinct (x ∷ xs) = not (includes xs x) && all_distinct xs

unfoldable pub all_supported : Map.Map CredentialConfiguration → List String → Bool
all_supported supported [] = true
all_supported supported (id ∷ ids) = Map.has id supported && all_supported supported ids

-- At least two entries, and the server among them.
abbrev pub has_multiple : Option (List String) → Bool
has_multiple (some (_ ∷ _ ∷ _)) = true
has_multiple _ = false

abbrev pub lists : Option (List String) → String → Bool
lists none server = false
lists (some servers) server = includes servers server

abbrev pub check_server :
    {M : Type 0} → CredentialIssuerMetadata → Option String → Action M (Unit {0})
check_server metadata none = pure tt
check_server metadata (some server) = do
  guard (has_multiple metadata.authorization_servers) invalid_credential_request
      "authorization_server can only be used when authorization_servers has multiple entries."
  guard (lists metadata.authorization_servers server) invalid_credential_request
      "Authorization server is not supported by issuer."

-- The checks on the configurations and the authorization server that are asked for.
unfoldable pub check_offer :
    {M : Type 0} → CredentialIssuerMetadata → List String → Option String → Action M (Unit {0})
unfolding all_distinct all_supported
check_offer metadata configurations authorization_server = do
  guard (all_distinct configurations) invalid_credential_request
      "credential_configuration_ids must be unique."
  check_server metadata (truthy authorization_server)
  guard (all_supported metadata.credential_configurations_supported configurations)
      unknown_credential_configuration "Credential configuration is not supported by issuer."

-- The `tx_code`, if one is asked for.
unfoldable pub generate_tx_code :
    {M : Type 0} → (ℕ → ℕ → ℕ → ℕ) → Option TxCodeOptions → Action M (Option TxCode)
unfolding generate
generate_tx_code draws none = pure none
generate_tx_code draws (some o) = do tx_code ← lift (generate draws o); pure (some tx_code)

abbrev pub input_mode_of : Option TxCodeOptions → Option TxCodeInputMode
input_mode_of none = none
input_mode_of (some o) = o.input_mode

module _ {Key Material : Type 0} (jose : Jose Key Material) (debug : Bool) where
  -- The metadata that the offer is checked against.
  unfoldable pub checked_metadata :
      String → List String → Option String → Action Material CredentialIssuerMetadata
  unfolding require_issuer_metadata check_offer
  checked_metadata issuer configurations authorization_server = do
    metadata ← require_issuer_metadata jose debug issuer
    check_offer metadata configurations authorization_server
    pure metadata

module _ {Key Material : Type 0} (jose : Jose Key Material) (debug : Bool) (draws : ℕ → ℕ → ℕ → ℕ)
    (code : String) where
  -- From the options on.
  unfoldable pub offer_with :
      String
      → List String
      → Option TxCodeOptions
      → Option Number
      → Option String
      → Action Material CredentialOfferResponse
  unfolding checked_metadata generate_tx_code save_code
  offer_with issuer configurations tx_code_options ttl_sec authorization_server = do
    metadata ← checked_metadata jose debug issuer configurations authorization_server
    tx_code ← generate_tx_code draws tx_code_options
    save_code code configurations tx_code
        (some (record { ttl_sec = ttl_sec; tx_code_input_mode = input_mode_of tx_code_options }))
    pure (record {
      offer = record {
        credential_issuer = metadata.credential_issuer;
        credential_configuration_ids = configurations;
        pre_authorized_code = code;
        tx_code = tx_code_options;
        authorization_server = truthy authorization_server;
      };
      tx_code = tx_code;
    })

  unfoldable pub offer_credential :
      String → List String → Option OfferOptions → Action Material CredentialOfferResponse
  unfolding offer_with
  offer_credential issuer configurations none = offer_with issuer configurations none none none
  offer_credential issuer configurations (some authorization_code_offer) =
      throw unsupported_grant_type "Authorization code flow is not supported."
  offer_credential issuer configurations
        (some (pre_auth_offer tx_code ttl_sec authorization_server)) =
      offer_with issuer configurations tx_code ttl_sec authorization_server
