-- ===== src/Verifier/Request.antt =====
-- verifier.flows.ts, `createAuthzRequest`, with nonce.provider.ts, transaction-data.provider.ts and
-- client-id-prefix.types.ts. The identifiers that are generated are arguments, and so is what the
-- provider of queries gives.
pub mod Stored
pub mod Opened
use vcknots.Common.{
  Bool, List, Option, String, [], code, false, has_char, if◌then◌else◌, includes, none, not,
  or_else, some, true, ℕ, ◌&&◌, ◌*◌, ◌+ˢ◌, ◌==◌, ◌=ˢ◌, ◌||◌, ◌∷◌,
}
use vcknots.Errors.{
  Result, ok, err, failure, invalid_request, certificate_not_found, verifier_not_found,
  verifier_vp_formats_not_supported,
}
use vcknots.Providers.{find_provider, select_provider}
use vcknots.Flow.{pure, guard, or_throw, lift, ◌>>=◌, ◌>>◌}
use vcknots.Common.Json.{Json, str, arr, Items, nil, item, Fields, end, field}
use vcknots.Common.Map
use vcknots.Common.Map.{Map}
use vcknots.Store.Nonce.{Nonce}
use vcknots.Store.Transactions.{TransactionRecord}
use vcknots.Authz.AccessToken.{truthy}
use vcknots.Verifier.Types.{
  CredentialQuery, DcqlQuery, VpFormat, VerifierMetadata, ResponseMode, RequestObject,
  AuthorizationRequest, by_reference, inline,
}
use vcknots.Verifier.State.{
  Verifier, Action, fetch_metadata, save_nonce, save_transaction, save_request_object,
  has_certificate,
}

-- nonce.provider.ts: 5 minutes, unless the options say otherwise.
abbrev pub default_nonce_expires_in_ms : ℕ
default_nonce_expires_in_ms = 60 * 5 * 1000

abbrev pub generated_nonce : String → Option ℕ → Nonce
generated_nonce uuid expires_in = record {
  nonce = uuid;
  nonce_expires_in = some (or_else expires_in default_nonce_expires_in_ms);
}

-- `clientId.split(':')[0]`
unfoldable pub prefix_of : String → String
prefix_of String.[] = ""
prefix_of (String.◌∷◌ c s) =
    let rest = prefix_of s in if code c == b':' then "" else String.◌∷◌ c rest

-- What follows the first colon, if there is one.
unfoldable pub after_colon : String → Option String
after_colon String.[] = none
after_colon (String.◌∷◌ c s) = let rest = after_colon s in if code c == b':' then some s else rest

abbrev pub client_id_prefixes : List String
client_id_prefixes =
    "redirect_uri" ∷ "openid_federation" ∷ "decentralized_identifier" ∷ "verifier_attestation"
    ∷ "x509_san_dns" ∷ "x509_hash" ∷ "origin" ∷ []

-- What `.` of a regular expression does not match.
abbrev pub is_line_end : ℕ → Bool
is_line_end c = c == 10 || c == 13 || c == 8232 || c == 8233

abbrev pub is_rest : Option String → Bool
is_rest none = false
is_rest (some s) = not (s =ˢ "") && not (has_char is_line_end s)

-- `ClientIdentifier.schema`
unfoldable pub is_client_identifier : String → Bool
unfolding prefix_of after_colon has_char
is_client_identifier s = includes client_id_prefixes (prefix_of s) && is_rest (after_colon s)

unfoldable pub items_of : List String → Items
items_of [] = nil
items_of (s ∷ ss) = item (str s) (items_of ss)

-- transaction-data.provider.ts: `generate`; `encode` is `base64url.encode(JSON.stringify(data))`.
unfoldable pub generate_transaction_data :
    (Fields → String) → String → List String → Option (List String) → String
unfolding items_of
generate_transaction_data encode type credential_ids hashes_alg = encode (
    field "type" (str type) (
      field "credential_ids" (arr (items_of credential_ids)) (
        field "transaction_data_hashes_alg" (arr (items_of (or_else hashes_alg ("sha256" ∷ []))))
          end)))

pub record CreateAuthzRequestOptions : Type 0 where
  pub state : Option String
  pub scope : Option String
  pub response_uri : Option String
  pub base_url : Option String
  pub request_uri : Option String
  pub transaction_data_type : Option String

pub record JarProvider (M : Type 0) : Type 0 where
  pub can_handle : String → Bool
  pub generate : String → RequestObject → String → Verifier M → Result (Fields × Fields)

-- A schema that is checked; the message of the error is left out.
abbrev pub parse : {S : Type 0} → Bool → S → Result (Unit {0}) × S
parse valid = lift (if valid then ok tt else err (failure "ZodError"))

-- The queries for the format `dc+sd-jwt`.
unfoldable pub sd_jwt_ids : List CredentialQuery → List String
sd_jwt_ids [] = []
sd_jwt_ids (c ∷ credentials) =
    let rest = sd_jwt_ids credentials in if c.format =ˢ "dc+sd-jwt" then c.id ∷ rest else rest

-- Every format is one of the verifier.
unfoldable pub check_formats :
    {M : Type 0} → Map VpFormat → List CredentialQuery → Action M (Unit {0})
check_formats formats [] = pure tt
check_formats formats (c ∷ credentials) = do
  guard (Map.has c.format formats) verifier_vp_formats_not_supported
      ("The vp_format " +ˢ c.format +ˢ " is not supported by the verifier.")
  check_formats formats credentials

unfoldable pub transaction_data_of :
    (Fields → String) → List CredentialQuery → Option String → Option (List String)
unfolding sd_jwt_ids generate_transaction_data
transaction_data_of encode credentials none = none
transaction_data_of encode credentials (some type) = elim (sd_jwt_ids credentials) [
  | [] ↦ none
  | id ∷ ids ↦ some (generate_transaction_data encode type (id ∷ ids) none ∷ [])
]

-- For `x509_san_dns`: a request object by reference, and a certificate.
unfoldable pub check_x509 : {M : Type 0} → String → String → Bool → Action M (Unit {0})
check_x509 verifier_id prefix is_request_uri = do
  guard (not (prefix =ˢ "x509_san_dns") || is_request_uri) invalid_request
      (prefix +ˢ " require request_uri to deliver the signed request object.")
  λ s.
      guard (not (prefix =ˢ "x509_san_dns") || has_certificate verifier_id s) certificate_not_found
        "verifier certificate is not found." s

module _ {M : Type 0} (is_url : String → Bool) (nonce : Nonce) (transaction_id : String) where
  -- The nonce and the transaction are stored.
  unfoldable pub open_request : DcqlQuery → String → String → Option String → Action M (Unit {0})
  unfolding save_nonce save_transaction is_client_identifier
  open_request dcql_query client_id verifier_id state = do
    save_nonce nonce
    parse (is_client_identifier client_id && is_url verifier_id)
    save_transaction transaction_id (record {
      dcql_query = dcql_query;
      client_id = client_id;
      verifier_id = verifier_id;
      state = state;
      nonce = nonce.nonce;
    })

-- `request_uri`
abbrev pub request_uri_of : (String → String) → String → CreateAuthzRequestOptions → String → String
request_uri_of encode_component request_object_id options base_url =
    elim (truthy options.request_uri) [
      | none ↦ base_url +ˢ "/request.jwt/" +ˢ encode_component request_object_id
      | some uri ↦ uri +ˢ "/" +ˢ encode_component request_object_id
    ]

module _ {M : Type 0} (is_url : String → Bool) (encode_component : String → String)
    (jars : List (JarProvider M)) (nonce : Nonce) (transaction_id request_object_id : String) where
  -- The request, by reference or inline.
  unfoldable pub make_request :
      Bool → RequestObject → String → CreateAuthzRequestOptions → Action M AuthorizationRequest
  unfolding prefix_of open_request save_request_object find_provider
  make_request false object verifier_id options = do
    open_request is_url nonce transaction_id object.dcql_query object.client_id verifier_id
        options.state
    parse (is_url object.response_uri)
    pure (inline object)
  make_request true object verifier_id options = do
    _ ←
        select_provider (λ p. p.can_handle (prefix_of object.client_id)) jars
          (prefix_of object.client_id)
    base_url ←
        or_throw (truthy options.base_url) invalid_request
          "base_url is required when is_request_uri is true"
    open_request is_url nonce transaction_id object.dcql_query object.client_id verifier_id
        options.state
    parse (is_url object.response_uri)
    save_request_object request_object_id (record object {
      scope = options.scope;
      iss = some object.client_id;
      aud = some "https://self-issued.me/v2";
    })
    parse (is_url (request_uri_of encode_component request_object_id options base_url))
    pure (
        by_reference object.client_id
          (request_uri_of encode_component request_object_id options base_url))

  -- The request and the identifier of its transaction.
  unfoldable pub create_authz_request :
      (Fields → String)
      → String
      → String
      → String
      → ResponseMode
      → Result DcqlQuery
      → Bool
      → CreateAuthzRequestOptions
      → Action M (AuthorizationRequest × String)
  unfolding check_x509 fetch_metadata check_formats transaction_data_of make_request
  create_authz_request encode verifier_id response_type client_id response_mode generated
        is_request_uri options =
      do
        check_x509 verifier_id (prefix_of client_id) is_request_uri
        known ← fetch_metadata verifier_id
        metadata ← or_throw known verifier_not_found ""
        dcql_query ← lift generated
        check_formats metadata.vp_formats_supported dcql_query.credentials
        request ←
            make_request is_request_uri
              (record {
                response_type = response_type;
                client_id = client_id;
                scope = none;
                state = options.state;
                response_uri = or_else options.response_uri (verifier_id +ˢ "/post");
                iss = none;
                aud = none;
                client_metadata = metadata;
                response_mode = response_mode;
                nonce = nonce.nonce;
                dcql_query = dcql_query;
                transaction_data =
                    transaction_data_of encode dcql_query.credentials options.transaction_data_type;
              })
              verifier_id options
        pure (request, transaction_id)
