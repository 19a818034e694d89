-- ===== src/Tests/Issuing.antt =====
-- The theorems on the issuer's flows, at concrete inputs: one issuer with one configuration, one offer
-- of it, its token and a request with one proof, all parameters accepting.
use vcknots.Common.{
  List, Option, String, [], arith, eq_iff, includes, map, none, refl, some, true, ℕ, ◌*◌, ◌<◌, ◌=ˢ◌,
  ◌∷◌, ◌≡◌, ◌≢◌, ◌≤◌,
}
use vcknots.Errors.{ok}
use vcknots.Common.Map
use vcknots.Common.Number.{finite, is_digits, to_decimal}
use vcknots.Common.Int.{pos}
use vcknots.Common.Json.{end}
use vcknots.Store.Nonce
use vcknots.Store.PreAuthorizedCode
use vcknots.Store.PreAuthorizedCode.{number, numeric_mode, positive_seconds}
use vcknots.Store.PreAuthorizedCode.Trace
use vcknots.Store.Allowed
use vcknots.Issuer.Types.{
  one, CredentialConfiguration, CredentialIssuerMetadata, jwt, compact, CredentialRequest,
}
use vcknots.Issuer.TransactionCode.{TxCodeOptions, generate}
use vcknots.Issuer.TransactionCode.Digits
use vcknots.Issuer.Metadata.{signing_algs, algs_from, create_issuer_metadata}
use vcknots.Issuer.Metadata.Keys
use vcknots.Issuer.Offer.{OfferOptions, pre_auth_offer, CredentialOfferResponse, offer_credential}
use vcknots.Issuer.Offer.Redeemable
use vcknots.Issuer.Proof.{IssueOptions, ProofJwt, CredentialProofProvider, verify_proofs}
use vcknots.Issuer.Issue.{IssueCredentialProvider, issue_credential}
use vcknots.Issuer.Issue.Allowed as IssueAllowed
use vcknots.Issuer.Proof.Spent
use vcknots.Issuer.Issue.Offered
use vcknots.Authz.Jose.{Jose, got, threw}
use vcknots.Authz.DpopProof.{DpopProofOptions}
use vcknots.Authz.Endpoint.{bearer_token}
use vcknots.Authz.State.{Server}
use vcknots.Authz.AccessToken.{
  find_alg, pre_authorized_code, TokenRequestOptions, TokenResponse, create_access_token,
}
use vcknots.Authz.Registration.{pairs_of}

abbrev jose : Jose String String
jose = record {
  decode = λ s. none;
  encode = λ fs. "e";
  token_hash = λ s. s;
  is_url = λ s. true;
  import_jwk = λ jwk alg. got "key";
  jwt_verify = λ token key options now. got tt;
  import_public = λ material alg. ok (some material);
  sign_with = λ material alg payload header. ok (some "s");
  protected_header = λ jwt. none;
  verify_proof_jwt = λ jwt key options now. threw "no";
  parse_url = λ value. none;
  href = λ url. "";
  jwk_thumbprint = λ jwk. none;
}

abbrev proofs : DpopProofOptions
proofs = record { max_token_age = 300; clock_tolerance = 60 }

abbrev configuration : CredentialConfiguration
configuration = record {
  format = one "jwt_vc_json";
  proof_types_supported = some ("jwt" ∷ []);
  credential_signing_alg_values_supported = some ("ES256" ∷ "ES384" ∷ []);
}

abbrev pub metadata : CredentialIssuerMetadata
metadata = record {
  credential_issuer = "i";
  authorization_servers = none;
  credential_endpoint = "i/credential";
  deferred_credential_endpoint = none;
  credential_configurations_supported = ("c", configuration) ∷ [];
}

abbrev server : Server String
server = record {
  clock = λ n. n;
  readings = 0;
  max_attempts = 5;
  servers = [];
  policies = [];
  clients = [];
  keys =
      ("as", record { declared_alg = "ES256"; public_key = "pub"; private_key = "priv" } ∷ []) ∷ [];
  issuers = ("i", metadata) ∷ [];
  issuer_keys = [];
  codes = [];
  dpop_jtis = [];
  assertion_jtis = [];
  nonces =
      ("n", record { nonce = record { nonce = "n"; nonce_expires_in = none }; expires_at = 500 })
      ∷ [];
  allowed = [];
}

-- Draws the lower bound.
abbrev lowest : ℕ → ℕ → ℕ → ℕ
lowest i low high = low

abbrev tx_options : TxCodeOptions
tx_options = record { input_mode = some numeric_mode; length = some 4; description = none }

abbrev options : Option OfferOptions
options = some (pre_auth_offer (some tx_options) none none)

abbrev pin : PreAuthorizedCode.TxCode
pin = number (finite (pos 1000) 0)

abbrev offer : CredentialOfferResponse
offer = record {
  offer = record {
    credential_issuer = "i";
    credential_configuration_ids = "c" ∷ [];
    pre_authorized_code = "k";
    tx_code = some tx_options;
    authorization_server = none;
  };
  tx_code = some pin;
}

abbrev after_offer : Server String
after_offer = (offer_credential jose true lowest "k" "i" ("c" ∷ []) options server).1

offered :
    offer_credential jose true lowest "k" "i" ("c" ∷ []) options server ≡ (ok offer, after_offer)
unfolding offer_credential Map.get includes PreAuthorizedCode.save PreAuthorizedCode.to_digit_string
offered = refl

abbrev token_options : TokenRequestOptions
token_options = record { ttl_sec = none; alg = none; client_id = none; dpop_proof = none }

abbrev token : TokenResponse
token = record { access_token = "e.e.s"; token_type = "bearer"; expires_in = 86400 }

abbrev after_token : Server String
after_token =
    (create_access_token jose proofs "as" (pre_authorized_code "k" (some pin)) token_options
      after_offer).1

redeemed :
    create_access_token jose proofs "as"
      (pre_authorized_code "k" (some pin))
      token_options
      after_offer
    ≡ (ok token, after_token)
unfolding create_access_token offer_credential PreAuthorizedCode.consume Map.get includes
    PreAuthorizedCode.save PreAuthorizedCode.to_digit_string Map.set positive_seconds is_digits
    to_decimal
redeemed = refl

abbrev pub proof_provider : CredentialProofProvider
proof_provider = record {
  can_handle = λ type. type =ˢ "jwt";
  verify_proof = λ value context now.
      ok (some (record { kid = some "did:key:z"; header = end; nonce = some "n" }));
}

abbrev pub issue_provider : IssueCredentialProvider String
issue_provider = record {
  can_handle = λ format. true;
  create_credential = λ issuer c o s. ok ("credential");
}

abbrev pub request : CredentialRequest
request = record {
  credential_identifier = none;
  credential_configuration_id = some "c";
  proofs = some (jwt ("p" ∷ []));
}

abbrev issue_options : IssueOptions
issue_options = record {
  authorization_context = record {
    allowed_credential_configuration_key = "e.e.s";
    client_id = none;
    token_type = bearer_token;
  };
  alg = "ES256";
  cnonce = true;
  claims = none;
  subject = none;
  use_pre_auth = true;
}

abbrev after_issue : Server String
after_issue =
    (issue_credential jose true (proof_provider ∷ []) (issue_provider ∷ []) "i" request
      issue_options after_token).1

issued :
    issue_credential jose true
      (proof_provider ∷ [])
      (issue_provider ∷ [])
      "i"
      request
      issue_options
      after_token
    ≡ (ok ("credential"), after_issue)
unfolding issue_credential create_access_token offer_credential PreAuthorizedCode.consume Map.get
    includes PreAuthorizedCode.save PreAuthorizedCode.to_digit_string Map.set positive_seconds
    is_digits to_decimal Allowed.fetch Allowed.save Nonce.validate
issued = refl

in_time : 60000 ≤ 300 * 1000
in_time = omega arith

offer-redeemable_example :
    (PreAuthorizedCode.consume 5 "k" (some pin) 60000 after_offer.codes).0 ≡ ok ("c" ∷ [])
unfolding offer_credential Map.get includes PreAuthorizedCode.save PreAuthorizedCode.to_digit_string
    positive_seconds
offer-redeemable_example =
    Redeemable.offer-redeemable jose true lowest "k" "i" ("c" ∷ []) options server after_offer offer
      60000 offered (omega arith) in_time

issue_credential-IsAdmitted_example :
    (m : CredentialIssuerMetadata) × (c : CredentialConfiguration) × IssueAllowed.IsAdmitted jose
      true "i" request issue_options after_token m c
    × IssueAllowed.IsProved jose true
        (proof_provider ∷ [])
        (issue_provider ∷ [])
        request
        issue_options
        m
        c
issue_credential-IsAdmitted_example =
    IssueAllowed.issue_credential-IsAdmitted jose true (proof_provider ∷ []) (issue_provider ∷ [])
      "i" request issue_options after_token after_issue ("credential") issued

issues_only_offered_example : (id : String) × (some "c" ≡ some id) × (includes ("c" ∷ []) id ≡ true)
unfolding PreAuthorizedCode.Trace.run
issues_only_offered_example =
    Offered.issues_only_offered jose proofs true lowest "as" (proof_provider ∷ [])
      (issue_provider ∷ []) "k" "i" ("c" ∷ []) options offer server after_offer [] (some pin)
      token_options token after_offer after_token "i" request issue_options ("credential")
      after_token after_issue offered tt refl redeemed refl refl issued

abbrev verified_proof : ProofJwt
verified_proof = record { kid = some "did:key:z"; header = end; nonce = some "n" }

abbrev after_proofs : Server String
after_proofs = (verify_proofs proof_provider none true (compact "p" ∷ []) none server).1

proofs_verified :
    verify_proofs proof_provider none true (compact "p" ∷ []) none server
    ≡ (ok (some verified_proof), after_proofs)
unfolding verify_proofs Map.get Nonce.validate
proofs_verified = refl

verify_proofs-AreSpent_example :
    (spent : List String) × Spent.Spends proof_provider none true server.clock server.nonces 0 []
      none
      (compact "p" ∷ [])
      spent
      (some verified_proof)
    × ((k : String) → Map.get k after_proofs.nonces ≡ Spent.unspent spent server.nonces k)
verify_proofs-AreSpent_example =
    Spent.verify_proofs-AreSpent proof_provider none true (compact "p" ∷ []) none server
      after_proofs (some verified_proof) proofs_verified

abbrev new_issuer : CredentialIssuerMetadata
new_issuer = record metadata { credential_issuer = "j" }

abbrev finish : List String → List (String × (String × String))
finish algs = map (λ alg. (alg, ("public", "private"))) algs

abbrev after_creation : Server String
after_creation = (create_issuer_metadata jose true finish new_issuer server).1

created : create_issuer_metadata jose true finish new_issuer server ≡ (ok tt, after_creation)
unfolding create_issuer_metadata Map.get algs_from includes
created = refl

finished :
    finish (signing_algs new_issuer)
    ≡ ("ES256", ("public", "private")) ∷ ("ES384", ("public", "private")) ∷ []
unfolding algs_from includes
finished = refl

es256_lost : ◌≢◌ {A = String} "ES256" "ES384"
es256_lost = λ e. ground (arith, (eq_iff "ES256" "ES384").1 e)

last_key_wins_example :
    find_alg "ES256" (pairs_of (Map.get "j" after_creation.issuer_keys))
    ≡ find_alg "ES256" (pairs_of (Map.get "j" server.issuer_keys))
last_key_wins_example =
    Keys.last_key_wins jose true finish new_issuer (("ES256", ("public", "private")) ∷ []) "ES384"
      "ES256" ("public", "private") server after_creation created finished es256_lost

lowest_in_range :
    (i low high : ℕ) → low < high → (low ≤ lowest i low high) × (lowest i low high < high)
lowest_in_range i low high h = (omega arith, h)

code_generated : generate lowest tx_options ≡ ok pin
unfolding generate
code_generated = refl

generate-IsCodeOfLength_example : Digits.IsCodeOfLength lowest 4 (finite (pos 1000) 0)
generate-IsCodeOfLength_example =
    Digits.generate-IsCodeOfLength lowest tx_options (finite (pos 1000) 0) lowest_in_range
      code_generated
