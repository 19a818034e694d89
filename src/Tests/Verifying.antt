-- ===== src/Tests/Verifying.antt =====
-- The theorems on the verifier's flows and on nonces, at concrete inputs: one verifier that asks for
-- one credential, with parameters that accept everything.
use vcknots.Common.{
  List, Option, String, [], arith, false, includes, none, refl, some, true, ◌+◌, ◌=ˢ◌, ◌∷◌, ◌≡◌,
  ◌≢◌, ◌≤◌,
}
use vcknots.Errors.{Result, ok, Thrown}
use vcknots.Common.Map
use vcknots.Common.Map.{Map}
use vcknots.Common.Json.{Fields, end}
use vcknots.Store.Nonce
use vcknots.Store.Nonce.Once
use vcknots.Store.Nonce.Race
use vcknots.Store.Nonce.Refines
use vcknots.Store.Transactions
use vcknots.Store.Transactions.Lifetime
use vcknots.Verifier.Types.{
  DcqlQuery, VerifierMetadata, direct_post, AuthorizationRequest, by_reference, compact,
  AuthorizationResponse,
}
use vcknots.Verifier.State.{Verifier}
use vcknots.Verifier.Request.{
  prefix_of, generated_nonce, is_client_identifier, CreateAuthzRequestOptions, JarProvider,
  create_authz_request,
}
use vcknots.Verifier.Request.Stored
use vcknots.Verifier.Request.Opened
use vcknots.Verifier.RequestObjects.{find_request_object}
use vcknots.Verifier.RequestObjects.Delivered
use vcknots.Verifier.Present.{VpProvider, VerifyPresentationOptions, verify_presentations}
use vcknots.Verifier.Present.Accepted

abbrev pub query : DcqlQuery
query = record {
  credentials = record { id = "q"; format = "jwt_vc_json"; claims = none } ∷ [];
  credential_sets = none;
}

abbrev pub metadata : VerifierMetadata
metadata = record {
  client_name = none;
  jwks = none;
  vp_formats_supported =
      (
        "jwt_vc_json",
        record {
          alg_values = some ("ES256" ∷ []);
          sd_jwt_alg_values = none;
          kb_jwt_alg_values = none;
        },
      )
      ∷ [];
  encrypted_response_enc_values_supported = none;
}

abbrev pub verifier : Verifier String
verifier = record {
  clock = λ n. n;
  readings = 0;
  transaction_expire_in = none;
  metadata = ("v", metadata) ∷ [];
  certificates = [];
  keys =
      ("v", record { declared_alg = "ES256"; public_key = "public"; private_key = "private" } ∷ [])
      ∷ [];
  encryption_keys = [];
  nonces = [];
  transactions = [];
  request_objects = [];
}

abbrev pub jars : List (JarProvider String)
jars =
    record { can_handle = λ prefix. true; generate = λ verifier object alg s. ok (end, end) } ∷ []

abbrev pub options : CreateAuthzRequestOptions
options = record {
  state = some "state";
  scope = none;
  response_uri = none;
  base_url = some "base";
  request_uri = none;
  transaction_data_type = none;
}

abbrev pub request : AuthorizationRequest
request = by_reference "redirect_uri:v" "base/request.jwt/o"

abbrev pub nonce : Nonce.Nonce
nonce = generated_nonce "n" none

abbrev pub after_request : Verifier String
after_request =
    (create_authz_request (λ s. true) (λ s. s) jars nonce "t" "o" (λ fs. "e") "v" "vp_token"
      "redirect_uri:v" direct_post (ok query) true options verifier).1

requested :
    create_authz_request
      (λ s. true)
      (λ s. s)
      jars
      nonce
      "t"
      "o"
      (λ fs. "e")
      "v"
      "vp_token"
      "redirect_uri:v"
      direct_post
      (ok query)
      true
      options
      verifier
    ≡ (ok (request, "t"), after_request)
unfolding create_authz_request Map.get prefix_of is_client_identifier Nonce.save includes
requested = refl

within_nonce : 1000 ≤ 0 + 300000
within_nonce = omega arith

within_transaction : 1000 ≤ 1 + 300000
within_transaction = omega arith

request_opens_transaction_example :
    (q : DcqlQuery) × (ok query ≡ ok q)
    × (Lifetime.records (Transactions.fetch "t" 1000 after_request.transactions).0
        ≡ some (record {
          dcql_query = q;
          client_id = "redirect_uri:v";
          verifier_id = "v";
          state = some "state";
          nonce = "n";
        }))
    × (Nonce.Once.is_live 1000 (Map.get "n" after_request.nonces) ≡ true)
    × (Stored.carries "o" "n" request after_request.request_objects ≡ true)
request_opens_transaction_example =
    Opened.request_opens_transaction (λ s. true) (λ s. s) jars nonce "t" "o" (λ fs. "e") "v"
      "vp_token" "redirect_uri:v" direct_post (ok query) true options verifier after_request request
      "t" 300000 1000 requested refl within_nonce within_transaction

abbrev sign_with : String → String → Fields → Fields → Result (Option String)
sign_with key alg payload header = ok (some "s")

abbrev shown : Thrown → String
shown e = "error"

abbrev after_delivery : Verifier String
after_delivery = (find_request_object (λ fs. "e") sign_with shown jars "v" "o" none after_request).1

delivered :
    find_request_object (λ fs. "e") sign_with shown jars "v" "o" none after_request
    ≡ (ok "e.e.s", after_delivery)
unfolding find_request_object create_authz_request Map.get prefix_of is_client_identifier Nonce.save
    includes Map.set
delivered = refl

delivered_once_example :
    find_request_object (λ fs. "e") sign_with shown jars "v" "o" (some "ES384") after_delivery
    ≢ (ok "e.e.s", after_delivery)
delivered_once_example =
    Delivered.delivered_once (λ fs. "e") sign_with shown jars "v" "v" "o" none (some "ES384")
      after_request after_delivery after_delivery after_delivery "e.e.s" "e.e.s" delivered refl

abbrev pub vp_provider : VpProvider String String
vp_provider = record {
  can_handle = λ format. format =ˢ "jwt_vp_json";
  verify = λ vp options s. ok vp;
}

abbrev pub response : AuthorizationResponse
response = record { vp_token = ("q", compact "vp" ∷ []) ∷ []; state = some "state" }

abbrev presenting : VerifyPresentationOptions
presenting = record { is_kb_jwt = false; expected_transaction_data_hashes = none }

abbrev pub results : Map (List String)
results = ("q", "vp" ∷ []) ∷ []

abbrev after_presentation : Verifier String
after_presentation =
    (verify_presentations (λ sets. "") (vp_provider ∷ []) response "t" presenting after_delivery).1

presented :
    verify_presentations (λ sets. "") (vp_provider ∷ []) response "t" presenting after_delivery
    ≡ (ok results, after_presentation)
unfolding verify_presentations find_request_object create_authz_request Map.get prefix_of
    is_client_identifier Nonce.save includes Map.set Transactions.fetch Transactions.save
    Nonce.validate
presented = refl

verify_presentations-IsAccepted_example :
    Accepted.IsAccepted
      (λ sets. "")
      (vp_provider ∷ [])
      response
      "t"
      presenting
      after_delivery
      results
      after_presentation
verify_presentations-IsAccepted_example =
    Accepted.verify_presentations-IsAccepted (λ sets. "") (vp_provider ∷ []) response "t" presenting
      after_delivery after_presentation results presented

accepted_once_example :
    verify_presentations (λ sets. "") (vp_provider ∷ []) response "t" presenting after_presentation
    ≢ (ok results, after_presentation)
accepted_once_example =
    Accepted.accepted_once (λ sets. "") (vp_provider ∷ []) response response "t" presenting
      presenting after_delivery after_presentation after_presentation after_presentation results
      results presented refl

abbrev stored : Nonce.NonceStates
stored = ("n", record { nonce = nonce; expires_at = 500 }) ∷ []

live_now : Nonce.Once.is_live 10 (Map.get "n" stored) ≡ true
unfolding Map.get
live_now = refl

both_accept_example :
    (t : Race.Sessions) × Race.Reach (Race.RevokeStep nonce) (Race.starting 2 stored) t
    × (t.accepted ≡ 2)
both_accept_example = Race.both_accept nonce 10 stored live_now

abbrev two_consumed : Race.Sessions
two_consumed = record { waiting = 0; validated = 0; accepted = 1; states = [] }

consumed_twice : Race.Reach (Race.ConsumeStep nonce) (Race.starting 2 stored) two_consumed
unfolding Nonce.consume Map.get Map.delete
consumed_twice =
    Race.next (Race.next Race.here (Race.consuming (Race.starting 2 stored) 10 (omega arith)))
      (Race.consuming _ 11 (omega arith))

one_accepts_example : 1 ≤ 1
one_accepts_example = Race.one_accepts nonce 2 stored two_consumed consumed_twice

abbrev calls : List Nonce.Once.NonceCall
calls = Nonce.Once.validating nonce 10 ∷ Nonce.Once.consuming nonce 11 ∷ []

before_100 : Refines.AreBefore 100 calls
before_100 = (omega arith, (omega arith, tt))

run_refines_example :
    Refines.view 100 (Nonce.Once.run calls stored) "n"
    ≡ Refines.specified_run 100 calls (Refines.view 100 stored) "n"
run_refines_example = Refines.run_refines 100 calls stored "n" before_100
