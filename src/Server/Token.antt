-- ===== src/Server/Token.antt =====
-- server/core/src/routes/authz.ts: the route /token. The schema of the request is a parameter, and so is
-- the nonce that is generated for a challenge.
pub mod Granted
use vcknots.Common.{Bool, Option, String, false, if◌then◌else◌, none, not, some, true, ◌&&◌, ◌+ˢ◌}
use vcknots.Errors.{Result, ok, err, Thrown}
use vcknots.Flow.{Flow, pure, lift, ◌>>=◌}
use vcknots.Headers.{ParsedDpopHeader, parse_dpop_header, proof_jwt, duplicate}
use vcknots.Authz.Types.{DpopMode, off, optional, required}
use vcknots.Authz.Jose.{Jose}
use vcknots.Authz.DpopProof.{DpopProofOptions}
use vcknots.Authz.State.{Action, Server}
use vcknots.Authz.Request.{RequestData}
use vcknots.Authz.TokenPolicy.{
  TokenRequestPolicyClientResolution, accepted, rejected, resolve_token_request_client_policy,
}
use vcknots.Authz.AccessToken.{
  TokenRequest, TokenRequestOptions, TokenResponse, DpopProofContext, create_access_token,
}
use vcknots.Server.Types.{ErrorBody, Response, refuse, reply, invalid_request_body}
use vcknots.Server.ErrorHandler.{handle_error, error_status, has_name, code_name}
use vcknots.Server.Challenge.{Challenged, without_headers, dpop_nonce_response}

abbrev pub is_proof : ParsedDpopHeader → Bool
is_proof (proof_jwt _) = true
is_proof _ = false

abbrev pub is_missing : ParsedDpopHeader → Bool
is_missing ParsedDpopHeader.missing = true
is_missing _ = false

-- The guard on the DPoP header in a mode.
unfoldable pub header_refused : DpopMode → ParsedDpopHeader → Bool
header_refused required header = not (is_proof header)
header_refused optional header = not (is_proof header) && not (is_missing header)
header_refused off header = false

abbrev pub header_error : ParsedDpopHeader → ErrorBody
header_error ParsedDpopHeader.missing = invalid_request_body "DPoP proof JWT is required."
header_error duplicate = invalid_request_body "DPoP header must appear exactly once."
header_error _ = invalid_request_body "DPoP header must contain a compact JWT."

-- The options of the token: with a proof, unless the mode is off, and with 30 minutes otherwise.
abbrev pub token_options :
    String → String → Option String → DpopMode → ParsedDpopHeader → TokenRequestOptions
token_options base_url method client_id off _ = record {
  ttl_sec = some 1800;
  alg = none;
  client_id = client_id;
  dpop_proof = none;
}
token_options base_url method client_id _ (proof_jwt proof) = record {
  ttl_sec = none;
  alg = none;
  client_id = client_id;
  dpop_proof = some (record {
    proof_jwt = proof;
    htm = method;
    htu = base_url +ˢ "/token";
    nonce_required = true;
  });
}
token_options base_url method client_id _ _ = record {
  ttl_sec = some 1800;
  alg = none;
  client_id = client_id;
  dpop_proof = none;
}

-- `catch`: a proof without the nonce is answered with one, every other error with its body.
unfoldable pub catch_token :
    {M : Type 0}
    → String
    → Result (Challenged TokenResponse) × Server M
    → Result (Challenged TokenResponse) × Server M
unfolding dpop_nonce_response handle_error code_name
catch_token uuid (ok answer, s) = (ok answer, s)
catch_token uuid (err e, s) =
    if has_name "use_dpop_nonce" e
    then dpop_nonce_response uuid 400 "Authorization server requires nonce in DPoP proof." none s
    else (let body = handle_error e in (ok (without_headers (refuse (error_status body) body)), s))

module _ {Key Material : Type 0} (jose : Jose Key Material) (proofs : DpopProofOptions)
    (base_url : String) (parse_request : RequestData → Option TokenRequest) where
  -- From the parsed request on.
  unfoldable pub grant_parsed :
      TokenRequestOptions → Option TokenRequest → Action Material (Challenged TokenResponse)
  unfolding create_access_token
  grant_parsed options none =
      pure (without_headers (refuse 400 (invalid_request_body "Invalid token request parameters.")))
  grant_parsed options (some token_request) = do
    granted ← create_access_token jose proofs base_url token_request options
    pure (without_headers (reply granted))

  -- From the resolved client on.
  unfoldable pub grant_token :
      String
      → RequestData
      → ParsedDpopHeader
      → TokenRequestPolicyClientResolution
      → Action Material (Challenged TokenResponse)
  unfolding header_refused grant_parsed
  grant_token method request_data header (rejected description _) = pure (
      without_headers
        (refuse 400 (record { error = "invalid_client"; error_description = description })))
  grant_token method request_data header (accepted context mode) =
      if header_refused mode header
      then pure (without_headers (refuse 400 (header_error header)))
      else grant_parsed (token_options base_url method context.client_id mode header)
          (parse_request request_data)

  unfoldable pub token_steps :
      String → Option String → RequestData → Action Material (Challenged TokenResponse)
  unfolding resolve_token_request_client_policy parse_dpop_header grant_token
  token_steps method dpop_header request_data = do
    resolution ← resolve_token_request_client_policy jose base_url request_data
    grant_token method request_data (parse_dpop_header dpop_header) resolution

  -- /token: `form` is the form of the request, or the message of the error in reading it.
  unfoldable pub token :
      String
      → String
      → Option String
      → Result RequestData
      → Action Material (Challenged TokenResponse)
  unfolding token_steps catch_token
  token uuid method dpop_header form s =
      catch_token uuid ((lift form >>= token_steps method dpop_header) s)
