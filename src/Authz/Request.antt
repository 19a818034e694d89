-- ===== src/Authz/Request.antt =====
-- authz.flows.ts: the fields of a token request, and the client that it names. What decodes a part
-- of a JWT, `JSON.parse(base64url.decode(part))`, is a parameter; `none` is an exception.
use vcknots.Common.{
  Bool, List, Option, String, [], false, if◌then◌else◌, is_some, none, or_else, some, trim, ◌&&◌,
  ◌==◌, ◌=ˢ◌, ◌||◌, ◌∷◌,
}
use Prim.Native.Char.{code}
use vcknots.Common.Json.{Json, str, Fields, member, object_members}
use vcknots.Common.Map
use vcknots.Common.Map.{Map}
use vcknots.Authz.Types.{AuthzOAuthClient}

-- `Record<string, unknown>`: the form fields. A field that is `undefined` is not there.
abbrev pub RequestData : Type 0
RequestData = Map Json

abbrev pub client_assertion_type_jwt_bearer : String
client_assertion_type_jwt_bearer = "urn:ietf:params:oauth:client-assertion-type:jwt-bearer"

abbrev pub pre_authorized_code_grant : String
pre_authorized_code_grant = "urn:ietf:params:oauth:grant-type:pre-authorized_code"

-- A text that is not blank, trimmed; `null` is `none`.
abbrev pub non_blank : String → Option String
non_blank s = let t = trim s in if t =ˢ "" then none else some t

unfoldable pub get_string_value : Option Json → Option String
get_string_value (some (str s)) = non_blank s
get_string_value _ = none

unfoldable pub has_value : Option Json → Bool
unfolding get_string_value
has_value value = is_some (get_string_value value)

-- `s.split('.')`
unfoldable pub split_dot : String → List String
split_dot String.[] = "" ∷ []
split_dot (String.◌∷◌ c s) = elim (split_dot s) [
  | [] ↦ String.◌∷◌ c "" ∷ []
  | part ∷ parts ↦ if code c == b'.' then "" ∷ part ∷ parts else String.◌∷◌ c part ∷ parts
]

pub record CompactJwt : Type 0 where
  pub header : Fields
  pub payload : Fields

module _ (decode : String → Option Json) where
  -- `parseCompactJwt`, from the three parts on.
  unfoldable pub decode_parts : String → String → String → Option CompactJwt
  decode_parts header_part payload_part signature_part =
      if header_part =ˢ "" || payload_part =ˢ "" || signature_part =ˢ ""
      then none
      else elim (object_members (decode header_part)) [
        | none ↦ none
        | some header ↦ elim (object_members (decode payload_part)) [
          | none ↦ none
          | some payload ↦ some (record { header = header; payload = payload })
        ]
      ]

  unfoldable pub parse_compact_jwt : String → Option CompactJwt
  unfolding decode_parts
  parse_compact_jwt jwt = elim (split_dot jwt) [
    | header_part ∷ payload_part ∷ signature_part ∷ [] ↦
        decode_parts header_part payload_part signature_part
    | _ ↦ none
  ]

  -- The client id of `iss` and `sub`: the one that is there, or both if they agree.
  unfoldable pub agreed_client_id : Option String → Option String → Option String
  agreed_client_id (some iss) (some sub) = if iss =ˢ sub then some iss else none
  agreed_client_id (some iss) none = some iss
  agreed_client_id none sub = sub

  unfoldable pub claims_client_id : Option Fields → Option String
  unfolding agreed_client_id get_string_value
  claims_client_id none = none
  claims_client_id (some claims) =
      agreed_client_id (get_string_value (member "iss" claims))
        (get_string_value (member "sub" claims))

  unfoldable pub extract_client_id_from_client_assertion : Option Json → Option String
  unfolding claims_client_id get_string_value
  extract_client_id_from_client_assertion client_assertion =
      elim (get_string_value client_assertion) [
        | none ↦ none
        | some assertion ↦ elim (split_dot assertion) [
          | header_part ∷ payload ∷ rest ↦
              if payload =ˢ "" then none else claims_client_id (object_members (decode payload))
          | _ ↦ none
        ]
      ]

  unfoldable pub get_token_request_client_id : RequestData → Option String
  unfolding extract_client_id_from_client_assertion get_string_value
  get_token_request_client_id request_data =
      elim (get_string_value (Map.get "client_id" request_data)) [
        | some client_id ↦ some client_id
        | none ↦ extract_client_id_from_client_assertion (Map.get "client_assertion" request_data)
      ]

unfoldable pub is_text : String → Option String → Bool
is_text s none = false
is_text s (some t) = t =ˢ s

unfoldable pub has_private_key_jwt_assertion : RequestData → Bool
unfolding is_text get_string_value has_value
has_private_key_jwt_assertion request_data =
    is_text client_assertion_type_jwt_bearer
      (get_string_value (Map.get "client_assertion_type" request_data))
    && has_value (Map.get "client_assertion" request_data)

unfoldable pub missing_private_key_jwt_assertion_description : RequestData → String
unfolding is_text get_string_value
missing_private_key_jwt_assertion_description request_data =
    if is_text client_assertion_type_jwt_bearer
      (get_string_value (Map.get "client_assertion_type" request_data))
    then "client_assertion is required for private_key_jwt client authentication."
    else "client_assertion_type must be urn:ietf:params:oauth:client-assertion-type:jwt-bearer for private_key_jwt client authentication."

abbrev pub get_token_endpoint_auth_method : AuthzOAuthClient → String
get_token_endpoint_auth_method client = or_else client.token_endpoint_auth_method "none"

unfoldable pub is_pre_authorized_code_token_request : RequestData → Bool
unfolding is_text get_string_value
is_pre_authorized_code_token_request request_data =
    is_text pre_authorized_code_grant (get_string_value (Map.get "grant_type" request_data))
