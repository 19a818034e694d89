-- ===== src/Server/Types.antt =====
-- What the routes of the example server answer.
use vcknots.Common.{String, inl, inr, ℕ, ◌⊎◌}

-- `{ error, error_description }`
pub record ErrorBody : Type 0 where
  pub error : String
  pub error_description : String

-- A response: a status, with an error or with what the route gives.
pub record Response (A : Type 0) : Type 0 where
  pub status : ℕ
  pub body : A ⊎ ErrorBody

-- `c.json(body, status)` for an error, and `c.json(body, 200)`.
abbrev pub refuse : {A : Type 0} → ℕ → ErrorBody → Response A
refuse status body = record { status = status; body = inr body }

abbrev pub reply : {A : Type 0} → A → Response A
reply body = record { status = 200; body = inl body }

abbrev pub invalid_request_body : String → ErrorBody
invalid_request_body description = record {
  error = "invalid_request";
  error_description = description;
}
