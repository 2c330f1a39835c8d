-- ===== src/Responses.antt =====
-- app/schemas/response.py: the envelope of every answer. Its timestamp is left out.
use network_diagnostic_tool.Common.{ℕ, Bool, true, false, Option, none, some, Text}

pub record ErrorDetail : Type 0 where
  pub code : Text
  pub message : Text

pub record Meta : Type 0 where
  pub request_id : ℕ
  pub duration_ms : ℕ

pub record ApiResponse (D : Type 0) : Type 0 where
  pub success : Bool
  pub content : Option D
  pub error : Option ErrorDetail
  pub meta : Meta

abbrev pub success_response : {D : Type 0} → D → ℕ → ℕ → ApiResponse D
success_response content request_id duration_ms = record {
  success = true;
  content = some content;
  error = none;
  meta = record { request_id = request_id; duration_ms = duration_ms };
}

abbrev pub error_response : {D : Type 0} → Text → Text → ℕ → ℕ → ApiResponse D
error_response code message request_id duration_ms = record {
  success = false;
  content = none;
  error = some (record { code = code; message = message });
  meta = record { request_id = request_id; duration_ms = duration_ms };
}

-- `JSONResponse`, or the status 200 of a route that returns a `dict`
pub record Response (D : Type 0) : Type 0 where
  pub status_code : ℕ
  pub content : ApiResponse D
