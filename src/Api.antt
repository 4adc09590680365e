-- ===== src/Api.antt =====
-- What the two HTTP APIs of src/vumi2/applications share: the exceptions of errors.py with their
-- attributes, which `Error` of Prelude/Outcome has among the others, and what they send and are
-- answered.
use vumi.Prelude.{
  ℕ, Bool, true, false, String, ◌<>◌, decimal, Error, api_usage_error, json_decode_error,
  message_not_found, invalid_body, timeout_error, signature_mismatch_error, http_error_response,
  leb, ltb, ◌&&◌, lstrip, rstrip, List,
}
use vumi.Messages.Value.{Value}

-- `isinstance(e, ApiError)`
unfoldable pub is_api_error : Error → Bool
is_api_error (api_usage_error _) = true
is_api_error (json_decode_error _) = true
is_api_error (message_not_found _) = true
is_api_error (invalid_body _) = true
is_api_error timeout_error = true
is_api_error signature_mismatch_error = true
is_api_error (http_error_response _) = true
is_api_error _ = false

-- `e.status`
unfoldable pub status : Error → ℕ
status (api_usage_error _) = 400
status (json_decode_error _) = 400
status (message_not_found _) = 400
status (invalid_body _) = 400
status timeout_error = 400
status signature_mismatch_error = 401
status _ = 500

-- `e.name`
unfoldable pub name : Error → String
name (api_usage_error _) = "ApiUsageError"
name (json_decode_error _) = "JsonDecodeError"
name (message_not_found _) = "MessageNotFound"
name (invalid_body _) = "invalid_body"
name timeout_error = "TimeoutError"
name signature_mismatch_error = "SignatureMismatchError"
name (http_error_response _) = "HttpErrorResponse"
name _ = "ApiError"

-- `e.description`; `InvalidBody` has that of `ApiUsageError`.
unfoldable pub description : Error → String
description (api_usage_error _) = "api usage error"
description (json_decode_error _) = "json decode error"
description (message_not_found _) = "message not found"
description (invalid_body _) = "api usage error"
description timeout_error = "timeout"
description signature_mismatch_error = "Authentication failed: Invalid HMAC signature"
description (http_error_response _) = "HTTP error response"
description _ = "Generic Error"

-- `str(e)`: the argument of the exception, if it has one.
unfoldable pub message : Error → String
message (api_usage_error text) = text
message (json_decode_error text) = text
message (message_not_found text) = text
message (invalid_body text) = text
message (http_error_response code) = "HTTP error response: " <> decimal code
message _ = ""

-- `"/".join([base.rstrip("/"), path.lstrip("/")])`
unfoldable pub join_url : (base path : String) → String
unfolding lstrip rstrip
join_url base path = rstrip "/" base <> ("/" <> lstrip "/" path)

-- A request that `client.post` sends.
pub record Post : Type 0 where
  pub url : String
  pub json : Value
  pub headers : List (String × String)

-- What comes of a call of `client.post`; `cancelled` is the time limit.
pub data Reply : Type 0 where
  responded : ℕ → Reply
  raised : Error → Reply
  cancelled : Reply

-- `200 <= status_code < 300`
abbrev pub is_success : ℕ → Bool
is_success code = leb 200 code && ltb code 300

-- Where a request is cut off: nowhere; by its time limit, before its body has been read; or in
-- `publish_outbound`, which may have sent the message by then, by the time limit or because the
-- call raises.
pub data TimeLimit : Type 0 where
  in_time reading : TimeLimit
  publishing : (is_sent : Bool) → TimeLimit
  failing : (is_sent : Bool) → Error → TimeLimit
