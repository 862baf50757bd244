-- ===== src/Requests/Codes.antt =====
-- The request map and the response map of RequestIPC, one after the other.
use fap2_srv.Prelude.{
  ℕ, ◌≡◌, ◌≢◌, Text, text_eq_iff, at, assign, if◌then◌else◌, leb, arith, text_key, nat_key,
}
use fap2_srv.Requests.{
  get_request_id, get_response_code, req_id_invalid, req_get_models_list, req_get_model,
  req_create_env, req_exec,
}

-- A text that has the id of a request is the response code of that id.
pub response-request :
    (msg : Text)
    → get_request_id msg ≢ req_id_invalid
    → get_response_code (get_request_id msg) ≡ msg
unfolding get_request_id get_response_code at assign
response-request msg h = ground (
  arith,
  text_eq_iff req_get_models_list msg,
  text_eq_iff req_get_model msg,
  text_eq_iff req_create_env msg,
  text_eq_iff req_exec msg,
)

-- The response code of an id of the enumeration has that id again, and the code of any other number
-- has the invalid id.
pub request-response :
    (id : ℕ) → get_request_id (get_response_code id) ≡ (if leb id 4 then id else req_id_invalid)
unfolding get_request_id get_response_code at assign
request-response id = ground arith
