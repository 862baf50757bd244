-- ===== src/Requests.antt =====
-- server/requests.h and server/requests.cpp: the words of the protocol and the two maps of ids.
pub mod Codes
use fap2_srv.Prelude.{
  ℕ, Text, codes, Map, has, at, assign, Option, none, some, List, [], ◌∷◌, if◌then◌else◌, text_key,
  nat_key,
}

-- enum { EReqID_Invalid, … }
abbrev pub req_id_invalid : ℕ
req_id_invalid = 0

abbrev pub req_id_get_models_list : ℕ
req_id_get_models_list = 1

abbrev pub req_id_get_model : ℕ
req_id_get_model = 2

abbrev pub req_id_create_env : ℕ
req_id_create_env = 3

abbrev pub req_id_exec : ℕ
req_id_exec = 4

abbrev pub req_invalid : Text
req_invalid = codes "req_invalid"

abbrev pub req_get_models_list : Text
req_get_models_list = codes "get_models_list"

abbrev pub req_get_model : Text
req_get_model = codes "get_model"

abbrev pub req_create_env : Text
req_create_env = codes "cenv"

abbrev pub req_exec : Text
req_exec = codes "exec"

abbrev pub req_separator : Text
req_separator = codes " "

abbrev pub r_list_separator : Text
r_list_separator = codes ";"

abbrev pub res_ok : Text
res_ok = codes "O"

abbrev pub res_error : Text
res_error = codes "E"

abbrev pub res_error_ctx_notfound : Text
res_error_ctx_notfound = codes "Context not found"

abbrev pub res_error_ctx_missing : Text
res_error_ctx_missing = codes "Missing context"

abbrev pub res_error_nocspec : Text
res_error_nocspec = codes "Missing call spec"

unfoldable pub init_req_map : Map Text ℕ
init_req_map = assign req_exec req_id_exec (
    assign req_create_env req_id_create_env (
      assign req_get_model req_id_get_model (assign req_get_models_list req_id_get_models_list [])))

-- The loop of InitResMap over the entries of the request map.
unfoldable pub invert : Map Text ℕ → Map ℕ Text → Map ℕ Text
invert [] rmap = rmap
invert ((name, id) ∷ rest) rmap = invert rest (assign id name rmap)

unfoldable pub init_res_map : Map ℕ Text
unfolding invert init_req_map
init_res_map = invert init_req_map []

unfoldable pub get_request_id : Text → ℕ
unfolding init_req_map
get_request_id msg = elim (at msg init_req_map) [ none ↦ req_id_invalid | some id ↦ id ]

unfoldable pub get_response_code : ℕ → Text
unfolding init_res_map
get_response_code id = elim (at id init_res_map) [ none ↦ req_invalid | some name ↦ name ]
