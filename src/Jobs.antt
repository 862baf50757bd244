-- ===== src/Jobs.antt =====
-- server/reqbase.h, reqbase.cpp, rgetmodelslist.cpp, rcreateenv.cpp and rexec.cpp: the requests that
-- are executed on a session and give a text for the reply.
pub mod Models
pub mod Replies
use fap2_srv.Prelude.{
  ℕ, suc, ◌+◌, if◌then◌else◌, Text, text_eq, codes, find_first_of, find_last_of, drop, Option, none,
  some, List, [], ◌∷◌, ◌++◌, Bool, true, false, ◌&&◌,
}
use fap2_srv.Requests.{
  req_separator, r_list_separator, req_id_get_models_list, req_id_create_env, req_id_exec,
  get_response_code,
}
use fap2_srv.Fap.{Fap, Outcome, ok, threw}
use fap2_srv.Server.{Server, Exec, ◌>>=◌, after, pure}
use fap2_srv.Session.{create_env, get_env}

-- ReqBase::GetRes, for the result that SetRes stored.
unfoldable pub get_res : ℕ → Text → Text
unfolding get_response_code
get_res id res = (get_response_code id ++ req_separator) ++ res

-- ReqBase::Exec, with the virtual Execute; ParseArgs does nothing in any class.
unfoldable pub exec : {W : Type 0} → ℕ → Exec W Text → Exec W Text
unfolding get_res
exec id execute = execute >>= (λ res. pure (get_res id res))

-- A directory entry: its name, and what stat says of it, `none` if it fails, or whether it is a
-- directory.
pub record Entry : Type 0 where
  pub name : Text
  pub is_dir : Option Bool

-- fname.find_last_of(".") + 1, where npos + 1 is 0.
abbrev pub past_dot : Option ℕ → ℕ
past_dot none = 0
past_dot (some i) = i + 1

unfoldable pub is_xml : Text → Bool
unfolding find_last_of
is_xml name = text_eq (drop (past_dot (find_last_of (codes ".") name)) name) (codes "xml")

-- The entry is not skipped.
unfoldable pub is_model : Entry → Bool
unfolding is_xml
is_model e = elim e.is_dir [ none ↦ false | some dir ↦ if dir then false else is_xml e.name ]

-- The loop over the entries.
unfoldable pub models_of : List Entry → Text
unfolding is_model
models_of [] = []
models_of (e ∷ es) =
    let rest = models_of es in if is_model e then e.name ++ r_list_separator ++ rest else rest

-- GetList, from what opendir and readdir give; `none` stands for a directory that is not opened.
unfoldable pub get_list : Option (List Entry) → Text
unfolding models_of
get_list none = []
get_list (some es) = models_of es

-- ReqGetModelsList::Exec
unfoldable pub exec_get_models_list : {W : Type 0} → Option (List Entry) → Exec W Text
unfolding exec get_list
exec_get_models_list dir = exec req_id_get_models_list (pure (get_list dir))

-- ReqCreateEnv::Exec
unfoldable pub exec_create_env : {W : Type 0} → Fap W → ℕ → Text → Exec W Text
unfolding exec create_env
exec_create_env fap a chromo =
    exec req_id_create_env (create_env fap a chromo >>= (λ _. pure (codes "OK")))

-- What ReqExec uses of an environment of the fap2 library: its root, if any, and the root's name.
pub record EnvRoot (W : Type 0) : Type 0 where
  pub root : ℕ → W → Option ℕ
  pub name : ℕ → W → Text

module _ {W : Type 0} (r : EnvRoot W) where
  abbrev pub root_name : Option ℕ → Server W → Outcome Text
  root_name none s = threw (codes "Cursor not found")
  root_name (some root) s = ok (r.name root s.world)

  abbrev pub env_name : Option ℕ → Server W → Outcome Text
  env_name none s = threw (codes "Env doesn't exitst")
  env_name (some env) s = root_name (r.root env s.world) s

  -- ReqExec::DoExec, which checks that there is a method name and does not use it.
  unfoldable pub do_exec : ℕ → Text → Server W → Outcome Text
  unfolding find_first_of get_env
  do_exec a args s = elim (find_first_of req_separator args 0) [
    | none ↦ threw (codes "Missing method name")
    | some curs_end ↦ env_name (get_env a s) s
  ]

  -- The `catch` of Execute.
  abbrev pub or_what : Outcome Text → Text
  or_what (ok res) = res
  or_what (threw what) = what

  -- ReqExec::Exec
  unfoldable pub exec_exec : ℕ → Text → Exec W Text
  unfolding exec do_exec
  exec_exec a args = exec req_id_exec (λ s. (ok (or_what (do_exec a args s)), s))
