-- ===== src/Handler/Overloads.antt =====
-- server/sclient.cpp: the overloads of Send that nothing calls, and the constructor that takes no
-- socket.
use fap2_srv.Prelude.{ℕ, Text, suc, none, some, []}
use fap2_srv.Requests.{get_response_code}
use fap2_srv.Server.{session, Exec, update}
use fap2_srv.Session.{provider_key, add_context}
use fap2_srv.Handler.{send, reply}

module _ {W : Type 0} where
  -- Send(int msg_id, const string& msg_args)
  unfoldable pub send_id : ℕ → ℕ → Text → Exec W (Unit {0})
  unfolding reply get_response_code
  send_id a msg_id args = reply a (get_response_code msg_id) args

  -- Send(string const& response)
  unfoldable pub send_text : ℕ → Text → Exec W (Unit {0})
  unfolding send
  send_text a response = send a response

  -- SessionClient(): mId and mSock are not set and hold what was in their memory.
  unfoldable pub new_session_without_sock : ℕ → ℕ → Exec W (Unit {0})
  unfolding add_context
  new_session_without_sock id sock s =
      let a = s.count in
      add_context a provider_key (some (session a)) (record s {
        sessions =
            update s.sessions a
              (record { name = []; id = id; sock = sock; env = none; ctx = []; attached = none });
        count = suc a;
      })
