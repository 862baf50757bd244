-- ===== src/Agent/Remote.antt =====
-- The connection of the agent and the root of the remote environment.
use fap2_srv.Prelude.{
  Text, text_eq, text_eq_self, text_eq-eq, [], Bool, Bool-cases, inl, inr, true, text_key, ◌≡◌,
  refl, sym, ap, ◌∙◌,
}
use fap2_srv.Client.{Net, connect}
use fap2_srv.Agent.{Renv, change_cont, reconnect, connected, get_cont}

module _ {N : Type 0} (net : Net N) where
  reconnect-uri :
      (val : Text) (rt_only : Bool) (s : Renv N) → (reconnect net val rt_only s).1.renv_uri ≡ val
  unfolding reconnect
  reconnect-uri val rt_only s =
      elim (Bool-cases (connected (connect net s.proxies.client [] s.proxies.net).0)) [
        | inl e ↦ rw e refl
        | inr e ↦ rw e refl
      ]

  change_cont-uri :
      (val : Text) (rt_only : Bool) (s : Renv N) → (change_cont net val rt_only s).1.renv_uri ≡ val
  unfolding change_cont
  change_cont-uri val rt_only s = elim (Bool-cases (text_eq val s.renv_uri)) [
    | inl e ↦ rw e (sym (text_eq-eq val s.renv_uri e))
    | inr e ↦ rw e (reconnect-uri val rt_only s)
  ]

  -- After ChangeCont, whether it connected or not, the agent has the new uri, and the same call
  -- again answers true and does nothing: a connection that failed is not tried again.
  pub change_cont-again :
      (val : Text) (rt_only rt_only' : Bool) (s t : Renv N) (res : Bool)
      → change_cont net val rt_only s ≡ (res, t)
      → (get_cont net t ≡ val) × (change_cont net val rt_only' t ≡ (true, t))
  unfolding change_cont get_cont
  change_cont-again val rt_only rt_only' s t res h =
      let e : t.renv_uri ≡ val = sym (ap (λ r. r.1.renv_uri) h) ∙ change_cont-uri val rt_only s in
      (e, rw (e, text_eq_self val) refl)
