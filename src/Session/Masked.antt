-- ===== src/Session/Masked.antt =====
-- States that differ in sessions which are not seen, as the methods of the others meet them.
use fap2_srv.Prelude.{
  ℕ, has, insert, text_key, ℤ, print_int, List, [], ◌∷◌, Bool, true, if◌then◌else◌, ◌≡◌, refl, sym,
  ap, ◌∙◌, fun_ext, arith,
}
use fap2_srv.Fap.{Outcome, ok}
use fap2_srv.Server.{Session, Server, Exec, lift, modify}
use fap2_srv.Server.Related.{Respects}
use fap2_srv.Session.{find_by_id, get_env, get_id}
use fap2_srv.Session.Related.{Matched}

-- The state with other sessions in place of those that are not seen, but for their numbers.
abbrev pub mask : {W : Type 0} → (ℕ → Bool) → (ℕ → Session) → Server W → Server W
mask sees others s = record s {
  sessions = λ b. if sees b then s.sessions b else record (others b) { id = (s.sessions b).id };
}

module _ {W : Type 0} (sees : ℕ → Bool) (others : ℕ → Session) where
  abbrev pub masked : {A : Type 0} → Outcome A × Server W → Outcome A × Server W
  masked (r, t) = (r, mask sees others t)

  abbrev pub Masks : Server W → Server W → Type 0
  Masks s t = t ≡ mask sees others s

  pub masked-Respects :
      {A : Type 0} (m : Exec W A)
      → ((s : Server W) → m (mask sees others s) ≡ masked (m s))
      → Respects Masks m
  masked-Respects m f = record {
    at = λ {s} {t} e. record {
      outcome = sym (ap (λ u. (m u).0) e ∙ ap (λ x. x.0) (f s));
      states = ap (λ u. (m u).1) e ∙ ap (λ x. x.1) (f s);
    };
  }

  pub lift-Masks : (A : Type 0) (m : W → Outcome A × W) → Respects Masks (lift m)
  unfolding lift
  lift-Masks A m = masked-Respects (lift m) λ s. refl

  modify_lem :
      (b : ℕ) (f : Session → Session) (s : Server W)
      → sees b ≡ true
      → modify b f (mask sees others s) ≡ masked (modify b f s)
  unfolding modify
  modify_lem b f s h =
      ap (λ (heap : ℕ → Session). (ok tt, record s { sessions = heap }))
        (fun_ext λ c. ground (arith, h))

  modify-Masks : (b : ℕ) (f : Session → Session) → sees b ≡ true → Respects Masks (modify b f)
  modify-Masks b f h = masked-Respects (modify b f) λ s. modify_lem b f s h

  pub seen :
      {B : Type 0} (f : Session → B) (b : ℕ) (s t : Server W)
      → Masks s t
      → sees b ≡ true
      → f (s.sessions b) ≡ f (t.sessions b)
  seen f b s t e h = rw (e, h) refl

  same_id : (b : ℕ) (s : Server W) → ((mask sees others s).sessions b).id ≡ (s.sessions b).id
  same_id b s = ground arith

  find_by_id-mask :
      (id : ℤ) (xs : List ℕ) (s : Server W)
      → find_by_id s.sessions id xs ≡ find_by_id (mask sees others s).sessions id xs
  unfolding find_by_id
  find_by_id-mask id [] s = refl
  find_by_id-mask id (x ∷ xs) s = rw (same_id x s, find_by_id-mask id xs s)

  pub seen-Matched : (b : ℕ) → sees b ≡ true → Matched Masks b
  unfolding get_env get_id
  seen-Matched b h = record {
    bound_same = λ {s} {t} e k. seen (λ c. has k c.ctx) b s t e h;
    env_same = λ {s} {t} e. seen (λ c. c.env) b s t e h;
    id_same = λ {s} {t} e. seen (λ c. print_int c.id) b s t e h;
    found_same = λ {s} {t} e id.
        find_by_id-mask id s.clients s
        ∙ ap (λ (u : Server W). find_by_id u.sessions id u.clients) (sym e);
    binds = λ {s} {t} e k p new. (modify-Masks b (λ c. record c { ctx = insert k p c.ctx }) h).at e;
    attaches = λ c. modify-Masks b _ h;
    gets_env = λ env. modify-Masks b _ h;
  }
