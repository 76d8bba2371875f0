-- ===== src/Rls/Bound.antt =====
-- When the session of apps/core/rls.py has the scope that it should have.
use multilingual_task_api.Prelude.{
  ℕ, ◌≡◌, ◌≢◌, refl, sym, ap, subst, ◌∙◌, Bool, true, false, ◌&&◌, Option, some, none, Bool-cases,
  inl, inr, ◌==◌, ==_iff,
}
use multilingual_task_api.PyText.{text_eq}
use multilingual_task_api.PyText.Hex.{text_eq_iff, text_eq_refl}
use multilingual_task_api.Rls.{
  RlsScope, Gucs, empty_gucs, as_guc_tuple, HttpRequest, get_effective_rls_scope, gucs_eq,
  PostgresApi, Health, ready, closed, aborted, Connection, is_marked, sync_at, sync_postgres_gucs,
  is_dirty, reset_if_dirty, before_query,
}

and_true : (a b : Bool) → a && b ≡ true → (a ≡ true) × (b ≡ true)
and_true true b e = (refl, e)
and_true false b e = absurd (cc)

gucs_eq_sound : (a b : Gucs) → gucs_eq a b ≡ true → a ≡ b
unfolding gucs_eq
gucs_eq_sound a b e =
    let (r3, e4) = and_true _ (text_eq a.rls_bypass b.rls_bypass) e in
    let (r2, e3) = and_true _ (text_eq a.current_user_id b.current_user_id) r3 in
    let (e1, e2) =
      and_true (text_eq a.rls_enforced b.rls_enforced)
        (text_eq a.current_organization_id b.current_organization_id) r2 in
    let p1 = (text_eq_iff a.rls_enforced b.rls_enforced).0 e1 in
    let p2 = (text_eq_iff a.current_organization_id b.current_organization_id).0 e2 in
    let p3 = (text_eq_iff a.current_user_id b.current_user_id).0 e3 in
    let p4 = (text_eq_iff a.rls_bypass b.rls_bypass).0 e4 in cc (p1, p2, p3, p4)

module _ (pg : PostgresApi) where
  -- What the marker says of this session is true; it may be about an earlier one.
  abbrev pub MarkIsTrue : Option (ℕ × Gucs) → ℕ → pg.Session → Type 0
  MarkIsTrue none raw_id s = Unit
  MarkIsTrue (some (id, g)) raw_id s = id ≡ raw_id → pg.gucs s ≡ g

  marked :
      (m : Option (ℕ × Gucs)) (raw_id : ℕ) (target : Gucs) (s : pg.Session)
      → MarkIsTrue m raw_id s
      → is_marked pg m raw_id target ≡ true
      → pg.gucs s ≡ target
  unfolding is_marked
  marked none raw_id target s h e = absurd (cc)
  marked (some (id, g)) raw_id target s h e =
      let (same, equal) = and_true (id == raw_id) (gucs_eq g target) e in
      h ((==_iff id raw_id).0 same) ∙ gucs_eq_sound g target equal

  sync_lem :
      (target : Gucs) (c : Connection pg)
      → MarkIsTrue c.rls_state c.raw_id c.session
      → c.health ≡ ready
      → let c' = sync_at pg ready target c in
        (pg.gucs c'.session ≡ target) × MarkIsTrue c'.rls_state c'.raw_id c'.session
  unfolding sync_at
  sync_lem target c h e = elim (Bool-cases (is_marked pg c.rls_state c.raw_id target)) [
    | inl m ↦ rw m (marked c.rls_state c.raw_id target c.session h m, h)
    | inr m ↦ rw m (pg.gucs-set_config target c.session, λ _. pg.gucs-set_config target c.session)
  ]

  sync_keeps :
      (target : Gucs) (h : Health) (c : Connection pg)
      → MarkIsTrue c.rls_state c.raw_id c.session
      → c.health ≡ h
      → let c' = sync_at pg h target c in MarkIsTrue c'.rls_state c'.raw_id c'.session
  unfolding sync_at
  sync_keeps target closed c m e = tt
  sync_keeps target aborted c m e = tt
  sync_keeps target ready c m e = (sync_lem target c m e).1

  -- The marker is not about a driver's connection of this id.
  abbrev pub IsUnmarked : Option (ℕ × Gucs) → ℕ → Type 0
  IsUnmarked none raw_id = Unit
  IsUnmarked (some (id, g)) raw_id = id ≢ raw_id

  -- What can happen to a connection, transactions that are rolled back apart: queries under any scope
  -- and request, the end of a wrapper, a change of its health, and a new driver's connection whose id
  -- is not the one in the marker. The marker has `id(raw_conn)`, an address, which Python may give to
  -- a new object once the old one is gone; that case is left out.
  pub data Reached : Connection pg → Type 0 where
    unused : (c : Connection pg) → c.rls_state ≡ none → Reached c
    queried :
        {c : Connection pg}
        → Reached c
        → (e : Option RlsScope) (r : Option HttpRequest) → Reached (before_query pg e r c)
    was_reset : {c : Connection pg} → Reached c → Reached (reset_if_dirty pg c)
    turned : {c : Connection pg} → Reached c → (h : Health) → Reached (record c { health = h })
    reconnected :
        {c : Connection pg}
        → Reached c
        → (id : ℕ) (s : pg.Session) → IsUnmarked c.rls_state id
        → Reached (record c { raw_id = id; session = s })

  unmarked-MarkIsTrue :
      (m : Option (ℕ × Gucs)) (id : ℕ) (s : pg.Session) → IsUnmarked m id → MarkIsTrue m id s
  unmarked-MarkIsTrue none id s h = tt
  unmarked-MarkIsTrue (some (i, g)) id s h = λ e. absurd (h e)

  unset-MarkIsTrue :
      (m : Option (ℕ × Gucs)) (id : ℕ) (s : pg.Session) → m ≡ none → MarkIsTrue m id s
  unset-MarkIsTrue none id s e = tt
  unset-MarkIsTrue (some x) id s e = absurd (cc)

  Reached-MarkIsTrue : {c : Connection pg} → Reached c → MarkIsTrue c.rls_state c.raw_id c.session
  unfolding before_query sync_postgres_gucs reset_if_dirty
  Reached-MarkIsTrue (unused c e) = unset-MarkIsTrue c.rls_state c.raw_id c.session e
  Reached-MarkIsTrue (queried {c} run e r) =
      sync_keeps (as_guc_tuple (get_effective_rls_scope e r)) c.health c (Reached-MarkIsTrue run)
        refl
  Reached-MarkIsTrue (was_reset {c} run) = elim (Bool-cases (is_dirty pg c.rls_state)) [
    | inl d ↦ rw d (sync_keeps empty_gucs c.health c (Reached-MarkIsTrue run) refl)
    | inr d ↦ rw d (Reached-MarkIsTrue run)
  ]
  Reached-MarkIsTrue (turned run h) = Reached-MarkIsTrue run
  Reached-MarkIsTrue (reconnected {c} run id s m) = unmarked-MarkIsTrue c.rls_state id s m

  -- However queries, ends of wrappers, changes of health and new driver's connections whose id is not
  -- the marker's followed each other before, without a rollback, a query on a ready connection runs
  -- with the variables of the scope that is in effect: the explicit one, else the request's, else the
  -- default.
  pub query_is_bound :
      (c : Connection pg) (explicit : Option RlsScope) (request : Option HttpRequest)
      → Reached c
      → c.health ≡ ready
      → pg.gucs (before_query pg explicit request c).session
        ≡ as_guc_tuple (get_effective_rls_scope explicit request)
  unfolding before_query sync_postgres_gucs
  query_is_bound c explicit request run e =
      let target = as_guc_tuple (get_effective_rls_scope explicit request) in
      ap (λ h. pg.gucs (sync_at pg h target c).session) e
      ∙ (sync_lem target c (Reached-MarkIsTrue run) e).0

  marked_self :
      (raw_id : ℕ) (target : Gucs) → is_marked pg (some (raw_id, target)) raw_id target ≡ true
  unfolding is_marked gucs_eq
  marked_self raw_id target =
      rw
        (
          (==_iff raw_id raw_id).1 refl,
          text_eq_refl target.rls_enforced,
          text_eq_refl target.current_organization_id,
          text_eq_refl target.current_user_id,
          text_eq_refl target.rls_bypass,
        )
        refl

  sync_set :
      (target : Gucs) (c : Connection pg)
      → c.health ≡ ready
      → is_marked pg c.rls_state c.raw_id target ≡ false
      → sync_at pg c.health target c
        ≡ record c { session = pg.set_config target c.session; rls_state = some (c.raw_id, target) }
  unfolding sync_at
  sync_set target c e m = ap (λ h. sync_at pg h target c) e ∙ rw m refl

  sync_skips :
      (target : Gucs) (c : Connection pg)
      → c.health ≡ ready
      → is_marked pg c.rls_state c.raw_id target ≡ true
      → sync_at pg c.health target c ≡ c
  unfolding sync_at
  sync_skips target c e m = ap (λ h. sync_at pg h target c) e ∙ rw m refl

  -- On a ready connection whose marker is not about the scope in effect, a rollback takes back the
  -- variables that the first query of its transaction set, but not the marker: the next query under
  -- the same scope sets nothing and runs with the variables from before the transaction.
  pub rollback_unbinds :
      (c : Connection pg) (explicit : Option RlsScope) (request : Option HttpRequest)
      → c.health ≡ ready
      → is_marked pg c.rls_state c.raw_id (as_guc_tuple (get_effective_rls_scope explicit request))
        ≡ false
      → let began : Connection pg = record c { session = pg.begin c.session } in
        let inside = before_query pg explicit request began in
        let after : Connection pg = record inside { session = pg.rollback inside.session } in
        (before_query pg explicit request after ≡ after)
        × (pg.gucs after.session ≡ pg.gucs c.session)
  unfolding before_query sync_postgres_gucs
  rollback_unbinds c explicit request e m =
      let target = as_guc_tuple (get_effective_rls_scope explicit request) in
      let began : Connection pg = record c { session = pg.begin c.session } in
      let bound : Connection pg = record began {
        session = pg.set_config target began.session;
        rls_state = some (c.raw_id, target);
      } in
      let after : Connection pg = record bound { session = pg.rollback bound.session } in
      let undone : (before_query pg explicit request after ≡ after)
          × (pg.gucs after.session ≡ pg.gucs c.session) =
        (
          sync_skips target after e (marked_self c.raw_id target),
          pg.gucs-rollback target c.session,
        ) in
      subst
        (λ (inside : Connection pg).
          let after : Connection pg = record inside { session = pg.rollback inside.session } in
          (before_query pg explicit request after ≡ after)
          × (pg.gucs after.session ≡ pg.gucs c.session))
        (sym (sync_set target began e m)) undone
