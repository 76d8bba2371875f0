-- ===== src/Rls/Tests.antt =====
-- Tests and instances for apps/core/rls.py.
use multilingual_task_api.Prelude.{◌≡◌, refl, true, false, Option, some, none}
use multilingual_task_api.PyText.{codes, text_eq, starts_with}
use multilingual_task_api.Rls.{
  RlsScope, Gucs, empty_gucs, as_guc_tuple, context_scope, request_scope, get_effective_rls_scope,
  PostgresApi, ready, Connection, before_query, is_marked,
}
use multilingual_task_api.Rls.Bound.{unused, queried, query_is_bound, rollback_unbinds}

-- A session with its variables, and those from the start of the transaction.
abbrev pg : PostgresApi
pg = record {
  Session = Gucs × Gucs;
  gucs = λ s. s.0;
  set_config = λ g s. (g, s.1);
  begin = λ s. (s.0, s.0);
  rollback = λ s. (s.1, s.1);
  gucs-set_config = λ g s. refl;
  gucs-begin = λ s. refl;
  gucs-rollback = λ g s. refl;
}

abbrev new_connection : Connection pg
new_connection = record {
  raw_id = 1;
  health = ready;
  session = (empty_gucs, empty_gucs);
  rls_state = none;
}

abbrev acme : Option RlsScope
acme = some (context_scope (some (codes "acme")) none true)

abbrev other : Option RlsScope
other = some (context_scope (some (codes "other")) none true)

admin_bypasses :
    (request_scope (record {
      organization = none;
      user = some (codes "1");
      is_superuser = true;
      path = codes "/admin/core/";
    })).bypass
    ≡ true
unfolding request_scope starts_with
admin_bypasses = refl

bound_ready : (before_query pg acme none new_connection).health ≡ ready
unfolding before_query text_eq
bound_ready = refl

unmarked : is_marked pg none 1 (as_guc_tuple (get_effective_rls_scope acme none)) ≡ false
unfolding is_marked
unmarked = refl

query_is_bound_example :
    pg.gucs (before_query pg other none (before_query pg acme none new_connection)).session
    ≡ as_guc_tuple (get_effective_rls_scope other none)
query_is_bound_example =
    query_is_bound pg (before_query pg acme none new_connection) other none
      (queried (unused new_connection refl) acme none) bound_ready

rollback_unbinds_example :
    let began : Connection pg = record new_connection {
      session = pg.begin new_connection.session;
    } in
    let inside = before_query pg acme none began in
    let after : Connection pg = record inside { session = pg.rollback inside.session } in
    (before_query pg acme none after ≡ after)
    × (pg.gucs after.session ≡ pg.gucs new_connection.session)
rollback_unbinds_example = rollback_unbinds pg new_connection acme none refl unmarked
