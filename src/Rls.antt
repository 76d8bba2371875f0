-- ===== src/Rls.antt =====
-- apps/core/rls.py: the scope of row-level security and how it is brought to a PostgreSQL session. The
-- session is a parameter, with what PostgreSQL documents of `set_config` and of a rollback.
pub mod Bound
pub mod Tests
use multilingual_task_api.Prelude.{
  ℕ, ◌≡◌, Bool, true, false, not, ◌&&◌, ◌||◌, Option, some, none, List, [], ◌∷◌, ◌==◌,
  if◌then◌else◌, length,
}
use multilingual_task_api.PyText.{Text, codes, text_eq, starts_with}

pub record RlsScope : Type 0 where
  pub enforced : Bool
  pub organization_id : Text
  pub user_id : Text
  pub bypass : Bool

-- The four session variables, in the order of `set_config`.
pub record Gucs : Type 0 where
  pub rls_enforced : Text
  pub current_organization_id : Text
  pub current_user_id : Text
  pub rls_bypass : Text

abbrev pub empty_gucs : Gucs
empty_gucs = record {
  rls_enforced = [];
  current_organization_id = [];
  current_user_id = [];
  rls_bypass = [];
}

abbrev on_or_empty : Bool → Text
on_or_empty b = if b then codes "on" else []

abbrev pub as_guc_tuple : RlsScope → Gucs
as_guc_tuple s = record {
  rls_enforced = on_or_empty s.enforced;
  current_organization_id = s.organization_id;
  current_user_id = s.user_id;
  rls_bypass = on_or_empty s.bypass;
}

-- What the code reads of the active request: the organization's id, the user, and the path.
pub record HttpRequest : Type 0 where
  pub organization : Option Text
  pub user : Option Text
  pub is_superuser : Bool
  pub path : Text

unfoldable pub or_blank : Option Text → Text
or_blank none = []
or_blank (some t) = t

is_some : Option Text → Bool
is_some none = false
is_some (some t) = true

-- The scope of a request; `user` is there if the user is authenticated.
unfoldable pub request_scope : HttpRequest → RlsScope
unfolding or_blank is_some
request_scope q =
    let is_admin_console =
      is_some q.user && (starts_with q.path (codes "/admin/") && q.is_superuser) in
    record {
      enforced = not is_admin_console;
      organization_id = or_blank q.organization;
      user_id = or_blank q.user;
      bypass = is_admin_console;
    }

-- `get_effective_rls_scope`: the explicit scope, else the request's, else the default.
unfoldable pub get_effective_rls_scope : Option RlsScope → Option HttpRequest → RlsScope
unfolding request_scope
get_effective_rls_scope (some scope) request = scope
get_effective_rls_scope none (some q) = request_scope q
get_effective_rls_scope none none = record {
  enforced = false;
  organization_id = [];
  user_id = [];
  bypass = false;
}

-- The scopes that `rls_context` and `rls_bypass` bind.
abbrev pub context_scope : Option Text → Option Text → Bool → RlsScope
context_scope organization_id user_id enforced = record {
  enforced = enforced;
  organization_id = or_blank organization_id;
  user_id = or_blank user_id;
  bypass = false;
}

abbrev pub bypass_scope : RlsScope
bypass_scope = record { enforced = false; organization_id = []; user_id = []; bypass = true }

unfoldable pub gucs_eq : Gucs → Gucs → Bool
gucs_eq a b =
    text_eq a.rls_enforced b.rls_enforced
    && text_eq a.current_organization_id b.current_organization_id
    && text_eq a.current_user_id b.current_user_id
    && text_eq a.rls_bypass b.rls_bypass

-- A PostgreSQL session: its variables; `set_config` for the session; a transaction's start and its
-- rollback, which takes back what was set in it.
pub record PostgresApi : Type 1 where
  pub Session : Type 0
  pub gucs : Session → Gucs
  pub set_config : Gucs → Session → Session
  pub begin : Session → Session
  pub rollback : Session → Session
  pub gucs-set_config : (g : Gucs) (s : Session) → gucs (set_config g s) ≡ g
  pub gucs-begin : (s : Session) → gucs (begin s) ≡ gucs s
  pub gucs-rollback : (g : Gucs) (s : Session) → gucs (rollback (set_config g (begin s))) ≡ gucs s

-- The driver's connection: closed, in an aborted transaction, or ready.
pub data Health : Type 0 where
  closed aborted ready : Health

module _ (pg : PostgresApi) where
  -- Django's connection to PostgreSQL: the driver's connection with its identity, and
  -- `_mltask_rls_state`.
  pub record Connection : Type 0 where
    pub raw_id : ℕ
    pub health : Health
    pub session : pg.Session
    pub rls_state : Option (ℕ × Gucs)

  unfoldable pub is_marked : Option (ℕ × Gucs) → ℕ → Gucs → Bool
  unfolding gucs_eq
  is_marked none raw_id target = false
  is_marked (some (id, g)) raw_id target = id == raw_id && gucs_eq g target

  unfoldable pub sync_at : Health → Gucs → Connection → Connection
  unfolding is_marked
  sync_at closed target c = record c { rls_state = none }
  sync_at aborted target c = record c { rls_state = none }
  sync_at ready target c = if is_marked c.rls_state c.raw_id target then c else record c {
    session = pg.set_config target c.session;
    rls_state = some (c.raw_id, target);
  }

  -- `_sync_postgres_gucs`
  unfoldable pub sync_postgres_gucs : Gucs → Connection → Connection
  unfolding sync_at
  sync_postgres_gucs target c = sync_at c.health target c

  unfoldable pub is_dirty : Option (ℕ × Gucs) → Bool
  is_dirty none = false
  is_dirty (some (id, g)) = not (gucs_eq g empty_gucs)

  -- `_reset_if_dirty`, where `set_config` does not raise.
  unfoldable pub reset_if_dirty : Connection → Connection
  unfolding is_dirty sync_postgres_gucs
  reset_if_dirty c = if is_dirty c.rls_state then sync_postgres_gucs empty_gucs c else c

  -- `_rls_execute_wrapper` before the query runs.
  unfoldable pub before_query : Option RlsScope → Option HttpRequest → Connection → Connection
  unfolding get_effective_rls_scope sync_postgres_gucs
  before_query explicit request c =
      sync_postgres_gucs (as_guc_tuple (get_effective_rls_scope explicit request)) c

  -- The end of `_install_wrapper_once`, by the depth before it.
  unfoldable pub leave_wrapper : ℕ → Option RlsScope → Option HttpRequest → Connection → Connection
  unfolding reset_if_dirty before_query
  leave_wrapper depth explicit request c =
      if depth == 0 then reset_if_dirty c else before_query explicit request c
