-- ===== src/Cache.antt =====
-- The Django cache (Redis in production), which the repository calls and does not implement: an
-- interface with the documented effect of each call on the stored values. Expiry is a step of the
-- environment, `expire`. A call that raises has no effect; whether one does is an argument of the
-- operations that make it.
pub mod Table
use multilingual_task_api.Prelude.{
  ℕ, ◌+◌, ◌≡◌, ◌≢◌, Bool, true, false, Option, some, none, Outcome, ok, err, value_error,
}

pub record CacheApi (K V : Type 0) : Type 1 where
  pub Store : Type 0
  pub get : K → Store → Option V
  -- `cache.set(key, value)`
  pub set : K → V → Store → Store
  -- `cache.delete(key)`
  pub delete : K → Store → Store
  -- `cache.add(key, value)`: whether the value was stored, and the store after it.
  pub add : K → V → Store → Bool × Store
  -- The key's timeout passes.
  pub expire : K → Store → Store
  pub get-set_self : (k : K) (v : V) (s : Store) → get k (set k v s) ≡ some v
  pub get-set_ne : (k j : K) (v : V) (s : Store) → k ≢ j → get j (set k v s) ≡ get j s
  pub get-delete_self : (k : K) (s : Store) → get k (delete k s) ≡ none
  pub get-delete_ne : (k j : K) (s : Store) → k ≢ j → get j (delete k s) ≡ get j s
  pub get-expire_self : (k : K) (s : Store) → get k (expire k s) ≡ none
  pub get-expire_ne : (k j : K) (s : Store) → k ≢ j → get j (expire k s) ≡ get j s
  pub add_free : (k : K) (v : V) (s : Store) → get k s ≡ none → add k v s ≡ (true, set k v s)
  pub add_taken : (k : K) (v w : V) (s : Store) → get k s ≡ some w → add k v s ≡ (false, s)

-- `cache.incr(key, delta)` on a key that holds a number; it raises where the key is missing.
pub record CounterApi {K V : Type 0} (c : CacheApi K V) (num : ℕ → V) : Type 0 where
  pub incr : K → ℕ → c.Store → Outcome (ℕ × c.Store)
  pub incr_found :
      (k : K) (d n : ℕ) (s : c.Store)
      → c.get k s ≡ some (num n)
      → incr k d s ≡ ok (n + d, c.set k (num (n + d)) s)
  pub incr_missing : (k : K) (d : ℕ) (s : c.Store) → c.get k s ≡ none → incr k d s ≡ err value_error
