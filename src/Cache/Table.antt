-- ===== src/Cache/Table.antt =====
-- A cache in memory: the interface can be met, for every type of keys with decidable equality.
use mathlib.Core.Logic.{ite, if_pos, if_neg}
use multilingual_task_api.Prelude.{
  ℕ, ◌+◌, ◌≡◌, ◌≢◌, refl, Bool, true, false, Option, some, none, Outcome, ok, err, value_error,
}
use multilingual_task_api.Cache.{CacheApi, CounterApi}

abbrev pub Table : Type 0 → Type 0 → Type 0
Table K V = K → Option V

module _ {K V : Type 0} (same : Discrete K) where
  abbrev pub write : K → Option V → Table K V → Table K V
  write k v t j = ite (same k j) v (t j)

  abbrev pub put_new : K → V → Table K V → Option V → Bool × Table K V
  put_new k v t none = (true, write k (some v) t)
  put_new k v t (some w) = (false, t)

  pub write_self : (k : K) (v : Option V) (t : Table K V) → write k v t k ≡ v
  write_self k v t = if_pos (same k k) refl v (t k)

  pub write_ne : (k j : K) (v : Option V) (t : Table K V) → k ≢ j → write k v t j ≡ t j
  write_ne k j v t ne = if_neg (same k j) ne v (t j)

  pub put_new_free :
      (k : K) (v : V) (t : Table K V)
      → t k ≡ none
      → put_new k v t (t k) ≡ (true, write k (some v) t)
  put_new_free k v t e = rw e

  pub put_new_taken :
      (k : K) (v w : V) (t : Table K V) → t k ≡ some w → put_new k v t (t k) ≡ (false, t)
  put_new_taken k v w t e = rw e

  abbrev pub table_cache : CacheApi K V
  table_cache = record {
    Store = Table K V;
    get = λ k t. t k;
    set = λ k v t. write k (some v) t;
    delete = λ k t. write k none t;
    add = λ k v t. put_new k v t (t k);
    expire = λ k t. write k none t;
    get-set_self = λ k v t. write_self k (some v) t;
    get-set_ne = λ k j v t ne. write_ne k j (some v) t ne;
    get-delete_self = λ k t. write_self k none t;
    get-delete_ne = λ k j t ne. write_ne k j none t ne;
    get-expire_self = λ k t. write_self k none t;
    get-expire_ne = λ k j t ne. write_ne k j none t ne;
    add_free = put_new_free;
    add_taken = put_new_taken;
  }

-- Numbers of a table can be counted up, where `num` tells which values they are.
module _ {K V : Type 0} (same : Discrete K) (num : ℕ → V) (value_of : V → Option ℕ)
    (value_of-num : (n : ℕ) → value_of (num n) ≡ some n) where
  abbrev pub raise_by : K → ℕ → Table K V → Option V → Outcome (ℕ × Table K V)
  raise_by k d t none = err value_error
  raise_by k d t (some v) = elim (value_of v) [
    | none ↦ err value_error
    | some n ↦ ok (n + d, write same k (some (num (n + d))) t)
  ]

  pub raise_by_found :
      (k : K) (d n : ℕ) (t : Table K V)
      → t k ≡ some (num n)
      → raise_by k d t (t k) ≡ ok (n + d, write same k (some (num (n + d))) t)
  raise_by_found k d n t e = rw (e, raise_by, value_of-num n)

  pub raise_by_missing :
      (k : K) (d : ℕ) (t : Table K V) → t k ≡ none → raise_by k d t (t k) ≡ err value_error
  raise_by_missing k d t e = rw e

  abbrev pub table_counter : CounterApi (table_cache {V = V} same) num
  table_counter = record {
    incr = λ k d t. raise_by k d t (t k);
    incr_found = raise_by_found;
    incr_missing = raise_by_missing;
  }
