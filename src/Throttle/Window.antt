-- ===== src/Throttle/Window.antt =====
-- The bound of the sliding window, apps/core/throttling.py.
use multilingual_task_api.Prelude.{
  ℕ, ◌+◌, ◌≤◌, ◌<◌, ◌≡◌, refl, ap, ◌∙◌, true, Option, some, none, List, [], ◌∷◌, ◌++◌, append_assoc,
  ltb, ltb→lt, leb, leb→le, if◌then◌else◌, length, All, All-append, arith, Bool-cases, inl, inr,
  ◌==◌,
}
use multilingual_task_api.PyText.{Text}
use multilingual_task_api.Cache.{CacheApi}
use multilingual_task_api.Throttle.{
  Scope, ThrottleKey, ThrottleValue, history, RateThrottle, OrgPlan, resolved_scope, default_rate,
  or_default, drop_stale, slide, history_of, allow_request,
}

abbrev pub IsStale : ℕ → ℕ → ℕ → Type 0
IsStale now duration t = t + duration ≤ now

pub length-zero : (h : List ℕ) → length h == 0 ≡ true → h ≡ []
length-zero [] e = refl
length-zero (t ∷ h) e = absurd (ground arith)

-- What is dropped is a final part of the history, all of it too old.
drop_stale_lem :
    (now d : ℕ) (h : List ℕ)
    → (old : List ℕ) × (h ≡ drop_stale now d h ++ old) × All (IsStale now d) old
unfolding drop_stale
drop_stale_lem now d [] = ([], refl, tt)
drop_stale_lem now d (t ∷ ts) =
    let (old, e, stale) = drop_stale_lem now d ts in
    elim (Bool-cases (length (drop_stale now d ts) == 0)) [
      | inr more ↦ (old, rw more (ap (λ r. t ∷ r) e), stale)
      | inl none_kept ↦ elim (Bool-cases (leb (t + d) now)) [
        | inr fresh ↦ (old, rw (none_kept, fresh) (ap (λ r. t ∷ r) e), stale)
        | inl late ↦
            let empty : drop_stale now d ts ≡ [] = length-zero (drop_stale now d ts) none_kept in
            (
              t ∷ old,
              rw (none_kept, late) (ap (λ r. t ∷ r) (e ∙ ap (λ r. r ++ old) empty)),
              (leb→le (t + d) now late, stale),
            )
      ]
    ]

-- The number of times of the list that lie in the window which ends at `now`.
abbrev pub recent : ℕ → ℕ → List ℕ → ℕ
recent d now [] = 0
recent d now (t ∷ ts) = (if ltb now (t + d) then 1 else 0) + recent d now ts

recent-le-length : (d now : ℕ) (h : List ℕ) → recent d now h ≤ length h
recent-le-length d now [] = omega arith
recent-le-length d now (t ∷ ts) = ground (arith, recent-le-length d now ts)

recent-append :
    (d now : ℕ) (h old : List ℕ) → recent d now (h ++ old) ≡ recent d now h + recent d now old
recent-append d now [] old = omega arith
recent-append d now (t ∷ h) old = ground (arith, recent-append d now h old)

recent_stale : (d now : ℕ) (old : List ℕ) → All (IsStale now d) old → recent d now old ≡ 0
recent_stale d now [] a = refl
recent_stale d now (t ∷ ts) a = ground (arith, recent_stale d now ts a.1)

IsStale-later :
    (d now later : ℕ) (old : List ℕ)
    → now ≤ later
    → All (IsStale now d) old
    → All (IsStale later d) old
IsStale-later d now later [] q a = tt
IsStale-later d now later (t ∷ ts) q a = (omega arith, IsStale-later d now later ts q a.1)

-- At each admission, newest first, the admissions of the last `d` seconds are at most `n`.
abbrev pub Windowed : ℕ → ℕ → List ℕ → Type 0
Windowed n d [] = Unit
Windowed n d (t ∷ ts) = (recent d t (t ∷ ts) ≤ n) × Windowed n d ts

abbrev pub Ascending : ℕ → List ℕ → Type 0
Ascending last [] = Unit
Ascending last (t ∷ ts) = (last ≤ t) × Ascending t ts

module _ (cache : CacheApi ThrottleKey ThrottleValue) (drf : RateThrottle cache)
    (rates : Scope → Option Text) (org : OrgPlan) where
  open cache use {get, set, get-set_self}

  abbrev pub key_of : ThrottleKey
  key_of = record { scope = resolved_scope org; ident = org.id }

  -- The requests of one organization, at the times of the list; the times that were let through, the
  -- newest first.
  abbrev pub serve : List ℕ → List ℕ → cache.Store → List ℕ
  serve [] admitted s = admitted
  serve (now ∷ ts) admitted s =
      let (allowed, _, s') = allow_request cache drf rates (some org) now s in
      serve ts (if allowed then now ∷ admitted else admitted) s'

  -- One request under the rate `n` in `d` seconds.
  request_lem :
      (n d now : ℕ) (s : cache.Store)
      → drf.parse_rate (or_default (rates (resolved_scope org)) (default_rate (resolved_scope org)))
        ≡ some (n, d)
      → let kept = drop_stale now d (history_of (get key_of s)) in
        let (allowed, _, s') = allow_request cache drf rates (some org) now s in
        (allowed ≡ ltb (length kept) n)
        × (s' ≡ (if ltb (length kept) n then set key_of (history (now ∷ kept)) s else s))
  unfolding allow_request slide
  request_lem n d now s e =
      let kept = drop_stale now d (history_of (get key_of s)) in
      rw e (ground (arith, drf.success_lem key_of now kept s, drf.failure_lem))

  -- The history holds the admissions that can still matter.
  abbrev Tracks : ℕ → ℕ → List ℕ → cache.Store → Type 0
  Tracks d now admitted s =
      (old : List ℕ) × (admitted ≡ history_of (get key_of s) ++ old) × All (IsStale now d) old

  Tracks-kept :
      (d now : ℕ) (admitted : List ℕ) (s : cache.Store)
      → Tracks d now admitted s
      → (old : List ℕ) × (admitted ≡ drop_stale now d (history_of (get key_of s)) ++ old)
        × All (IsStale now d) old
  Tracks-kept d now admitted s (old, e, stale) =
      let h = history_of (get key_of s) in
      let (dropped, cut, late) = drop_stale_lem now d h in
      (
        dropped ++ old,
        e ∙ ap (λ r. r ++ old) cut ∙ append_assoc (drop_stale now d h) dropped old,
        All-append (IsStale now d) dropped old late stale,
      )

  recent_bound :
      (d now n : ℕ) (kept old : List ℕ)
      → All (IsStale now d) old
      → length kept < n
      → recent d now (now ∷ (kept ++ old)) ≤ n
  recent_bound d now n kept old stale q = ground (
    arith,
    recent-append d now kept old,
    recent_stale d now old stale,
    recent-le-length d now kept,
  )

  serve-Windowed :
      (n d : ℕ) (ts admitted : List ℕ) (last : ℕ) (s : cache.Store)
      → drf.parse_rate (or_default (rates (resolved_scope org)) (default_rate (resolved_scope org)))
        ≡ some (n, d)
      → Ascending last ts
      → Tracks d last admitted s
      → Windowed n d admitted
      → Windowed n d (serve ts admitted s)
  unfolding history_of
  serve-Windowed n d [] admitted last s rate asc _ w = w
  serve-Windowed n d (now ∷ ts) admitted last s rate asc (old, e, stale) w =
      let kept = drop_stale now d (history_of (get key_of s)) in
      let (all_old, e', stale') =
        Tracks-kept d now admitted s (old, e, IsStale-later d last now old asc.0 stale) in
      let (verdict, store) = request_lem n d now s rate in
      elim (Bool-cases (ltb (length kept) n)) [
        | inl fits ↦
            let stored = set key_of (history (now ∷ kept)) s in
            let now_kept : history_of (get key_of stored) ≡ now ∷ kept =
              ap history_of (get-set_self key_of (history (now ∷ kept)) s) in
            let ih =
              serve-Windowed n d ts (now ∷ admitted) now stored rate asc.1
                (all_old, rw (now_kept, e'), stale')
                (
                  rw e' (recent_bound d now n kept all_old stale' (ltb→lt (length kept) n fits)),
                  w,
                ) in
            rw (verdict, store, fits) ih
        | inr full ↦
            let ih =
              serve-Windowed n d ts admitted now s rate asc.1
                (old, e, IsStale-later d last now old asc.0 stale) w in
            rw (verdict, store, full) ih
      ]

  -- From a cache without the organization's history, and for requests in the order of their times:
  -- whenever a request is let through, the requests let through in the window of `d` seconds that
  -- ends with it are at most `n`, where the organization's plan has the rate of `n` in `d`.
  pub window_bound :
      (n d : ℕ) (ts : List ℕ) (s : cache.Store)
      → drf.parse_rate (or_default (rates (resolved_scope org)) (default_rate (resolved_scope org)))
        ≡ some (n, d)
      → get key_of s ≡ none
      → Ascending 0 ts
      → Windowed n d (serve ts [] s)
  unfolding history_of
  window_bound n d ts s rate fresh asc =
      serve-Windowed n d ts [] 0 s rate asc ([], rw (ap history_of fresh), tt) tt
