-- ===== src/Outbox/Rows.antt =====
-- One row of the outbox's table among others, through the queries of apps/core/outbox.py.
use multilingual_task_api.Prelude.{
  ℕ, ◌+◌, ◌≡◌, subst, ap, ◌∙◌, Bool, true, false, [], ◌∷◌, arith, Bool-cases, inl, inr, ◌⊎◌, leb,
  ◌==◌, filter, insert_by, sort_by, All, All-imp, All-filter, All-insert_by, All-sort_by,
}
use multilingual_task_api.Outbox.{
  OutboxEvent, Table, update_where, is_in, ids_of, Senders, send, Tally, settled, relay_all,
  relay_event,
}
use multilingual_task_api.Outbox.Relays.{KeepsId, settled-KeepsId}

abbrev pub Others : ℕ → Table → Type 0
Others id t = All (λ q. q.id == id ≡ false) t

-- The row is the one with this id.
abbrev pub HasRow : ℕ → OutboxEvent → Table → Type 0
HasRow id r [] = ⊥
HasRow id r (q ∷ t) =
    ((q ≡ r) × (r.id == id ≡ true) × Others id t) ⊎ ((q.id == id ≡ false) × HasRow id r t)

pub row_id : (id : ℕ) (r : OutboxEvent) (t : Table) → HasRow id r t → r.id == id ≡ true
row_id id r [] h = elim h [ ]
row_id id r (q ∷ t) (inl (e, i, o)) = i
row_id id r (q ∷ t) (inr (i, h)) = row_id id r t h

keeps-other :
    (id : ℕ) (f : OutboxEvent → OutboxEvent) (q : OutboxEvent) {b : Bool}
    → KeepsId f
    → q.id == id ≡ b
    → (f q).id == id ≡ b
keeps-other id f q k e = ap (λ i. i == id) (k q) ∙ e

Others-update_where :
    (id : ℕ) (p : OutboxEvent → Bool) (f : OutboxEvent → OutboxEvent) (t : Table)
    → KeepsId f
    → Others id t
    → Others id (update_where p f t)
Others-update_where id p f [] k h = tt
Others-update_where id p f (q ∷ t) k (i, h) =
    let rest = Others-update_where id p f t k h in
    elim (Bool-cases (p q)) [ inl e ↦ rw e (keeps-other id f q k i, rest) | inr e ↦ rw e (i, rest) ]

pub HasRow-updated :
    (id : ℕ) (p : OutboxEvent → Bool) (f : OutboxEvent → OutboxEvent) (r : OutboxEvent) (t : Table)
    → KeepsId f
    → p r ≡ true
    → HasRow id r t
    → HasRow id (f r) (update_where p f t)
HasRow-updated id p f r [] k e h = elim h [ ]
HasRow-updated id p f r (q ∷ t) k e (inl (same, i, o)) =
    rw (ap p same ∙ e) (inl (ap f same, keeps-other id f r k i, Others-update_where id p f t k o))
HasRow-updated id p f r (q ∷ t) k e (inr (i, h)) =
    let rest = HasRow-updated id p f r t k e h in
    elim (Bool-cases (p q)) [
      | inl g ↦ rw g (inr (keeps-other id f q k i, rest))
      | inr g ↦ rw g (inr (i, rest))
    ]

pub HasRow-kept :
    (id : ℕ) (p : OutboxEvent → Bool) (f : OutboxEvent → OutboxEvent) (r : OutboxEvent) (t : Table)
    → KeepsId f
    → p r ≡ false
    → HasRow id r t
    → HasRow id r (update_where p f t)
HasRow-kept id p f r [] k e h = elim h [ ]
HasRow-kept id p f r (q ∷ t) k e (inl (same, i, o)) =
    rw (ap p same ∙ e) (inl (same, i, Others-update_where id p f t k o))
HasRow-kept id p f r (q ∷ t) k e (inr (i, h)) =
    let rest = HasRow-kept id p f r t k e h in
    elim (Bool-cases (p q)) [
      | inl g ↦ rw g (inr (keeps-other id f q k i, rest))
      | inr g ↦ rw g (inr (i, rest))
    ]

Others-filter : (id : ℕ) (p : OutboxEvent → Bool) (t : Table) → Others id t → Others id (filter p t)
Others-filter id p t h = All-imp _ _ (λ q x. x.1) _ (All-filter _ p t h)

pub HasRow-filter :
    (id : ℕ) (p : OutboxEvent → Bool) (r : OutboxEvent) (t : Table)
    → p r ≡ true
    → HasRow id r t
    → HasRow id r (filter p t)
HasRow-filter id p r [] e h = elim h [ ]
HasRow-filter id p r (q ∷ t) e (inl (same, i, o)) =
    rw (ap p same ∙ e) (inl (same, i, Others-filter id p t o))
HasRow-filter id p r (q ∷ t) e (inr (i, h)) =
    let rest = HasRow-filter id p r t e h in
    elim (Bool-cases (p q)) [ inl g ↦ rw g (inr (i, rest)) | inr g ↦ rw g rest ]

HasRow-insert_row :
    (id : ℕ) (key : OutboxEvent → ℕ) (r a : OutboxEvent) (t : Table)
    → a ≡ r
    → r.id == id ≡ true
    → Others id t
    → HasRow id r (insert_by key a t)
HasRow-insert_row id key r a [] same i o = inl (same, i, tt)
HasRow-insert_row id key r a (q ∷ t) same i (j, o) =
    let rest = HasRow-insert_row id key r a t same i o in
    elim (Bool-cases (leb (key a) (key q))) [
      | inl g ↦ rw g (inl (same, i, (j, o)))
      | inr g ↦ rw g (inr (j, rest))
    ]

HasRow-insert_other :
    (id : ℕ) (key : OutboxEvent → ℕ) (r a : OutboxEvent) (t : Table)
    → a.id == id ≡ false
    → HasRow id r t
    → HasRow id r (insert_by key a t)
HasRow-insert_other id key r a [] j h = elim h [ ]
HasRow-insert_other id key r a (q ∷ t) j (inl (same, i, o)) =
    elim (Bool-cases (leb (key a) (key q))) [
      | inl g ↦ rw g (inr (j, inl (same, i, o)))
      | inr g ↦ rw g (inl (same, i, All-insert_by _ key a t j o))
    ]
HasRow-insert_other id key r a (q ∷ t) j (inr (i, h)) =
    let rest = HasRow-insert_other id key r a t j h in
    elim (Bool-cases (leb (key a) (key q))) [
      | inl g ↦ rw g (inr (j, inr (i, h)))
      | inr g ↦ rw g (inr (i, rest))
    ]

pub HasRow-sort_by :
    (id : ℕ) (key : OutboxEvent → ℕ) (r : OutboxEvent) (t : Table)
    → HasRow id r t
    → HasRow id r (sort_by key t)
HasRow-sort_by id key r [] h = elim h [ ]
HasRow-sort_by id key r (q ∷ t) (inl (same, i, o)) =
    HasRow-insert_row id key r q (sort_by key t) same i (All-sort_by _ key t o)
HasRow-sort_by id key r (q ∷ t) (inr (i, h)) =
    HasRow-insert_other id key r q (sort_by key t) i (HasRow-sort_by id key r t h)

pub HasRow-is_in :
    (id : ℕ) (r : OutboxEvent) (t : Table) → HasRow id r t → is_in (ids_of t) id ≡ true
HasRow-is_in id r [] h = elim h [ ]
HasRow-is_in id r (q ∷ t) (inl (same, i, o)) =
    let here : q.id == id ≡ true = ap (λ x. x.id == id) same ∙ i in ground (arith, here)
HasRow-is_in id r (q ∷ t) (inr (i, h)) = let rest = HasRow-is_in id r t h in ground (arith, rest)

-- Attempts of other events leave the row alone; its own settles it.
relay_rest :
    (senders : Senders) (now id : ℕ) (r : OutboxEvent) (events t : Table) (n : Tally)
    → Others id events
    → HasRow id r t
    → HasRow id r (relay_all senders (λ _. now) events (t, n)).0
unfolding relay_all relay_event
relay_rest senders now id r [] t n o h = h
relay_rest senders now id r (e ∷ events) t n (j, o) h =
    let own = row_id id r t h in
    let apart : r.id == e.id ≡ false = ground arith in
    relay_rest senders now id r events _ _ o (
      HasRow-kept id _ (settled now (e.attempts + 1) (send senders e)) r t
        (settled-KeepsId now (e.attempts + 1) (send senders e)) apart h)

pub relay-row :
    (senders : Senders) (now id : ℕ) (ev r : OutboxEvent) (events t : Table) (n : Tally)
    → HasRow id ev events
    → HasRow id r t
    → HasRow id
        (settled now (ev.attempts + 1) (send senders ev) r)
        (relay_all senders (λ _. now) events (t, n)).0
unfolding relay_all relay_event
relay-row senders now id ev r [] t n h k = elim h [ ]
relay-row senders now id ev r (e ∷ events) t n (inl (same, i, o)) h =
    let own = row_id id r t h in
    let f = settled now (e.attempts + 1) (send senders e) in
    let here : r.id == e.id ≡ true =
      ground (arith, row_id id ev (e ∷ events) (inl (same, i, o)), ap (λ x. x.id == id) same) in
    subst
      (λ x.
        HasRow id (settled now (x.attempts + 1) (send senders x) r)
          (relay_all senders (λ _. now) (e ∷ events) (t, n)).0)
      same
      (relay_rest senders now id (f r) events _ _ o
        (HasRow-updated id _ f r t (settled-KeepsId now (e.attempts + 1) (send senders e)) here h))
relay-row senders now id ev r (e ∷ events) t n (inr (j, ho)) h =
    let own = row_id id r t h in
    let apart : r.id == e.id ≡ false = ground arith in
    relay-row senders now id ev r events _ _ ho (
      HasRow-kept id _ (settled now (e.attempts + 1) (send senders e)) r t
        (settled-KeepsId now (e.attempts + 1) (send senders e)) apart h)
