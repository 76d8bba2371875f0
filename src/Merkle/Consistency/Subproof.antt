-- ===== src/Merkle/Consistency/Subproof.antt =====
-- `_subproof` of apps/core/merkle.py builds the nodes of the plan.
use multilingual_task_api.Prelude.{
  ℕ, zero, suc, ◌+◌, ◌-◌, ◌*◌, ◌^◌, ◌≤◌, ◌<◌, ◌≡◌, ◌≢◌, refl, sym, ap, ◌∙◌, List, [], ◌∷◌, ◌++◌,
  arith, Bool, true, false, Bool-cases, inl, inr, leb, leb→le, ◌==◌, ==_iff, if◌then◌else◌, length,
  take, drop, length-append, ok, ◌>>=◌,
}
use multilingual_task_api.Prelude.Powers.{pow_pos, pow_double}
use multilingual_task_api.PyText.{Text}
use multilingual_task_api.Merkle.{Sha256, largest_power_of_two_less_than, compute_merkle_root}
use multilingual_task_api.Merkle.Split.{largest_power_lem}
use multilingual_task_api.Merkle.Tree.{Tree, node, size, hex, Layout, single, split}
use multilingual_task_api.Merkle.Root.{length-Layout, split_slices, compute_merkle_root_lem}
use multilingual_task_api.Merkle.Consistency.{is_exact_power_of_two, subproof_fuel}
use multilingual_task_api.Merkle.Consistency.Bounds.{power_test, power_test_between}
use multilingual_task_api.Merkle.Consistency.Plan.{
  prefix, shared, upper_path, leb-true, leb-false, leb→ge, eq_false, prefix_whole, upper_path-whole,
  shared_whole,
}

module _ (h : Sha256) where
  sub_end :
      (f : ℕ) (xs : List Text) (m : ℕ) (start : Bool) {root : Text}
      → m ≡ length xs
      → compute_merkle_root h xs ≡ ok root
      → subproof_fuel h (suc f) xs m start ≡ ok (if start then [] else root ∷ [])
  unfolding subproof_fuel
  sub_end f xs m true e r = rw (subproof_fuel, (==_iff m (length xs)).1 e)
  sub_end f xs m false e r = rw (subproof_fuel, (==_iff m (length xs)).1 e, r)

  sub_left :
      (f : ℕ) (xs : List Text) (m k : ℕ) (start : Bool)
      → m ≢ length xs
      → largest_power_of_two_less_than (length xs) ≡ ok k
      → m ≤ k
      → subproof_fuel h (suc f) xs m start ≡ (do
        sub ← subproof_fuel h f (take k xs) m start
        right_root ← compute_merkle_root h (drop k xs)
        ok (sub ++ right_root ∷ []))
  unfolding subproof_fuel
  sub_left f xs m k start ne e q =
      rw (subproof_fuel, eq_false m (length xs) ne, e, ◌>>=◌, leb-true m k q)

  sub_right :
      (f : ℕ) (xs : List Text) (m k : ℕ) (start : Bool)
      → m ≢ length xs
      → largest_power_of_two_less_than (length xs) ≡ ok k
      → k < m
      → subproof_fuel h (suc f) xs m start ≡ (do
        sub ← subproof_fuel h f (drop k xs) (m - k) false
        left_root ← compute_merkle_root h (take k xs)
        ok (sub ++ left_root ∷ []))
  unfolding subproof_fuel
  sub_right f xs m k start ne e q =
      rw (subproof_fuel, eq_false m (length xs) ne, e, ◌>>=◌, leb-false m k q)

  -- What the code returns with the flag `start`: it leaves the shared subtree out where the
  -- verifier knows its hash, the old root.
  abbrev pub plan : Tree → ℕ → Bool → List Text
  plan t m omit = if omit then upper_path h t m else hex h (shared t m) ∷ upper_path h t m

  subproof_split :
      {xs : List Text} {l r : Tree} (f m j : ℕ) (ys zs : List Text) (start omit : Bool)
      → xs ≡ ys ++ zs
      → length ys ≡ 2 ^ j
      → 1 ≤ length zs
      → length zs ≤ 2 ^ j
      → Layout ys l
      → Layout zs r
      → m < length xs
      → (m ≤ length ys → subproof_fuel h f ys m start ≡ ok (plan l m omit))
      → (length ys < m
          → (subproof_fuel h f zs (m - length ys) false ≡ ok (plan r (m - length ys) false))
            × (omit ≡ false))
      → subproof_fuel h (suc f) xs m start ≡ ok (plan (node l r) m omit)
  subproof_split {xs} {l} {r} f m j ys zs start omit e a b c lay_l lay_r q left right =
      let total : length xs ≡ length ys + length zs = ap length e ∙ length-append ys zs in
      let one : 1 ≤ 2 ^ j = pow_pos j in
      let dbl : 2 ^ suc j ≡ 2 * 2 ^ j = pow_double j in
      let (front, back) = split_slices xs ys zs e in
      let wl : length ys ≡ size l = length-Layout lay_l in
      let wr : length zs ≡ size r = length-Layout lay_r in
      let inner : m == size l + size r ≡ false = eq_false m (size l + size r) (omega arith) in
      let k : largest_power_of_two_less_than (length xs) ≡ ok (length ys) =
        largest_power_lem j (length xs) (omega arith) (omega arith)
        ∙ ap (λ (v : ℕ). ok v) (sym a) in
      elim (Bool-cases (leb m (length ys))) [
        | inl inside ↦
            let le : m ≤ length ys = leb→le m (length ys) inside in
            rw
              (
                inner,
                ← wl,
                inside,
                sub_left f xs m (length ys) start (omega arith) k le,
                front,
                left le,
                back,
                compute_merkle_root_lem h lay_r,
              )
              (both omit (upper_path h l m) (hex h (shared l m)) (hex h r))
        | inr beyond ↦
            let lt : length ys < m = leb→ge m (length ys) beyond in
            rw (
              inner,
              ← wl,
              beyond,
              sub_right f xs m (length ys) start (omega arith) k lt,
              back,
              (right lt).0,
              front,
              compute_merkle_root_lem h lay_l,
              (right lt).1,
            )
      ]
    where
      both :
          (omit : Bool) (up : List Text) (s sibling : Text)
          → ok ((if omit then up else s ∷ up) ++ sibling ∷ [])
            ≡ ok (if omit then up ++ sibling ∷ [] else s ∷ (up ++ sibling ∷ []))
      both true up s sibling = refl
      both false up s sibling = refl

  plan_end :
      {xs : List Text} {t : Tree} (f m : ℕ) (start : Bool)
      → Layout xs t
      → m ≡ length xs
      → subproof_fuel h (suc f) xs m start ≡ ok (plan t m start)
  plan_end {t} f m true lay e =
      sub_end f _ m true e (compute_merkle_root_lem h lay)
      ∙ ap (λ (p : List Text). ok p) (sym (upper_path-whole h t m (e ∙ length-Layout lay)))
  plan_end {t} f m false lay e =
      let whole = e ∙ length-Layout lay in
      rw (shared_whole t m whole, upper_path-whole h t m whole)
        (sub_end f _ m false e (compute_merkle_root_lem h lay))

  pub subproof_false :
      {xs : List Text} {t : Tree} (f m : ℕ)
      → Layout xs t
      → 1 ≤ m
      → m ≤ length xs
      → length xs < f
      → subproof_fuel h f xs m false ≡ ok (plan t m false)
  subproof_false zero m lay p q fuel = absurd (omega arith)
  subproof_false (suc f) m (single {x} {d} dec) p q fuel =
      plan_end f m false (single {x = x} {d = d} dec) (omega arith)
  subproof_false {xs} (suc f) m (split j ys zs e a b c lay_l lay_r) p q fuel =
      let total : length xs ≡ length ys + length zs = ap length e ∙ length-append ys zs in
      let one : 1 ≤ 2 ^ j = pow_pos j in
      elim (Bool-cases (m == length xs)) [
        | inl all ↦
            plan_end f m false (split j ys zs e a b c lay_l lay_r) ((==_iff m (length xs)).0 all)
        | inr some_left ↦
            subproof_split f m j ys zs false false e a b c lay_l lay_r (ground arith)
              (λ le. subproof_false f m lay_l p le (omega arith))
              (λ lt. (
                subproof_false f (m - length ys) lay_r (omega arith) (omega arith) (omega arith),
                refl,
              ))
      ]

  -- With the flag, and an old size that is a power of two if it is the whole list.
  pub subproof_true :
      {xs : List Text} {t : Tree} (f m : ℕ)
      → Layout xs t
      → 1 ≤ m
      → m ≤ length xs
      → (m ≡ length xs → is_exact_power_of_two m ≡ true)
      → length xs < f
      → subproof_fuel h f xs m true ≡ ok (plan t m (is_exact_power_of_two m))
  subproof_true zero m lay p q w fuel = absurd (omega arith)
  subproof_true (suc f) m (single {x} {d} dec) p q w fuel =
      let e : m ≡ 1 = omega arith in rw (w e) (plan_end f m true (single {x = x} {d = d} dec) e)
  subproof_true {xs} (suc f) m (split j ys zs e a b c lay_l lay_r) p q w fuel =
      let total : length xs ≡ length ys + length zs = ap length e ∙ length-append ys zs in
      let one : 1 ≤ 2 ^ j = pow_pos j in
      let dbl : 2 ^ suc j ≡ 2 * 2 ^ j = pow_double j in
      elim (Bool-cases (m == length xs)) [
        | inl all ↦
            let same : m ≡ length xs = (==_iff m (length xs)).0 all in
            rw (w same) (plan_end f m true (split j ys zs e a b c lay_l lay_r) same)
        | inr some_left ↦
            let fewer : m < length xs = ground arith in
            subproof_split f m j ys zs true (is_exact_power_of_two m) e a b c lay_l lay_r fewer
              (λ le.
                subproof_true f m lay_l p le (λ k. ap is_exact_power_of_two (k ∙ a) ∙ power_test j)
                  (omega arith))
              (λ lt. (
                subproof_false f (m - length ys) lay_r (omega arith) (omega arith) (omega arith),
                power_test_between j m (omega arith) (omega arith),
              ))
      ]

-- Where the old size is a power of two, the shared subtree is the whole old tree.
pub shared-prefix :
    {xs : List Text} {t : Tree} (m : ℕ)
    → Layout xs t
    → 1 ≤ m
    → m ≤ length xs
    → is_exact_power_of_two m ≡ true
    → shared t m ≡ prefix t m
shared-prefix m (single dec) p q w = refl
shared-prefix {xs} m (split {l} {r} j ys zs e a b c lay_l lay_r) p q w =
    let total : length xs ≡ length ys + length zs = ap length e ∙ length-append ys zs in
    let dbl : 2 ^ suc j ≡ 2 * 2 ^ j = pow_double j in
    let wl : length ys ≡ size l = length-Layout lay_l in
    let wr : length zs ≡ size r = length-Layout lay_r in
    elim (Bool-cases (m == size l + size r)) [
      | inl all ↦ rw all (sym (prefix_whole (node l r) m ((==_iff m (size l + size r)).0 all)))
      | inr fewer ↦ elim (Bool-cases (leb m (size l))) [
        | inl inside ↦
            let le : m ≤ size l = leb→le m (size l) inside in
            rw (fewer, inside) (shared-prefix m lay_l p (omega arith) w)
        | inr beyond ↦
            let lt : size l < m = leb→ge m (size l) beyond in
            let not_all : m ≢ size l + size r = ground arith in
            cc (sym w ∙ power_test_between j m (omega arith) (omega arith))
      ]
    ]
