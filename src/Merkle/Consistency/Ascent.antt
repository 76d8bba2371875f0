-- ===== src/Merkle/Consistency/Ascent.antt =====
-- From the shared subtree the check of apps/core/merkle.py climbs to both roots.
use multilingual_task_api.Prelude.{
  ℕ, zero, suc, ◌+◌, ◌-◌, ◌*◌, ◌/◌, ◌^◌, ◌≤◌, ◌<◌, ◌≡◌, refl, sym, ap, ◌∙◌, List, [], ◌∷◌, ◌++◌,
  append_assoc, arith, false, leb, leb→le, Bool-cases, inl, inr, length, length-append, ◌==◌,
  dec_lt,
}
use multilingual_task_api.Prelude.Powers.{
  pow_double, pow_halves, pow_below_double, pow_quotient, shr, shr_lem,
}
use multilingual_task_api.PyText.{Text}
use multilingual_task_api.Merkle.{Sha256}
use multilingual_task_api.Merkle.Tree.{Tree, node, size, hex, Layout, single, split}
use multilingual_task_api.Merkle.Root.{length-Layout}
use multilingual_task_api.Merkle.Inclusion.{GoesOn, goes_on}
use multilingual_task_api.Merkle.Consistency.{Climbed, strip_ones, climb_both}
use multilingual_task_api.Merkle.Consistency.Bounds.{strip_ones_block, lt-pow}
use multilingual_task_api.Merkle.Consistency.Climb.{both_even, both_odd, both_edge}
use multilingual_task_api.Merkle.Consistency.Plan.{
  prefix, shared, upper_path, leb→ge, eq_false, prefix_whole, upper_path-whole, shared_whole,
}

module _ (h : Sha256) where
  -- The loop from the shared subtree of `t`, whose old part ends at leaf `fn`.
  abbrev pub ascent : Tree → ℕ → List Text → ℕ → ℕ → Climbed
  ascent t m rest fn sn =
      climb_both h (upper_path h t m ++ rest) (strip_ones fn fn sn).0 (strip_ones fn fn sn).1
        (hex h (shared t m)) (hex h (shared t m))

  -- An even block that the old tree fills.
  full_block :
      {ys : List Text} {l : Tree} (e m c fn sn : ℕ) (rest : List Text)
      → Layout ys l
      → length ys ≡ 2 ^ e
      → m ≡ 2 ^ e
      → suc fn ≡ m + 2 * c * 2 ^ e
      → ascent l m rest fn sn ≡ climb_both h rest (2 * c) (shr e sn) (hex h (prefix l m)) (hex h l)
  full_block {l} e m c fn sn rest lay len full ef =
      let all : m ≡ size l = full ∙ sym len ∙ length-Layout lay in
      rw (
        upper_path-whole h l m all,
        shared_whole l m all,
        prefix_whole l m all,
        strip_ones_block e fn c fn sn (omega arith) (omega (arith, lt-pow e)),
      )

  -- A perfect block of 2 ^ e leaves that is not on the right edge and that the old tree enters but
  -- does not fill.
  pub ascent_block :
      {xs : List Text} {t : Tree} (e m q s fn sn : ℕ) (rest : List Text)
      → Layout xs t
      → length xs ≡ 2 ^ e
      → 1 ≤ m
      → m < 2 ^ e
      → suc fn ≡ m + q * 2 ^ e
      → shr e sn ≡ s
      → q < s
      → ascent t m rest fn sn ≡ climb_both h rest q s (hex h (prefix t m)) (hex h t)
  ascent_block e m q s fn sn rest (single d) len p lt ef es qs = absurd (omega arith)
  ascent_block zero m q s fn sn rest (split j ys zs a b c d lay_l lay_r) len p lt ef es qs =
      absurd (omega arith)
  ascent_block {xs} (suc e) m q s fn sn rest (split {l} {r} j ys zs a b c d lay_l lay_r) len p lt ef
        es qs =
      let total : length xs ≡ length ys + length zs = ap length a ∙ length-append ys zs in
      let (front, back) = pow_halves j e (length zs) (omega arith) c d in
      let dbl : 2 ^ suc e ≡ 2 * 2 ^ e = pow_double e in
      let scale : q * 2 ^ suc e ≡ q * (2 * 2 ^ e) = ap (λ (k : ℕ). q * k) dbl in
      let wl : size l ≡ 2 ^ e = sym (length-Layout lay_l) ∙ b ∙ front in
      let wr : size r ≡ 2 ^ e = sym (length-Layout lay_r) ∙ back in
      let some_left : m == size l + size r ≡ false = eq_false m (size l + size r) (omega arith) in
      elim (Bool-cases (leb m (size l))) [
        | inl inside ↦
            let le : m ≤ size l = leb→le m (size l) inside in
            let below : ascent l m (hex h r ∷ rest) fn sn
                ≡ climb_both h (hex h r ∷ rest) (2 * q) (shr e sn) (hex h (prefix l m)) (hex h l) =
              elim (dec_lt m (2 ^ e)) [
                | yes part ↦
                    ascent_block e m (2 * q) (shr e sn) fn sn (hex h r ∷ rest) lay_l (b ∙ front) p
                      part (omega arith) refl (omega arith)
                | no full ↦
                    full_block e m q fn sn (hex h r ∷ rest) lay_l (b ∙ front) (omega arith)
                      (omega arith)
              ] in
            rw (
              some_left,
              inside,
              append_assoc (upper_path h l m) (hex h r ∷ []) rest,
              below,
              both_even h q (shr e sn) (prefix l m) l r rest (omega arith),
              es,
            )
        | inr beyond ↦
            let past : size l < m = leb→ge m (size l) beyond in
            rw (
              some_left,
              beyond,
              append_assoc (upper_path h r (m - size l)) (hex h l ∷ []) rest,
              ascent_block e (m - size l) (2 * q + 1) (shr e sn) fn sn (hex h l ∷ rest) lay_r back
                  (omega arith) (omega arith) (omega arith) refl (omega arith),
              both_odd h q (shr e sn) l (prefix r (m - size l)) r rest (omega arith),
              es,
            )
      ]

  -- A subtree on the right edge that the old tree enters but does not fill.
  pub ascent_right :
      {xs : List Text} {t : Tree} (e m q fn sn : ℕ) (rest : List Text)
      → Layout xs t
      → length xs ≤ 2 ^ e
      → 1 ≤ m
      → m < length xs
      → suc fn ≡ m + q * 2 ^ e
      → suc sn ≡ length xs + q * 2 ^ e
      → GoesOn h q rest
      → ascent t m rest fn sn ≡ climb_both h rest q q (hex h (prefix t m)) (hex h t)
  ascent_right e m q fn sn rest (single dec) len p lt ef es g = absurd (omega arith)
  ascent_right {xs} zero m q fn sn rest (split j ys zs a b c d lay_l lay_r) len p lt ef es g =
      absurd (omega arith)
  ascent_right {xs} (suc e) m q fn sn rest (split {l} {r} j ys zs a b c d lay_l lay_r) len p lt ef
        es g =
      let total : length xs ≡ length ys + length zs = ap length a ∙ length-append ys zs in
      let (k, parts) = pow_quotient j e (pow_below_double j e (omega arith)) in
      let c1 : ℕ = q * 2 ^ k in
      let dbl : 2 ^ suc e ≡ 2 * 2 ^ e = pow_double e in
      let scale : q * 2 ^ suc e ≡ q * (2 * (2 ^ k * 2 ^ j)) =
        ap (λ (n : ℕ). q * n) (dbl ∙ ap (λ (n : ℕ). 2 * n) parts) in
      let wl : size l ≡ 2 ^ j = sym (length-Layout lay_l) ∙ b in
      let wr : length zs ≡ size r = length-Layout lay_r in
      let half : (2 * c1 + 1) / 2 ≡ c1 = omega arith in
      let some_left : m == size l + size r ≡ false = eq_false m (size l + size r) (omega arith) in
      elim (Bool-cases (leb m (size l))) [
        | inl inside ↦
            let le : m ≤ size l = leb→le m (size l) inside in
            let row : sn ≡ length zs - 1 + (2 * c1 + 1) * 2 ^ j = omega arith in
            let top : shr j sn ≡ 2 * c1 + 1 =
              ap (shr j) row ∙ shr_lem j (length zs - 1) (2 * c1 + 1) (omega arith) in
            let below : ascent l m (hex h r ∷ rest) fn sn
                ≡ climb_both h (hex h r ∷ rest) (2 * c1) (shr j sn) (hex h (prefix l m)) (hex h l) =
              elim (dec_lt m (2 ^ j)) [
                | yes part ↦
                    ascent_block j m (2 * c1) (shr j sn) fn sn (hex h r ∷ rest) lay_l b p part
                      (omega arith) refl (omega arith)
                | no full ↦
                    full_block j m c1 fn sn (hex h r ∷ rest) lay_l b (omega arith) (omega arith)
              ] in
            rw
              (
                some_left,
                inside,
                append_assoc (upper_path h l m) (hex h r ∷ []) rest,
                below,
                top,
                both_even h c1 (2 * c1 + 1) (prefix l m) l r rest (omega arith),
                half,
              )
              (both_edge h k q rest (prefix l m) (node l r) g)
        | inr beyond ↦
            let past : size l < m = leb→ge m (size l) beyond in
            rw
              (
                some_left,
                beyond,
                append_assoc (upper_path h r (m - size l)) (hex h l ∷ []) rest,
                ascent_right j (m - size l) (2 * c1 + 1) fn sn (hex h l ∷ rest) lay_r d
                    (omega arith) (omega arith) (omega arith) (omega arith)
                    (goes_on h l rest (2 * c1 + 1)),
                both_odd h c1 (2 * c1 + 1) l (prefix r (m - size l)) r rest (omega arith),
                half,
              )
              (both_edge h k q rest (node l (prefix r (m - size l))) (node l r) g)
      ]
