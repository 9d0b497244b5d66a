-- ===== src/State/Ordered.antt =====
-- ORDER BY, LIMIT and NOT IN on rows whose keys ascend.
use mathlib.Core.List.{reverse-cons, reverse-append}
use envorca.Prelude.{
  ℕ, zero, suc, ◌-◌, ◌≤◌, ◌<◌, ◌≡◌, refl, sym, ap, ◌∙◌, Bool, true, false, List, [], ◌∷◌, ◌++◌,
  length, take, drop, reverse, filter_by, ◌==◌, All, All-weaken, All-drop, arith, length-append,
  length-drop, Bool-cases, inl, inr, leb, ◌||◌,
}
use envorca.State.Sql.{Row, Table, insert_desc, order_by_id_desc, id_in, select_latest}

module _ {V : Type 0} where
  -- Keys ascend.
  abbrev pub Ascending : List (Row V) → Type 0
  Ascending [] = Unit
  Ascending (r ∷ rest) = All (λ s. r.id < s.id) rest × Ascending rest

  insert_desc-last :
      (r : Row V) (rest : List (Row V))
      → All (λ s. r.id < s.id) rest
      → insert_desc r rest ≡ rest ++ r ∷ []
  unfolding insert_desc
  insert_desc-last r [] h = refl
  insert_desc-last r (s ∷ rest) (p, h) = ground (arith, insert_desc-last r rest h)

  pub All-append_last {κ} :
      (P : Row V → Type κ) (xs : List (Row V)) (y : Row V) → All P xs → P y → All P (xs ++ y ∷ [])
  All-append_last P [] y h p = (p, tt)
  All-append_last P (x ∷ xs) y (q, h) p = (q, All-append_last P xs y h p)

  All-reverse {κ} : (P : Row V → Type κ) (xs : List (Row V)) → All P xs → All P (reverse xs)
  All-reverse P [] h = tt
  All-reverse P (x ∷ xs) (p, h) =
      rw (reverse-cons x xs) (All-append_last P (reverse xs) x (All-reverse P xs h) p)

  order_by-reverse : (xs : List (Row V)) → Ascending xs → order_by_id_desc xs ≡ reverse xs
  unfolding order_by_id_desc
  order_by-reverse [] h = refl
  order_by-reverse (x ∷ xs) (p, h) =
      rw (order_by-reverse xs h, reverse-cons x xs)
        (insert_desc-last x (reverse xs) (All-reverse _ xs p))

  id_in-above : (n : ℕ) (xs : List (Row V)) → All (λ r. n < r.id) xs → id_in n xs ≡ false
  unfolding id_in
  id_in-above n [] h = refl
  id_in-above n (x ∷ xs) (p, h) = ground (arith, id_in-above n xs h)

  id_in-append_last :
      (n : ℕ) (xs : List (Row V)) (y : Row V) → id_in n (xs ++ y ∷ []) ≡ (n == y.id || id_in n xs)
  unfolding id_in
  id_in-append_last n [] y = refl
  id_in-append_last n (x ∷ xs) y = ground (arith, id_in-append_last n xs y)

  id_in-reverse : (n : ℕ) (xs : List (Row V)) → id_in n (reverse xs) ≡ id_in n xs
  unfolding id_in
  id_in-reverse n [] = refl
  id_in-reverse n (x ∷ xs) =
      rw (reverse-cons x xs)
        (id_in-append_last n (reverse xs) x ∙ ap (λ b. n == x.id || b) (id_in-reverse n xs))

  id_in_self : (xs : List (Row V)) → All (λ r. id_in r.id xs ≡ true) xs
  unfolding id_in
  id_in_self [] = tt
  id_in_self (x ∷ xs) = (ground arith, All-weaken _ _ xs (λ r h. ground arith) (id_in_self xs))

  length-reverse : (xs : List (Row V)) → length (reverse xs) ≡ length xs
  length-reverse [] = refl
  length-reverse (x ∷ xs) =
      rw (reverse-cons x xs) (omega (arith, length-append (reverse xs) (x ∷ []), length-reverse xs))

  take-append_exact : (k : ℕ) (xs ys : List (Row V)) → length xs ≡ k → take k (xs ++ ys) ≡ xs
  take-append_exact zero [] ys h = refl
  take-append_exact zero (x ∷ xs) ys h = absurd (omega arith)
  take-append_exact (suc k) [] ys h = absurd (omega arith)
  take-append_exact (suc k) (x ∷ xs) ys h =
      ap (λ t. x ∷ t) (take-append_exact k xs ys (omega arith))

  take_all : (k : ℕ) (xs : List (Row V)) → length xs ≤ k → take k xs ≡ xs
  take_all zero [] h = refl
  take_all zero (x ∷ xs) h = absurd (omega arith)
  take_all (suc k) [] h = refl
  take_all (suc k) (x ∷ xs) h = ap (λ t. x ∷ t) (take_all k xs (omega arith))

  take-append-drop : (n : ℕ) (xs : List (Row V)) → take n xs ++ drop n xs ≡ xs
  take-append-drop zero xs = refl
  take-append-drop (suc n) [] = refl
  take-append-drop (suc n) (x ∷ xs) = ap (λ t. x ∷ t) (take-append-drop n xs)

  -- The last `k` rows.
  abbrev pub latest : ℕ → List (Row V) → List (Row V)
  latest k xs = drop (length xs - k) xs

  take-reverse : (k : ℕ) (xs : List (Row V)) → take k (reverse xs) ≡ reverse (latest k xs)
  take-reverse k xs = elim (Bool-cases (leb k (length xs))) [
    | inl t ↦
        let m = length xs - k in
        let split : reverse xs ≡ reverse (drop m xs) ++ reverse (take m xs) =
          ap reverse (sym (take-append-drop m xs)) ∙ reverse-append (take m xs) (drop m xs) in
        ap (take k) split
        ∙ take-append_exact k (reverse (drop m xs)) (reverse (take m xs))
            (ground (arith, length-reverse (drop m xs), length-drop m xs))
    | inr f ↦
        let none_off : length xs - k ≡ 0 = ground arith in
        take_all k (reverse xs) (ground (arith, length-reverse xs))
        ∙ ap (λ m. reverse (drop m xs)) (sym none_off)
  ]

  filter_by-append :
      (p : Row V → Bool) (xs ys : List (Row V))
      → filter_by p (xs ++ ys) ≡ filter_by p xs ++ filter_by p ys
  filter_by-append p [] ys = refl
  filter_by-append p (x ∷ xs) ys = ground (arith, filter_by-append p xs ys)

  filter_by_none :
      (p : Row V → Bool) (xs : List (Row V)) → All (λ r. p r ≡ false) xs → filter_by p xs ≡ []
  filter_by_none p [] h = refl
  filter_by_none p (x ∷ xs) (q, h) = ground (arith, filter_by_none p xs h)

  filter_by_all :
      (p : Row V → Bool) (xs : List (Row V)) → All (λ r. p r ≡ true) xs → filter_by p xs ≡ xs
  filter_by_all p [] h = refl
  filter_by_all p (x ∷ xs) (q, h) = ground (arith, filter_by_all p xs h)

  Ascending-apart :
      (n : ℕ) (xs : List (Row V))
      → Ascending xs
      → All (λ r. All (λ s. r.id < s.id) (drop n xs)) (take n xs)
  Ascending-apart zero xs h = tt
  Ascending-apart (suc n) [] h = tt
  Ascending-apart (suc n) (x ∷ xs) (p, h) = (All-drop _ n xs p, Ascending-apart n xs h)

  -- Rows whose keys ascend: the latest `k` by key are the last ones, newest first.
  pub select_latest-reverse :
      (k : ℕ) (t : Table V) → Ascending t.rows → select_latest k t ≡ reverse (latest k t.rows)
  unfolding select_latest
  select_latest-reverse k t h = ap (take k) (order_by-reverse t.rows h) ∙ take-reverse k t.rows

  -- The rows that NOT IN spares are the last `k`.
  pub filter_by-latest :
      (k : ℕ) (t : Table V)
      → Ascending t.rows
      → filter_by (λ r. id_in r.id (select_latest k t)) t.rows ≡ latest k t.rows
  filter_by-latest k t h =
      let xs = t.rows in
      let m = length xs - k in
      let kept = drop m xs in
      let p = λ (r : Row V). id_in r.id (reverse kept) in
      let gone : filter_by p (take m xs) ≡ [] = filter_by_none p (take m xs) (
        All-weaken _ _ (take m xs) (λ r a. id_in-reverse r.id kept ∙ id_in-above r.id kept a)
          (Ascending-apart m xs h)) in
      let stay : filter_by p kept ≡ kept =
        filter_by_all p kept
          (All-weaken _ _ kept (λ r s. id_in-reverse r.id kept ∙ s) (id_in_self kept)) in
      rw (select_latest-reverse k t h) (
        ap (filter_by p) (sym (take-append-drop m xs))
        ∙ filter_by-append p (take m xs) kept
        ∙ ap (λ front. front ++ filter_by p kept) gone
        ∙ stay)
