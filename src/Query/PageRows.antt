-- ===== src/Query/PageRows.antt =====
-- The rows of a page of `exec_select`: the first of those that the entries give.
use rhyda.Prelude.{
  ℕ, zero, suc, ◌≤◌, ◌<◌, ◌≡◌, refl, sym, ap, subst, bind_ok, ◌∙◌, Bool, true, false, leb, ltb,
  ltb-eq-false, ltb→lt, Bool-cases, inl, inr, List, [], ◌∷◌, ◌++◌, length, length-append, take,
  append_assoc, append-nil, Option, none, some, Outcome, ok, ◌>>=◌, arith, if◌then◌else◌,
}
use rhyda.Prelude.Bytes.{Bytes, starts_with}
use rhyda.Fault.{Fault}
use rhyda.Value.Types.{Value}
use rhyda.Storage.Scan.{stream}
use rhyda.Storage.Ordered.{with_prefix}
use rhyda.Query.Pages.{Selection, Page, is_behind, visit}
use rhyda.Query.Selection.{one_row}
use rhyda.Query.Paging.{project, step_of, visit-step_of}

take_full {ℓ} :
    {A : Type ℓ} (n : ℕ) (xs ys : List A) → n ≤ length xs → take n (xs ++ ys) ≡ take n xs
take_full zero xs ys h = refl
take_full (suc n) [] ys h = absurd (omega arith)
take_full (suc n) (x ∷ xs) ys h = ap (λ t. x ∷ t) (take_full n xs ys (omega arith))

pub take_all {ℓ} : {A : Type ℓ} (n : ℕ) (xs : List A) → length xs ≤ n → take n xs ≡ xs
take_all zero [] h = refl
take_all zero (x ∷ xs) h = absurd (omega arith)
take_all (suc n) [] h = refl
take_all (suc n) (x ∷ xs) h = ap (λ t. x ∷ t) (take_all n xs (omega arith))

module _ (c : Selection) where
  -- A page with the first `page_limit` of the rows, and no more than that.
  abbrev pub page_of : List (List Value) → Page
  page_of rows = record {
    out_rows = take c.page_limit rows;
    error_slot = none;
    paging_last_key = none;
    done = leb c.page_limit (length rows);
  }

  -- The rows that the entries behind the paging state give, in their order.
  abbrev pub rows_of : List (Bytes × Bytes) → Outcome Fault (List (List Value))
  rows_of [] = ok []
  rows_of ((k, v) ∷ es) =
      let rest = rows_of es in
      if is_behind c.paging_bytes k
      then (project c k v >>= λ o. rest >>= λ rows. ok (one_row o ++ rows))
      else rest

  pub page_of_full :
      (xs ys : List (List Value)) → c.page_limit ≤ length xs → page_of (xs ++ ys) ≡ page_of xs
  page_of_full xs ys h =
      rw (take_full c.page_limit xs ys h)
        (ap (λ b. record (page_of xs) { done = b }) (ground (arith, length-append xs ys)))

  -- The callback on a page that has room.
  visit-page_of :
      (k v : Bytes) (o : Option (List Value)) (rows : List (List Value))
      → length rows < c.page_limit
      → is_behind c.paging_bytes k ≡ true
      → project c k v ≡ ok o
      → visit c k v (page_of rows)
        ≡ ok (ltb (length (rows ++ one_row o)) c.page_limit, page_of (rows ++ one_row o))
  visit-page_of k v o rows h b e =
      visit-step_of c k v (page_of rows) (rw (take_all c.page_limit rows (omega arith)) h)
      ∙ rw (b, e) (stepped o)
    where
      stepped :
          (o : Option (List Value))
          → step_of c (page_of rows) (ok o)
            ≡ ok (ltb (length (rows ++ one_row o)) c.page_limit, page_of (rows ++ one_row o))
      stepped none = rw (append-nil rows) (ground arith)
      stepped (some row) =
          let more = rows ++ row ∷ [] in
          let n = length-append rows (row ∷ []) in
          rw
            (
              take_all c.page_limit rows (omega arith),
              take_all c.page_limit more (omega (arith, n)),
            )
            (ground arith)

  -- A page of rows without more.
  abbrev pub Shows : Outcome Fault (Bool × Page) → List (List Value) → Type 0
  Shows r rows = r ≡ ok (ltb (length rows) c.page_limit, page_of rows)

  pub Shows-same :
      (rows all : List (List Value))
      → length rows < c.page_limit
      → [] ≡ all
      → Shows (ok (true, page_of rows)) (rows ++ all)
  Shows-same rows all h q =
      subst (λ ys. Shows (ok (true, page_of rows)) (rows ++ ys)) q
        (rw (append-nil rows) (ground arith))

  -- The page goes on to the rows `ys` behind `xs`, unless it is full with `xs`.
  pub Shows-next :
      (rows xs ys all : List (List Value)) (r : Outcome Fault (Bool × Page)) (b : Bool)
      → ltb (length (rows ++ xs)) c.page_limit ≡ b
      → xs ++ ys ≡ all
      → (length (rows ++ xs) < c.page_limit → Shows r ((rows ++ xs) ++ ys))
      → Shows (elim b [ true ↦ r | false ↦ ok (false, page_of (rows ++ xs)) ]) (rows ++ all)
  Shows-next rows xs ys all r true l q k =
      subst (λ zs. Shows r (rows ++ zs)) q
        (rw (append_assoc rows xs ys) at (k (ltb→lt (length (rows ++ xs)) c.page_limit l)))
  Shows-next rows xs ys all r false l q k =
      let full : c.page_limit ≤ length (rows ++ xs) = ground arith in
      subst (λ zs. Shows (ok (false, page_of (rows ++ xs))) (rows ++ zs)) q
        (rw (← append_assoc rows xs ys) (
          rw (page_of_full (rows ++ xs) ys full) (
            ap (λ b. ok (b, page_of (rows ++ xs)))
              (sym (
                ltb-eq-false (length ((rows ++ xs) ++ ys)) c.page_limit
                  (omega (arith, length-append (rows ++ xs) ys)))))))

  pub stream-rows_of :
      (prefix : Bytes) (es : List (Bytes × Bytes)) (rows all : List (List Value))
      → length rows < c.page_limit
      → rows_of (with_prefix prefix es) ≡ ok all
      → Shows (stream (visit c) prefix es (page_of rows)) (rows ++ all)
  unfolding stream
  stream-rows_of prefix [] rows all h e = Shows-same rows all h (cc)
  stream-rows_of prefix ((k, v) ∷ es) rows all h e = elim (Bool-cases (starts_with k prefix)) [
    | inl y ↦ elim (Bool-cases (is_behind c.paging_bytes k)) [
      | inl b ↦
          let (o, p, f) = bind_ok (project c k v) _ (rw (y, b) at e) in
          let (ys, g, q) = bind_ok (rows_of (with_prefix prefix es)) _ f in
          rw (y, visit-page_of k v o rows h b p)
            (Shows-next rows (one_row o) ys all
              (stream (visit c) prefix es (page_of (rows ++ one_row o)))
              (ltb (length (rows ++ one_row o)) c.page_limit) refl (cc)
              λ l. stream-rows_of prefix es (rows ++ one_row o) ys l g)
      | inr m ↦
          rw
            (
              y,
              visit-step_of c k v (page_of rows) (rw (take_all c.page_limit rows (omega arith)) h),
              m,
            )
            (stream-rows_of prefix es rows all h (rw (y, m) at e))
    ]
    | inr n ↦ rw n (let e' = rw n at e in Shows-same rows all h (cc))
  ]
