-- ===== src/Connection/Writer.antt =====
-- src/server.rs: the writer task of `handle_connection`, which gathers answers and writes them to the
-- socket. The socket is a parameter: what a vectored write of some buffers answers, which is the number
-- of bytes that it took or none for an error, and the socket after it.
use rhyda.Prelude.{
  ℕ, zero, suc, ◌+◌, ◌*◌, ◌≤◌, ◌≡◌, refl, sym, ap, ◌∙◌, Bool-cases, ltb, inl, inr, if◌then◌else◌,
  ◌-◌, List, [], ◌∷◌, ◌++◌, append_assoc, length, length-append, length-zero, take, Option, none,
  some, arith,
}
use rhyda.Prelude.Bytes.{Bytes}

abbrev pub write_flush_threshold : ℕ
write_flush_threshold = 256 * 1024

abbrev pub joined : List Bytes → Bytes
joined [] = []
joined (r ∷ rs) = r ++ joined rs

-- The answers that are taken off the queue while the bytes are below the threshold and an answer is
-- ready, of which there are so many, and the queue that is left.
unfoldable pub coalesce : ℕ → ℕ → List Bytes → List Bytes × List Bytes
coalesce queued zero rs = ([], rs)
coalesce queued (suc ready) [] = ([], [])
coalesce queued (suc ready) (r ∷ rs) =
    let (pending, left) = coalesce (queued + length r) ready rs in
    if ltb queued write_flush_threshold then (r ∷ pending, left) else ([], r ∷ rs)

module _ {Socket : Type 0} (write_vectored : Socket → List Bytes → Option ℕ × Socket) where
  -- After a write: the task ends at an error; else the bytes that were taken are on the wire, and what
  -- was gathered is cleared.
  abbrev on_written : List Bytes → Option ℕ × Socket → (Socket → Bytes) → Bytes
  on_written pending (none, s) rest = []
  on_written pending (some n, s) rest = take n (joined pending) ++ rest s

  -- The bytes that the client receives of the answers in the queue, by the rounds of the task, which
  -- differ in how many answers are ready.
  unfoldable pub written : List ℕ → List Bytes → Socket → Bytes
  unfolding coalesce
  written [] rs s = []
  written (ready ∷ rounds) [] s = []
  written (ready ∷ rounds) (r ∷ rs) s =
      let (pending, left) = coalesce (length r) ready rs in
      on_written (r ∷ pending) (write_vectored s (r ∷ pending)) (written rounds left)

module _ {Socket : Type 0} (write_vectored : Socket → List Bytes → Option ℕ × Socket) where
  -- The bytes of a round that are missing on the wire, and all that follow an error.
  abbrev on_missed : List Bytes → List Bytes → Option ℕ × Socket → (Socket → ℕ) → ℕ
  on_missed pending left (none, s) rest = length (joined pending) + length (joined left)
  on_missed pending left (some n, s) rest = (length (joined pending) - n) + rest s

  -- The bytes of the queue that no round puts on the wire.
  unfoldable pub missed : List ℕ → List Bytes → Socket → ℕ
  unfolding coalesce
  missed [] rs s = length (joined rs)
  missed (ready ∷ rounds) [] s = 0
  missed (ready ∷ rounds) (r ∷ rs) s =
      let (pending, left) = coalesce (length r) ready rs in
      on_missed (r ∷ pending) left (write_vectored s (r ∷ pending)) (missed rounds left)

take-length : (xs : Bytes) → take (length xs) xs ≡ xs
take-length [] = refl
take-length (x ∷ xs) = ap (λ t. x ∷ t) (take-length xs)

-- Nothing is lost and nothing changes places.
joined-coalesce :
    (queued ready : ℕ) (rs : List Bytes)
    → joined (coalesce queued ready rs).0 ++ joined (coalesce queued ready rs).1 ≡ joined rs
unfolding coalesce
joined-coalesce queued zero rs = refl
joined-coalesce queued (suc ready) [] = refl
joined-coalesce queued (suc ready) (r ∷ rs) = elim (Bool-cases (ltb queued write_flush_threshold)) [
  | inl y ↦
      rw y (append_assoc r _ _ ∙ ap (λ t. r ++ t) (joined-coalesce (queued + length r) ready rs))
  | inr n ↦ rw n refl
]

length-coalesce :
    (queued ready : ℕ) (rs : List Bytes) → length (coalesce queued ready rs).1 ≤ length rs
unfolding coalesce
length-coalesce queued zero rs = omega arith
length-coalesce queued (suc ready) [] = omega arith
length-coalesce queued (suc ready) (r ∷ rs) =
    let h = length-coalesce (queued + length r) ready rs in
    elim (Bool-cases (ltb queued write_flush_threshold)) [
      | inl y ↦ rw y (omega arith)
      | inr n ↦ rw n (omega arith)
    ]

module _ {Socket : Type 0} (write_vectored : Socket → List Bytes → Option ℕ × Socket) where
  -- A socket that takes every write whole.
  abbrev pub IsWhole : Type 0
  IsWhole =
      (s : Socket) (pending : List Bytes)
      → (write_vectored s pending).0 ≡ some (length (joined pending))

  on_written-some :
      (n : ℕ) (pending : List Bytes) (x : Option ℕ × Socket) (rest : Socket → Bytes)
      → x.0 ≡ some n
      → on_written write_vectored pending x rest ≡ take n (joined pending) ++ rest x.1
  on_written-some n pending (none, s) rest e = cc
  on_written-some n pending (some m, s) rest e = cc

  -- If every vectored write takes all the bytes of its buffers, then the client receives the answers
  -- of the queue whole and in the order in which they were queued, however many of them are ready
  -- at each round of the writer task, once there were as many rounds as answers.
  pub written-joined :
      IsWhole
      → (rounds : List ℕ) (rs : List Bytes) (s : Socket) → length rs ≤ length rounds
      → written write_vectored rounds rs s ≡ joined rs
  unfolding written
  written-joined whole [] [] s h = refl
  written-joined whole [] (r ∷ rs) s h = absurd (omega arith)
  written-joined whole (ready ∷ rounds) [] s h = refl
  written-joined whole (ready ∷ rounds) (r ∷ rs) s h =
      let c = coalesce (length r) ready rs in
      let x = write_vectored s (r ∷ c.0) in
      let fits = length-coalesce (length r) ready rs in
      on_written-some _ (r ∷ c.0) x (written write_vectored rounds c.1) (whole s (r ∷ c.0))
      ∙ ap (λ t. t ++ written write_vectored rounds c.1 x.1) (take-length (joined (r ∷ c.0)))
      ∙ ap (λ t. joined (r ∷ c.0) ++ t) (written-joined whole rounds c.1 x.1 (omega arith))
      ∙ append_assoc r (joined c.0) (joined c.1)
      ∙ ap (λ t. r ++ t) (joined-coalesce (length r) ready rs)

  length-take_add : (n : ℕ) (xs : Bytes) → length (take n xs) + (length xs - n) ≡ length xs
  length-take_add zero xs = omega arith
  length-take_add (suc n) [] = omega arith
  length-take_add (suc n) (x ∷ xs) = omega (arith, length-take_add n xs)

  joined-round :
      (ready : ℕ) (r : Bytes) (rs : List Bytes)
      → joined (r ∷ (coalesce (length r) ready rs).0) ++ joined (coalesce (length r) ready rs).1
        ≡ joined (r ∷ rs)
  joined-round ready r rs =
      append_assoc r _ _ ∙ ap (λ t. r ++ t) (joined-coalesce (length r) ready rs)

  -- What a round puts on the wire and what it misses are all of its bytes.
  length-on_written :
      (pending left : List Bytes) (x : Option ℕ × Socket) (rest : Socket → Bytes)
      (lost : Socket → ℕ)
      → ((s : Socket) → length (rest s) + lost s ≡ length (joined left))
      → length (on_written write_vectored pending x rest)
          + on_missed write_vectored pending left x lost
        ≡ length (joined pending) + length (joined left)
  length-on_written pending left (none, s) rest lost h = omega arith
  length-on_written pending left (some n, s) rest lost h = omega (
    arith,
    length-append (take n (joined pending)) (rest s),
    length-take_add n (joined pending),
    h s,
  )

  length-written :
      (rounds : List ℕ) (rs : List Bytes) (s : Socket)
      → length (written write_vectored rounds rs s) + missed write_vectored rounds rs s
        ≡ length (joined rs)
  unfolding written missed
  length-written [] rs s = omega arith
  length-written (ready ∷ rounds) [] s = refl
  length-written (ready ∷ rounds) (r ∷ rs) s =
      let c = coalesce (length r) ready rs in
      length-on_written (r ∷ c.0) c.1 (write_vectored s (r ∷ c.0)) _ _
        (λ u. length-written rounds c.1 u)
      ∙ sym (length-append (joined (r ∷ c.0)) (joined c.1))
      ∙ ap length (joined-round ready r rs)

  take-all : (n : ℕ) (xs : Bytes) → length xs - n ≡ 0 → take n xs ≡ xs
  take-all zero xs h = sym (length-zero xs (omega arith))
  take-all (suc n) [] h = refl
  take-all (suc n) (x ∷ xs) h = ap (λ t. x ∷ t) (take-all n xs (omega arith))

  on_written-all :
      (pending left : List Bytes) (x : Option ℕ × Socket) (rest : Socket → Bytes)
      (lost : Socket → ℕ)
      → ((s : Socket) → lost s ≡ 0 → rest s ≡ joined left)
      → on_missed write_vectored pending left x lost ≡ 0
      → on_written write_vectored pending x rest ≡ joined pending ++ joined left
  on_written-all pending left (none, s) rest lost h e =
      rw (length-zero (joined pending) (omega arith), length-zero (joined left) (omega arith)) refl
  on_written-all pending left (some n, s) rest lost h e =
      rw (take-all n (joined pending) (omega arith), h s (omega arith)) refl

  written-all :
      (rounds : List ℕ) (rs : List Bytes) (s : Socket)
      → missed write_vectored rounds rs s ≡ 0
      → written write_vectored rounds rs s ≡ joined rs
  unfolding written missed
  written-all [] rs s e = sym (length-zero (joined rs) e)
  written-all (ready ∷ rounds) [] s e = refl
  written-all (ready ∷ rounds) (r ∷ rs) s e =
      let c = coalesce (length r) ready rs in
      on_written-all (r ∷ c.0) c.1 (write_vectored s (r ∷ c.0)) _ _ (λ u. written-all rounds c.1 u)
        e
      ∙ joined-round ready r rs

  -- For any socket, and any readiness of the answers at each round: the client receives the answers of
  -- the queue whole and in order exactly if no byte is missed, where a byte is missed that is gathered
  -- into a vectored write which takes fewer bytes than it is given, or that follows an error of a
  -- write, or that is still queued after the rounds. So a write that is cut short loses the bytes
  -- that it did not take for good.
  pub written-eq-joined_iff :
      (rounds : List ℕ) (rs : List Bytes) (s : Socket)
      → (written write_vectored rounds rs s ≡ joined rs → missed write_vectored rounds rs s ≡ 0)
        × (missed write_vectored rounds rs s ≡ 0 → written write_vectored rounds rs s ≡ joined rs)
  written-eq-joined_iff rounds rs s =
      (λ e. omega (arith, length-written rounds rs s, ap length e), written-all rounds rs s)
