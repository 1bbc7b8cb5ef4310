-- ===== src/Harness/Batches.antt =====
-- The loop by which the engines take in the base vectors: `while (added < n_base_vectors)`, with a batch
-- of the reader of include/fvecs_stream.h in each round.
use spheres_benchmark.Prelude.{
  ℕ, zero, suc, ◌+◌, ◌-◌, ◌*◌, ◌≤◌, ◌<◌, ◌≡◌, refl, sym, ap, ◌∙◌, inl, inr, true, Option, none,
  some, List, [], ◌++◌, arith, length, min, ltb, if◌then◌else◌, Bool-cases, Option-cases, ◌>>=◌,
  >>=-eq-some, some_injective, bind_none,
}
use mathlib.Core.Path.{subst, fun_ext}
use native.Mathlib.Nat.{add-zero}
use spheres_benchmark.Harness.Bytes.{Bytes}
use spheres_benchmark.Harness.Vectors.{
  FvecsBatchReader, read, read_flat, read_flat-add, read_file_as_flat_array,
}
use spheres_benchmark.Harness.Vectors.Sizes.{length-read_flat}

module _ {ℓ} {S : Type ℓ} (body : S → ℕ → ℕ → List ℕ → Option S) (batch_size n : ℕ) where
  -- `body` is what a round does with `rows` vectors, the first of which has the index `added`. The loop
  -- runs on fuel.
  unfoldable pub each_batch : ℕ → FvecsBatchReader → ℕ → S → Option S
  each_batch zero reader added s = none
  each_batch (suc fuel) reader added s =
      let rows = min batch_size (n - added) in
      let round = (do
        r ← read reader rows
        s' ← body s added rows r.buffer_
        each_batch fuel r (added + rows) s') in
      if ltb added n then round else some s

-- A new reader of a file, at its beginning.
unfoldable pub open_reader : Option Bytes → ℕ → Option FvecsBatchReader
open_reader file dim = do ins ← file; some (record { dim_ = dim; input_ = ins; buffer_ = [] })

-- What a round must do for the size of the batches not to matter: nothing with no vectors, and with some
-- vectors and then others what it does with all of them.
pub record IsBatched {ℓ} {S : Type ℓ} (dim : ℕ) (body : S → ℕ → ℕ → List ℕ → Option S)
    : Type ℓ where
  pub nothing : (s : S) (added : ℕ) → body s added 0 [] ≡ some s
  pub joined :
      (s : S) (added a b : ℕ) (xs ys : List ℕ)
      → length xs ≡ a * dim
      → length ys ≡ b * dim
      → body s added (a + b) (xs ++ ys) ≡ (body s added a xs >>= λ s'. body s' (added + a) b ys)

abbrev pub behind : FvecsBatchReader → FvecsBatchReader → FvecsBatchReader
behind r q = record q { buffer_ = r.buffer_ ++ q.buffer_ }

pub read_both :
    (reader : FvecsBatchReader) (a b : ℕ)
    → read reader (a + b) ≡ (read reader a >>= λ r. read r b >>= λ q. some (behind r q))
unfolding read
read_both reader a b =
    let dim = reader.dim_ in
    rw (read_flat-add a b dim reader.input_) (elim (Option-cases (read_flat a dim reader.input_)) [
      | inl e ↦ rw e refl
      | inr ((x, left), e) ↦ elim (Option-cases (read_flat b dim left)) [
        | inl e' ↦ rw (e, e') refl
        | inr (y, e') ↦ rw (e, e') refl
      ]
    ])

pub read-sizes :
    (reader : FvecsBatchReader) (rows : ℕ) {r : FvecsBatchReader}
    → read reader rows ≡ some r
    → (r.dim_ ≡ reader.dim_) × (length r.buffer_ ≡ rows * reader.dim_)
unfolding read
read-sizes reader rows h =
    let (v, e, h') = >>=-eq-some (read_flat rows reader.dim_ reader.input_) _ h in
    subst
      (λ (r : FvecsBatchReader). (r.dim_ ≡ reader.dim_) × (length r.buffer_ ≡ rows * reader.dim_))
      (some_injective h') (refl, length-read_flat rows reader.dim_ reader.input_ e)

read-zero : (reader : FvecsBatchReader) → read reader 0 ≡ some (record reader { buffer_ = [] })
unfolding read read_flat
read-zero reader = refl

module _ {ℓ} {S : Type ℓ} (body : S → ℕ → ℕ → List ℕ → Option S) (batch_size n : ℕ) where
  -- The rest of the vectors in one round.
  abbrev at_once : FvecsBatchReader → ℕ → S → ℕ → Option S
  at_once reader added s rows = read reader rows >>= λ r. body s added rows r.buffer_

  at_once-split :
      (reader : FvecsBatchReader) (added a b : ℕ) (s : S)
      → IsBatched reader.dim_ body
      → at_once reader added s (a + b)
        ≡ (read reader a >>= λ r. body s added a r.buffer_ >>= λ s'. at_once r (added + a) s' b)
  at_once-split reader added a b s law =
      ap (λ m. m >>= λ r. body s added (a + b) r.buffer_) (read_both reader a b)
      ∙ elim (Option-cases (read reader a)) [
        | inl e ↦ rw e refl
        | inr (r, e) ↦
            let (dim, size) = read-sizes reader a e in
            rw e (elim (Option-cases (read r b)) [
              | inl e' ↦ rw e' (sym (bind_none (body s added a r.buffer_)))
              | inr (q, e') ↦
                  let (_, size') = read-sizes r b e' in
                  rw e'
                    (law.joined s added a b r.buffer_ q.buffer_ size (size' ∙ ap (λ d. b * d) dim))
            ])
      ]

  next_batch :
      (reader : FvecsBatchReader) (added rows rest : ℕ) (s : S)
      (later : FvecsBatchReader → S → Option S)
      → IsBatched reader.dim_ body
      → ((r : FvecsBatchReader) (s' : S)
          → IsBatched r.dim_ body
          → later r s' ≡ at_once r (added + rows) s' rest)
      → (read reader rows >>= λ r. body s added rows r.buffer_ >>= λ s'. later r s') ≡ (
          read reader rows >>= λ r.
          body s added rows r.buffer_ >>= λ s'. at_once r (added + rows) s' rest)
  next_batch reader added rows rest s later law ih = elim (Option-cases (read reader rows)) [
    | inl e ↦ rw e refl
    | inr (r, e) ↦
        let same = (read-sizes reader rows e).0 in
        rw e (
          ap (λ k. body s added rows r.buffer_ >>= k)
            (fun_ext (λ s'. ih r s' (subst (λ d. IsBatched d body) (sym same) law))))
  ]

  each_batch_at :
      (fuel : ℕ) (reader : FvecsBatchReader) (added : ℕ) (s : S)
      → IsBatched reader.dim_ body
      → 0 < batch_size
      → added ≤ n
      → n < added + fuel
      → each_batch body batch_size n fuel reader added s ≡ at_once reader added s (n - added)
  unfolding each_batch
  each_batch_at zero reader added s law positive inside enough = absurd (omega arith)
  each_batch_at (suc fuel) reader added s law positive inside enough =
      elim (Bool-cases (ltb added n)) [
        | inr done ↦
            let none_left : n - added ≡ 0 = ground arith in
            rw (done, none_left)
              (sym (
                ap (λ m. m >>= λ r. body s added 0 r.buffer_) (read-zero reader)
                ∙ law.nothing s added))
        | inl more ↦
            let rows = min batch_size (n - added) in
            let parts : n - added ≡ rows + (n - (added + rows)) = ground arith in
            rw more (
              next_batch reader added rows (n - (added + rows)) s
                (λ r s'. each_batch body batch_size n fuel r (added + rows) s') law
                (λ r s' law'.
                  each_batch_at fuel r (added + rows) s' law' positive (ground arith)
                    (ground arith))
              ∙ sym (
                  ap (at_once reader added s) parts
                  ∙ at_once-split reader added rows (n - (added + rows)) s law))
      ]

  -- With batches of one vector at least, and as much fuel as there are vectors and one more, the loop ends,
  -- and whatever the size of the batches it does what one round does with all vectors of the file.
  pub each_batch_lem :
      (file : Option Bytes) (dim : ℕ) (s : S)
      → IsBatched dim body
      → 0 < batch_size
      → (open_reader file dim >>= λ reader. each_batch body batch_size n (suc n) reader 0 s)
        ≡ (read_file_as_flat_array file n dim >>= λ vectors. body s 0 n vectors)
  unfolding open_reader read_file_as_flat_array read
  each_batch_lem none dim s law positive = refl
  each_batch_lem (some ins) dim s law positive =
      let reader : FvecsBatchReader = record { dim_ = dim; input_ = ins; buffer_ = [] } in
      let all : n - 0 ≡ n = omega arith in
      each_batch_at (suc n) reader 0 s law positive (omega arith) (omega arith)
      ∙ ap (at_once reader 0 s) all
      ∙ elim (Option-cases (read_flat n dim ins)) [ inl e ↦ rw e refl | inr (r, e) ↦ rw e refl ]

  stuck_round :
      (reader : FvecsBatchReader) (added rows : ℕ) (s : S)
      (later : FvecsBatchReader → ℕ → S → Option S)
      → IsBatched reader.dim_ body
      → rows ≡ 0
      → later (record reader { buffer_ = [] }) added s ≡ none
      → (read reader rows >>= λ r. body s added rows r.buffer_ >>= λ s'. later r (added + rows) s')
        ≡ none
  stuck_round reader added rows s later law no_rows ih =
      rw (no_rows, read-zero reader, law.nothing s added, add-zero added) ih

  -- With empty batches it never ends, if there are vectors left to add.
  pub each_batch-stuck :
      (fuel : ℕ) (reader : FvecsBatchReader) (added : ℕ) (s : S)
      → IsBatched reader.dim_ body
      → batch_size ≡ 0
      → added < n
      → each_batch body batch_size n fuel reader added s ≡ none
  unfolding each_batch
  each_batch-stuck zero reader added s law empty more = refl
  each_batch-stuck (suc fuel) reader added s law empty more =
      let left : ltb added n ≡ true = ground arith in
      rw left (
        stuck_round reader added (min batch_size (n - added)) s (each_batch body batch_size n fuel)
          law (ground arith)
          (each_batch-stuck fuel (record reader { buffer_ = [] }) added s law empty more))
