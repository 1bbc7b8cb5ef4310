-- ===== src/Storage/Flat.antt =====
-- Files of pages of one size are an array of pages, which `page_idx` addresses by its quotient and
-- its remainder.
use native.Mathlib.Nat.{mod-eq_of_lt, div-eq_of_lt, add-div_left, add-mod_left}
use native.Mathlib.Decide.{dec_lt}
use spheres_benchmark.Prelude.{
  ℕ, zero, suc, ◌+◌, ◌-◌, ◌*◌, ◌/◌, ◌%◌, ◌<◌, ◌≡◌, refl, ap, sym, ◌∙◌, List, [], ◌∷◌, ◌++◌, some,
  arith, length, get_elem?, set, concat, All, ◌>>=◌, get_elem?-append, get_elem?-append_right,
  set-append, set-append_right, length-append,
}

module _ (p : ℕ) (positive : 0 < p) where
  -- A claim on an index holds if it holds in the first file and passes on to the next.
  by_file {κ} :
      (P : ℕ → ℕ → ℕ → Type κ)
      → ((i : ℕ) → i < p → P i 0 i)
      → ((i : ℕ) → P (p + i) (suc (i / p)) (i % p))
      → (i : ℕ) → P i (i / p) (i % p)
  by_file P first next i = elim (dec_lt i p) [
    | yes h ↦ rw (div-eq_of_lt h, mod-eq_of_lt h) (first i h)
    | no h ↦
        let k = i - p in
        let e : i ≡ p + k = omega arith in
        let q : suc (k / p) ≡ (p + k) / p = omega (arith, add-div_left k positive) in
        let r : k % p ≡ (p + k) % p = sym (add-mod_left p k) in rw (e, ← q, ← r) (next k)
  ]

module _ {ℓ} {A : Type ℓ} (p : ℕ) where
  abbrev pub FilesFull : List (List A) → Type 0
  FilesFull files = All (λ f. length f ≡ p) files

  pub FilesFull-set :
      (files : List (List A)) (i : ℕ) (f : List A)
      → FilesFull files
      → length f ≡ p
      → FilesFull (set files i f)
  FilesFull-set [] i f h e = tt
  FilesFull-set (g ∷ files) zero f h e = (e, h.1)
  FilesFull-set (g ∷ files) (suc i) f h e = (h.0, FilesFull-set files i f h.1 e)

  pub FilesFull-get :
      (files : List (List A)) (i : ℕ) {f : List A}
      → FilesFull files
      → get_elem? files i ≡ some f
      → length f ≡ p
  FilesFull-get [] i h e = cc
  FilesFull-get (g ∷ files) zero h e = ground (arith)
  FilesFull-get (g ∷ files) (suc i) h e = FilesFull-get files i h.1 e

  pub length-concat :
      (files : List (List A)) → FilesFull files → length (concat files) ≡ length files * p
  length-concat [] h = omega arith
  length-concat (f ∷ files) h =
      omega (arith, length-append f (concat files), length-concat files h.1, h.0)

module _ {ℓ} {A : Type ℓ} (p : ℕ) (positive : 0 < p) where
  pub get_elem?-concat :
      (files : List (List A)) (i : ℕ)
      → FilesFull p files
      → (get_elem? files (i / p) >>= λ f. get_elem? f (i % p)) ≡ get_elem? (concat files) i
  get_elem?-concat [] i h = refl
  get_elem?-concat (f ∷ files) i h =
      by_file p positive
        (λ j q r.
          (get_elem? (f ∷ files) q >>= λ g. get_elem? g r) ≡ get_elem? (f ++ concat files) j)
        (λ j hj. sym (get_elem?-append f (concat files) j (omega (arith, h.0))))
        (λ j.
          get_elem?-concat files j h.1
          ∙ sym (rw h.0 at (get_elem?-append_right f (concat files) j)))
        i

  pub set-concat :
      (files : List (List A)) (i : ℕ) (f : List A) (v : A)
      → FilesFull p files
      → get_elem? files (i / p) ≡ some f
      → concat (set files (i / p) (set f (i % p) v)) ≡ set (concat files) i v
  set-concat [] i f v h = λ e. refl
  set-concat (g ∷ files) i f v h =
      by_file p positive
        (λ j q r.
          get_elem? (g ∷ files) q ≡ some f
          → concat (set (g ∷ files) q (set f r v)) ≡ set (g ++ concat files) j v)
        (λ j hj e. same j hj (ground (arith)))
        (λ j e.
          ap (λ t. g ++ t) (set-concat files j f v h.1 e)
          ∙ sym (rw h.0 at (set-append_right g (concat files) j v)))
        i
    where
      same : (j : ℕ) → j < p → f ≡ g → set f j v ++ concat files ≡ set (g ++ concat files) j v
      same j hj e = rw e (sym (set-append g (concat files) j v (omega (arith, h.0))))
