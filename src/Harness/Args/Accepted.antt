-- ===== src/Harness/Args/Accepted.antt =====
-- Which command lines are accepted.
use mathlib.Core.Path.{subst}
use mathlib.Core.Bool.{not}
use spheres_benchmark.Prelude.{
  ℕ, ◌+◌, ◌-◌, ◌*◌, ◌≤◌, ◌<◌, ◌≡◌, ◌⊎◌, ◌↔◌, refl, ap, inl, inr, Bool, true, false, ◌&&◌, List, [],
  ◌∷◌, ◌++◌, map, arith, length, ltb, leb, ◌==◌, if◌then◌else◌, All, size_mod,
}
use spheres_benchmark.Harness.Bytes.{Bytes, text, same_text}
use spheres_benchmark.Harness.Args.{
  Result, ok, failed, ArgError, missing_option, invalid_integer, duplicate_option, invalid_counts,
  wrong_distance, no_index, bad_counts, check_distance, check_counts, check_index, check_metrics,
  check_path, DistanceType, squared_l2, is_squared_l2, normalized_l2, squared_normalized_l2,
  BenchmarkConfig, ◌>>=◌, check_config, parse_argv, digits_value, parse_size, checked_size, collect,
  has_key, find, apply_options, parse_dataset_type, with_paths, with_dataset, configure, finish,
  start_config,
}

-- A configuration that the engines can be run with.
pub record IsUsable (c : BenchmarkConfig) : Type 0 where
  pub engine : 0 < length c.engine_name
  pub path : 0 < length c.dataset_path
  pub metrics : 0 < length c.metrics_path
  pub index :
      (same_text c.engine_name (text "baseline") ≡ true)
      ⊎ ((same_text c.engine_name (text "pgvector") ≡ true) ⊎ (0 < length c.index_path))
  pub threads : 0 < c.n_threads
  pub dim : 0 < c.vector_dim
  pub base : 0 < c.n_base_vectors
  pub queries : 0 < c.n_query_vectors
  pub some_k : 0 < c.k
  pub k_in_gt : c.k ≤ c.k_in_gt
  pub k_in_base : c.k ≤ c.n_base_vectors
  pub distance : c.distance_type ≡ squared_l2

is_squared_l2_lem : (d : DistanceType) → is_squared_l2 d ≡ true → d ≡ squared_l2
is_squared_l2_lem squared_l2 h = refl
is_squared_l2_lem normalized_l2 h = cc
is_squared_l2_lem squared_normalized_l2 h = cc

guard :
    {c : BenchmarkConfig} (e : ArgError) (r : Result BenchmarkConfig) (b : Bool)
    → (if b then failed e else r) ≡ ok c
    → (b ≡ false) × (r ≡ ok c)
guard e r true h = cc
guard e r false h = (refl, h)

pass :
    {c : BenchmarkConfig} (e : ArgError) (r : Result BenchmarkConfig) (b : Bool)
    → b ≡ false
    → r ≡ ok c
    → (if b then failed e else r) ≡ ok c
pass e r b h g = rw h g

not-false : (b : Bool) → not b ≡ false → b ≡ true
not-false true h = refl
not-false false h = cc

index_needed :
    (baseline pgvector none : Bool)
    → not baseline && (not pgvector && none) ≡ false
    → (baseline ≡ true) ⊎ ((pgvector ≡ true) ⊎ (none ≡ false))
index_needed true pgvector none h = inl refl
index_needed false true none h = inr (inl refl)
index_needed false false none h = inr (inr h)

index_given :
    (baseline pgvector none : Bool)
    → (baseline ≡ true) ⊎ ((pgvector ≡ true) ⊎ (none ≡ false))
    → not baseline && (not pgvector && none) ≡ false
index_given true pgvector none h = refl
index_given false true none h = refl
index_given false false none (inl h) = cc
index_given false false none (inr (inl h)) = cc
index_given false false none (inr (inr h)) = h

positive_iff : (n : ℕ) → (n == 0 ≡ false) ↔ (0 < n)
positive_iff n = ground arith

bad_counts_iff :
    (c : BenchmarkConfig)
    → (bad_counts c ≡ false)
      ↔ (0 < c.n_threads)
        × (0 < c.vector_dim)
        × (0 < c.n_base_vectors)
        × (0 < c.n_query_vectors)
        × (0 < c.k)
        × (c.k ≤ c.k_in_gt)
        × (c.k ≤ c.n_base_vectors)
bad_counts_iff c = (λ h. ground arith, λ h. ground arith)

check_config-IsUsable : (c d : BenchmarkConfig) → check_config c ≡ ok d → IsUsable c × (c ≡ d)
unfolding check_config
check_config-IsUsable c d h =
    let (engine, h1) =
      guard (missing_option (text "engine")) (check_path c) (length c.engine_name == 0) h in
    let (path, h2) =
      guard (missing_option (text "path")) (check_metrics c) (length c.dataset_path == 0) h1 in
    let (metrics, h3) =
      guard (missing_option (text "metrics")) (check_index c) (length c.metrics_path == 0) h2 in
    let (index, h4) = guard (missing_option (text "index")) (check_counts c) (no_index c) h3 in
    let (counts, h5) = guard invalid_counts (check_distance c) (bad_counts c) h4 in
    let (distance, same) = guard wrong_distance (ok c) (not (is_squared_l2 c.distance_type)) h5 in
    let n = (bad_counts_iff c).0 counts in
    (
      record {
        engine = (positive_iff (length c.engine_name)).0 engine;
        path = (positive_iff (length c.dataset_path)).0 path;
        metrics = (positive_iff (length c.metrics_path)).0 metrics;
        index = by_index (
            index_needed (same_text c.engine_name (text "baseline"))
              (same_text c.engine_name (text "pgvector")) (length c.index_path == 0) index);
        threads = n.0;
        dim = n.1;
        base = n.2;
        queries = n.3;
        some_k = n.4;
        k_in_gt = n.5;
        k_in_base = n.6;
        distance =
            is_squared_l2_lem c.distance_type (not-false (is_squared_l2 c.distance_type) distance);
      },
      cc,
    )
  where
    by_index :
        {A B : Type 0}
        → A ⊎ (B ⊎ (length c.index_path == 0 ≡ false))
        → A ⊎ (B ⊎ (0 < length c.index_path))
    by_index (inl a) = inl a
    by_index (inr (inl b)) = inr (inl b)
    by_index (inr (inr e)) = inr (inr ((positive_iff (length c.index_path)).0 e))

index_there :
    (c : BenchmarkConfig)
    → (same_text c.engine_name (text "baseline") ≡ true)
      ⊎ ((same_text c.engine_name (text "pgvector") ≡ true) ⊎ (0 < length c.index_path))
    → no_index c ≡ false
index_there c h =
    index_given (same_text c.engine_name (text "baseline"))
      (same_text c.engine_name (text "pgvector")) (length c.index_path == 0) (by_index h)
  where
    by_index :
        {A B : Type 0}
        → A ⊎ (B ⊎ (0 < length c.index_path))
        → A ⊎ (B ⊎ (length c.index_path == 0 ≡ false))
    by_index (inl a) = inl a
    by_index (inr (inl b)) = inr (inl b)
    by_index (inr (inr e)) = inr (inr ((positive_iff (length c.index_path)).1 e))

-- The tests at the end accept exactly the usable configurations, as they are.
pub check_config_iff : (c : BenchmarkConfig) → (check_config c ≡ ok c) ↔ IsUsable c
unfolding check_config
check_config_iff c = (
  λ h. (check_config-IsUsable c c h).0,
  λ u.
      pass (missing_option (text "engine")) (check_path c) (length c.engine_name == 0)
        ((positive_iff (length c.engine_name)).1 u.engine)
        (pass (missing_option (text "path")) (check_metrics c) (length c.dataset_path == 0)
          ((positive_iff (length c.dataset_path)).1 u.path)
          (pass (missing_option (text "metrics")) (check_index c) (length c.metrics_path == 0)
            ((positive_iff (length c.metrics_path)).1 u.metrics)
            (pass (missing_option (text "index")) (check_counts c) (no_index c)
              (index_there c u.index)
              (pass invalid_counts (check_distance c) (bad_counts c)
                ((bad_counts_iff c).1
                  (u.threads, u.dim, u.base, u.queries, u.some_k, u.k_in_gt, u.k_in_base))
                (pass wrong_distance (ok c) (not (is_squared_l2 c.distance_type))
                  (rw u.distance refl) refl))))),
)

ok_of {ℓ} :
    {A : Type ℓ} (m : Result A) (f : A → Result BenchmarkConfig) (c : BenchmarkConfig)
    → (m >>= f) ≡ ok c
    → (a : A) × (f a ≡ ok c)
ok_of (ok a) f c h = (a, h)
ok_of (failed e) f c h = cc

-- Every command line that is accepted gives a usable configuration.
pub parse_argv-IsUsable :
    (argv : List Bytes) (c : BenchmarkConfig) → parse_argv argv ≡ ok c → IsUsable c
unfolding parse_argv
parse_argv-IsUsable argv c h =
    let (arguments, h1) = ok_of (collect argv []) with_dataset c h in
    let (dataset, h2) = ok_of (find (text "dataset") arguments) (configure arguments) c h1 in
    let type = parse_dataset_type dataset in
    let (config, h3) = ok_of (apply_options (start_config type) arguments) (finish type) c h2 in
    let (usable, same) = check_config-IsUsable (with_paths type config) c h3 in
    subst IsUsable same usable

-- The value of decimal digits behind `acc`.
abbrev pub decimal : ℕ → List ℕ → ℕ
decimal acc [] = acc
decimal acc (d ∷ ds) = decimal (acc * 10 + d) ds

digits_value_lem :
    (acc : ℕ) (ds : List ℕ)
    → All (λ (d : ℕ). d < 10) ds
    → digits_value acc (map (λ d. b'0' + d) ds) ≡ ok (decimal acc ds)
unfolding digits_value
digits_value_lem acc [] small = refl
digits_value_lem acc (d ∷ ds) small =
    let digit : leb b'0' (b'0' + d) && leb (b'0' + d) b'9' ≡ true = ground (arith, small.0) in
    let value : b'0' + d - b'0' ≡ d = omega arith in
    rw (digit, value) (digits_value_lem (acc * 10 + d) ds small.1)

-- Decimal digits whose value fits 64 bits are parsed as that value, and refused if it does not.
pub parse_size_lem :
    (option : Bytes) (d : ℕ) (ds : List ℕ)
    → All (λ (e : ℕ). e < 10) (d ∷ ds)
    → parse_size (map (λ e. b'0' + e) (d ∷ ds)) option ≡ (
        if ltb (decimal 0 (d ∷ ds)) size_mod
        then ok (decimal 0 (d ∷ ds))
        else failed (invalid_integer option))
unfolding parse_size
parse_size_lem option d ds small = ap (checked_size option) (digits_value_lem 0 (d ∷ ds) small)

-- A command line, written from its options and their values.
abbrev pub command_line : List (Bytes × Bytes) → List Bytes
command_line [] = []
command_line (o ∷ options) = (text "--" ++ o.0) ∷ o.1 ∷ command_line options

-- No key stands twice, nor among those of `old`.
abbrev pub AreNew : List (Bytes × Bytes) → List (Bytes × Bytes) → Type 0
AreNew old [] = Unit
AreNew old (o ∷ options) = (has_key o.0 old ≡ false) × AreNew (o ∷ old) options

abbrev pub onto : List (Bytes × Bytes) → List (Bytes × Bytes) → List (Bytes × Bytes)
onto old [] = old
onto old (o ∷ options) = onto (o ∷ old) options

-- Options with different keys are all collected, each with its value.
pub collect-command_line :
    (old options : List (Bytes × Bytes))
    → AreNew old options
    → collect (command_line options) old ≡ ok (onto old options)
unfolding collect
collect-command_line old [] fresh = refl
collect-command_line old (o ∷ options) fresh =
    rw (fresh.0) (collect-command_line (o ∷ old) options fresh.1)

-- An option whose key has been given before is refused.
pub collect-duplicate :
    (old options : List (Bytes × Bytes)) (o : Bytes × Bytes) (argv : List Bytes)
    → AreNew old options
    → has_key o.0 (onto old options) ≡ true
    → collect (command_line options ++ (text "--" ++ o.0) ∷ o.1 ∷ argv) old
      ≡ failed (duplicate_option o.0)
unfolding collect
collect-duplicate old [] o argv fresh twice = rw twice refl
collect-duplicate old (p ∷ options) o argv fresh twice =
    rw (fresh.0) (collect-duplicate (p ∷ old) options o argv fresh.1 twice)
