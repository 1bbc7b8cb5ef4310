-- ===== src/Harness/Main.antt =====
-- `main` of main.cpp. The `run` of an engine, of faiss/ and spheres/, is a parameter that tells whether
-- it returns without an exception.
use spheres_benchmark.Prelude.{
  ℕ, ◌≡◌, ◌⊎◌, refl, inl, inr, Bool, true, false, List, arith, if◌then◌else◌,
}
use spheres_benchmark.Harness.Bytes.{Bytes, text, same_text}
use spheres_benchmark.Harness.Args.{Result, ok, failed, BenchmarkConfig, parse_argv}
use spheres_benchmark.Harness.Args.Accepted.{IsUsable, parse_argv-IsUsable}

module _ (faiss_run spheres_run : BenchmarkConfig → Bool) where
  -- The choice of the engine; an unknown one is an exception.
  unfoldable pub run : BenchmarkConfig → Bool
  run config =
      if same_text config.engine_name (text "faiss")
      then faiss_run config
      else if same_text config.engine_name (text "spheres")
      then spheres_run config
      else false

  -- The status that the program exits with.
  unfoldable pub exit_status : Result BenchmarkConfig → ℕ
  unfolding run
  exit_status (ok config) = if run config then 0 else 1
  exit_status (failed e) = 1

  unfoldable pub main : List Bytes → ℕ
  unfolding exit_status
  main argv = exit_status (parse_argv argv)

  -- That one of the two engines is named and has run.
  abbrev pub HasRun : BenchmarkConfig → Type 0
  HasRun c =
      ((same_text c.engine_name (text "faiss") ≡ true) × (faiss_run c ≡ true))
      ⊎ ((same_text c.engine_name (text "spheres") ≡ true) × (spheres_run c ≡ true))

  run-HasRun : (c : BenchmarkConfig) → run c ≡ true → HasRun c
  unfolding run
  run-HasRun c h =
      by_name (same_text c.engine_name (text "faiss")) (same_text c.engine_name (text "spheres"))
        (faiss_run c) (spheres_run c) h
    where
      by_name :
          (f s a b : Bool)
          → (if f then a else if s then b else false) ≡ true
          → ((f ≡ true) × (a ≡ true)) ⊎ ((s ≡ true) × (b ≡ true))
      by_name true s a b h = inl (refl, h)
      by_name false true a b h = inr (refl, h)
      by_name false false a b h = cc

  -- The program exits with 0 only if the command line is accepted, with a usable configuration, and
  -- the engine that it names has run without an exception.
  pub main-IsUsable :
      (argv : List Bytes)
      → main argv ≡ 0
      → (c : BenchmarkConfig) × (parse_argv argv ≡ ok c) × IsUsable c × HasRun c
  unfolding main exit_status
  main-IsUsable argv h = by_result (parse_argv argv) refl h
    where
      by_status : (b : Bool) → ◌≡◌ {A = ℕ} (if b then 0 else 1) 0 → b ≡ true
      by_status true h = refl
      by_status false h = ground arith

      by_result :
          (r : Result BenchmarkConfig)
          → parse_argv argv ≡ r
          → exit_status r ≡ 0
          → (c : BenchmarkConfig) × (parse_argv argv ≡ ok c) × IsUsable c × HasRun c
      by_result (ok c) parsed h =
          (c, parsed, parse_argv-IsUsable argv c parsed, run-HasRun c (by_status (run c) h))
      by_result (failed e) parsed h = cc
