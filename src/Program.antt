-- ===== src/Program.antt =====
-- The program as a whole: main.cpp with the engines of faiss/ and spheres/ in their places.
use spheres_benchmark.Prelude.{
  ℕ, ◌≡◌, refl, ap, Bool, true, false, Option, none, some, List, Returns,
}
use spheres_benchmark.Prelude.Int.{ℤ}
use spheres_benchmark.Harness.Bytes.{Bytes, text, same_text}
use spheres_benchmark.Harness.Args.{BenchmarkConfig, ok, parse_argv}
use spheres_benchmark.Harness.Args.Accepted.{parse_argv-IsUsable}
use spheres_benchmark.Harness.Machine.{Machine}
use spheres_benchmark.Harness.Main as Main
use spheres_benchmark.Faiss.{Library}
use spheres_benchmark.Faiss.Run as FaissRun
use spheres_benchmark.Faiss.Run.Served.{
  IsServed, HoldsFiles, IsFlatBuild, IsReported, run-flat-IsReported,
}
use spheres_benchmark.Spheres.{Setting}
use spheres_benchmark.Spheres.Run as SpheresRun

-- An engine that has written its metrics has returned; one that has not has thrown.
abbrev pub has_returned : Option Bytes → Bool
has_returned none = false
has_returned (some out) = true

has_returned-Returns {ℓ} :
    {P : Bytes → Type ℓ} {r : Option Bytes} → Returns P r → has_returned r ≡ true
has_returned-Returns (out, e, p) = ap has_returned e

module _ (faiss : Library) (env : Setting) (m : Machine) where
  unfoldable pub program : List Bytes → ℕ
  unfolding Main.main FaissRun.run SpheresRun.run
  program argv =
      Main.main (λ c. has_returned (FaissRun.run faiss m c))
        (λ c. has_returned (SpheresRun.run env m c)) argv

  -- A command line that is accepted and asks FAISS for a new flat index, on files that hold what it says, and with
  -- a library that keeps its promises: the program exits with 0, and has written the metrics with the share of the
  -- ids that the index names that are in the ground truth.
  pub program-IsReported :
      (argv : List Bytes) (c : BenchmarkConfig) (base queries : List ℕ) (gt : List (List ℤ))
      → parse_argv argv ≡ ok c
      → same_text c.engine_name (text "faiss") ≡ true
      → IsFlatBuild faiss m c
      → IsServed faiss m c base
      → HoldsFiles faiss m c base queries gt
      → (program argv ≡ 0) × Returns (IsReported faiss m c base queries gt) (FaissRun.run faiss m c)
  unfolding program Main.main Main.exit_status Main.run
  program-IsReported argv c base queries gt parsed named way serves d =
      let report =
        run-flat-IsReported faiss m c base queries gt (parse_argv-IsUsable argv c parsed) serves d
          way in
      let returned = has_returned-Returns report in (rw (parsed, named, returned) refl, report)
