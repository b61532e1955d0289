-- ===== src/Tests/Reports.antt =====
-- A machine of which only `free -m` answers.
use m_cloud.Base.{
  ◌≡◌, refl, true, false, arith, [], ◌∷◌, ◌++◌, Text, codes, ◌==◌, if◌then◌else◌, joined, is_space,
  ◌≢◌, ℕ,
}
use m_cloud.Base.Words.{columns, IsWord}
use m_cloud.Base.Numbers.{decimal}
use m_cloud.Agent.System.{Exec, Floats}
use m_cloud.Agent.System.Info.{get_memory_mb}
use m_cloud.Agent.System.Metrics.{get_mem_percent}
use m_cloud.Agent.System.Read.{memory_lem}

-- What `free -m` prints on a machine of eight gigabytes; the other commands fail.
abbrev free_text : Text
free_text =
    codes "total"
    ++ b'\n'
      ∷ (columns (codes "Mem:") ((3, decimal 8000) ∷ (2, decimal 500) ∷ (0, codes "7") ∷ [])
          ++ b'\n' ∷ [])

abbrev machine : Exec
machine cmd =
    if joined 32 cmd == codes "free -m"
    then record { ok = true; out = free_text }
    else record { ok = false; out = [] }

abbrev floats : Floats
floats = record {
  parse = λ t. (0, false);
  of_uint = λ n. n;
  divided = λ a b. a;
  times = λ a b. a;
  to_uint = λ f. f;
}

small_cell : IsWord (codes "7")
unfolding is_space
small_cell = ((λ e. cc), (refl, tt))

named_cell : IsWord (codes "Mem:")
unfolding is_space
named_cell = ((λ e. cc), (refl, (refl, (refl, (refl, tt)))))

memory_lem_example :
    (get_memory_mb machine ≡ 8000)
    × (◌≢◌ {A = ℕ} 8000 0
        → get_mem_percent machine floats ≡ (
          floats.times
              (floats.divided (floats.of_uint 500) (floats.of_uint 8000))
              (floats.of_uint 100),
          500,
        ))
    × (◌≡◌ {A = ℕ} 8000 0 → get_mem_percent machine floats ≡ (0, 0))
unfolding ◌==◌ joined
memory_lem_example =
    memory_lem machine floats (codes "total") (codes "Mem:") [] 3 2 8000 500 ((0, codes "7") ∷ [])
      (
        λ e. omega arith,
        (λ e. omega arith, (λ e. omega arith, (λ e. omega arith, (λ e. omega arith, tt)))),
      )
      named_cell (small_cell, tt) (omega arith) (omega arith) refl
