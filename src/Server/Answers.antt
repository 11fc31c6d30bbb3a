-- ===== src/Server/Answers.antt =====
-- What handleEvents answers from a log.
use datafog.Prelude.{ℕ, suc, ◌≤◌, String, ◌≡◌}
use datafog.Prelude.Int.{ℤ, pos}

HasLimit : ℤ → Type 0
HasLimit limit = (n : ℕ) × (limit ≡ pos (suc n)) × (suc n ≤ 1000)
