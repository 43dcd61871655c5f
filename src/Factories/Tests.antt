-- ===== src/Factories/Tests.antt =====
-- Witness of the registry's theorem, with numbers for the constructors.
use pipelinex.Prelude.{ℕ, ◌≡◌, refl, String, List, [], ◌∷◌, some}
use pipelinex.Factories.{register, default_parsers}

abbrev twice : List (String × ℕ)
twice = ("bgl", 1) ∷ ("hdfs", 2) ∷ ("bgl", 3) ∷ []

built_in :
    default_parsers {A = ℕ} 1 2 3
    ≡ some (("hdfs", 1) ∷ ("hdfs_structured_csv", 2) ∷ ("bgl", 3) ∷ [])
unfolding register
built_in = refl
