-- ===== src/Foundry/Tests.antt =====
-- A digest of 32 bytes.
use agent_runtime_foundry.Foundry.Digest.{digest, digest_valid, digest-valid}
use agent_runtime_foundry.Base.{ℕ, ◌≡◌, refl, true, List, [], ◌∷◌}

abbrev eight : List ℕ → List ℕ
eight rest = 0 ∷ 17 ∷ 34 ∷ 51 ∷ 68 ∷ 171 ∷ 205 ∷ 255 ∷ rest

abbrev sum : List ℕ
sum = eight (eight (eight (eight [])))

digest-valid_example : digest_valid (digest sum) ≡ true
digest-valid_example = digest-valid sum refl
