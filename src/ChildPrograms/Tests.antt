-- ===== src/ChildPrograms/Tests.antt =====
-- A child of Lab2/lab2.c with all its variables, and with HOSTNAME missing.
use osisp_labs.Common.{
  ◌+◌, ℕ, ◌≡◌, refl, inl, inr, Option, none, some, List, [], ◌∷◌, ◌>>=◌, ◌==◌, if◌then◌else◌, arith,
  length,
}
use osisp_labs.Environment.{string, match_entry}
use osisp_labs.ChildPrograms.{shell, home, child_names, child_env, output_env, main}
use osisp_labs.ChildPrograms.Inherited.{output_env-inherits}

-- Every variable has the value "v".
abbrev all_set : List ℕ → Option (List ℕ)
all_set name = some (b'v' ∷ [])

-- All but the one whose name has eight characters.
abbrev no_hostname : List ℕ → Option (List ℕ)
no_hostname name = if length name == 8 then none else some (b'v' ∷ [])

output_env-inherits_example :
    (child_env all_set child_names >>= λ env.
    output_env no_hostname env env b'*' (home ∷ shell ∷ []))
    ≡ some ((home, some (b'v' ∷ [])) ∷ (shell, some (b'v' ∷ [])) ∷ [])
output_env-inherits_example =
    output_env-inherits all_set no_hostname (home ∷ shell ∷ []) b'*'
      (
        (b'v' ∷ [], refl, omega arith),
        (
          (b'v' ∷ [], refl, omega arith),
          (
            (b'v' ∷ [], refl, omega arith),
            (
              (b'v' ∷ [], refl, omega arith),
              (
                (b'v' ∷ [], refl, omega arith),
                (
                  (b'v' ∷ [], refl, omega arith),
                  (
                    (b'v' ∷ [], refl, omega arith),
                    ((b'v' ∷ [], refl, omega arith), ((b'v' ∷ [], refl, omega arith), tt)),
                  ),
                ),
              ),
            ),
          ),
        ),
      )
      (inr (inl refl), (inl refl, tt)) (inl refl)

abbrev one_digit : ℕ → List ℕ
one_digit n = b'0' ∷ (b'0' + n) ∷ []

-- The second child gets the path from the environment that the parent started with.
two_calls :
    main one_digit all_set
      ((b'C' ∷ b'H' ∷ b'I' ∷ b'L' ∷ b'D' ∷ b'_' ∷ b'P' ∷ b'A' ∷ b'T' ∷ b'H' ∷ b'=' ∷ b'p' ∷ [])
        ∷ [])
      []
      (b'+' ∷ b'x' ∷ b'*' ∷ b'q' ∷ b'+' ∷ [])
      0
    ≡ record {
      path = some (b'v' ∷ []);
      name = string (b'c' ∷ b'h' ∷ b'i' ∷ b'l' ∷ b'd' ∷ b'_' ∷ b'0' ∷ b'1' ∷ []);
      symbol = b'+';
    }
      ∷ record {
        path = some (b'p' ∷ []);
        name = string (b'c' ∷ b'h' ∷ b'i' ∷ b'l' ∷ b'd' ∷ b'_' ∷ b'0' ∷ b'2' ∷ []);
        symbol = b'*';
      }
      ∷ []
unfolding main match_entry
two_calls = refl
