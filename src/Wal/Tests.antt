-- ===== src/Wal/Tests.antt =====
-- The log on concrete statements.
use rocket_joe.Base.{true, false, Bool, List, [], ◌∷◌}

abbrev pub three_statements : List Bool
three_statements = true ∷ false ∷ true ∷ []
