-- ===== src/Lexer/Tests.antt =====
-- Tokens of short queries.
use rocket_joe.Base.{ℕ, ◌≡◌, some, List, [], ◌∷◌, ◌+◌, arith}
use rocket_joe.Lexer.{TokenType, Scan, end_of}
use rocket_joe.Lexer.Token.{make_lexer, next_token_}
use rocket_joe.Lexer.Bounds.{IsStep}
use rocket_joe.Lexer.Tiles.{next_token_-IsStep}
use rocket_joe.Lexer.Query.{tokens, Tiles, tokens-Tiles}

-- "id>=1"
abbrev condition : List ℕ
condition = b'i' ∷ b'd' ∷ b'>' ∷ b'=' ∷ b'1' ∷ []

next_token_-IsStep_example :
    IsStep condition 2 (next_token_ condition TokenType.bare_word TokenType.bare_word 2)
next_token_-IsStep_example =
    next_token_-IsStep condition TokenType.bare_word TokenType.bare_word 2 (omega arith)

tokens-Tiles_example :
    (ss : List Scan) × (tokens condition (end_of condition + 2) make_lexer ≡ some ss)
    × Tiles condition 0 ss
tokens-Tiles_example = tokens-Tiles condition
