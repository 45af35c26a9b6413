-- ===== src/Lexer/Query.antt =====
-- The tokens of a whole query.
use rocket_joe.Base.{
  ℕ, zero, suc, ◌+◌, ◌≤◌, ◌<◌, ◌≡◌, sym, ap, ◌∙◌, inl, inr, Bool, true, false, Option, none, some,
  List, [], ◌∷◌, arith, leb, leb→le, ◌⊎◌, refl, if◌then◌else◌, Bool-cases,
}
use rocket_joe.Lexer.{TokenType, Scan, end_of}
use rocket_joe.Lexer.Token.{Lexer, make_lexer, moved, next_token, next_token_}
use rocket_joe.Lexer.Bounds.{IsStep}
use rocket_joe.Lexer.Tiles.{next_token_-IsStep}

abbrev pub is_error : TokenType → Bool
is_error TokenType.error = true
is_error _ = false

abbrev pub put_first : Scan → Option (List Scan) → Option (List Scan)
put_first s none = none
put_first s (some ss) = some (s ∷ ss)

-- From a position on, each token begins where the one before it ended. A token `error` is the last
-- one; else the last one ends where the query does, or behind it.
abbrev pub Tiles : List ℕ → ℕ → List Scan → Type 0
Tiles query p [] = end_of query ≤ p
Tiles query p (s ∷ ss) =
    (s.begin ≡ p)
    × (((is_error s.type ≡ true) × (ss ≡ [])) ⊎ ((is_error s.type ≡ false) × Tiles query s.end_ ss))

module _ (query : List ℕ) where
  -- What calls of `next_token` give, up to the end of the query or the first token `error`; none
  -- where that takes more than `fuel` calls.
  unfoldable pub tokens : ℕ → Lexer → Option (List Scan)
  tokens zero l = none
  tokens (suc fuel) l =
      let rest = tokens fuel (next_token query l).0 in
      if leb (end_of query) l.pos_
      then some []
      else if is_error (next_token query l).1.type
      then some ((next_token query l).1 ∷ [])
      else put_first (next_token query l).1 rest

  abbrev next_of : Lexer → Scan
  next_of l = next_token_ query l.prev_token_ l.prev_significant_token_ l.pos_

  next_token_inside :
      (l : Lexer)
      → leb (end_of query) l.pos_ ≡ false
      → next_token query l ≡ (moved query l (next_of l), next_of l)
  unfolding next_token
  next_token_inside l h = rw h

  goes_on : (p : ℕ) (s : Scan) → IsStep query p s → is_error s.type ≡ false → p < s.pos_
  goes_on p s h e = elim h.advances [
    | inl f ↦ absurd (clash (sym (ap is_error f) ∙ e))
    | inr lt ↦ lt
  ]
    where
      clash : true ≡ false → ⊥
      clash f = cc

  tokens_from :
      (fuel : ℕ) (l : Lexer)
      → l.pos_ ≤ end_of query + 1
      → end_of query + 1 < fuel + l.pos_
      → (ss : List Scan) × (tokens fuel l ≡ some ss) × Tiles query l.pos_ ss
  unfolding tokens
  tokens_from zero l b h = absurd (omega (arith, b, h))
  tokens_from (suc fuel) l b h = elim (Bool-cases (leb (end_of query) l.pos_)) [
    | inl done ↦ ([], rw done, leb→le (end_of query) l.pos_ done)
    | inr inside ↦
        let is =
          next_token_-IsStep query l.prev_token_ l.prev_significant_token_ l.pos_
            (ground (arith, inside)) in
        elim (Bool-cases (is_error (next_of l).type)) [
          | inl e ↦ (
            (next_of l ∷ []),
            rw (inside, next_token_inside l inside, e),
            (is.begin, inl (e, refl)),
          )
          | inr e ↦
              let lt = goes_on l.pos_ (next_of l) is e in
              let (ss, found, tiled) =
                tokens_from fuel (moved query l (next_of l)) is.inside (omega (arith, h, lt)) in
              (
                next_of l ∷ ss,
                rw (inside, next_token_inside l inside, e, found),
                (is.begin, inr (e, rw (is.end_) tiled)),
              )
        ]
  ]

  -- From the start of any query, calls of `next_token` come to the end of the query or to a token
  -- `error` after at most two calls more than it has characters: the first token begins at 0 and each
  -- other one where the one before it ended; a token `error` is the last, and what stands behind it is
  -- not read; where there is none, the last token ends where the query does, or behind it.
  pub tokens-Tiles :
      (ss : List Scan) × (tokens (end_of query + 2) make_lexer ≡ some ss) × Tiles query 0 ss
  tokens-Tiles = tokens_from (end_of query + 2) make_lexer (omega arith) (omega arith)
