-- ===== src/Lexer/Tiles.antt =====
-- The next token, whatever stands there, is a step of the lexer.
use rocket_joe.Base.{
  ℕ, suc, ◌+◌, ◌<◌, ◌≡◌, refl, inl, true, not, ◌&&◌, ◌||◌, List, arith, ltb, leb, ◌==◌,
  if◌then◌else◌,
}
use rocket_joe.Lexer.{
  TokenType, NumberBase, is_space, is_dec_digit, is_word_char, end_of, char_at, check_pos_, skip,
  find_char, is_number_base_hex, is_number_base_bin,
}
use rocket_joe.Lexer.Loops.{skip-IsWithin, find_char-IsWithin}
use rocket_joe.Lexer.Next.{is_dot, number_end, create_hex_or_bin_str, raw_digits, one_or_two}
use rocket_joe.Lexer.Token.{
  word_token, dollar_token, minus_token, slash_token, hash_token, less_token, sign_token,
  operator_token, bracket_token, next_token_,
}
use rocket_joe.Lexer.Bounds.{
  IsStep, step, one, two, behind, either, number_end-IsWithin, number_token-IsStep,
}
use rocket_joe.Lexer.Progress.{
  dot_token-IsStep, create_quote_token_-IsStep, create_comment_one_line_-IsStep,
  create_comment_multi_line_-IsStep, raw_digits-IsWithin,
}

module _ (query : List ℕ) where
  abbrev base_of : ℕ → NumberBase
  base_of p = if is_number_base_hex (char_at query p) then NumberBase.hex else NumberBase.bin

  create_hex_or_bin_str-IsStep :
      (p : ℕ) → p + 1 < end_of query → IsStep query p (create_hex_or_bin_str query p)
  unfolding create_hex_or_bin_str
  create_hex_or_bin_str-IsStep p h =
      let (a, a') =
        raw_digits-IsWithin query (base_of p) (suc (end_of query)) (p + 2) (omega (arith, h)) in
      either query
        (leb (end_of query) (raw_digits query (base_of p) (suc (end_of query)) (p + 2))
          || not
              (char_at query (raw_digits query (base_of p) (suc (end_of query)) (p + 2)) == b'\''))
        (λ e.
          step query TokenType.error_single_quote_is_not_closed p
            (raw_digits query (base_of p) (suc (end_of query)) (p + 2) + 1) (omega (arith, a))
            (omega (arith, a')))
        (λ n.
          step query TokenType.string_literal p
            (raw_digits query (base_of p) (suc (end_of query)) (p + 2) + 1) (omega (arith, a))
            (omega (arith, a')))

  -- a character that stands at the next position
  next_inside : (c p : ℕ) → check_pos_ query c (p + 1) ≡ true → p + 1 < end_of query
  next_inside c p e = ground (arith, e)

  one_or_two-IsStep :
      (c : ℕ) (t t' : TokenType) (p : ℕ)
      → p < end_of query
      → IsStep query p (one_or_two query c t t' p)
  one_or_two-IsStep c t t' p h =
      either query (check_pos_ query c (p + 1)) (λ e. two query t p h) (λ n. one query t' p h)

  word_token-IsStep : (p : ℕ) → p < end_of query → IsStep query p (word_token query p)
  word_token-IsStep p h =
      either query
        ((is_number_base_hex (char_at query p) || is_number_base_bin (char_at query p))
          && check_pos_ query b'\'' (p + 1))
        (λ e. create_hex_or_bin_str-IsStep p (next_inside b'\'' p (ground (arith, e))))
        (λ n.
          either query (is_word_char (char_at query p))
            (λ e.
              behind query TokenType.bare_word p (skip query is_word_char (p + 1))
                (skip-IsWithin query is_word_char (p + 1) (omega (arith, h))))
            (λ m. record {
              begin = refl;
              end_ = refl;
              forward = omega arith;
              inside = omega (arith, h);
              advances = inl refl;
            }))

  dollar_token-IsStep : (p : ℕ) → p < end_of query → IsStep query p (dollar_token query p)
  dollar_token-IsStep p h =
      let (a, a') = find_char-IsWithin query b'$' (p + 1) (omega (arith, h)) in
      either query (leb (end_of query) (p + 1)) (λ e. one query TokenType.dollar p h)
        (λ n.
          either query (ltb (find_char query b'$' (p + 1)) (end_of query))
            (λ e.
              step query TokenType.doc p (find_char query b'$' (p + 1) + 1) (omega (arith, a))
                (omega (arith, a')))
            (λ m.
              either query (not (is_word_char (char_at query (p + 1))))
                (λ e. one query TokenType.dollar p h) (λ l. word_token-IsStep p h)))

  minus_token-IsStep : (p : ℕ) → p < end_of query → IsStep query p (minus_token query p)
  minus_token-IsStep p h =
      either query (check_pos_ query b'>' (p + 1)) (λ e. two query TokenType.arrow p h)
        (λ n.
          either query (check_pos_ query b'-' (p + 1))
            (λ e. create_comment_one_line_-IsStep query p (next_inside b'-' p e))
            (λ m. one query TokenType.minus p h))

  slash_token-IsStep : (p : ℕ) → p < end_of query → IsStep query p (slash_token query p)
  slash_token-IsStep p h =
      either query (check_pos_ query b'/' (p + 1))
        (λ e. create_comment_one_line_-IsStep query p (next_inside b'/' p e))
        (λ n.
          either query (check_pos_ query b'*' (p + 1))
            (λ e. create_comment_multi_line_-IsStep query p (next_inside b'*' p e))
            (λ m. one query TokenType.slash p h))

  hash_token-IsStep : (p : ℕ) → p < end_of query → IsStep query p (hash_token query p)
  hash_token-IsStep p h =
      either query (check_pos_ query b' ' (p + 1))
        (λ e. create_comment_one_line_-IsStep query p (next_inside b' ' p e))
        (λ n.
          either query (check_pos_ query b'!' (p + 1))
            (λ e. create_comment_one_line_-IsStep query p (next_inside b'!' p e))
            (λ m. step query TokenType.error p (end_of query) h (omega arith)))

  less_token-IsStep : (p : ℕ) → p < end_of query → IsStep query p (less_token query p)
  less_token-IsStep p h =
      either query (check_pos_ query b'=' (p + 1)) (λ e. two query TokenType.less_or_equals p h)
        (λ n.
          either query (check_pos_ query b'>' (p + 1)) (λ e. two query TokenType.not_equals p h)
            (λ m. one query TokenType.less p h))

  sign_token-IsStep : (c p : ℕ) → p < end_of query → IsStep query p (sign_token query c p)
  unfolding sign_token
  sign_token-IsStep c p h =
      either query (c == b'>')
        (λ e. one_or_two-IsStep b'=' TokenType.greater_or_equals TokenType.greater p h)
        (λ n.
          either query (c == b'?') (λ e. one query TokenType.question p h)
            (λ n.
              either query (c == b':')
                (λ e. one_or_two-IsStep b':' TokenType.double_colon TokenType.colon p h)
                (λ n.
                  either query (c == b'|')
                    (λ e. one_or_two-IsStep b'|' TokenType.concatenation TokenType.pipe_mark p h)
                    (λ n.
                      either query (c == b'@')
                        (λ e. one_or_two-IsStep b'@' TokenType.double_at TokenType.at p h)
                        (λ n.
                          either query (c == 0x5c)
                            (λ e.
                              one_or_two-IsStep b'G' TokenType.vertical_delimiter TokenType.error p
                                h)
                            (λ n.
                              either query (c == b'$') (λ e. dollar_token-IsStep p h)
                                (λ n. word_token-IsStep p h)))))))

  operator_token-IsStep : (c p : ℕ) → p < end_of query → IsStep query p (operator_token query c p)
  unfolding operator_token
  operator_token-IsStep c p h =
      either query (c == b'+') (λ e. one query TokenType.plus p h)
        (λ n.
          either query (c == b'-') (λ e. minus_token-IsStep p h)
            (λ n.
              either query (c == b'*') (λ e. one query TokenType.asterisk p h)
                (λ n.
                  either query (c == b'/') (λ e. slash_token-IsStep p h)
                    (λ n.
                      either query (c == b'#') (λ e. hash_token-IsStep p h)
                        (λ n.
                          either query (c == b'%') (λ e. one query TokenType.percent p h)
                            (λ n.
                              either query (c == b'=')
                                (λ e. one_or_two-IsStep b'=' TokenType.equals TokenType.equals p h)
                                (λ n.
                                  either query (c == b'!')
                                    (λ e.
                                      one_or_two-IsStep b'=' TokenType.not_equals
                                        TokenType.error_single_exclamation_mark p h)
                                    (λ n.
                                      either query (c == b'<') (λ e. less_token-IsStep p h)
                                        (λ n. sign_token-IsStep c p h)))))))))

  bracket_token-IsStep :
      (prev_type : TokenType) (c p : ℕ)
      → p < end_of query
      → IsStep query p (bracket_token query prev_type c p)
  unfolding bracket_token
  bracket_token-IsStep prev_type c p h =
      either query (c == b'(') (λ e. one query TokenType.bracket_round_open p h)
        (λ n.
          either query (c == b')') (λ e. one query TokenType.bracket_round_close p h)
            (λ n.
              either query (c == b'[') (λ e. one query TokenType.bracket_square_open p h)
                (λ n.
                  either query (c == b']') (λ e. one query TokenType.bracket_square_close p h)
                    (λ n.
                      either query (c == b'{') (λ e. one query TokenType.bracket_curly_open p h)
                        (λ n.
                          either query (c == b'}')
                            (λ e. one query TokenType.bracket_curly_close p h)
                            (λ n.
                              either query (c == b',') (λ e. one query TokenType.comma p h)
                                (λ n.
                                  either query (c == b';') (λ e. one query TokenType.semicolon p h)
                                    (λ n.
                                      either query (c == b'.')
                                        (λ e. dot_token-IsStep query prev_type p h)
                                        (λ n. operator_token-IsStep c p h)))))))))

  -- Inside the query the next token begins where the lexer stands and ends where it stands then; the
  -- lexer goes forward unless the token is an error, and never further than one character behind the
  -- end of the query.
  pub next_token_-IsStep :
      (prev_type prev_significant_type : TokenType) (p : ℕ)
      → p < end_of query
      → IsStep query p (next_token_ query prev_type prev_significant_type p)
  unfolding next_token_
  next_token_-IsStep prev_type prev_significant_type p h =
      either query (is_space (char_at query p))
        (λ e.
          behind query TokenType.whitespace p (skip query is_space (p + 1))
            (skip-IsWithin query is_space (p + 1) (omega (arith, h))))
        (λ n.
          either query (is_dec_digit (char_at query p))
            (λ e.
              number_token-IsStep query is_word_char p
                (number_end query (is_dot prev_significant_type) p)
                (number_end-IsWithin query (is_dot prev_significant_type) p h))
            (λ n.
              either query (char_at query p == b'\'')
                (λ e.
                  create_quote_token_-IsStep query b'\'' TokenType.string_literal
                    TokenType.error_single_quote_is_not_closed p h)
                (λ n.
                  either query (char_at query p == 0x22)
                    (λ e.
                      create_quote_token_-IsStep query 0x22 TokenType.quoted_identifier
                        TokenType.error_double_quote_is_not_closed p h)
                    (λ n.
                      either query (char_at query p == b'`')
                        (λ e.
                          create_quote_token_-IsStep query b'`' TokenType.quoted_identifier
                            TokenType.error_back_quote_is_not_closed p h)
                        (λ n. bracket_token-IsStep prev_type (char_at query p) p h)))))
