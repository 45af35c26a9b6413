-- ===== src/Lexer/Next.antt =====
-- `lexer_t::next_token_` and what it calls, and the state of the lexer around it. The tests of
-- `next_token_` are in its order; they are grouped in functions that each hand on to the next group.
use rocket_joe.Base.{
  ℕ, zero, suc, ◌+◌, ◌-◌, Bool, true, false, not, ◌&&◌, ◌||◌, List, ltb, leb, ◌==◌, if◌then◌else◌,
}
use rocket_joe.Lexer.{
  TokenType, Scan, token, NumberBase, is_dec_digit, is_alpha, is_digit, is_exponent, is_sign,
  is_number_base_hex, is_number_base_bin, end_of, char_at, check_pos_, skip, loop_digits,
  fraction_loop, find_char, find_quote,
}

abbrev pub is_dot : TokenType → Bool
is_dot TokenType.dot = true
is_dot _ = false

-- `before_types`
abbrev pub is_before_dot : TokenType → Bool
is_before_dot TokenType.bracket_round_close = true
is_before_dot TokenType.bracket_square_open = true
is_before_dot TokenType.bare_word = true
is_before_dot TokenType.quoted_identifier = true
is_before_dot TokenType.number_literal = true
is_before_dot _ = false

module _ (query : List ℕ) where
  -- numbers
  abbrev pub after_sign : ℕ → ℕ
  after_sign pos = if ltb pos (end_of query) && is_sign (char_at query pos) then pos + 1 else pos

  abbrev pub after_dot : NumberBase → ℕ → ℕ
  after_dot base pos = if check_pos_ query b'.' pos then loop_digits query base (pos + 1) else pos

  abbrev pub after_exponent : NumberBase → ℕ → ℕ
  after_exponent base pos =
      if ltb pos (end_of query) && is_exponent (char_at query pos) base
      then loop_digits query base (after_sign (pos + 1))
      else pos

  abbrev pub in_base : NumberBase → ℕ → ℕ
  in_base base pos = after_exponent base (after_dot base (loop_digits query base (pos + 1)))

  abbrev pub is_prefix : (ℕ → Bool) → ℕ → Bool
  is_prefix letter pos =
      ltb (pos + 1) (end_of query)
      && (char_at query pos == b'0')
      && letter (char_at query (pos + 1))

  abbrev pub number_end : Bool → ℕ → ℕ
  number_end is_after_dot pos =
      if is_after_dot
      then fraction_loop query (suc (end_of query)) (pos + 1)
      else if is_prefix is_number_base_hex pos
      then in_base NumberBase.hex (pos + 1)
      else if is_prefix is_number_base_bin pos
      then in_base NumberBase.bin (pos + 1)
      else in_base NumberBase.dec pos

  -- a number, unless letters follow
  abbrev pub number_token : (ℕ → Bool) → ℕ → ℕ → Scan
  number_token letter token_begin pos =
      if ltb pos (end_of query) && letter (char_at query pos)
      then token TokenType.error_wrong_number token_begin (skip query letter pos)
      else token TokenType.number_literal token_begin pos

  unfoldable pub dot_token : TokenType → ℕ → Scan
  dot_token prev_type p =
      if leb (end_of query) (p + 1)
      then token TokenType.dot p (p + 1)
      else if not (is_dec_digit (char_at query (p + 1)))
      then token TokenType.dot p (p + 1)
      else if is_before_dot prev_type
      then token TokenType.dot p (p + 1)
      else number_token is_alpha p
          (after_exponent NumberBase.dec (loop_digits query NumberBase.dec (p + 1)))

  unfoldable pub create_quote_token_ : ℕ → TokenType → TokenType → ℕ → Scan
  create_quote_token_ quote type type_error p =
      let pos = find_quote query quote (p + 1) in
      if ltb pos (end_of query)
      then token type p (pos + 1)
      else record { type = type_error; begin = p; end_ = end_of query; pos_ = pos }

  -- comments; `pos` stands on the second character
  unfoldable pub create_comment_one_line_ : ℕ → ℕ → Scan
  create_comment_one_line_ token_begin pos =
      token TokenType.comment token_begin (find_quote query 0x0a (pos + 1))

  abbrev pub new_level : ℕ → ℕ → ℕ
  new_level level pos =
      if ltb (pos + 1) (end_of query) && (char_at query (pos + 1) == b'/')
      then level - 1
      else if char_at query (pos - 1) == b'/'
      then level + 1
      else level

  abbrev pub not_closed : ℕ → ℕ → Scan
  not_closed token_begin pos = record {
    type = TokenType.error_multiline_comment_is_not_closed;
    begin = token_begin;
    end_ = end_of query;
    pos_ = pos;
  }

  unfoldable pub comment_loop : ℕ → ℕ → ℕ → ℕ → Scan
  comment_loop token_begin zero level pos = not_closed token_begin pos
  comment_loop token_begin (suc fuel) level pos =
      let star = find_char query b'*' (pos + 1) in
      let inside = comment_loop token_begin fuel (new_level level star) (star + 1) in
      let at_end = comment_loop token_begin fuel level star in
      if ltb pos (end_of query)
      then if ltb star (end_of query)
        then if leb (new_level level star) 0
          then token TokenType.comment token_begin (star + 1 + 1)
          else inside
        else at_end
      else not_closed token_begin pos

  unfoldable pub create_comment_multi_line_ : ℕ → ℕ → Scan
  unfolding comment_loop
  create_comment_multi_line_ token_begin pos = comment_loop token_begin (suc (end_of query)) 1 pos

  -- `while (is_digit(*pos_, base)) ++pos_`, which the zero behind the query ends
  unfoldable pub raw_digits : NumberBase → ℕ → ℕ → ℕ
  raw_digits base zero pos = pos
  raw_digits base (suc fuel) pos =
      let rest = raw_digits base fuel (pos + 1) in
      if is_digit (char_at query pos) base then rest else pos

  unfoldable pub create_hex_or_bin_str : ℕ → Scan
  unfolding raw_digits
  create_hex_or_bin_str p =
      let base = if is_number_base_hex (char_at query p) then NumberBase.hex else NumberBase.bin in
      let pos = raw_digits base (suc (end_of query)) (p + 2) in
      if leb (end_of query) pos || not (char_at query pos == b'\'')
      then token TokenType.error_single_quote_is_not_closed p (pos + 1)
      else token TokenType.string_literal p (pos + 1)

  -- two characters, or one
  abbrev pub one_or_two : ℕ → TokenType → TokenType → ℕ → Scan
  one_or_two second two one p =
      if check_pos_ query second (p + 1) then token two p (p + 1 + 1) else token one p (p + 1)
