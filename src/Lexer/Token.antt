-- ===== src/Lexer/Token.antt =====
-- `lexer_t::next_token_`, its tests in their order, and the state of the lexer around it.
use rocket_joe.Base.{
  ℕ, ◌+◌, Bool, true, false, not, ◌&&◌, ◌||◌, List, ltb, leb, ◌==◌, if◌then◌else◌,
}
use rocket_joe.Lexer.{
  TokenType, Scan, token, is_space, is_dec_digit, is_word_char, is_number_base_hex,
  is_number_base_bin, end_of, char_at, check_pos_, skip, find_char,
}
use rocket_joe.Lexer.Next.{
  is_dot, number_end, number_token, dot_token, create_quote_token_, create_comment_one_line_,
  create_comment_multi_line_, create_hex_or_bin_str, one_or_two,
}

module _ (query : List ℕ) where
  abbrev pub word_token : ℕ → Scan
  word_token p =
      if (is_number_base_hex (char_at query p) || is_number_base_bin (char_at query p))
        && check_pos_ query b'\'' (p + 1)
      then create_hex_or_bin_str query p
      else if is_word_char (char_at query p)
      then token TokenType.bare_word p (skip query is_word_char (p + 1))
      else token TokenType.error p p

  abbrev pub dollar_token : ℕ → Scan
  dollar_token p =
      if leb (end_of query) (p + 1)
      then token TokenType.dollar p (p + 1)
      else if ltb (find_char query b'$' (p + 1)) (end_of query)
      then token TokenType.doc p (find_char query b'$' (p + 1) + 1)
      else if not (is_word_char (char_at query (p + 1)))
      then token TokenType.dollar p (p + 1)
      else word_token p

  abbrev pub minus_token : ℕ → Scan
  minus_token p =
      if check_pos_ query b'>' (p + 1)
      then token TokenType.arrow p (p + 1 + 1)
      else if check_pos_ query b'-' (p + 1)
      then create_comment_one_line_ query p (p + 1)
      else token TokenType.minus p (p + 1)

  abbrev pub slash_token : ℕ → Scan
  slash_token p =
      if check_pos_ query b'/' (p + 1)
      then create_comment_one_line_ query p (p + 1)
      else if check_pos_ query b'*' (p + 1)
      then create_comment_multi_line_ query p (p + 1)
      else token TokenType.slash p (p + 1)

  abbrev pub hash_token : ℕ → Scan
  hash_token p =
      if check_pos_ query b' ' (p + 1)
      then create_comment_one_line_ query p (p + 1)
      else if check_pos_ query b'!' (p + 1)
      then create_comment_one_line_ query p (p + 1)
      else token TokenType.error p (end_of query)

  abbrev pub less_token : ℕ → Scan
  less_token p =
      if check_pos_ query b'=' (p + 1)
      then token TokenType.less_or_equals p (p + 1 + 1)
      else if check_pos_ query b'>' (p + 1)
      then token TokenType.not_equals p (p + 1 + 1)
      else token TokenType.less p (p + 1)

  -- from `>` on
  unfoldable pub sign_token : ℕ → ℕ → Scan
  sign_token c p =
      if c == b'>'
      then one_or_two query b'=' TokenType.greater_or_equals TokenType.greater p
      else if c == b'?'
      then token TokenType.question p (p + 1)
      else if c == b':'
      then one_or_two query b':' TokenType.double_colon TokenType.colon p
      else if c == b'|'
      then one_or_two query b'|' TokenType.concatenation TokenType.pipe_mark p
      else if c == b'@'
      then one_or_two query b'@' TokenType.double_at TokenType.at p
      else if c == 0x5c
      then one_or_two query b'G' TokenType.vertical_delimiter TokenType.error p
      else if c == b'$'
      then dollar_token p
      else word_token p

  -- from `+` on
  unfoldable pub operator_token : ℕ → ℕ → Scan
  unfolding sign_token
  operator_token c p =
      if c == b'+'
      then token TokenType.plus p (p + 1)
      else if c == b'-'
      then minus_token p
      else if c == b'*'
      then token TokenType.asterisk p (p + 1)
      else if c == b'/'
      then slash_token p
      else if c == b'#'
      then hash_token p
      else if c == b'%'
      then token TokenType.percent p (p + 1)
      else if c == b'='
      then one_or_two query b'=' TokenType.equals TokenType.equals p
      else if c == b'!'
      then one_or_two query b'=' TokenType.not_equals TokenType.error_single_exclamation_mark p
      else if c == b'<'
      then less_token p
      else sign_token c p

  -- from `(` on
  unfoldable pub bracket_token : TokenType → ℕ → ℕ → Scan
  unfolding operator_token dot_token
  bracket_token prev_type c p =
      if c == b'('
      then token TokenType.bracket_round_open p (p + 1)
      else if c == b')'
      then token TokenType.bracket_round_close p (p + 1)
      else if c == b'['
      then token TokenType.bracket_square_open p (p + 1)
      else if c == b']'
      then token TokenType.bracket_square_close p (p + 1)
      else if c == b'{'
      then token TokenType.bracket_curly_open p (p + 1)
      else if c == b'}'
      then token TokenType.bracket_curly_close p (p + 1)
      else if c == b','
      then token TokenType.comma p (p + 1)
      else if c == b';'
      then token TokenType.semicolon p (p + 1)
      else if c == b'.'
      then dot_token query prev_type p
      else operator_token c p

  -- from the start
  unfoldable pub next_token_ : TokenType → TokenType → ℕ → Scan
  unfolding bracket_token
  next_token_ prev_type prev_significant_type p =
      let c = char_at query p in
      if is_space c
      then token TokenType.whitespace p (skip query is_space (p + 1))
      else if is_dec_digit c
      then number_token query is_word_char p (number_end query (is_dot prev_significant_type) p)
      else if c == b'\''
      then create_quote_token_ query b'\'' TokenType.string_literal
          TokenType.error_single_quote_is_not_closed p
      else if c == 0x22
      then create_quote_token_ query 0x22 TokenType.quoted_identifier
          TokenType.error_double_quote_is_not_closed p
      else if c == b'`'
      then create_quote_token_ query b'`' TokenType.quoted_identifier
          TokenType.error_back_quote_is_not_closed p
      else bracket_token prev_type c p

-- token.cpp
abbrev pub is_token_significant : TokenType → Bool
is_token_significant TokenType.whitespace = false
is_token_significant TokenType.comment = false
is_token_significant _ = true

-- `lexer_t`; of the tokens before, the types are looked at
pub record Lexer : Type 0 where
  pub pos_ : ℕ
  pub saved_pos_ : ℕ
  pub prev_token_ : TokenType
  pub prev_significant_token_ : TokenType

abbrev pub make_lexer : Lexer
make_lexer = record {
  pos_ = 0;
  saved_pos_ = 0;
  prev_token_ = TokenType.unknow;
  prev_significant_token_ = TokenType.unknow;
}

abbrev pub save : Lexer → Lexer
save l = record l { saved_pos_ = l.pos_ }

abbrev pub restore : Lexer → Lexer
restore l = record l { pos_ = l.saved_pos_ }

module _ (query : List ℕ) where
  abbrev pub moved : Lexer → Scan → Lexer
  moved l s = record l {
    pos_ = s.pos_;
    prev_token_ = s.type;
    prev_significant_token_ =
        if is_token_significant s.type then s.type else l.prev_significant_token_;
  }

  unfoldable pub next_token : Lexer → Lexer × Scan
  unfolding next_token_
  next_token l =
      let s = next_token_ query l.prev_token_ l.prev_significant_token_ l.pos_ in
      if leb (end_of query) l.pos_
      then (l, record { type = TokenType.end_query; begin = 0; end_ = 0; pos_ = l.pos_ })
      else (moved l s, s)

  -- after one token that is not significant, the next one is taken as it is
  unfoldable pub next_not_whitespace_token : Lexer → Lexer × Scan
  unfolding next_token
  next_not_whitespace_token l =
      let first = next_token l in
      let second = next_token first.0 in if is_token_significant first.1.type then first else second
