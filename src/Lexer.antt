-- ===== src/Lexer.antt =====
-- components/sql/lexer/lexer.cpp and token.hpp: the tokens of a SQL query. The query is the list of
-- its characters and a pointer into it is an index; behind its end stands a zero, as behind a
-- `std::string`. The classes of <cctype> are those of ASCII.
pub mod Loops
pub mod Next
pub mod Token
pub mod Bounds
pub mod Progress
pub mod Tiles
pub mod Query
mod Tests
use rocket_joe.Base.{
  ℕ, zero, suc, ◌+◌, ◌-◌, Bool, true, false, not, ◌&&◌, ◌||◌, List, length, get_or, ltb, leb, ◌==◌,
  if◌then◌else◌,
}

pub data TokenType : Type 0 where
  unknow whitespace comment doc : TokenType
  bare_word number_literal string_literal quoted_identifier : TokenType
  bracket_round_open bracket_round_close bracket_square_open bracket_square_close : TokenType
  bracket_curly_open bracket_curly_close : TokenType
  dot comma semicolon colon double_colon vertical_delimiter : TokenType
  plus minus asterisk slash percent dollar question at double_at arrow : TokenType
  concatenation pipe_mark equals not_equals less greater : TokenType
  less_or_equals greater_or_equals : TokenType
  end_line end_query : TokenType
  error error_multiline_comment_is_not_closed error_single_quote_is_not_closed : TokenType
  error_double_quote_is_not_closed error_back_quote_is_not_closed : TokenType
  error_single_exclamation_mark error_wrong_number : TokenType

-- A `token_t`, and `pos_` behind it.
pub record Scan : Type 0 where
  pub type : TokenType
  pub begin : ℕ
  pub end_ : ℕ
  pub pos_ : ℕ

-- `token_t{type, token_begin, pos_}`
abbrev pub token : TokenType → ℕ → ℕ → Scan
token t token_begin pos = record { type = t; begin = token_begin; end_ = pos; pos_ = pos }

pub data NumberBase : Type 0 where
  dec hex bin : NumberBase

abbrev pub is_space : ℕ → Bool
is_space c = (c == b' ') || (leb 9 c && leb c 13)

abbrev pub is_dec_digit : ℕ → Bool
is_dec_digit c = leb b'0' c && leb c b'9'

abbrev pub is_alpha : ℕ → Bool
is_alpha c = (leb b'a' c && leb c b'z') || (leb b'A' c && leb c b'Z')

abbrev pub is_hex_digit : ℕ → Bool
is_hex_digit c = is_dec_digit c || (leb b'a' c && leb c b'f') || (leb b'A' c && leb c b'F')

abbrev pub is_word_char : ℕ → Bool
is_word_char c = (c == b'_') || is_alpha c || is_dec_digit c

abbrev pub is_binary_digit : ℕ → Bool
is_binary_digit c = (c == b'0') || (c == b'1')

abbrev pub is_digit : ℕ → NumberBase → Bool
is_digit c NumberBase.dec = is_dec_digit c
is_digit c NumberBase.hex = is_hex_digit c
is_digit c NumberBase.bin = is_binary_digit c

abbrev pub is_exponent : ℕ → NumberBase → Bool
is_exponent c NumberBase.hex = (c == b'p') || (c == b'P')
is_exponent c _ = (c == b'e') || (c == b'E')

abbrev pub is_sign : ℕ → Bool
is_sign c = (c == b'-') || (c == b'+')

abbrev pub is_number_base_hex : ℕ → Bool
is_number_base_hex c = (c == b'x') || (c == b'X')

abbrev pub is_number_base_bin : ℕ → Bool
is_number_base_bin c = (c == b'b') || (c == b'B')

module _ (query : List ℕ) where
  abbrev pub end_of : ℕ
  end_of = length query

  abbrev pub char_at : ℕ → ℕ
  char_at pos = get_or query pos 0

  abbrev pub check_pos_ : ℕ → ℕ → Bool
  check_pos_ c pos = ltb pos end_of && (char_at pos == c)

  abbrev pub is_number_separator : ℕ → Bool → NumberBase → Bool
  is_number_separator pos is_block_begin base =
      (char_at pos == b'_')
      && not is_block_begin
      && ltb (pos + 1) end_of
      && is_digit (char_at (pos + 1)) base

  -- `while (pos_ < end_ && cond(*pos_)) ++pos_`; every loop has one round more than the query has
  -- characters
  unfoldable pub skip_loop : (ℕ → Bool) → ℕ → ℕ → ℕ
  skip_loop cond zero pos = pos
  skip_loop cond (suc fuel) pos =
      let rest = skip_loop cond fuel (pos + 1) in
      if ltb pos end_of && cond (char_at pos) then rest else pos

  unfoldable pub skip : (ℕ → Bool) → ℕ → ℕ
  unfolding skip_loop
  skip cond pos = skip_loop cond (suc end_of) pos

  -- the lambda `loop_digits`
  unfoldable pub digits_loop : NumberBase → ℕ → Bool → ℕ → ℕ
  digits_loop base zero is_begin_block pos = pos
  digits_loop base (suc fuel) is_begin_block pos =
      let rest = digits_loop base fuel (char_at (pos + 1) == b'_') (pos + 1) in
      if ltb pos end_of
        && (is_digit (char_at pos) base || is_number_separator pos is_begin_block base)
      then rest
      else pos

  unfoldable pub loop_digits : NumberBase → ℕ → ℕ
  unfolding digits_loop
  loop_digits base pos = digits_loop base (suc end_of) false pos

  -- the digits behind a dot: a separator never begins a block there
  unfoldable pub fraction_loop : ℕ → ℕ → ℕ
  fraction_loop zero pos = pos
  fraction_loop (suc fuel) pos =
      let rest = fraction_loop fuel (pos + 1) in
      if ltb pos end_of
        && (is_dec_digit (char_at pos) || is_number_separator pos false NumberBase.dec)
      then rest
      else pos

  -- `find_char(pos, end_, c)`
  unfoldable pub find_char : ℕ → ℕ → ℕ
  unfolding skip
  find_char c pos = skip (λ d. not (d == c)) pos

  -- the loop of `find_quote`, `prev` standing before `it`
  unfoldable pub quote_loop : ℕ → ℕ → ℕ → ℕ
  quote_loop quote zero it = end_of
  quote_loop quote (suc fuel) it =
      let rest = quote_loop quote fuel (it + 1) in
      if ltb it end_of
      then if (char_at it == quote) && not (char_at (it - 1) == 0x5c) then it else rest
      else end_of

  unfoldable pub find_quote : ℕ → ℕ → ℕ
  unfolding quote_loop
  find_quote quote pos =
      if char_at pos == quote then pos else quote_loop quote (suc end_of) (pos + 1)
