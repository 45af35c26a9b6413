-- ===== src/Lexer/Progress.antt =====
-- Every kind of token is a step of the lexer.
use rocket_joe.Base.{
  ℕ, zero, suc, ◌+◌, ◌≤◌, ◌<◌, ◌≡◌, refl, inr, false, not, List, [], ◌∷◌, length, get_or, arith,
  ltb, leb,
}
use rocket_joe.Lexer.{
  TokenType, NumberBase, is_digit, is_dec_digit, is_alpha, end_of, char_at, find_char, find_quote,
  loop_digits,
}
use rocket_joe.Lexer.Loops.{IsWithin, loop_digits-IsWithin, find_char-IsWithin, find_quote-IsWithin}
use rocket_joe.Lexer.Next.{
  is_before_dot, after_exponent, dot_token, create_quote_token_, create_comment_one_line_,
  comment_loop, new_level, not_closed, create_comment_multi_line_, raw_digits,
}
use rocket_joe.Lexer.Bounds.{
  IsStep, step, one, either, after_exponent-IsWithin, number_token-IsStep,
}

module _ (query : List ℕ) where
  pub dot_token-IsStep :
      (prev_type : TokenType) (p : ℕ)
      → p < end_of query
      → IsStep query p (dot_token query prev_type p)
  unfolding dot_token
  dot_token-IsStep prev_type p h =
      either query (leb (end_of query) (p + 1)) (λ e. one query TokenType.dot p h)
        (λ e.
          either query (not (is_dec_digit (char_at query (p + 1))))
            (λ f. one query TokenType.dot p h)
            (λ f.
              either query (is_before_dot prev_type) (λ g. one query TokenType.dot p h)
                (λ g.
                  number_token-IsStep query is_alpha p
                    (after_exponent query NumberBase.dec (loop_digits query NumberBase.dec (p + 1)))
                    fraction)))
    where
      fraction :
          IsWithin query
            (p + 1)
            (after_exponent query NumberBase.dec (loop_digits query NumberBase.dec (p + 1)))
      fraction =
          let (a, a') = loop_digits-IsWithin query NumberBase.dec (p + 1) (omega (arith, h)) in
          let (b, b') =
            after_exponent-IsWithin query NumberBase.dec (loop_digits query NumberBase.dec (p + 1))
              a' in
          (omega (arith, a, b), b')

  pub create_quote_token_-IsStep :
      (quote : ℕ) (t t' : TokenType) (p : ℕ)
      → p < end_of query
      → IsStep query p (create_quote_token_ query quote t t' p)
  unfolding create_quote_token_
  create_quote_token_-IsStep quote t t' p h =
      let (a, a') = find_quote-IsWithin query quote (p + 1) (omega (arith, h)) in
      either query (ltb (find_quote query quote (p + 1)) (end_of query))
        (λ e.
          step query t p (find_quote query quote (p + 1) + 1) (omega (arith, a))
            (omega (arith, a')))
        (λ e. record {
          begin = refl;
          end_ = ground (arith, e, a');
          forward = omega (arith, a);
          inside = omega (arith, a');
          advances = inr (omega (arith, a));
        })

  pub create_comment_one_line_-IsStep :
      (p : ℕ) → p + 1 < end_of query → IsStep query p (create_comment_one_line_ query p (p + 1))
  unfolding create_comment_one_line_
  create_comment_one_line_-IsStep p h =
      let (a, a') = find_quote-IsWithin query 0x0a (p + 1 + 1) (omega (arith, h)) in
      step query TokenType.comment p (find_quote query 0x0a (p + 1 + 1)) (omega (arith, a))
        (omega (arith, a'))

  not_closed-IsStep :
      (p pos : ℕ) → p < pos → pos ≡ end_of query → IsStep query p (not_closed query p pos)
  not_closed-IsStep p pos h e = record {
    begin = refl;
    end_ = omega (arith, e);
    forward = omega (arith, h);
    inside = omega (arith, e);
    advances = inr h;
  }

  comment_loop-IsStep :
      (p fuel level pos : ℕ)
      → p < pos
      → pos ≤ end_of query
      → end_of query ≤ fuel + pos
      → IsStep query p (comment_loop query p fuel level pos)
  unfolding comment_loop
  comment_loop-IsStep p zero level pos h j f = not_closed-IsStep p pos h (omega (arith, j, f))
  comment_loop-IsStep p (suc fuel) level pos h j f =
      either query (ltb pos (end_of query))
        (λ more.
          let (a, a') = find_char-IsWithin query b'*' (pos + 1) (ground (arith, more)) in
          either query (ltb (find_char query b'*' (pos + 1)) (end_of query))
            (λ e.
              either query (leb (new_level query level (find_char query b'*' (pos + 1))) 0)
                (λ g.
                  step query TokenType.comment p (find_char query b'*' (pos + 1) + 1 + 1)
                    (omega (arith, a, h)) (ground (arith, e)))
                (λ g.
                  comment_loop-IsStep p fuel
                    (new_level query level (find_char query b'*' (pos + 1)))
                    (find_char query b'*' (pos + 1) + 1) (omega (arith, a, h)) (ground (arith, e))
                    (omega (arith, a, f))))
            (λ e.
              comment_loop-IsStep p fuel level (find_char query b'*' (pos + 1))
                (omega (arith, a, h)) a' (omega (arith, a, f))))
        (λ no. not_closed-IsStep p pos h (ground (arith, no, j)))

  pub create_comment_multi_line_-IsStep :
      (p : ℕ) → p + 1 < end_of query → IsStep query p (create_comment_multi_line_ query p (p + 1))
  unfolding create_comment_multi_line_
  create_comment_multi_line_-IsStep p h =
      comment_loop-IsStep p (suc (end_of query)) 1 (p + 1) (omega arith) (omega (arith, h))
        (omega arith)

  get_or-behind : (xs : List ℕ) (i : ℕ) → length xs ≤ i → get_or xs i 0 ≡ 0
  get_or-behind [] i h = refl
  get_or-behind (x ∷ xs) zero h = absurd (omega (arith, h))
  get_or-behind (x ∷ xs) (suc i) h = get_or-behind xs i (omega (arith, h))

  no_digit : (base : NumberBase) → is_digit 0 base ≡ false
  no_digit NumberBase.dec = refl
  no_digit NumberBase.hex = refl
  no_digit NumberBase.bin = refl

  pub raw_digits-IsWithin :
      (base : NumberBase) (fuel p : ℕ)
      → p ≤ end_of query
      → IsWithin query p (raw_digits query base fuel p)
  unfolding raw_digits
  raw_digits-IsWithin base zero p h = (omega arith, h)
  raw_digits-IsWithin base (suc fuel) p h =
      ground (arith, h, get_or-behind query p, no_digit base, raw_digits-IsWithin base fuel (p + 1))
