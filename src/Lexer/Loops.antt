-- ===== src/Lexer/Loops.antt =====
-- The loops of the lexer go forward and stay within the query.
use rocket_joe.Base.{
  ℕ, zero, suc, ◌+◌, ◌≤◌, ◌≡◌, refl, Bool, true, false, not, ◌&&◌, ◌||◌, List, arith, ltb, ◌==◌,
  if◌then◌else◌,
}
use rocket_joe.Lexer.{
  NumberBase, is_digit, end_of, char_at, is_number_separator, skip_loop, skip, digits_loop,
  loop_digits, fraction_loop, find_char, quote_loop, find_quote,
}

-- between `p` and the end of the query
abbrev pub IsWithin : List ℕ → ℕ → ℕ → Type 0
IsWithin query p q = (p ≤ q) × (q ≤ end_of query)

module _ (query : List ℕ) where
  -- one round more, where the loop goes on
  IsWithin-if :
      (b : Bool) (p q : ℕ)
      → p ≤ end_of query
      → (b ≡ true → IsWithin query (p + 1) q)
      → IsWithin query p (if b then q else p)
  IsWithin-if true p q h next = let r = next refl in (omega (arith, r.0), r.1)
  IsWithin-if false p q h next = (omega arith, h)

  skip_loop-IsWithin :
      (cond : ℕ → Bool) (fuel p : ℕ)
      → p ≤ end_of query
      → IsWithin query p (skip_loop query cond fuel p)
  unfolding skip_loop
  skip_loop-IsWithin cond zero p h = (omega arith, h)
  skip_loop-IsWithin cond (suc fuel) p h =
      IsWithin-if _ p _ h (λ more. skip_loop-IsWithin cond fuel (p + 1) (ground (arith, more)))

  pub skip-IsWithin :
      (cond : ℕ → Bool) (p : ℕ) → p ≤ end_of query → IsWithin query p (skip query cond p)
  unfolding skip
  skip-IsWithin cond p h = skip_loop-IsWithin cond (suc (end_of query)) p h

  digits_loop-IsWithin :
      (base : NumberBase) (fuel p : ℕ) (block : Bool)
      → p ≤ end_of query
      → IsWithin query p (digits_loop query base fuel block p)
  unfolding digits_loop
  digits_loop-IsWithin base zero p block h = (omega arith, h)
  digits_loop-IsWithin base (suc fuel) p block h =
      IsWithin-if
        (ltb p (end_of query)
          && (is_digit (char_at query p) base || is_number_separator query p block base))
        p (digits_loop query base fuel (char_at query (p + 1) == b'_') (p + 1)) h
        (λ more.
          digits_loop-IsWithin base fuel (p + 1) (char_at query (p + 1) == b'_')
            (ground (arith, more)))

  pub loop_digits-IsWithin :
      (base : NumberBase) (p : ℕ) → p ≤ end_of query → IsWithin query p (loop_digits query base p)
  unfolding loop_digits
  loop_digits-IsWithin base p h = digits_loop-IsWithin base (suc (end_of query)) p false h

  pub fraction_loop-IsWithin :
      (fuel p : ℕ) → p ≤ end_of query → IsWithin query p (fraction_loop query fuel p)
  unfolding fraction_loop
  fraction_loop-IsWithin zero p h = (omega arith, h)
  fraction_loop-IsWithin (suc fuel) p h =
      IsWithin-if _ p _ h (λ more. fraction_loop-IsWithin fuel (p + 1) (ground (arith, more)))

  pub find_char-IsWithin : (c p : ℕ) → p ≤ end_of query → IsWithin query p (find_char query c p)
  unfolding find_char
  find_char-IsWithin c p h = skip-IsWithin (λ d. not (d == c)) p h

  quote_loop-IsWithin :
      (quote fuel it : ℕ)
      → it ≤ end_of query + 1
      → (it ≤ quote_loop query quote fuel it + 1) × (quote_loop query quote fuel it ≤ end_of query)
  unfolding quote_loop
  quote_loop-IsWithin quote zero it h = (h, omega arith)
  quote_loop-IsWithin quote (suc fuel) it h =
      ground (arith, h, quote_loop-IsWithin quote fuel (it + 1))

  pub find_quote-IsWithin :
      (quote p : ℕ) → p ≤ end_of query → IsWithin query p (find_quote query quote p)
  unfolding find_quote
  find_quote-IsWithin quote p h =
      ground (arith, h, quote_loop-IsWithin quote (suc (end_of query)) (p + 1))
