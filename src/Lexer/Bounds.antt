-- ===== src/Lexer/Bounds.antt =====
-- A token begins where the one before it ended, and the lexer goes forward.
use rocket_joe.Base.{
  ℕ, suc, ◌+◌, ◌≤◌, ◌<◌, ◌≡◌, refl, ◌⊎◌, inr, Bool, true, false, ◌&&◌, List, arith, ltb,
  if◌then◌else◌,
}
use rocket_joe.Lexer.{TokenType, Scan, token, NumberBase, end_of, char_at, skip, loop_digits}
use rocket_joe.Lexer.Loops.{IsWithin, skip-IsWithin, loop_digits-IsWithin, fraction_loop-IsWithin}
use rocket_joe.Lexer.Next.{after_sign, after_dot, after_exponent, in_base, number_end, number_token}

-- The token that starts at `p`: it begins there and ends where the lexer stands then, which is at
-- most one character behind the query, and further on unless it is an error.
pub record IsStep (query : List ℕ) (p : ℕ) (s : Scan) : Type 0 where
  pub begin : s.begin ≡ p
  pub end_ : s.end_ ≡ s.pos_
  pub forward : p ≤ s.pos_
  pub inside : s.pos_ ≤ end_of query + 1
  pub advances : (s.type ≡ TokenType.error) ⊎ (p < s.pos_)

module _ (query : List ℕ) where
  -- a token that ends behind its first character
  pub step : (t : TokenType) (p q : ℕ) → p < q → q ≤ end_of query + 1 → IsStep query p (token t p q)
  step t p q h j = record {
    begin = refl;
    end_ = refl;
    forward = omega (arith, h);
    inside = j;
    advances = inr h;
  }

  -- one and two characters
  pub one : (t : TokenType) (p : ℕ) → p < end_of query → IsStep query p (token t p (p + 1))
  one t p h = step t p (p + 1) (omega arith) (omega (arith, h))

  pub two : (t : TokenType) (p : ℕ) → p < end_of query → IsStep query p (token t p (p + 1 + 1))
  two t p h = step t p (p + 1 + 1) (omega arith) (omega (arith, h))

  -- a loop that starts behind the first character
  pub behind : (t : TokenType) (p q : ℕ) → IsWithin query (p + 1) q → IsStep query p (token t p q)
  behind t p q h = step t p q (omega (arith, h.0)) (omega (arith, h.1))

  -- a test between two tokens
  pub either :
      (b : Bool) {p : ℕ} {x y : Scan}
      → (b ≡ true → IsStep query p x)
      → (b ≡ false → IsStep query p y)
      → IsStep query p (if b then x else y)
  either true f g = f refl
  either false f g = g refl

  after_sign-IsWithin : (p : ℕ) → p ≤ end_of query → IsWithin query p (after_sign query p)
  after_sign-IsWithin p h = ground (arith, h)

  after_dot-IsWithin :
      (base : NumberBase) (p : ℕ) → p ≤ end_of query → IsWithin query p (after_dot query base p)
  after_dot-IsWithin base p h = ground (arith, h, loop_digits-IsWithin query base (p + 1))

  pub after_exponent-IsWithin :
      (base : NumberBase) (p : ℕ)
      → p ≤ end_of query
      → IsWithin query p (after_exponent query base p)
  after_exponent-IsWithin base p h = ground (
    arith,
    h,
    after_sign-IsWithin (p + 1),
    loop_digits-IsWithin query base (after_sign query (p + 1)),
  )

  in_base-IsWithin :
      (base : NumberBase) (p : ℕ) → p < end_of query → IsWithin query (p + 1) (in_base query base p)
  in_base-IsWithin base p h =
      let (a, a') = loop_digits-IsWithin query base (p + 1) (omega (arith, h)) in
      let (b, b') = after_dot-IsWithin base (loop_digits query base (p + 1)) a' in
      let (c, c') =
        after_exponent-IsWithin base (after_dot query base (loop_digits query base (p + 1))) b' in
      (omega (arith, a, b, c), c')

  pub number_end-IsWithin :
      (is_after_dot : Bool) (p : ℕ)
      → p < end_of query
      → IsWithin query (p + 1) (number_end query is_after_dot p)
  number_end-IsWithin is_after_dot p h = ground (
    arith,
    h,
    fraction_loop-IsWithin query (suc (end_of query)) (p + 1),
    in_base-IsWithin NumberBase.hex (p + 1),
    in_base-IsWithin NumberBase.bin (p + 1),
    in_base-IsWithin NumberBase.dec p,
  )

  pub number_token-IsStep :
      (letter : ℕ → Bool) (p q : ℕ)
      → IsWithin query (p + 1) q
      → IsStep query p (number_token query letter p q)
  number_token-IsStep letter p q (h, j) =
      either (ltb q (end_of query) && letter (char_at query q))
        (λ more.
          behind TokenType.error_wrong_number p (skip query letter q)
            (let r = skip-IsWithin query letter q j in (omega (arith, h, r.0), r.1)))
        (λ no. behind TokenType.number_literal p q (h, j))
