-- ===== src/Relay/Store/CacheKey.antt =====
-- The cache key of a document names its channel and its document, whatever their letters.
use obsync.Base.{
  ◌≡◌, sym, ap, ap₂, ◌∙◌, [], ◌∷◌, ◌++◌, arith, Text, length, take, drop, All, take-length_append,
  drop-length_append, ite, ℕ_discrete,
}
use obsync.Base.Decimal.{decimal, decimal-injective, decimal-IsDigit, IsDigit}
use obsync.Relay.Store.{cache_key}

-- What stands before and after the first colon.
before_colon : Text → Text
before_colon [] = []
before_colon (c ∷ s) = ite (ℕ_discrete c 58) [] (c ∷ before_colon s)

after_colon : Text → Text
after_colon [] = []
after_colon (c ∷ s) = ite (ℕ_discrete c 58) s (after_colon s)

before_colon-append : (s r : Text) → All IsDigit s → before_colon (s ++ 58 ∷ r) ≡ s
unfolding before_colon
before_colon-append [] r h = ground arith
before_colon-append (c ∷ s) r h = ground (arith, before_colon-append s r h.1)

after_colon-append : (s r : Text) → All IsDigit s → after_colon (s ++ 58 ∷ r) ≡ r
unfolding after_colon
after_colon-append [] r h = ground arith
after_colon-append (c ∷ s) r h = ground (arith, after_colon-append s r h.1)

-- Two pairs of texts have one cache key only if they are the same pair.
pub cache_key-injective : (c d c' d' : Text) → cache_key c d ≡ cache_key c' d' → (c ≡ c') × (d ≡ d')
unfolding cache_key
cache_key-injective c d c' d' e = (
  sym (take-length_append c d) ∙ (ap₂ take same_length same_rest ∙ take-length_append c' d'),
  sym (drop-length_append c d) ∙ (ap₂ drop same_length same_rest ∙ drop-length_append c' d'),
)
  where
    same_digits : decimal (length c) ≡ decimal (length c')
    same_digits =
        sym (before_colon-append (decimal (length c)) (c ++ d) (decimal-IsDigit (length c)))
        ∙ (ap before_colon e
            ∙ before_colon-append (decimal (length c')) (c' ++ d') (decimal-IsDigit (length c')))

    same_length : length c ≡ length c'
    same_length = decimal-injective (length c) (length c') same_digits

    same_rest : c ++ d ≡ c' ++ d'
    same_rest =
        sym (after_colon-append (decimal (length c)) (c ++ d) (decimal-IsDigit (length c)))
        ∙ (ap after_colon e
            ∙ after_colon-append (decimal (length c')) (c' ++ d') (decimal-IsDigit (length c')))
