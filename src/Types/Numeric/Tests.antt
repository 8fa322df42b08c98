-- ===== src/Types/Numeric/Tests.antt =====
-- The theorems on numeric headers at -0.05 in both formats.
use pg_arrow.Base.{◌≡◌, arith, true, to_le, [], ◌∷◌, ◌++◌, ok}
use pg_arrow.Base.Int.{pos, negsuc, unsigned}
use pg_arrow.Types.Numeric.Header.{
  short_word, long_word, parse_numeric_header-short_word, parse_numeric_header-long_word,
}
use pg_arrow.Types.Numeric.{NumericHeader, parse_numeric_header}
use Prim.Native.Nat.{◌^◌}

abbrev five_hundredths : NumericHeader
five_hundredths = record {
  digits = 244 ∷ 1 ∷ [];
  ndigits = pos 1;
  weight = negsuc 0;
  dscale = 2;
  is_neg = true;
}

parse_numeric_header-short_word_example :
    parse_numeric_header (to_le 2 (short_word true 2 (negsuc 0)) ++ (244 ∷ 1 ∷ []))
    ≡ ok five_hundredths
parse_numeric_header-short_word_example =
    parse_numeric_header-short_word true 2 (negsuc 0) (244 ∷ 1 ∷ []) (omega arith) (omega arith)
      (omega arith)

parse_numeric_header-long_word_example :
    parse_numeric_header
      (to_le 2 (long_word true 2) ++ (to_le 2 (unsigned (2 ^ 15) (negsuc 0)) ++ (244 ∷ 1 ∷ [])))
    ≡ ok five_hundredths
parse_numeric_header-long_word_example =
    parse_numeric_header-long_word true 2 (negsuc 0) (244 ∷ 1 ∷ []) (omega arith) (omega arith)
      (omega arith)
