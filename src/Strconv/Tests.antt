-- ===== src/Strconv/Tests.antt =====
-- The bounds of the readers.
use golagram.Base.{◌≡◌, ◌^◌, refl, none, some, codes}
use golagram.Strconv.{format_int, parse_int, parse_uint}

lowest_int64 : format_int (2 ^ 63) ≡ codes "-9223372036854775808"
unfolding format_int
lowest_int64 = refl

lowest_read : parse_int (codes "-9223372036854775808") ≡ some (2 ^ 63)
unfolding parse_int
lowest_read = refl

int64_overflow : parse_int (codes "9223372036854775808") ≡ none
unfolding parse_int
int64_overflow = refl

uint64_overflow : parse_uint (codes "18446744073709551616") ≡ none
unfolding parse_uint
uint64_overflow = refl
