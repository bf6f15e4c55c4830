-- ===== src/Text.antt =====
-- Go's strings as lists of bytes, and the functions of package strings and bytes that the proxy
-- calls. The Unicode tables of strings.ToLower and strings.EqualFold are a parameter: they serve
-- texts with a byte above 127 only.
pub mod Affix
pub mod Case
pub mod Decimal
pub mod Atoi
use Prim.Native.Char.{code}
use Prim.Native.String.{String}
use hallmaster_proxy.Base.{
  ℕ, zero, suc, ◌+◌, ◌-◌, Bool, true, false, ◌&&◌, ◌||◌, List, [], ◌∷◌, ◌++◌, Option, none, some,
  map, ltb, leb, ◌==◌, if◌then◌else◌, length, take, drop,
}

abbrev pub Bytes : Type 0
Bytes = List ℕ

-- The bytes of an ASCII literal.
abbrev pub codes : String → Bytes
codes String.[] = []
codes (String.◌∷◌ c s) = code c ∷ codes s

unfoldable pub equal : Bytes → Bytes → Bool
equal [] [] = true
equal (x ∷ xs) (y ∷ ys) = x == y && equal xs ys
equal _ _ = false

-- strings.HasPrefix
unfoldable pub has_prefix : Bytes → Bytes → Bool
has_prefix s [] = true
has_prefix [] (p ∷ ps) = false
has_prefix (x ∷ s) (p ∷ ps) = x == p && has_prefix s ps

-- strings.HasSuffix
unfoldable pub has_suffix : Bytes → Bytes → Bool
unfolding equal
has_suffix s suffix =
    leb (length suffix) (length s) && equal (drop (length s - length suffix) s) suffix

-- strings.TrimSuffix
unfoldable pub trim_suffix : Bytes → Bytes → Bytes
unfolding has_suffix
trim_suffix s suffix = if has_suffix s suffix then take (length s - length suffix) s else s

-- strings.Contains
unfoldable pub contains : Bytes → Bytes → Bool
unfolding has_prefix
contains [] sub = has_prefix [] sub
contains (x ∷ s) sub = has_prefix (x ∷ s) sub || contains s sub

abbrev first_place : Bool → Option ℕ → Option ℕ
first_place true rest = some 0
first_place false none = none
first_place false (some i) = some (suc i)

abbrev last_place : Option ℕ → Bool → Option ℕ
last_place (some i) here = some (suc i)
last_place none true = some 0
last_place none false = none

-- strings.IndexByte, -1 being `none`
unfoldable pub index_byte : Bytes → ℕ → Option ℕ
index_byte [] c = none
index_byte (x ∷ s) c = first_place (x == c) (index_byte s c)

-- strings.LastIndexByte
unfoldable pub last_index_byte : Bytes → ℕ → Option ℕ
last_index_byte [] c = none
last_index_byte (x ∷ s) c = last_place (last_index_byte s c) (x == c)

unfoldable pub lower_byte : ℕ → ℕ
lower_byte c = if leb b'A' c && leb c b'Z' then c + 32 else c

unfoldable pub is_ascii : Bytes → Bool
is_ascii [] = true
is_ascii (c ∷ s) = ltb c 128 && is_ascii s

-- The part of package unicode behind the two functions below.
pub record Unicode : Type 0 where
  pub lower : Bytes → Bytes
  pub fold : Bytes → Bytes → Bool

-- strings.ToLower, with its fast path for ASCII
unfoldable pub to_lower : Unicode → Bytes → Bytes
unfolding is_ascii lower_byte
to_lower u s = if is_ascii s then map lower_byte s else u.lower s

-- strings.EqualFold: bytes are compared up to the first pair that is not ASCII.
unfoldable pub equal_fold : Unicode → Bytes → Bytes → Bool
unfolding lower_byte
equal_fold u [] [] = true
equal_fold u (x ∷ s) (y ∷ t) =
    let rest = equal_fold u s t in
    if leb 128 x || leb 128 y
    then u.fold (x ∷ s) (y ∷ t)
    else if lower_byte x == lower_byte y
    then rest
    else false
equal_fold u _ _ = false
