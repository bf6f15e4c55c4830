-- ===== src/Http/Fields.antt =====
-- http.Header: the values of each canonical key.
use Prim.Native.String.{String}
use text.Mathlib.Text.{◌==◌ as str_eq}
use text.Mathlib.TextEquality.{eq_iff}
use hallmaster_proxy.Base.{List, [], ◌∷◌, ◌≡◌, arith, if◌then◌else◌}
use hallmaster_proxy.Text.{Bytes}

abbrev pub Header : Type 0
Header = List (String × List Bytes)

-- h[key]
unfoldable pub values : Header → String → List Bytes
values [] key = []
values ((k, vs) ∷ h) key = if str_eq k key then vs else values h key

abbrev first : List Bytes → Bytes
first [] = []
first (v ∷ vs) = v

-- h.Get(key), for a key in canonical form
unfoldable pub get : Header → String → Bytes
unfolding values
get h key = first (values h key)

-- h.Del(key)
unfoldable pub del : Header → String → Header
del [] key = []
del ((k, vs) ∷ h) key = let rest = del h key in if str_eq k key then rest else (k, vs) ∷ rest

-- h.Set(key, value)
unfoldable pub set : Header → String → Bytes → Header
unfolding del
set h key value = (key, value ∷ []) ∷ del h key

pub values-del :
    (h : Header) (key other : String)
    → values (del h key) other ≡ (if str_eq key other then [] else values h other)
unfolding values del
values-del [] key other = ground arith
values-del ((k, vs) ∷ h) key other =
    ground (arith, values-del h key other, eq_iff k key, eq_iff k other, eq_iff key other)

pub values-set :
    (h : Header) (key other : String) (value : Bytes)
    → values (set h key value) other ≡ (if str_eq key other then value ∷ [] else values h other)
unfolding values set
values-set h key other value = ground (arith, values-del h key other, eq_iff key other)

pub get-del :
    (h : Header) (key other : String)
    → get (del h key) other ≡ (if str_eq key other then [] else get h other)
unfolding get
get-del h key other = ground (arith, values-del h key other)

pub get-set :
    (h : Header) (key other : String) (value : Bytes)
    → get (set h key value) other ≡ (if str_eq key other then value else get h other)
unfolding get
get-set h key other value = ground (arith, values-set h key other value)

pub ruleset header_laws = (values-del, values-set, get-del, get-set)
