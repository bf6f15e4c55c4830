-- ===== src/Text/Case.antt =====
-- Upper and lower case in ASCII texts.
use hallmaster_proxy.Base.{true, ◌&&◌, [], ◌∷◌, ◌++◌, map, ◌≡◌, refl, arith}
use hallmaster_proxy.Text.{Bytes, Unicode, lower_byte, is_ascii, to_lower}

pub to_lower_ascii : (u : Unicode) (s : Bytes) → is_ascii s ≡ true → to_lower u s ≡ map lower_byte s
unfolding to_lower
to_lower_ascii u s h = rw h

pub is_ascii-append : (a b : Bytes) → is_ascii (a ++ b) ≡ (is_ascii a && is_ascii b)
unfolding is_ascii
is_ascii-append [] b = refl
is_ascii-append (c ∷ a) b = ground (arith, is_ascii-append a b)
