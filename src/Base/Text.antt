-- ===== src/Base/Text.antt =====
-- What the program uses of Go's `strings` and `fmt`, on code points.
-- `to_lower` maps the ASCII letters; every keyword that the program looks for is ASCII.
use Prim.Native.Nat.{ℕ, zero, suc, ◌+◌, ◌/◌, ◌%◌}
use Prim.Native.Char.{Char, code}
use Prim.Native.String.{String, ◌++◌}
use mathlib.Core.Path.{◌≡◌, refl}
use mathlib.Core.Bool.{Bool, true, false, ◌&&◌, ◌||◌}
use mathlib.Core.Option.{Option, none, some}
use mathlib.Core.List.{List, [], ◌∷◌, map}
use native.Mathlib.Omega.{arith}
use text.Mathlib.TextLemmas.{cons-append}
use compute_agent.Base.Tests.{ltb, leb, ◌==◌, if◌then◌else◌}

abbrev pub codes : String → List ℕ
codes String.[] = []
codes (String.◌∷◌ c s) = code c ∷ codes s

-- The bytes of a code point in UTF-8
abbrev code_bytes : ℕ → ℕ
code_bytes c = if ltb c 128 then 1 else if ltb c 2048 then 2 else if ltb c 65_536 then 3 else 4

abbrev all_bytes : List ℕ → ℕ
all_bytes [] = 0
all_bytes (c ∷ cs) = code_bytes c + all_bytes cs

-- Go's `len` of a string, in bytes
abbrev pub byte_length : String → ℕ
byte_length s = all_bytes (codes s)

unfoldable pub to_lower : ℕ → ℕ
to_lower c = if leb b'A' c && leb c b'Z' then c + 32 else c

-- `strings.ToLower`
unfoldable pub lower_codes : String → List ℕ
unfolding to_lower
lower_codes s = map to_lower (codes s)

-- `strings.HasPrefix`, the text first
unfoldable pub has_prefix : List ℕ → List ℕ → Bool
has_prefix s [] = true
has_prefix [] (c ∷ cs) = false
has_prefix (d ∷ s) (c ∷ cs) = d == c && has_prefix s cs

-- `strings.Contains`, the text first
unfoldable pub has_infix : List ℕ → List ℕ → Bool
unfolding has_prefix
has_infix [] t = has_prefix [] t
has_infix (d ∷ s) t = has_prefix (d ∷ s) t || has_infix s t

-- `unicode.IsSpace`
unfoldable pub is_space : ℕ → Bool
is_space c =
    leb 9 c && leb c 13
    || c == 32
    || c == 0x85
    || c == 0xa0
    || c == 0x1680
    || leb 0x2000 c && leb c 0x200a
    || c == 0x2028
    || c == 0x2029
    || c == 0x202f
    || c == 0x205f
    || c == 0x3000

trim_left : String → String
trim_left String.[] = ""
trim_left (String.◌∷◌ c s) =
    let rest = trim_left s in if is_space (code c) then rest else String.◌∷◌ c s

trim_after : Char → String → String
trim_after c String.[] = if is_space (code c) then "" else String.◌∷◌ c ""
trim_after c (String.◌∷◌ d s) = String.◌∷◌ c (String.◌∷◌ d s)

trim_right : String → String
trim_right String.[] = ""
trim_right (String.◌∷◌ c s) = trim_after c (trim_right s)

-- `strings.TrimSpace`
unfoldable pub trim_space : String → String
unfolding is_space trim_left trim_after trim_right
trim_space s = trim_right (trim_left s)

abbrev pub is_blank : String → Bool
is_blank String.[] = true
is_blank (String.◌∷◌ c s) = false

digit : ℕ → String
digit zero = "0"
digit (suc zero) = "1"
digit (suc (suc zero)) = "2"
digit (suc (suc (suc zero))) = "3"
digit (suc (suc (suc (suc zero)))) = "4"
digit (suc (suc (suc (suc (suc zero))))) = "5"
digit (suc (suc (suc (suc (suc (suc zero)))))) = "6"
digit (suc (suc (suc (suc (suc (suc (suc zero))))))) = "7"
digit (suc (suc (suc (suc (suc (suc (suc (suc zero)))))))) = "8"
digit (suc (suc (suc (suc (suc (suc (suc (suc (suc n))))))))) = "9"

-- A number has fewer decimal digits than its successor counts, so the fuel suffices.
digits : ℕ → ℕ → String
digits zero n = ""
digits (suc fuel) n =
    let rest = digits fuel (n / 10) ++ digit (n % 10) in if ltb n 10 then digit n else rest

-- `%d` of a number that is not negative
unfoldable pub decimal : ℕ → String
unfolding digit digits
decimal n = digits (suc n) n

decimal_runs : decimal 12045 ≡ "12045"
unfolding decimal
decimal_runs = refl

trim_runs : trim_space " a b\n" ≡ "a b"
unfolding trim_space
trim_runs = refl

-- `strings.TrimPrefix` of a slash
unfoldable pub trim_slash : String → String
trim_slash String.[] = ""
trim_slash (String.◌∷◌ c s) = if code c == b'/' then s else String.◌∷◌ c s

pub is_blank-append : (s t : String) → is_blank s ≡ false → is_blank (s ++ t) ≡ false
is_blank-append String.[] t h = ground arith
is_blank-append (String.◌∷◌ c s) t h = rw (cons-append c s t)

-- The letter below that which stands in the same place above.
lower_in : String → String → Char → Char
lower_in (String.◌∷◌ u us) (String.◌∷◌ l ls) c =
    let rest = lower_in us ls c in if code c == code u then l else rest
lower_in _ _ c = c

-- `strings.ToLower`, on the ASCII letters
unfoldable pub lower : String → String
unfolding lower_in
lower String.[] = ""
lower (String.◌∷◌ c s) =
    String.◌∷◌ (lower_in "ABCDEFGHIJKLMNOPQRSTUVWXYZ" "abcdefghijklmnopqrstuvwxyz" c) (lower s)

lower_runs : lower "Ceph-RBD 2" ≡ "ceph-rbd 2"
unfolding lower
lower_runs = refl

-- What follows a prefix, the prefix first.
unfoldable pub strip_prefix : String → String → Option String
strip_prefix String.[] s = some s
strip_prefix (String.◌∷◌ p ps) String.[] = none
strip_prefix (String.◌∷◌ p ps) (String.◌∷◌ c s) =
    let rest = strip_prefix ps s in if code p == code c then rest else none

abbrev pub after_char : Char → Option (String × String) → Option (String × String)
after_char c none = none
after_char c (some (before, after)) = some (String.◌∷◌ c before, after)

abbrev here_or : Option String → Option (String × String) → Option (String × String)
here_or none later = later
here_or (some after) later = some ("", after)

-- `strings.Cut`, the separator first
unfoldable pub cut_at : String → String → Option (String × String)
unfolding strip_prefix
cut_at sep String.[] = none
cut_at sep (String.◌∷◌ c s) =
    here_or (strip_prefix sep (String.◌∷◌ c s)) (after_char c (cut_at sep s))

cut_runs : cut_at ":/" "nas:/a:/b" ≡ some ("nas", "a:/b")
unfolding cut_at
cut_runs = refl
