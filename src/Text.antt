-- ===== src/Text.antt =====
-- What the program uses of the package strings.
use Prim.Native.Char.{code}
use Prim.Native.String.{◌++◌ as str_append}
use text.Mathlib.TextEquality.{Char-path}
use text.Mathlib.TextLemmas.{nil-append, cons-append}
use webrtc_chat.Prelude.{
  ℕ, ◌≡◌, refl, ap, leb, arith, ◌&&◌, String, Bool, Option, none, some, ◌==◌, ◌||◌, nat_eq,
  if◌then◌else◌,
}

-- strings.HasSuffix
unfoldable pub has_suffix : String → String → Bool
has_suffix String.[] suffix = suffix == ""
has_suffix (String.◌∷◌ c s) suffix = String.◌∷◌ c s == suffix || has_suffix s suffix

-- strings.CutPrefix: the rest, if the text has the prefix.
unfoldable pub cut_prefix : String → String → Option String
cut_prefix s String.[] = some s
cut_prefix String.[] (String.◌∷◌ d prefix) = none
cut_prefix (String.◌∷◌ c s) (String.◌∷◌ d prefix) =
    let rest = cut_prefix s prefix in if nat_eq (code c) (code d) then rest else none

-- unicode.IsSpace
is_space : ℕ → Bool
is_space c =
    (leb 9 c && leb c 13)
    || (nat_eq c 32
        || (nat_eq c 0x85
            || (nat_eq c 0xa0
                || (nat_eq c 0x1680
                    || ((leb 0x2000 c && leb c 0x200a)
                        || (nat_eq c 0x2028
                            || (nat_eq c 0x2029
                                || (nat_eq c 0x202f || (nat_eq c 0x205f || nat_eq c 0x3000)))))))))

trim_left : String → String
unfolding is_space
trim_left String.[] = ""
trim_left (String.◌∷◌ c s) =
    let rest = trim_left s in if is_space (code c) then rest else String.◌∷◌ c s

trim_right : String → String
unfolding is_space
trim_right String.[] = ""
trim_right (String.◌∷◌ c s) =
    let rest = trim_right s in if rest == "" && is_space (code c) then "" else String.◌∷◌ c rest

-- strings.TrimSpace
unfoldable pub trim_space : String → String
unfolding trim_left trim_right
trim_space s = trim_right (trim_left s)

-- A cut leaves the rest of a text that starts with the prefix.
pub cut_prefix-append :
    (prefix rest : String) → cut_prefix (str_append prefix rest) prefix ≡ some rest
unfolding cut_prefix
cut_prefix-append String.[] rest = ap some (nil-append rest)
cut_prefix-append (String.◌∷◌ d prefix) rest =
    let shorter = cut_prefix-append prefix rest in
    rw (cons-append d prefix rest) (ground (arith, shorter))

pub append-cut_prefix :
    (s prefix rest : String) → cut_prefix s prefix ≡ some rest → s ≡ str_append prefix rest
unfolding cut_prefix
append-cut_prefix s String.[] rest h = cc (h, nil-append rest)
append-cut_prefix String.[] (String.◌∷◌ d prefix) rest h = absurd (cc h)
append-cut_prefix (String.◌∷◌ c s) (String.◌∷◌ d prefix) rest h =
    let same : code c ≡ code d = ground arith in
    let shorter = append-cut_prefix s prefix rest (ground arith) in
    rw (cons-append d prefix rest, shorter, Char-path c d same) refl
