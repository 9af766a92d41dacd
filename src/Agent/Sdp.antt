-- ===== src/Agent/Sdp.antt =====
-- webrtc-agents/pkg/handlers/common.go: the search for the ICE restart option in a description. A
-- Go text is its bytes.
pub mod Infix
use Prim.Native.Char.{code}
use Prim.Native.String
use webrtc_chat.Prelude.{
  ℕ, zero, suc, ◌+◌, ◌-◌, String, Bool, true, false, List, [], ◌∷◌, ◌&&◌, ◌||◌, nat_eq, ltb,
  if◌then◌else◌, length, take, drop,
}

-- The bytes of a text in ASCII.
abbrev pub ascii : String → List ℕ
ascii String.[] = []
ascii (String.◌∷◌ c s) = code c ∷ ascii s

-- s == t
unfoldable pub bytes_eq : List ℕ → List ℕ → Bool
bytes_eq [] [] = true
bytes_eq [] (y ∷ t) = false
bytes_eq (x ∷ s) [] = false
bytes_eq (x ∷ s) (y ∷ t) = if nat_eq x y then bytes_eq s t else false

-- s[i:i+len(substr)]
abbrev pub slice : List ℕ → ℕ → ℕ → List ℕ
slice s i n = take n (drop i s)

-- The loop over `i`, with the number of turns that are left.
unfoldable pub contains_from : List ℕ → List ℕ → ℕ → ℕ → Bool
unfolding bytes_eq
contains_from s substr i zero = false
contains_from s substr i (suc turns) =
    if bytes_eq (slice s i (length substr)) substr
    then true
    else contains_from s substr (suc i) turns

-- `i` goes from 0 up to len(s)-len(substr), which is negative for a longer substr.
unfoldable pub contains : List ℕ → List ℕ → Bool
unfolding contains_from
contains s substr = contains_from s substr 0 (suc (length s) - length substr)

unfoldable pub contains_ice_restart_option : List ℕ → Bool
unfolding contains
contains_ice_restart_option sdp =
    ltb 0 (length sdp)
    && (contains sdp (ascii "a=ice-options:restart") || contains sdp (ascii "ice-options:restart"))
