-- ===== src/Agent/Sdp/Infix.antt =====
-- webrtc-agents/pkg/handlers/common.go: the search against its specification.
use webrtc_chat.Prelude.{
  ℕ, zero, suc, ◌+◌, ◌-◌, ◌≤◌, ◌<◌, ◌≡◌, refl, ◌∙◌, sym, ap, ◌↔◌, ◌⊎◌, Bool, true, false, List, [],
  ◌∷◌, ◌++◌, ◌&&◌, ◌||◌, arith, nat_eq, ltb, inl, inr, Bool-cases, length, take, drop,
  length-append, take-append, drop-append,
}
use mathlib.Core.List.{append_assoc}
use webrtc_chat.Agent.Sdp.{
  ascii, bytes_eq, slice, contains_from, contains, contains_ice_restart_option,
}

-- `t` stands somewhere in `s`.
abbrev pub Infix : List ℕ → List ℕ → Type 0
Infix t s = (before after : List ℕ) × (s ≡ before ++ (t ++ after))

bytes_eq_sound : (s t : List ℕ) → bytes_eq s t ≡ true → s ≡ t
unfolding bytes_eq
bytes_eq_sound [] [] h = refl
bytes_eq_sound [] (y ∷ t) h = cc
bytes_eq_sound (x ∷ s) [] h = cc
bytes_eq_sound (x ∷ s) (y ∷ t) h = ground (arith, bytes_eq_sound s t)

bytes_eq_refl : (s : List ℕ) → bytes_eq s s ≡ true
unfolding bytes_eq
bytes_eq_refl [] = refl
bytes_eq_refl (x ∷ s) = ground (arith, bytes_eq_refl s)

take-drop : (n : ℕ) (s : List ℕ) → s ≡ take n s ++ drop n s
take-drop zero s = refl
take-drop (suc n) [] = refl
take-drop (suc n) (x ∷ s) = ap (λ l. x ∷ l) (take-drop n s)

contains_from_sound : (s t : List ℕ) (i turns : ℕ) → contains_from s t i turns ≡ true → Infix t s
unfolding contains_from
contains_from_sound s t i zero h = cc
contains_from_sound s t i (suc turns) h = elim (Bool-cases (bytes_eq (slice s i (length t)) t)) [
  | inl e ↦ (
    take i s,
    drop (length t) (drop i s),
    take-drop i s
        ∙ ap (λ l. take i s ++ l)
            (take-drop (length t) (drop i s)
              ∙ ap (λ l. l ++ drop (length t) (drop i s)) (bytes_eq_sound _ t e)),
  )
  | inr e ↦ contains_from_sound s t (suc i) turns (rw e at h)
]

not_here :
    (s t : List ℕ) (i j : ℕ)
    → slice s j (length t) ≡ t
    → bytes_eq (slice s i (length t)) t ≡ false
    → i ≤ j
    → suc i ≤ j
not_here s t i j h e le = elim (Bool-cases (nat_eq i j)) [
  | inr differ ↦ ground arith
  | inl same ↦
      let eq : i ≡ j = ground arith in
      let at_j : bytes_eq (slice s j (length t)) t ≡ false = rw eq at e in
      let at_t : bytes_eq t t ≡ false = rw h at at_j in absurd (cc (at_t, bytes_eq_refl t))
]

-- An occurrence at position j is found if the loop still comes by.
contains_from_complete :
    (s t : List ℕ) (i turns j : ℕ)
    → slice s j (length t) ≡ t
    → i ≤ j
    → j < i + turns
    → contains_from s t i turns ≡ true
unfolding contains_from
contains_from_complete s t i zero j h le lt = absurd (omega (arith, le, lt))
contains_from_complete s t i (suc turns) j h le lt =
    elim (Bool-cases (bytes_eq (slice s i (length t)) t)) [
      | inl e ↦ rw e refl
      | inr e ↦ rw e (
          contains_from_complete s t (suc i) turns j h (not_here s t i j h e le)
            (omega (arith, lt)))
    ]

slice-infix :
    (before t after : List ℕ) → slice (before ++ (t ++ after)) (length before) (length t) ≡ t
slice-infix before t after = rw (drop-append before (t ++ after)) (take-append t after)

length-infix :
    (s before t after : List ℕ)
    → s ≡ before ++ (t ++ after)
    → length before < suc (length s) - length t
length-infix s before t after e =
    let whole : length s ≡ length (before ++ (t ++ after)) = ap length e in
    omega (arith, whole, length-append before (t ++ after), length-append t after)

-- The search finds a text exactly when it stands somewhere in the other.
pub contains_iff : (s t : List ℕ) → (contains s t ≡ true) ↔ Infix t s
unfolding contains
contains_iff s t = (
  contains_from_sound s t 0 (suc (length s) - length t),
  λ (before, after, e).
      contains_from_complete s t 0 (suc (length s) - length t) (length before)
        (rw e (slice-infix before t after)) (omega arith)
        (omega (arith, length-infix s before t after e)),
)

abbrev pub long_option : List ℕ
long_option = ascii "a=ice-options:restart"

abbrev pub short_option : List ℕ
short_option = ascii "ice-options:restart"

Infix-short : (sdp : List ℕ) → Infix long_option sdp → Infix short_option sdp
Infix-short sdp (before, after, e) = (
  before ++ 97 ∷ 61 ∷ [],
  after,
  e ∙ sym (append_assoc before (97 ∷ 61 ∷ []) (short_option ++ after)),
)

guard_elim : (g a b : Bool) → (g && (a || b)) ≡ true → a ≡ false → b ≡ true
guard_elim true true b h e = cc
guard_elim true false b h e = h
guard_elim false a b h e = cc

guard_intro : (g a b : Bool) → g ≡ true → b ≡ true → (g && (a || b)) ≡ true
guard_intro true true b h e = refl
guard_intro true false b h e = e
guard_intro false a b h e = cc

either_option :
    (sdp : List ℕ)
    → contains_ice_restart_option sdp ≡ true
    → (contains sdp long_option ≡ true) ⊎ (contains sdp short_option ≡ true)
unfolding contains_ice_restart_option
either_option sdp h = elim (Bool-cases (contains sdp long_option)) [
  | inl e ↦ inl e
  | inr e ↦ inr (guard_elim (ltb 0 (length sdp)) _ _ h e)
]

option_found :
    (sdp : List ℕ) → contains sdp short_option ≡ true → contains_ice_restart_option sdp ≡ true
unfolding contains_ice_restart_option contains contains_from
option_found [] h = cc
option_found (x ∷ sdp) h =
    guard_intro (ltb 0 (suc (length sdp))) (contains (x ∷ sdp) long_option) _ (ground arith) h

-- The two searches for the restart option come to one: it is found exactly when the bytes
-- "ice-options:restart" stand somewhere in the description.
pub contains_ice_restart_option_iff :
    (sdp : List ℕ) → (contains_ice_restart_option sdp ≡ true) ↔ Infix short_option sdp
contains_ice_restart_option_iff sdp = (
  λ h. elim (either_option sdp h) [
    | inl e ↦ Infix-short sdp ((contains_iff sdp long_option).0 e)
    | inr e ↦ (contains_iff sdp short_option).0 e
  ],
  λ h. option_found sdp ((contains_iff sdp short_option).1 h),
)
