-- ===== src/Fallible.antt =====
-- Calls that return a value or an error: the chain of an `if err != nil { return … }` after each, and
-- `fmt.Errorf` with a label in front of an error. An error is its text.
use Prim.Native.String.{◌++◌ as str_append}
use webrtc_chat.Prelude.{String, ◌⊎◌, inl, inr}

infixl 5 ◌>>=◌
abbrev pub ◌>>=◌ : {A B : Type 0} → A ⊎ String → (A → B ⊎ String) → B ⊎ String
inl a >>= f = f a
inr e >>= f = inr e

abbrev pub labelled : {A : Type 0} → String → A ⊎ String → A ⊎ String
labelled label (inl a) = inl a
labelled label (inr e) = inr (str_append label e)
