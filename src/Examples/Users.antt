-- ===== src/Examples/Users.antt =====
-- webrtc-server/pkg/models/user, run from an empty manager: `ann` logs in, `bea` after her.
use webrtc_chat.Prelude.{
  ℕ, zero, suc, arith, String, ◌≡◌, refl, false, some, [], ◌∷◌, ◌++◌, done, ◌==◌, get_elem?,
}
use webrtc_chat.Errors.{ok}
use webrtc_chat.Map
use webrtc_chat.User.{User, UserCreationPayload, InMemoryUserStore, Memory, init}
use webrtc_chat.User.Manager.{
  Key, by_github_id, by_username, field_of, returned, do_add_user_by_github_id,
}
use webrtc_chat.User.Store.{IsValid}
use webrtc_chat.User.Lookup.{published}
use webrtc_chat.User.Requests.{Added, Free, do_add_user_by_github_id-Added}
use webrtc_chat.User.Race.{rival, race_swaps_identity}

abbrev pub ann : User
ann = record {
  id = "u1";
  username = "ann";
  display_name = "Ann";
  avatar_url = "";
  github_id = "11";
  dn42_asn = "";
  google_id = "";
  is_bot = false;
}

abbrev bea : User
bea = record ann { id = "u2"; username = "bea"; github_id = "12" }

abbrev cat : User
cat = record ann { id = "u3"; username = "cat"; github_id = "13" }

-- The memory after the login of `ann`.
abbrev pub with_ann : Memory
with_ann = rival ann init

init-IsValid : IsValid init
init-IsValid = tt

rival-IsValid :
    (user : User) (mem : Memory)
    → IsValid mem
    → Added by_github_id user mem (do_add_user_by_github_id user [] mem)
    → IsValid (rival user mem)
rival-IsValid user mem v (Added.existing n u at same ran) = rw ran v
rival-IsValid user mem v (Added.duplicated m f t s ran) = rw ran s.0
rival-IsValid user mem v (Added.created m f g s ran) = rw ran s.0

pub ann-IsValid : IsValid with_ann
ann-IsValid =
    rival-IsValid ann init init-IsValid (do_add_user_by_github_id-Added ann init init-IsValid)

published-with_ann : published with_ann ≡ ann ∷ []
unfolding do_add_user_by_github_id Map.get Map.empty
published-with_ann = refl

one_free :
    (key : Key) (k : String) (n : ℕ) (u : User)
    → (field_of key ann == k) ≡ false
    → get_elem? (ann ∷ []) n ≡ some u
    → (field_of key u == k) ≡ false
one_free key k zero u differ at = ground arith
one_free key k (suc n) u differ at = cc

pub ann-Free : (key : Key) (k : String) → (field_of key ann == k) ≡ false → Free key k with_ann
ann-Free key k differ n u at = one_free key k n u differ (rw published-with_ann at at)

do_add_user_by_github_id-Added_example :
    Added by_github_id bea with_ann (do_add_user_by_github_id bea [] with_ann)
do_add_user_by_github_id-Added_example = do_add_user_by_github_id-Added bea with_ann ann-IsValid

abbrev pub dan : UserCreationPayload
dan = record { username = "dan"; display_name = "Dan"; avatar_url = "" }

abbrev ann_store : InMemoryUserStore
ann_store = record { address = 0; users = ann ∷ []; indexes = 0 }

with_ann-store : with_ann.store ≡ some ann_store
unfolding do_add_user_by_github_id Map.get Map.empty
with_ann-store = refl

-- `bea` and `cat` log in for the first time at once.
race_swaps_identity_example :
    (mem' : Memory) × (do_add_user_by_github_id bea (rival cat ∷ []) with_ann
      ≡ done (returned (ok (cat, false)), mem'))
    × (published mem' ≡ published with_ann ++ cat ∷ [])
race_swaps_identity_example =
    race_swaps_identity cat bea ann_store with_ann ann-IsValid with_ann-store refl refl
      (ann-Free by_github_id "13" refl) (ann-Free by_username "cat" refl)
      (ann-Free by_github_id "12" refl) (ann-Free by_username "bea" refl)
