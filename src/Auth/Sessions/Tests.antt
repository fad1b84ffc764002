-- ===== src/Auth/Sessions/Tests.antt =====
-- Runs of the session store, and its theorems at concrete inputs.
use ppvda.Base.{ℕ, ◌≡◌, refl, List, [], ◌∷◌, string_discrete}
use ppvda.Base.JsMap
use ppvda.Auth.Sessions.{
  buffer, zero_buffer, SessionStore, empty, set_session, get_key_for_user, Call, sets, cleans, run,
}
use ppvda.Auth.Sessions.Hygiene.{IsValid}
use ppvda.Auth.Sessions.Steps.{run-empty-IsValid}
use ppvda.Auth.Sessions.Lookup.{Gives, get_key_for_user_sound}

abbrev history : List (ℕ × Call)
history = (0, sets "s1" "ann" (7 ∷ 8 ∷ [])) ∷ (5, sets "s2" "bob" (9 ∷ [])) ∷ []

abbrev two : SessionStore
two = run empty history

-- A session that is set again gets a new buffer, and the old one is zeroed.
set_again :
    (run two ((9, sets "s1" "ann" (4 ∷ [])) ∷ [])).heap ≡ (0 ∷ 0 ∷ []) ∷ (9 ∷ []) ∷ (4 ∷ []) ∷ []
unfolding run empty set_session JsMap.get JsMap.set string_discrete zero_buffer
set_again = refl

run-empty-IsValid_example : IsValid (run empty ((90_000_000, cleans) ∷ history))
run-empty-IsValid_example = run-empty-IsValid ((90_000_000, cleans) ∷ history)

get_key_for_user_sound_example : Gives two "bob" 6 (9 ∷ [])
unfolding run empty set_session JsMap.get JsMap.set get_key_for_user string_discrete buffer
get_key_for_user_sound_example =
    get_key_for_user_sound two "bob" 6 (9 ∷ []) (run-empty-IsValid history) refl
