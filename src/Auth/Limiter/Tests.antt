-- ===== src/Auth/Limiter/Tests.antt =====
-- Runs of the limiter, and its theorems at concrete inputs. Here the digest is the username.
use ppvda.Base.{
  ℕ, ◌+◌, ◌≡◌, refl, true, ◌&&◌, List, [], ◌∷◌, arith, leb, String, length, string_discrete, ◌≢◌,
}
use text.Mathlib.TextEquality.{eq_iff}
use ppvda.Base.JsMap
use ppvda.Auth.Limiter.{AccountLimiter, init, is_limited, record_failure, fails, run}
use ppvda.Auth.Limiter.Laws.{record_all, is_limited-record_all, init-IsBounded}

abbrev same : String → String
same s = s

abbrev nine : List ℕ
nine = 1 ∷ 2 ∷ 3 ∷ 4 ∷ 5 ∷ 6 ∷ 7 ∷ 8 ∷ 9 ∷ []

ten_failures_limit : is_limited same (record_all same init "ann" (0 ∷ nine)) "ann" 900_000 ≡ true
unfolding is_limited record_all record_failure init JsMap.get JsMap.set string_discrete
ten_failures_limit = refl

is_limited-record_all_example :
    is_limited same (record_all same init "ann" (0 ∷ nine)) "ann" 900_001
    ≡ (leb 900_001 (0 + 900_000) && leb 10 (1 + length nine))
unfolding init JsMap.get
is_limited-record_all_example =
    is_limited-record_all same init "ann" 0 nine 900_001 init-IsBounded refl (omega arith)

ann_ne_bob : ◌≢◌ {A = String} "ann" "bob"
ann_ne_bob = ground (arith, eq_iff "ann" "bob")

abbrev two : AccountLimiter
two = run same init ((0, fails "ann") ∷ (1, fails "bob") ∷ [])
