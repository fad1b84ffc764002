-- ===== src/Auth/RouteTests.antt =====
-- The theorems about the routes at concrete inputs.
use ppvda.Auth.Recover.{recover}
use ppvda.Auth.Account.Keeps.{IsChanged, change_password_keeps}
use ppvda.Auth.Gate.Locked.{authenticate-delete_account}
use ppvda.Auth.Gate.Sound.{IsAuthentic, authenticate_sound}
use ppvda.Auth.Account.{change_password, delete_account}
use ppvda.Auth.Recover.RoundTrip.{recover_keeps}
use ppvda.Auth.Gate.{authenticate, extract_token, passed}
use ppvda.Auth.Server.Stored.{OnlySession, OpensWith}
use ppvda.Auth.Limiter.Laws.{is_limited-init}
use ppvda.Auth.Register.RoundTrip.{login-register}
use ppvda.Base.{inl, ◌≢◌, false, ◌≡◌, refl, [], ◌∷◌, none, some, replicate, string_discrete}
use ppvda.Base.JsMap
use ppvda.Base.Text.{codes}
use ppvda.Auth.Password.{is_strong_password, is_valid_username}
use ppvda.Db.Laws.{
  IsConsistent, run_changes, inserts, deletes, sets_setting, run_changes-empty-IsConsistent,
}
use ppvda.Db.{
  new_row, get_user_by_id, create_user_row, get_setting, empty_db, set_setting,
  get_user_by_username,
}
use ppvda.Auth.Sessions
use ppvda.Auth.Sessions.{sets, has, empty}
use ppvda.Auth.Limiter.Laws.{is_limited-init}
use ppvda.Auth.Limiter.{record_failure, init}
use ppvda.Auth.Server.{changed, error, recovered, logged_in, payload_of, Server}
use ppvda.Auth.Register.{register}
use ppvda.Auth.Login.{login}
use ppvda.Auth.Login.Opens.{IsGranted, login_opens, login_sound, login_uniform, session_at}
use ppvda.Auth.Sample.{
  prims, prims-IsLawful, same, password, fresh, start, keys, quiet, quiet-KeepsSessions, joined,
  ann, ann_registered, joined-IsValid, joined-IsConsistent, not_limited, ann_found, ann-IsUnlocked,
  again, again_IsDrawn, ann_by_id, new_password, new_password-IsStrong, recovery_open,
  ann-IsRecoverable, dummy, token_of, inside, nobody_found,
}

login-register_example :
    ((login prims same quiet joined "ann" password (fresh "u2" "s2" 9) 5 6).1
      ≡ logged_in (payload_of ann (fresh "u2" "s2" 9)))
    × ((Sessions.get
          (login prims same quiet joined "ann" password (fresh "u2" "s2" 9) 5 6).0.sessions
          "s2"
          100).1
        ≡ session_at 6 100 "u1" keys)
login-register_example =
    login-register prims prims-IsLawful same (λ s. s) quiet start "ann" password (fresh "u1" "s1" 7)
      (fresh "u2" "s2" 9) 5 6 100 "u1" keys ann_registered.0 quiet-KeepsSessions joined-IsValid
      not_limited

login_opens_example :
    ((login prims same quiet joined "ann" password again 5 6).1 ≡ logged_in (payload_of ann again))
    × ((Sessions.get (login prims same quiet joined "ann" password again 5 6).0.sessions "s2" 100).1
        ≡ session_at 6 100 "u1" keys)
unfolding new_row
login_opens_example =
    login_opens prims same quiet joined "ann" password again 5 6 100 ann keys quiet-KeepsSessions
      joined-IsValid not_limited ann_found ann-IsUnlocked

login_sound_example : IsGranted prims same joined "ann" password again 5 (payload_of ann again)
login_sound_example =
    login_sound prims same quiet joined "ann" password again 5 6 (payload_of ann again)
      login_opens_example.0

login_uniform_example : login prims same quiet start "bob" password again 5 6 ≡ (
  record start { login_limiter = record_failure same init "bob" 6 },
  error 401 "Username and/or password is incorrect.",
)
login_uniform_example =
    login_uniform prims same quiet start "bob" password again 5 6 (is_limited-init same "bob" 5)
      (inl nobody_found)

change_password_keeps_example :
    ((change_password prims quiet joined "u1" password new_password again 5).1
      ≡ changed (payload_of ann again) (replicate 32 9))
    × IsChanged prims
        (change_password prims quiet joined "u1" password new_password again 5).0
        "u1"
        new_password
        keys
        again
        5
change_password_keeps_example =
    change_password_keeps prims prims-IsLawful quiet joined "u1" password new_password again 5 ann
      keys joined-IsConsistent joined-IsConsistent joined-IsValid again_IsDrawn
      new_password-IsStrong ann_by_id ann-IsUnlocked

abbrev back : Server
back = (recover prims same (λ s. s) dummy joined "ann" (replicate 32 7) new_password again 5).0

recover_keeps_example :
    ((recover prims same (λ s. s) dummy joined "ann" (replicate 32 7) new_password again 5).1
      ≡ recovered (replicate 32 9))
    × OpensWith prims back.db "u1" new_password (replicate 32 9) keys
    × OnlySession back.sessions "u1" none
unfolding new_row
recover_keeps_example =
    recover_keeps prims same prims-IsLawful (λ s. s) dummy joined "ann" (replicate 32 7)
      new_password again 5 ann keys refl new_password-IsStrong recovery_open ann_found
      ann-IsRecoverable joined-IsConsistent joined-IsValid again_IsDrawn

ann_passes :
    (authenticate token_of inside (some (codes "token")) none 5).1
    ≡ passed (record { sub = some "u1"; sid = some "s2"; is_admin = false })
unfolding authenticate register get_user_by_id empty_db set_setting get_setting is_valid_username
    is_strong_password create_user_row codes string_discrete JsMap.get JsMap.set
    get_user_by_username Sessions.run empty Sessions.set_session Sessions.has
ann_passes = refl

authenticate_sound_example :
    IsAuthentic token_of inside
      (some (codes "token"))
      5
      (record { sub = some "u1"; sid = some "s2"; is_admin = false })
unfolding codes extract_token
authenticate_sound_example =
    authenticate_sound token_of inside (some (codes "token")) none 5
      (record { sub = some "u1"; sid = some "s2"; is_admin = false }) ann_passes

authenticate-delete_account_example :
    (authenticate token_of
      (delete_account prims (λ s. s) joined "u1" password).0
      (some (codes "token"))
      none
      5).1
    ≢ passed (record { sub = some "u1"; sid = some "s2"; is_admin = false })
authenticate-delete_account_example =
    authenticate-delete_account prims token_of (λ s. s) joined "u1" password ann
      (some (codes "token")) none 5 (record { sub = some "u1"; sid = some "s2"; is_admin = false })
      joined-IsValid ann_by_id ann-IsUnlocked.verified refl

run_changes-empty-IsConsistent_example : IsConsistent (
    run_changes empty_db
      (sets_setting "allow_registration" "true" ∷ inserts ann ∷ deletes "u1" ∷ []))
run_changes-empty-IsConsistent_example =
    run_changes-empty-IsConsistent
      (sets_setting "allow_registration" "true" ∷ inserts ann ∷ deletes "u1" ∷ [])
