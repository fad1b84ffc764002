-- ===== src/Auth/Gate/Locked.antt =====
-- The gate after the deletion of an account.
use ppvda.Base.{ℕ, ◌≡◌, ◌≢◌, ap, true, Option, some, String, arith}
use ppvda.Base.Text.{Text}
use ppvda.Crypto.{Primitives}
use ppvda.Db.{UserRow, get_user_by_id}
use ppvda.Auth.Sessions.Hygiene.{IsValid}
use ppvda.Auth.Server.{Server, JwtPayload, check_password}
use ppvda.Auth.Account.{delete_account}
use ppvda.Auth.Account.Keeps.{delete_account_leaves}
use ppvda.Auth.Gate.{passed, authenticate}
use ppvda.Auth.Gate.Sound.{authenticate_sound}

-- Once an account is deleted with its password, `authenticate` lets no request through as that user,
-- whatever token it carries and however long the token is still valid.
pub authenticate-delete_account :
    (p : Primitives) (verify_token : Text → Option JwtPayload) (verifying : Server → Server)
    (srv : Server) (user_id : String) (password : Text) (row : UserRow)
    (cookie authorization : Option Text) (now : ℕ) (user : JwtPayload)
    → IsValid (verifying srv).sessions
    → get_user_by_id srv.db user_id ≡ some row
    → check_password p row password ≡ some true
    → user.sub ≡ some user_id
    → (authenticate verify_token
        (delete_account p verifying srv user_id password).0
        cookie
        authorization
        now).1
      ≢ passed user
authenticate-delete_account p verify_token verifying srv user_id password row cookie authorization
      now user v found right mine h =
    let gone = delete_account_leaves p verifying srv user_id password row v found right in
    let a =
      authenticate_sound verify_token (delete_account p verifying srv user_id password).0 cookie
        authorization now user h in
    ground (arith, gone.1, a.found, a.of_user, ap (λ u. u.sub) a.seen, mine)
