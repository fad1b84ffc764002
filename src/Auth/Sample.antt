-- ===== src/Auth/Sample.antt =====
-- A small server with one user, whose cipher leaves the text as it is and makes its tag of the key and the
-- AAD, whose derivation gives the password, and whose encodings change nothing.
use ppvda.Auth.Recover.{Dummy}
use ppvda.Auth.Server.Unlock.{
  IsDrawn, IsRecoverable, IsUnlocked, new_row-IsRecoverable, new_row-IsUnlocked,
}
use ppvda.Auth.Limiter.Laws.{is_limited-init}
use ppvda.Auth.Sessions.Steps.{run-empty-IsValid}
use ppvda.Auth.Register.RoundTrip.{get_user_by_username-register, registered_row}
use ppvda.Auth.Sessions.Hygiene.{IsValid}
use ppvda.Base.{
  false, true, ℕ, ◌+◌, ◌≡◌, refl, [], ◌∷◌, Option, none, some, String, replicate, if◌then◌else◌,
  string_discrete,
}
use ppvda.Base.JsMap
use ppvda.Base.Text.{Text, codes, equal}
use ppvda.Crypto.{Primitives, IsLawful}
use ppvda.Crypto.RoundTrip.{equal_self}
use ppvda.Auth.Password.{is_strong_password, is_valid_username}
use ppvda.Db.Laws.{IsConsistent, run_changes, inserts, sets_setting, run_changes-empty-IsConsistent}
use ppvda.Db.{
  get_user_by_id, UserRow, create_user_row, get_setting, empty_db, set_setting,
  get_user_by_username,
}
use ppvda.Auth.Sessions
use ppvda.Auth.Sessions.{sets, has, empty}
use ppvda.Auth.Limiter.Laws.{is_limited-init}
use ppvda.Auth.Limiter.{is_limited, init}
use ppvda.Auth.Server.{JwtPayload, Server, Fresh, registered}
use ppvda.Auth.Register.{register}
use ppvda.Auth.Login.{LoginWaits}
use ppvda.Auth.Login.Opens.{KeepsSessions}

abbrev pub first : Text → ℕ
first [] = 0
first (c ∷ t) = c

abbrev pub first_of : Option Text → ℕ
first_of none = 0
first_of (some t) = first t

abbrev pub tag_of : Text → Option Text → Text
tag_of key aad = replicate 16 (first key + first_of aad)

abbrev pub prims : Primitives
prims = record {
  seal = λ key nonce aad plain. (plain, tag_of key aad);
  open_sealed = λ key nonce aad text tag. if equal tag (tag_of key aad) then some text else none;
  argon2id = λ password salt. password;
  scrypt = λ password salt. password;
  pbkdf2 = λ password salt n. password;
  to_base64 = λ t. t;
  to_base64url = λ t. t;
  from_hex = λ t. t;
  from_base64url = λ t. t;
}

pub prims-IsLawful : IsLawful prims
prims-IsLawful = record {
  open-seal = λ key nonce aad plain. rw (equal_self (tag_of key aad)) refl;
  length-tag = λ key nonce aad plain. refl;
  from-to_base64url = λ t. refl;
}

abbrev pub same : String → String
same s = s

abbrev pub password : Text
password = codes "Tr0ub4dor&3-horse"

abbrev pub fresh : String → String → ℕ → Fresh
fresh id sid n = record {
  user_id = id;
  session_id = sid;
  master_key = replicate 32 n;
  auth_salt = replicate 16 n;
  kdf_salt = replicate 16 n;
  nonce = replicate 12 n;
  recovery_code = replicate 32 n;
  recovery_nonce = replicate 12 n;
  week = n;
}

abbrev pub start : Server
start = record {
  db = set_setting empty_db "allow_registration" "true";
  sessions = empty;
  login_limiter = init;
  recover_limiter = init;
}

abbrev pub keys : Text
keys = replicate 32 7

abbrev pub quiet : LoginWaits
quiet = record { verifying = λ s. s; deriving_key = λ s. s }

pub quiet-KeepsSessions : KeepsSessions quiet
quiet-KeepsSessions = record { verifying = λ s v. v; deriving_key = λ s v. v }

abbrev pub joined : Server
joined = (register prims (λ s. s) start "ann" password (fresh "u1" "s1" 7)).0

abbrev pub ann : UserRow
ann = registered_row prims "ann" password (fresh "u1" "s1" 7)

-- The registration, and the state behind it.
pub ann_registered :
    ((register prims (λ s. s) start "ann" password (fresh "u1" "s1" 7)).1
      ≡ registered "u1" (replicate 32 7))
    × (joined.sessions ≡ Sessions.run empty [])
    × (joined.login_limiter ≡ init)
    × (joined.recover_limiter ≡ init)
    × (joined.db
        ≡ run_changes empty_db (sets_setting "allow_registration" "true" ∷ inserts ann ∷ []))
unfolding register Sessions.run run_changes empty_db set_setting get_setting is_valid_username
    is_strong_password create_user_row codes string_discrete JsMap.get JsMap.set
    get_user_by_username
ann_registered = (refl, refl, refl, refl, refl)

pub joined-IsValid : IsValid joined.sessions
joined-IsValid = rw (ann_registered.1) (run-empty-IsValid [])

pub joined-IsConsistent : IsConsistent joined.db
joined-IsConsistent =
    rw (ann_registered.4)
      (run_changes-empty-IsConsistent (sets_setting "allow_registration" "true" ∷ inserts ann ∷ []))

pub not_limited : is_limited same joined.login_limiter "ann" 5 ≡ false
not_limited = rw (ann_registered.2) (is_limited-init same "ann" 5)

pub ann_found : get_user_by_username joined.db "ann" ≡ some ann
ann_found =
    get_user_by_username-register prims (λ s. s) start "ann" password (fresh "u1" "s1" 7) "u1" keys
      ann_registered.0

pub ann-IsUnlocked : IsUnlocked prims ann password keys
ann-IsUnlocked =
    new_row-IsUnlocked prims prims-IsLawful "u1" "ann" password keys (fresh "u1" "s1" 7) false

abbrev pub again : Fresh
again = fresh "u2" "s2" 9

pub again_IsDrawn : IsDrawn prims again
again_IsDrawn = record { recovery_nonce = refl; recovery_code = refl }

pub ann_by_id : get_user_by_id joined.db "u1" ≡ some ann
unfolding register get_user_by_id empty_db set_setting get_setting is_valid_username
    is_strong_password create_user_row codes string_discrete JsMap.get JsMap.set
    get_user_by_username
ann_by_id = refl

abbrev pub new_password : Text
new_password = codes "An0ther-long-one!"

pub new_password-IsStrong : is_strong_password new_password ≡ true
unfolding is_strong_password codes
new_password-IsStrong = refl

pub recovery_open : is_limited same joined.recover_limiter "ann" 5 ≡ false
recovery_open = rw (ann_registered.3) (is_limited-init same "ann" 5)

pub ann-IsRecoverable : IsRecoverable prims ann (replicate 32 7) keys
ann-IsRecoverable =
    new_row-IsRecoverable prims prims-IsLawful "u1" "ann" password keys (fresh "u1" "s1" 7) false
      (record { recovery_nonce = refl; recovery_code = refl })

abbrev pub dummy : Dummy
dummy = record { recovery_mk = replicate 60 1; user_id = codes "nobody" }

abbrev pub token_of : Text → Option JwtPayload
token_of t = some (record { sub = some "u1"; sid = some "s2"; is_admin = true })

abbrev pub inside : Server
inside = record {
  db = joined.db;
  sessions = Sessions.run empty ((0, sets "s2" "u1" keys) ∷ []);
  login_limiter = init;
  recover_limiter = init;
}

pub nobody_found : get_user_by_username start.db "bob" ≡ none
unfolding get_user_by_username set_setting empty_db
nobody_found = refl
