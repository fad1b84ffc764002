-- ===== src/Auth/Server/Stored.antt =====
-- What a route that stores a password leaves: the row opens with it, and the sessions of the user are
-- gone.
use ppvda.Base.{ℕ, ◌≡◌, sym, subst, Option, none, some, arith, String, string_discrete}
use ppvda.Base.JsMap
use ppvda.Base.Text.{Text}
use ppvda.Crypto.{Primitives, IsLawful}
use ppvda.Db.{Db, UserRow, get_user_by_id, update_user_auth, set_auth}
use ppvda.Db.Laws.{IsConsistent}
use ppvda.Db.Lookups.{get_user_by_id-update_user_auth}
use ppvda.Auth.Sessions.{SessionStore, SessionEntry, delete_all_for_user, set_session}
use ppvda.Auth.Sessions.Hygiene.{IsValid, get-set_session}
use ppvda.Auth.Sessions.Lookup.{get-delete_all_for_user}
use ppvda.Auth.Server.{Fresh, seal_auth}
use ppvda.Auth.Server.Unlock.{
  IsUnlocked, IsRecoverable, IsDrawn, set_auth-IsUnlocked, set_auth-IsRecoverable,
}

-- The row under an id opens with a password and a recovery code, if it is there.
pub record OpensWith (p : Primitives) (db : Db) (id : String) (password code key : Text)
    : Type 0 where
  pub by_password :
      (row : UserRow) → get_user_by_id db id ≡ some row → IsUnlocked p row password key
  pub by_code : (row : UserRow) → get_user_by_id db id ≡ some row → IsRecoverable p row code key

-- No session but perhaps one belongs to the user.
pub OnlySession : SessionStore → String → Option String → Type 0
OnlySession s user kept =
    (sid : String) (e : SessionEntry)
    → JsMap.get sid s.sessions ≡ some e
    → e.user_id ≡ user
    → some sid ≡ kept

pub delete_all_for_user-OnlySession :
    (s : SessionStore) (user : String)
    → IsValid s
    → OnlySession (delete_all_for_user s user) user none
unfolding OnlySession
delete_all_for_user-OnlySession s user v sid e h own =
    ground (arith, h, own, get-delete_all_for_user s user sid v)

pub set_session-OnlySession :
    (s : SessionStore) (sid user : String) (key : Text) (now : ℕ)
    → IsValid s
    → OnlySession s user none
    → OnlySession (set_session s sid user key now) user (some sid)
unfolding OnlySession
set_session-OnlySession s sid user key now v o i e h own = elim (string_discrete sid i) [
  | yes same ↦ ground arith
  | no other ↦ ground (arith, o i e, get-set_session s sid user key now v i)
]

module _ (p : Primitives) (law : IsLawful p) where
  pub update_user_auth-OpensWith :
      (db : Db) (id : String) (password key : Text) (f : Fresh)
      → IsConsistent db
      → IsDrawn p f
      → OpensWith p
          (update_user_auth db id (seal_auth p id password key f))
          id
          password
          f.recovery_code
          key
  update_user_auth-OpensWith db id password key f c d = record {
    by_password = λ row h.
        let (old, e, i) = get_user_by_id-update_user_auth db id _ row c h in
        subst (λ r. IsUnlocked p r password key) (sym e)
          (subst (λ x. IsUnlocked p (set_auth old (seal_auth p x password key f)) password key) i
            (set_auth-IsUnlocked p law old password key f));
    by_code = λ row h.
        let (old, e, i) = get_user_by_id-update_user_auth db id _ row c h in
        subst (λ r. IsRecoverable p r f.recovery_code key) (sym e)
          (subst
            (λ x. IsRecoverable p (set_auth old (seal_auth p x password key f)) f.recovery_code key)
            i (set_auth-IsRecoverable p law old password key f d));
  }
