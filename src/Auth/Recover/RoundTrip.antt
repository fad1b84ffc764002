-- ===== src/Auth/Recover/RoundTrip.antt =====
-- What a recovery with the stored code leaves, and that a wrong one changes nothing.
use ppvda.Base.{ℕ, ◌≡◌, refl, true, false, none, some, String, length}
use ppvda.Base.Text.{Text}
use ppvda.Crypto.{Primitives, IsLawful}
use ppvda.Db.{UserRow, get_user_by_username}
use ppvda.Db.Laws.{IsConsistent}
use ppvda.Auth.Password.{is_strong_password}
use ppvda.Auth.Sessions.Hygiene.{IsValid}
use ppvda.Auth.Limiter.{is_limited, record_failure, reset}
use ppvda.Auth.Server.{Server, Fresh, Reply, error, recovered}
use ppvda.Auth.Server.Unlock.{IsRecoverable, IsDrawn}
use ppvda.Auth.Server.Stored.{
  OpensWith, OnlySession, update_user_auth-OpensWith, delete_all_for_user-OnlySession,
}
use ppvda.Auth.Recover.{
  Dummy, tried_code, tried_blob, tried_id, has_code_length, with_blob, after_open, store_recovered,
  recover,
}

module _ (p : Primitives) (digest : String → String) where
  -- The state that the recovery meets when it stores.
  abbrev pub recovering : (Server → Server) → Server → String → Server
  recovering meanwhile srv username =
      meanwhile (record srv { recover_limiter = reset digest srv.recover_limiter username })

  recover-eq :
      (law : IsLawful p) (meanwhile : Server → Server) (d : Dummy) (srv : Server)
      (username : String) (code new_password : Text) (f : Fresh) (now : ℕ) (user : UserRow)
      (key : Text)
      → length code ≡ 32
      → is_strong_password new_password ≡ true
      → is_limited digest srv.recover_limiter username now ≡ false
      → get_user_by_username srv.db username ≡ some user
      → IsRecoverable p user code key
      → recover p digest meanwhile d srv username (p.to_base64url code) new_password f now
        ≡ store_recovered p digest (recovering meanwhile srv username) user new_password key f
  unfolding recover has_code_length
  recover-eq law meanwhile d srv username code new_password f now user key l strong n found r =
      rw
        (
          strong,
          n,
          found,
          law.from-to_base64url code,
          l,
          with_blob,
          tried_blob,
          tried_id,
          tried_code,
          r.stored,
          r.recovers,
          after_open,
        )
        refl

  -- The recovery code of a user, given with a strong new password where the name is not limited, keeps
  -- the master key: the row, if it is still there, opens with the new password and with the new code to
  -- the same key, no session of the user is left, and the reply has the new code. The tables and sessions
  -- are well-formed when it stores.
  pub recover_keeps :
      (law : IsLawful p) (meanwhile : Server → Server) (d : Dummy) (srv : Server)
      (username : String) (code new_password : Text) (f : Fresh) (now : ℕ) (user : UserRow)
      (key : Text)
      → length code ≡ 32
      → is_strong_password new_password ≡ true
      → is_limited digest srv.recover_limiter username now ≡ false
      → get_user_by_username srv.db username ≡ some user
      → IsRecoverable p user code key
      → IsConsistent (recovering meanwhile srv username).db
      → IsValid (recovering meanwhile srv username).sessions
      → IsDrawn p f
      → let (after, reply) =
          recover p digest meanwhile d srv username (p.to_base64url code) new_password f now in
        (reply ≡ recovered (p.to_base64url f.recovery_code))
        × OpensWith p after.db user.id new_password f.recovery_code key
        × OnlySession after.sessions user.id none
  unfolding store_recovered
  recover_keeps law meanwhile d srv username code new_password f now user key l strong n found r c v
        drawn =
      rw
        (recover-eq law meanwhile d srv username code new_password f now user key l strong n found
          r)
        (
          refl,
          update_user_auth-OpensWith p law (recovering meanwhile srv username).db user.id
              new_password key f c drawn,
          delete_all_for_user-OnlySession (recovering meanwhile srv username).sessions user.id v,
        )

  -- A failed attempt: only a failure is recorded.
  abbrev pub failed_recovery : Server → String → ℕ → Server × Reply
  failed_recovery srv username now = (
    record srv { recover_limiter = record_failure digest srv.recover_limiter username now },
    error 400 "Username and/or recovery code is incorrect.",
  )
