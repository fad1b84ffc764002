-- ===== src/Auth/Gate/Sound.antt =====
-- Whom the gate lets through.
use ppvda.Base.{
  ℕ, ◌≡◌, refl, Bool, true, false, Option, none, some, arith, String, [], ◌∷◌, string_discrete,
}
use ppvda.Base.Text.{Text}
use ppvda.Db.{UserRow, Db, get_user_by_id}
use ppvda.Auth.Sessions.{SessionStore, has}
use ppvda.Auth.Server.{Server, JwtPayload}
use ppvda.Auth.Gate.{
  passed, extract_token, with_row, row_of, with_session, find_session, with_payload, with_token,
  authenticate,
}

-- The token was verified, its session is known and alive, its user has a row, and the flag that the
-- later handlers see is the one of the row.
pub record IsAuthentic (verify_token : Text → Option JwtPayload) (srv : Server)
    (token : Option Text) (now : ℕ) (user : JwtPayload) : Type 0 where
  pub text : Text
  pub payload : JwtPayload
  pub sid : String
  pub id : String
  pub row : UserRow
  pub given : token ≡ some text
  pub verified : verify_token text ≡ some payload
  pub of_session : payload.sid ≡ some sid
  pub alive : (has srv.sessions sid now).1 ≡ true
  pub of_user : payload.sub ≡ some id
  pub found : get_user_by_id srv.db id ≡ some row
  pub seen : user ≡ record payload { is_admin = row.is_admin }

-- A row that is looked up is that of an id.
row_of-some :
    (db : Db) (sub : Option String) (row : UserRow)
    → row_of db sub ≡ some row
    → (id : String) × (sub ≡ some id) × (get_user_by_id db id ≡ some row)
unfolding row_of
row_of-some db none row h = cc
row_of-some db (some id) row h = elim (string_discrete id "") [
  | yes e ↦ ground (arith, h, e)
  | no e ↦ (id, refl, ground (arith, h, e))
]

with_row_passed :
    (payload user : JwtPayload) (o : Option UserRow)
    → with_row payload o ≡ passed user
    → (row : UserRow) × (o ≡ some row) × (user ≡ record payload { is_admin = row.is_admin })
unfolding with_row
with_row_passed payload user none h = cc
with_row_passed payload user (some row) h = (row, refl, cc)

find_session-true :
    (srv : Server) (sid : Option String) (now : ℕ)
    → (find_session srv sid now).1 ≡ true
    → (i : String) × (sid ≡ some i) × ((has srv.sessions i now).1 ≡ true)
unfolding find_session
find_session-true srv none now h = cc
find_session-true srv (some i) now h = elim (string_discrete i "") [
  | yes e ↦ ground (arith, h, e)
  | no e ↦ (i, refl, ground (arith, h, e))
]

with_session_passed :
    (srv : Server) (payload user : JwtPayload) (found : SessionStore × Bool)
    → (with_session srv payload found).1 ≡ passed user
    → (found.1 ≡ true) × (with_row payload (row_of srv.db payload.sub) ≡ passed user)
unfolding with_session
with_session_passed srv payload user (store, false) h = cc
with_session_passed srv payload user (store, true) h = (refl, h)

module _ (verify_token : Text → Option JwtPayload) where
  with_payload_passed :
      (srv : Server) (now : ℕ) (text : Text) (user : JwtPayload) (o : Option JwtPayload)
      → verify_token text ≡ o
      → (with_payload srv now o).1 ≡ passed user
      → IsAuthentic verify_token srv (some text) now user
  unfolding with_payload
  with_payload_passed srv now text user none e h = cc
  with_payload_passed srv now text user (some payload) e h =
      let (alive, shown) =
        with_session_passed srv payload user (find_session srv payload.sid now) h in
      let (sid, of_session, live) = find_session-true srv payload.sid now alive in
      let (row, of_row, seen) = with_row_passed payload user (row_of srv.db payload.sub) shown in
      let (id, of_user, found) = row_of-some srv.db payload.sub row of_row in
      record {
        text = text;
        payload = payload;
        sid = sid;
        id = id;
        row = row;
        given = refl;
        verified = e;
        of_session = of_session;
        alive = live;
        of_user = of_user;
        found = found;
        seen = seen;
      }

  with_token_passed :
      (srv : Server) (now : ℕ) (user : JwtPayload) (token : Option Text)
      → (with_token verify_token srv now token).1 ≡ passed user
      → IsAuthentic verify_token srv token now user
  unfolding with_token
  with_token_passed srv now user none h = cc
  with_token_passed srv now user (some []) h = cc
  with_token_passed srv now user (some (c ∷ t)) h =
      with_payload_passed srv now (c ∷ t) user (verify_token (c ∷ t)) refl h

  -- A request that `authenticate` lets through has a token that verifies, of a session that is alive and
  -- of a user who has a row; the administrator flag that the handlers see is that of the row, whatever
  -- the token says.
  pub authenticate_sound :
      (srv : Server) (cookie authorization : Option Text) (now : ℕ) (user : JwtPayload)
      → (authenticate verify_token srv cookie authorization now).1 ≡ passed user
      → IsAuthentic verify_token srv (extract_token cookie authorization) now user
  unfolding authenticate
  authenticate_sound srv cookie authorization now user h =
      with_token_passed srv now user (extract_token cookie authorization) h
