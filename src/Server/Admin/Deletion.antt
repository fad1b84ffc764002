-- ===== src/Server/Admin/Deletion.antt =====
-- What the deletion of a user by an administrator leaves.
use ppvda.Base.{
  inl, inr, subst, ◌⊎◌, ◌≡◌, ◌≢◌, refl, ◌∙◌, sym, ap, Bool, true, false, none, String,
  string_discrete,
}
use mathlib.Core.Logic.{if_pos, if_neg}
use ppvda.Db.{Db, get_user_by_id, get_darkreel_delegation, delete_user}
use ppvda.Db.Lookups.{get_user_by_id-delete_user, get_user_by_id-delete_user_ne}
use ppvda.Auth.Sessions.Hygiene.{IsValid}
use ppvda.Auth.Server.Stored.{OnlySession, delete_all_for_user-OnlySession}
use ppvda.Vpn.Permissions.{can_toggle}
use ppvda.Vpn.Permissions.Laws.{can_toggle-remove_user}
use ppvda.Server.Admin.{
  AdminReply, AdminServer, failed, delete_user_route, without_access, row_deleted,
}

-- Nothing of the user is left.
pub record IsGone (a : AdminServer) (id : String) : Type 0 where
  pub no_row : get_user_by_id a.server.db id ≡ none
  pub no_delegation : get_darkreel_delegation a.server.db id ≡ none
  pub no_session : OnlySession a.server.sessions id none
  pub no_toggle : can_toggle a.permissions id ≡ false

row_deleted-IsGone :
    (a : AdminServer) (id : String) (t : Db × Bool)
    → get_user_by_id t.0 id ≡ none
    → get_darkreel_delegation t.0 id ≡ none
    → OnlySession a.server.sessions id none
    → can_toggle a.permissions id ≡ false
    → IsGone (row_deleted a t).0 id
unfolding row_deleted
row_deleted-IsGone a id (db, true) r d s t = record {
  no_row = r;
  no_delegation = d;
  no_session = s;
  no_toggle = t;
}
row_deleted-IsGone a id (db, false) r d s t = record {
  no_row = r;
  no_delegation = d;
  no_session = s;
  no_toggle = t;
}

row_deleted-row :
    (a : AdminServer) (t : Db × Bool) (other : String)
    → get_user_by_id (row_deleted a t).0.server.db other ≡ get_user_by_id t.0 other
unfolding row_deleted
row_deleted-row a (db, true) other = refl
row_deleted-row a (db, false) other = refl

-- An administrator who deletes another user leaves no row, delegation, session or VPN permission of that
-- user, also where the row was not there, and the user row under every other id as it was; the sessions
-- are valid before. The administrator's own account is refused and nothing changes.
pub delete_user_route_clears :
    (a : AdminServer) (admin_id id other : String)
    → id ≢ other
    → IsValid a.server.sessions
    → ((id ≡ admin_id)
        × (delete_user_route a admin_id id ≡ (a, failed 400 "Cannot delete your own account")))
      ⊎ ((id ≢ admin_id)
          × IsGone (delete_user_route a admin_id id).0 id
          × (get_user_by_id (delete_user_route a admin_id id).0.server.db other
              ≡ get_user_by_id a.server.db other))
unfolding delete_user_route without_access
delete_user_route_clears a admin_id id other d v = elim (string_discrete id admin_id) [
  | yes e ↦ inl (e, if_pos (string_discrete id admin_id) e _ _)
  | no n ↦ inr (
    n,
    subst (λ (t : AdminServer × AdminReply). IsGone t.0 id)
        (sym (if_neg (string_discrete id admin_id) n _ _))
        (row_deleted-IsGone (without_access a id) id (delete_user a.server.db id)
          (get_user_by_id-delete_user a.server.db id).0
          (get_user_by_id-delete_user a.server.db id).1
          (delete_all_for_user-OnlySession a.server.sessions id v)
          (can_toggle-remove_user a.permissions id)),
    ap (λ (t : AdminServer × AdminReply). get_user_by_id t.0.server.db other)
          (if_neg (string_discrete id admin_id) n _ _)
        ∙ row_deleted-row (without_access a id) (delete_user a.server.db id) other
        ∙ get_user_by_id-delete_user_ne a.server.db id other d,
  )
]
