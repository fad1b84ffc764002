-- ===== src/Server/Admin/Tests.antt =====
-- The routes of an administrator and of the settings at concrete inputs.
use ppvda.Base.{
  ◌≡◌, ◌≢◌, arith, ◌⊎◌, refl, Bool, false, [], ◌∷◌, none, some, String, string_discrete, replicate,
}
use ppvda.Base.JsMap
use text.Mathlib.TextEquality.{eq_iff}
use ppvda.Base.Text.{codes}
use ppvda.Db.{AuthFields, get_user_by_id, update_user_auth}
use ppvda.Auth.Sessions
use ppvda.Auth.Sessions.{SessionStore, get_key_for_user}
use ppvda.Auth.Server.{Server}
use ppvda.Auth.Sample.{prims, prims-IsLawful, joined, joined-IsValid, inside, ann, keys, ann_by_id}
use ppvda.Vpn.Permissions.{new_store}
use ppvda.Server.Admin.{AdminServer, failed, delete_user_route}
use ppvda.Server.Admin.Deletion.{IsGone, delete_user_route_clears}
use ppvda.Server.Settings.{
  Attempt, given, DarkreelConnection, connected, connect, ok, get_user_darkreel_delegation,
}
use ppvda.Server.Settings.Delegation.{get_user_darkreel_delegation-connect}

abbrev admin : AdminServer
admin = record {
  server = joined;
  permissions = new_store;
  vpn = record { active_device = none; active_config = none; switching = false; own_file = none };
}

u1_ne_u2 : ◌≢◌ {A = String} "u1" "u2"
u1_ne_u2 = ground (arith, eq_iff "u1" "u2")

delete_user_route_clears_example :
    ((◌≡◌ {A = String} "u1" "u0")
      × (delete_user_route admin "u0" "u1" ≡ (admin, failed 400 "Cannot delete your own account")))
    ⊎ ((◌≢◌ {A = String} "u1" "u0")
        × IsGone (delete_user_route admin "u0" "u1").0 "u1"
        × (get_user_by_id (delete_user_route admin "u0" "u1").0.server.db "u2"
            ≡ get_user_by_id joined.db "u2"))
delete_user_route_clears_example =
    delete_user_route_clears admin "u0" "u1" "u2" u1_ne_u2 joined-IsValid

abbrev conn : DarkreelConnection
conn = record {
  server_url = "https://d.example";
  user_id = "d1";
  delegation_id = "e1";
  public_key = 1 ∷ [];
  refresh_token = codes "token";
}

abbrev fields : AuthFields
fields = record {
  password_hash = [];
  auth_salt = [];
  password_salt = [];
  encrypted_master_key = [];
  master_key_nonce = [];
  recovery_mk = [];
}

abbrev normal : String → Bool → Attempt String
normal url is_admin = given url

abbrev exchanged : String → String → Bool → Attempt DarkreelConnection
exchanged origin code is_admin = given conn

session_found : (Sessions.get inside.sessions "s2" 5).1 ≡ some ("u1", keys)
unfolding Sessions.run Sessions.empty Sessions.buffer Sessions.set_session Sessions.get JsMap.get
    JsMap.set string_discrete
session_found = refl

key_found : (get_key_for_user inside.sessions "u1" 9).1 ≡ some keys
unfolding Sessions.run Sessions.empty Sessions.buffer Sessions.set_session get_key_for_user
    JsMap.get JsMap.set string_discrete
key_found = refl

abbrev linked : Server
linked =
    (connect prims normal exchanged (λ s. s) inside "u1" "s2" false "https://d.example" "c"
      (replicate 12 4) 8 5).0

get_user_darkreel_delegation-connect_example :
    ((connect prims normal exchanged
        (λ s. s)
        inside
        "u1"
        "s2"
        false
        "https://d.example"
        "c"
        (replicate 12 4)
        8
        5).1
      ≡ connected conn)
    × ((get_user_darkreel_delegation prims linked.db inside.sessions "u1" 9).1 ≡ ok conn)
    × ((get_user_darkreel_delegation prims
          (update_user_auth linked.db "u1" fields)
          inside.sessions
          "u1"
          9).1
        ≡ ok conn)
get_user_darkreel_delegation-connect_example =
    get_user_darkreel_delegation-connect prims prims-IsLawful normal exchanged (λ s. s) inside "u1"
      "s2" false "https://d.example" "c" "https://d.example" (replicate 12 4) 8 5 9 conn keys ann
      inside.sessions fields refl refl session_found ann_by_id key_found
