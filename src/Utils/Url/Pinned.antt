-- ===== src/Utils/Url/Pinned.antt =====
-- `pinnedLookup` of src/utils/url.ts: the reply does not depend on the name that is asked for.
use ppvda.Base.{ℕ, Bool, List, [], ◌∷◌, if◌then◌else◌, Option, none, some}
use ppvda.Base.Text.{Text}
use ppvda.Utils.Url.{ResolvedHost}

-- How the function is called: with a callback or not, and with the option `all`.
pub data LookupCall : Type 0 where
  callback_only without_callback : LookupCall
  with_options : Bool → LookupCall

pub data LookupReply : Type 0 where
  one_address : Text → ℕ → LookupReply
  addresses : List ResolvedHost → LookupReply

pub pinned_lookup : ResolvedHost → Text → LookupCall → Option LookupReply
pinned_lookup resolved hostname without_callback = none
pinned_lookup resolved hostname callback_only = some (one_address resolved.address resolved.family)
pinned_lookup resolved hostname (with_options all) =
    if all
    then some (addresses (resolved ∷ []))
    else some (one_address resolved.address resolved.family)
