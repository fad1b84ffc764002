-- ===== src/Jobs/Pipeline/Tests.antt =====
-- Runs of a job, and the theorems at concrete inputs.
use ppvda.Base.{
  ℕ, true, false, Option, none, some, List, [], ◌∷◌, ◌≡◌, refl, string_discrete, if◌then◌else◌, inr,
  ◌⊎◌, ◌≢◌, ◌∙◌, sym, is_some,
}
use ppvda.Base.JsMap
use ppvda.Base.Text.{Text, codes, equal, split}
use ppvda.Utils.Ranges.{Address, ipv4, dotted, is_private_ip}
use ppvda.Utils.Url.{ResolvedHost, is_private_url, is_blocked_host_literal}
use ppvda.Extractor.Patterns.{classify_url}
use ppvda.Vpn.Health.Fresh
use ppvda.Vpn.Health.Fresh.{Event, IsConfirmed, begins, concludes, routing_tick, interface_tick}
use ppvda.Vpn.Health.{body, includes, HealthState, is_vpn_healthy, is_vpn_kill_switch_enabled}
use ppvda.Vpn.Permissions.{new_store, resolve_proxy}
use ppvda.Jobs.Store.{JobStore, create, init, is_active, update, active_count}
use ppvda.Jobs.Pipeline.{
  World, Input, DownloadResult, fetched, ok, uploaded, checks, extracts, downloads, uploads,
  removes, process_job, run_task, proxy_of,
}
use ppvda.Jobs.Store.Calls.{sweeps}
use ppvda.Jobs.Pipeline.Settled.{is_active-run_task}
use ppvda.Jobs.Pipeline.Guards.{IsGuarded}
use ppvda.Jobs.Pipeline.Egress.{process_job-IsGuarded, process_job-IsConfirmed, resolves}
use ppvda.Jobs.Pipeline.Quota
use ppvda.Jobs.Pipeline.Quota.{Act, submits, run-init-IsWithin}

abbrev sample_ip : Text → Option Address
sample_ip t =
    if equal t (codes "8.8.8.8")
    then some (ipv4 (dotted 8 8 8 8))
    else if equal t (codes "10.0.0.1")
    then some (ipv4 (dotted 10 0 0 1))
    else none

-- Every URL is `http:` at one public name with a path that is the URL.
abbrev sample_host : Text → Option Text
sample_host url = some (codes "a.com")

abbrev sample_protocol : Text → Option Text
sample_protocol url = some (codes "http:")

abbrev sample_path : Text → Option Text
sample_path url = some url

abbrev answers : List (Option (List ResolvedHost))
answers = some (record { address = codes "8.8.8.8"; family = 4 } ∷ []) ∷ []

abbrev file : DownloadResult
file = record {
  work_dir = codes "/d";
  file_path = codes "/d/a.mp4";
  file_size = 5;
  duration_sec = none;
  format = "mp4";
}

abbrev stale_health : HealthState
stale_health = record {
  interface_ok = true;
  routing_ok = true;
  interface_last_check = 0;
  routing_last_check = 90_000;
  interface_error = none;
  routing_error = none;
}

abbrev world : World ℕ
world = record {
  db_user = inr (some false);
  permissions = new_store;
  proxy_config = none;
  switching = false;
  health = none;
  clock = 100_000;
  first_queries = answers;
  second_queries = answers;
  extraction = none;
  download = fetched file;
  delegation = ok;
  upload = uploaded;
  removal_error = none;
  while_checking = [];
  while_extracting = [];
  while_rechecking = [];
  while_downloading = [];
  while_uploading = [];
  while_removing = (100_000, sweeps) ∷ [];
  at_checked = 100_000;
  at_extracted = 100_000;
  at_rechecked = 100_000;
  at_downloaded = 100_000;
  at_uploaded = 100_000;
  at_caught = 100_000;
}

abbrev blocked_world : World ℕ
blocked_world = record world { health = some stale_health }

abbrev input : Input
input = record { url = none; video_url = some (codes "a.mp4"); use_vpn = none }

abbrev store : JobStore
store = (create (init 5) "j" "u" 0).0

uploaded_trace :
    (process_job sample_ip sample_host sample_protocol sample_path world "j" "u" input store).trace
    ≡ checks (codes "a.mp4")
      ∷ downloads (codes "a.mp4")
      ∷ uploads (codes "/d/a.mp4")
      ∷ removes (codes "/d")
      ∷ []
unfolding process_job is_active create init update is_private_url is_blocked_host_literal
    is_private_ip split classify_url resolve_proxy is_vpn_healthy is_vpn_kill_switch_enabled
    string_discrete JsMap.get JsMap.set ppvda.Jobs.Store.Calls.run
uploaded_trace = refl

-- With an empty text as the video URL, a page at a private address is opened unchecked.
abbrev private_page : Text
private_page = codes "http://10.0.0.1/"

abbrev private_host : Text → Option Text
private_host url = some (codes "10.0.0.1")

abbrev empty_video : Input
empty_video = record { url = some private_page; video_url = some []; use_vpn = none }

private_page_opened :
    (process_job sample_ip private_host sample_protocol sample_path world "j" "u" empty_video
      store).trace
    ≡ extracts private_page ∷ []
unfolding process_job is_active create init update is_private_url is_blocked_host_literal
    is_private_ip split classify_url resolve_proxy is_vpn_healthy is_vpn_kill_switch_enabled
    string_discrete JsMap.get JsMap.set
private_page_opened = refl

is_active-run_task_example :
    is_active
      (run_task sample_ip sample_host sample_protocol sample_path world "j" "u" input store)
      "j"
    ≡ false
is_active-run_task_example =
    is_active-run_task sample_ip sample_host sample_protocol sample_path world "j" (tt, tt) "u"
      input store

process_job-IsGuarded_example :
    IsGuarded sample_ip sample_host sample_protocol sample_path world input
      (resolves sample_ip sample_host sample_protocol sample_path world "u" input (some false))
      (process_job sample_ip sample_host sample_protocol sample_path world "j" "u" input store)
process_job-IsGuarded_example =
    process_job-IsGuarded sample_ip sample_host sample_protocol sample_path world "j" "u" input
      store (some false) refl

-- The tunnel is confirmed shortly before the run.
abbrev confirmed : List Event
confirmed =
    concludes
    ∷ routing_tick (body (codes "You are connected")) 99_000
    ∷ interface_tick none 98_000
    ∷ begins
    ∷ []

abbrev confirmed_world : World ℕ
confirmed_world = record world { health = Fresh.run confirmed }

confirmed_trace :
    (process_job sample_ip sample_host sample_protocol sample_path confirmed_world "j" "u" input
      store).trace
    ≡ checks (codes "a.mp4")
      ∷ downloads (codes "a.mp4")
      ∷ uploads (codes "/d/a.mp4")
      ∷ removes (codes "/d")
      ∷ []
unfolding process_job is_active create init update is_private_url is_blocked_host_literal
    is_private_ip split classify_url resolve_proxy is_vpn_healthy is_vpn_kill_switch_enabled
    string_discrete JsMap.get JsMap.set ppvda.Jobs.Store.Calls.run Fresh.run includes
confirmed_trace = refl

-- A stale check lets nothing out, not even a DNS query.
blocked_trace :
    (process_job sample_ip sample_host sample_protocol sample_path blocked_world "j" "u" input
      store).trace
    ≡ []
unfolding process_job is_active create init update is_vpn_healthy is_vpn_kill_switch_enabled
    string_discrete JsMap.get JsMap.set resolve_proxy
blocked_trace = refl

confirmed_trace_full :
    (process_job sample_ip sample_host sample_protocol sample_path confirmed_world "j" "u" input
      store).trace
    ≢ []
confirmed_trace_full e = let q = sym confirmed_trace ∙ e in cc

process_job-IsConfirmed_example :
    (is_active store "j" ≡ true)
    × ((is_some (
            proxy_of sample_ip sample_host sample_protocol sample_path confirmed_world "u" input
              (some false))
          ≡ false)
        ⊎ (confirmed_world.switching ≡ false))
    × ((is_vpn_kill_switch_enabled (Fresh.run confirmed) ≡ false)
        ⊎ IsConfirmed confirmed confirmed_world.switching confirmed_world.clock)
process_job-IsConfirmed_example =
    process_job-IsConfirmed sample_ip sample_host sample_protocol sample_path confirmed_world "j"
      "u" input store (some false) confirmed refl refl confirmed_trace_full

abbrev acts : List (ℕ × Act)
acts = (0, submits "j" "u") ∷ (5, submits "k" "u") ∷ []

run-init-IsWithin_example : Quota.IsWithin (Quota.run (init 5) acts)
run-init-IsWithin_example = run-init-IsWithin 5 acts
