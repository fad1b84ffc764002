-- ===== src/Jobs/Pipeline.antt =====
-- One run of a job, `processJob` and `uploadStep` of src/jobs/pipeline.ts, and `submit`. What the run
-- meets outside (the database, DNS, the browser, the downloader, Darkreel, the file system) is a
-- record `World` of their replies, with the other calls of the job store that come while the run
-- waits. A run gives the store it leaves, the effects in their order, and the message that it throws.
pub mod Settled
pub mod Guards
pub mod Egress
pub mod Quota
mod Tests
use ppvda.Base.{
  ◌⊎◌, inl, inr, ℕ, Bool, true, false, ◌&&◌, ◌||◌, not, List, [], ◌∷◌, ◌++◌, Option, none, some,
  String, leb, if◌then◌else◌, is_some, ite, string_discrete,
}
use ppvda.Base.Text.{Text, codes, equal}
use ppvda.Utils.Ranges.{Address}
use ppvda.Utils.Url.{ResolvedHost, is_private_url}
use ppvda.Extractor.Patterns.{
  MediaType, hls, dash, direct, image, inherited, PatternMatch, classify_url,
}
use ppvda.Downloader.Select.{VideoEntry, select_best_video}
use ppvda.Vpn.Health.{HealthState, is_vpn_healthy, is_vpn_kill_switch_enabled}
use ppvda.Vpn.Permissions.{VpnPermissionStore, resolve_proxy}
use ppvda.Jobs.Types.{JobStatus, extracting, downloading, encrypting, done, Job}
use ppvda.Jobs.Store.{JobStore, Patch, create, update, failed_with, is_active, active_count}
use ppvda.Jobs.Store.Calls.{Call, run}

abbrev pub max_active_jobs_per_user : ℕ
max_active_jobs_per_user = 10

-- The fields of the input that the run decides by.
pub record Input : Type 0 where
  pub url : Option Text
  pub video_url : Option Text
  pub use_vpn : Option Bool

pub record DownloadResult : Type 0 where
  pub work_dir : Text
  pub file_path : Text
  pub file_size : ℕ
  pub duration_sec : Option ℕ
  pub format : String

-- `fails` has the code of an `AppError`, and no value for another error.
pub data DownloadReply : Type 0 where
  fetched : DownloadResult → DownloadReply
  fails : Option String → DownloadReply

-- The state that `getUserDarkreelDelegation` gives, or the message that it throws.
pub data Delegation : Type 0 where
  session_expired decrypt_failed not_configured ok : Delegation
  delegation_throws : String → Delegation

pub data UploadReply : Type 0 where
  uploaded upload_throws : UploadReply
  refused : Option String → UploadReply

-- A call of `isPrivateUrl`, which asks DNS where it resolves; a page that is opened, a download, an
-- upload and a removal.
pub data Effect : Type 0 where
  checks extracts downloads uploads removes : Text → Effect

pub record World (Proxy : Type 0) : Type 0 where
  -- The message where the query throws, and else the user's `is_admin`, where there is a user.
  pub db_user : String ⊎ Option Bool
  pub permissions : VpnPermissionStore
  pub proxy_config : Option Proxy
  pub switching : Bool
  pub health : Option HealthState
  pub clock : ℕ
  pub first_queries : List (Option (List ResolvedHost))
  pub second_queries : List (Option (List ResolvedHost))
  -- `none` where the extraction throws.
  pub extraction : Option (List VideoEntry)
  pub download : DownloadReply
  pub delegation : Delegation
  pub upload : UploadReply
  pub removal_error : Option String
  pub while_checking : List (ℕ × Call)
  pub while_extracting : List (ℕ × Call)
  pub while_rechecking : List (ℕ × Call)
  pub while_downloading : List (ℕ × Call)
  pub while_uploading : List (ℕ × Call)
  pub while_removing : List (ℕ × Call)
  pub at_checked : ℕ
  pub at_extracted : ℕ
  pub at_rechecked : ℕ
  pub at_downloaded : ℕ
  pub at_uploaded : ℕ
  pub at_caught : ℕ

pub record Run : Type 0 where
  pub store : JobStore
  pub trace : List Effect
  pub thrown : Option String

abbrev pub no_patch : Patch
no_patch = record {
  status = none;
  error = none;
  video_type = none;
  file_size = none;
  duration_sec = none;
  format = none;
}

abbrev pub status_patch : JobStatus → Patch
status_patch status = record no_patch { status = some status }

-- `return`, after nothing else.
pub return_run : JobStore → Run
return_run s = record { store = s; trace = []; thrown = none }

pub throw_run : JobStore → String → Run
throw_run s message = record { store = s; trace = []; thrown = some message }

-- `store.update(jobId, { status: 'failed', error }); return;`
pub fail_run : JobStore → String → String → ℕ → Run
unfolding return_run
fail_run s id message now = return_run (update s id (failed_with message) now).0

pub done_run : JobStore → String → ℕ → Run
unfolding return_run
done_run s id now = return_run (update s id (status_patch done) now).0

-- An effect, and then the rest.
pub after : Effect → Run → Run
after e r = record r { trace = e ∷ r.trace }

pub is_code : Option String → String → Bool
is_code none code = false
is_code (some c) code = ite (string_discrete c code) true false

pub download_error_message : Option String → String
unfolding is_code
download_error_message code =
    if is_code code "LIVE_STREAM"
    then "Download failed — live streams are not supported"
    else if is_code code "SIZE_EXCEEDED"
    then "Download failed — file exceeds the maximum download size"
    else if is_code code "DURATION_EXCEEDED"
    then "Download failed — stream exceeds the maximum duration"
    else "Download failed"

abbrev message_or : String → Option String → String
message_or fallback none = fallback
message_or fallback (some m) = m

-- The name of a type, as `videoType` stores it.
abbrev type_name : MediaType → String
type_name hls = "hls"
type_name dash = "dash"
type_name direct = "direct"
type_name image = "image"
type_name inherited = ""

abbrev downloading_patch : MediaType → Patch
downloading_patch t = record no_patch { status = some downloading; video_type = some (type_name t) }

abbrev pub result_patch : DownloadResult → Patch
result_patch d = record no_patch {
  file_size = some d.file_size;
  duration_sec = d.duration_sec;
  format = some d.format;
}

-- The protocols of a checked URL.
abbrev pub is_http : Text → Bool
is_http protocol = equal protocol (codes "http:") || equal protocol (codes "https:")

-- A text that counts as true.
abbrev pub given_text : Option Text → Option Text
given_text none = none
given_text (some []) = none
given_text (some (c ∷ t)) = some (c ∷ t)

-- `a ?? b`
abbrev pub or_url : Option Text → Option Text → Option Text
or_url (some u) o = some u
or_url none o = o

abbrev pub url_to_check : Input → Option Text
url_to_check input = or_url input.video_url input.url

module _ {Proxy : Type 0} (parse_ip : Text → Option Address) (hostname_of : Text → Option Text)
    (protocol_of : Text → Option Text) (pathname_of : Text → Option Text) where
  -- The end of the upload.
  upload_reply : World Proxy → String → JobStore → UploadReply → Run
  unfolding done_run fail_run
  upload_reply w id s uploaded = done_run s id w.at_uploaded
  upload_reply w id s (refused e) =
      fail_run s id (message_or "Darkreel upload failed" e) w.at_uploaded
  upload_reply w id s upload_throws = fail_run s id "Darkreel upload failed" w.at_uploaded

  delegated : World Proxy → String → Text → JobStore → Delegation → Run
  unfolding fail_run done_run throw_run after upload_reply
  delegated w id path s session_expired =
      fail_run s id
        "Could not upload to Darkreel — your session expired mid-job. Log in and resubmit."
        w.at_downloaded
  delegated w id path s decrypt_failed =
      fail_run s id "Could not decrypt your Darkreel delegation. Reconnect Darkreel from Settings."
        w.at_downloaded
  delegated w id path s not_configured = done_run s id w.at_downloaded
  delegated w id path s (delegation_throws message) = throw_run s message
  delegated w id path s ok =
      let s' = (update s id (status_patch encrypting) w.at_downloaded).0 in
      after (uploads path) (upload_reply w id (run s' w.while_uploading) w.upload)

  pub upload_step : World Proxy → String → Text → JobStore → Run
  unfolding delegated
  upload_step w id path s = delegated w id path s w.delegation

  -- `finally { await secureRemoveDir(workDir) }`: an error of the removal takes the place of another.
  pub with_removal : World Proxy → Text → Run → Run
  with_removal w dir r = record {
    store = run r.store w.while_removing;
    trace = r.trace ++ removes dir ∷ [];
    thrown = elim w.removal_error [ some message ↦ some message | none ↦ r.thrown ];
  }

  -- `if (!store.isActive(jobId)) return;` and the upload.
  pub upload_if_active : World Proxy → String → Text → JobStore → Run
  unfolding upload_step return_run
  upload_if_active w id path s =
      if not (is_active s id) then return_run s else upload_step w id path s

  pub after_download : World Proxy → String → DownloadResult → JobStore → Run
  unfolding with_removal upload_if_active
  after_download w id d s =
      let s' = (update s id (result_patch d) w.at_downloaded).0 in
      with_removal w d.work_dir (upload_if_active w id d.file_path s')

  download_reply : World Proxy → String → JobStore → DownloadReply → Run
  unfolding fail_run after_download download_error_message
  download_reply w id s (fails code) = fail_run s id (download_error_message code) w.at_downloaded
  download_reply w id s (fetched d) = after_download w id d s

  pub download_step : World Proxy → String → Text → JobStore → Run
  unfolding after download_reply
  download_step w id url s =
      after (downloads url) (download_reply w id (run s w.while_downloading) w.download)

  abbrev pub proxy_of : World Proxy → String → Input → Option Bool → Option Proxy
  proxy_of w user input is_admin =
      resolve_proxy input.use_vpn user (elim is_admin [ none ↦ false | some b ↦ b ]) w.permissions
        w.proxy_config

  -- The check of the video that the page gave, and its download.
  download_best : World Proxy → String → Bool → JobStore → Option VideoEntry → Run
  unfolding after fail_run download_step
  download_best w id resolve s none = fail_run s id "No suitable video found" w.at_extracted
  download_best w id resolve s (some best) =
      let s' = run s w.while_rechecking in
      after (checks best.url) (
        if is_private_url parse_ip hostname_of best.url resolve w.second_queries
        then fail_run s' id "Extracted video URL targets a private address" w.at_rechecked
        else download_step w id best.url
            (update s' id (downloading_patch best.type) w.at_rechecked).0)

  extraction_reply : World Proxy → String → Bool → JobStore → Option (List VideoEntry) → Run
  unfolding fail_run download_best
  extraction_reply w id resolve s none = fail_run s id "Extraction failed" w.at_extracted
  extraction_reply w id resolve s (some []) =
      fail_run s id "No videos found on the page" w.at_extracted
  extraction_reply w id resolve s (some (v ∷ vs)) =
      download_best w id resolve s (select_best_video (v ∷ vs))

  extract_step : World Proxy → String → Bool → Text → JobStore → Run
  unfolding after extraction_reply
  extract_step w id resolve url s =
      let s' = (update s id (status_patch extracting) w.at_checked).0 in
      after (extracts url) (extraction_reply w id resolve (run s' w.while_extracting) w.extraction)

  video_step : World Proxy → String → Text → JobStore → Option PatternMatch → Run
  unfolding fail_run download_step
  video_step w id url s none = fail_run s id "Could not determine media type" w.at_checked
  video_step w id url s (some match) =
      download_step w id url (update s id (downloading_patch match.type) w.at_checked).0

  -- Step 1 and what follows it: the two texts are those that count as true.
  fetch_step : World Proxy → String → Bool → JobStore → Option Text → Option Text → Run
  unfolding fail_run video_step extract_step
  fetch_step w id resolve s (some video_url) url =
      video_step w id video_url s (classify_url pathname_of video_url none true)
  fetch_step w id resolve s none (some url) = extract_step w id resolve url s
  fetch_step w id resolve s none none = fail_run s id "No URL provided" w.at_checked

  -- The check of the URL of the input, where there is one to check.
  pub check_step : World Proxy → String → Input → Bool → JobStore → Option Text → Run
  unfolding after fail_run fetch_step
  check_step w id input resolve s none =
      fetch_step w id resolve s (given_text input.video_url) (given_text input.url)
  check_step w id input resolve s (some url) = elim (protocol_of url) [
    | none ↦ fail_run s id "Invalid URL" w.clock
    | some protocol ↦
        let s' = run s w.while_checking in
        if not (is_http protocol)
        then fail_run s id "Only http/https URLs are supported" w.clock
        else after (checks url) (
            if is_private_url parse_ip hostname_of url resolve w.first_queries
            then fail_run s' id "Private/internal URLs are not allowed" w.at_checked
            else fetch_step w id resolve s' (given_text input.video_url) (given_text input.url))
  ]

  gate_step : World Proxy → String → Input → JobStore → Option Proxy → Run
  unfolding fail_run check_step
  gate_step w id input s proxy =
      if is_some proxy && w.switching
      then fail_run s id "VPN is switching countries, try again in a moment" w.clock
      else if is_vpn_kill_switch_enabled w.health
          && not (is_vpn_healthy w.health w.switching w.clock)
      then fail_run s id "VPN tunnel is not healthy — job blocked to prevent traffic leak" w.clock
      else check_step w id input (not (is_some proxy)) s (given_text (url_to_check input))

  user_step : World Proxy → String → String → Input → JobStore → String ⊎ Option Bool → Run
  unfolding throw_run gate_step
  user_step w id user input s (inl message) = throw_run s message
  user_step w id user input s (inr is_admin) =
      gate_step w id input s (proxy_of w user input is_admin)

  pub process_job : World Proxy → String → String → Input → JobStore → Run
  unfolding return_run user_step
  process_job w id user input s =
      if not (is_active s id) then return_run s else user_step w id user input s w.db_user

  -- `catch` of the task that `submit` starts.
  catch_error : World Proxy → String → JobStore → Option String → JobStore
  catch_error w id s none = s
  catch_error w id s (some message) = (update s id (failed_with message) w.at_caught).0

  -- The task, from the moment it holds a slot.
  pub run_task : World Proxy → String → String → Input → JobStore → JobStore
  unfolding process_job catch_error
  run_task w id user input s =
      let r = process_job w id user input s in catch_error w id r.store r.thrown

-- `submit`, up to the start of the task; it throws where the user has too many active jobs.
pub submit : JobStore → String → String → ℕ → Option JobStore
submit s id user now =
    if leb max_active_jobs_per_user (active_count s user)
    then none
    else some (create s id user now).0
