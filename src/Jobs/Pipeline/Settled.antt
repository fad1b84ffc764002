-- ===== src/Jobs/Pipeline/Settled.antt =====
-- A run leaves its job done, failed or gone, and the file of a download removed.
use ppvda.Base.{
  ◌&&◌, ℕ, Bool, false, not, List, [], ◌∷◌, Option, none, some, String, ◌≡◌, refl, ◌⊎◌, inl, inr,
  Bool-cases, Option-cases, is_some, All,
}
use ppvda.Base.Text.{Text}
use ppvda.Utils.Ranges.{Address}
use ppvda.Utils.Url.{is_private_url}
use ppvda.Extractor.Patterns.{PatternMatch}
use ppvda.Downloader.Select.{VideoEntry, select_best_video}
use ppvda.Jobs.Types.{done}
use ppvda.Jobs.Store.{JobStore, update, is_active}
use ppvda.Jobs.Store.Terminal.{MakesNo, is_active-run}
use ppvda.Jobs.Store.Updates.{is_active-update_final, is_active-update_failed}
use ppvda.Vpn.Health.{is_vpn_healthy, is_vpn_kill_switch_enabled}
use ppvda.Jobs.Store.Calls.{run}
use ppvda.Jobs.Pipeline.{
  World, Run, Input, DownloadResult, DownloadReply, fetched, fails, Delegation, UploadReply,
  uploaded, upload_throws, refused, session_expired, decrypt_failed, not_configured, ok,
  delegation_throws, result_patch, return_run, throw_run, fail_run, done_run, after, status_patch,
  upload_reply, delegated, upload_step, upload_if_active, with_removal, after_download,
  download_reply, download_step, download_best, extraction_reply, extract_step, video_step,
  fetch_step, check_step, gate_step, user_step, process_job, catch_error, run_task, is_http,
}

-- A run that returns leaves its job inactive.
abbrev Settles : String → Run → Type 0
Settles id r = r.thrown ≡ none → is_active r.store id ≡ false

fail_run-Settles :
    (s : JobStore) (id message : String) (now : ℕ) → Settles id (fail_run s id message now)
unfolding fail_run return_run
fail_run-Settles s id message now h = is_active-update_failed s id message now

done_run-Settles : (s : JobStore) (id : String) (now : ℕ) → Settles id (done_run s id now)
unfolding done_run return_run
done_run-Settles s id now h = is_active-update_final s id (status_patch done) done now refl refl

module _ {Proxy : Type 0} (parse_ip : Text → Option Address) (hostname_of : Text → Option Text)
    (protocol_of : Text → Option Text) (pathname_of : Text → Option Text) (w : World Proxy)
    (id : String) (fresh : All (MakesNo id) w.while_removing) where
  upload_reply-Settles :
      (s : JobStore) (u : UploadReply)
      → Settles id (upload_reply parse_ip hostname_of protocol_of pathname_of w id s u)
  unfolding upload_reply
  upload_reply-Settles s uploaded = done_run-Settles s id w.at_uploaded
  upload_reply-Settles s (refused e) = fail_run-Settles s id _ w.at_uploaded
  upload_reply-Settles s upload_throws = fail_run-Settles s id _ w.at_uploaded

  delegated-Settles :
      (path : Text) (s : JobStore) (d : Delegation)
      → Settles id (delegated parse_ip hostname_of protocol_of pathname_of w id path s d)
  unfolding delegated after throw_run
  delegated-Settles path s session_expired = fail_run-Settles s id _ w.at_downloaded
  delegated-Settles path s decrypt_failed = fail_run-Settles s id _ w.at_downloaded
  delegated-Settles path s not_configured = done_run-Settles s id w.at_downloaded
  delegated-Settles path s (delegation_throws message) = λ h. cc
  delegated-Settles path s ok = upload_reply-Settles _ w.upload

  with_removal-Settles :
      (dir : Text) (r : Run)
      → Settles id r
      → Settles id (with_removal parse_ip hostname_of protocol_of pathname_of w dir r)
  unfolding with_removal
  with_removal-Settles dir r h = elim (Option-cases w.removal_error) [
    | inl e ↦ rw e (λ q. is_active-run r.store w.while_removing id fresh (h q))
    | inr (m, e) ↦ rw e (λ q. cc)
  ]

  upload_if_active-Settles :
      (path : Text) (s : JobStore)
      → Settles id (upload_if_active parse_ip hostname_of protocol_of pathname_of w id path s)
  unfolding upload_if_active upload_step return_run
  upload_if_active-Settles path s = elim (Bool-cases (is_active s id)) [
    | inl e ↦ rw e (delegated-Settles path s w.delegation)
    | inr e ↦ rw e (λ h. e)
  ]

  after_download-Settles :
      (d : DownloadResult) (s : JobStore)
      → Settles id (after_download parse_ip hostname_of protocol_of pathname_of w id d s)
  unfolding after_download
  after_download-Settles d s =
      let s' = (update s id (result_patch d) w.at_downloaded).0 in
      with_removal-Settles d.work_dir
        (upload_if_active parse_ip hostname_of protocol_of pathname_of w id d.file_path s')
        (upload_if_active-Settles d.file_path s')

  download_step-Settles :
      (url : Text) (s : JobStore)
      → Settles id (download_step parse_ip hostname_of protocol_of pathname_of w id url s)
  unfolding download_step download_reply after
  download_step-Settles url s = go w.download
    where
      go :
          (r : DownloadReply)
          → Settles id (
              download_reply parse_ip hostname_of protocol_of pathname_of w id
                (run s w.while_downloading)
                r)
      go (fails code) = fail_run-Settles _ id _ w.at_downloaded
      go (fetched d) = after_download-Settles d _

  download_best-Settles :
      (resolve : Bool) (s : JobStore) (o : Option VideoEntry)
      → Settles id (download_best parse_ip hostname_of protocol_of pathname_of w id resolve s o)
  unfolding download_best after
  download_best-Settles resolve s none = fail_run-Settles s id _ w.at_extracted
  download_best-Settles resolve s (some best) =
      elim (Bool-cases (is_private_url parse_ip hostname_of best.url resolve w.second_queries)) [
        | inl e ↦ rw e (fail_run-Settles _ id _ w.at_rechecked)
        | inr e ↦ rw e (download_step-Settles best.url _)
      ]

  extraction_reply-Settles :
      (resolve : Bool) (s : JobStore) (o : Option (List VideoEntry))
      → Settles id (extraction_reply parse_ip hostname_of protocol_of pathname_of w id resolve s o)
  unfolding extraction_reply
  extraction_reply-Settles resolve s none = fail_run-Settles s id _ w.at_extracted
  extraction_reply-Settles resolve s (some []) = fail_run-Settles s id _ w.at_extracted
  extraction_reply-Settles resolve s (some (v ∷ vs)) =
      download_best-Settles resolve s (select_best_video (v ∷ vs))

  video_step-Settles :
      (url : Text) (s : JobStore) (o : Option PatternMatch)
      → Settles id (video_step parse_ip hostname_of protocol_of pathname_of w id url s o)
  unfolding video_step
  video_step-Settles url s none = fail_run-Settles s id _ w.at_checked
  video_step-Settles url s (some match) = download_step-Settles url _

  fetch_step-Settles :
      (resolve : Bool) (s : JobStore) (video_url url : Option Text)
      → Settles id
          (fetch_step parse_ip hostname_of protocol_of pathname_of w id resolve s video_url url)
  unfolding fetch_step extract_step after
  fetch_step-Settles resolve s (some v) url = video_step-Settles v s _
  fetch_step-Settles resolve s none (some url) = extraction_reply-Settles resolve _ w.extraction
  fetch_step-Settles resolve s none none = fail_run-Settles s id _ w.at_checked

  check_step-Settles :
      (input : Input) (resolve : Bool) (s : JobStore) (o : Option Text)
      → Settles id (check_step parse_ip hostname_of protocol_of pathname_of w id input resolve s o)
  unfolding check_step after
  check_step-Settles input resolve s none = fetch_step-Settles resolve s _ _
  check_step-Settles input resolve s (some url) = elim (Option-cases (protocol_of url)) [
    | inl e ↦ rw (e, check_step) (fail_run-Settles s id _ w.clock)
    | inr (protocol, e) ↦
        rw (e, check_step)
          (elim (Bool-cases (is_http protocol)) [
            | inr h ↦ rw h (fail_run-Settles s id _ w.clock)
            | inl h ↦
                rw h
                  (elim (Bool-cases
                    (is_private_url parse_ip hostname_of url resolve w.first_queries)) [
                      | inl p ↦ rw p (fail_run-Settles _ id _ w.at_checked)
                      | inr p ↦ rw p (fetch_step-Settles resolve _ _ _)
                    ])
          ])
  ]

  gate_step-Settles :
      (input : Input) (s : JobStore) (proxy : Option Proxy)
      → Settles id (gate_step parse_ip hostname_of protocol_of pathname_of w id input s proxy)
  unfolding gate_step
  gate_step-Settles input s proxy = elim (Bool-cases (is_some proxy && w.switching)) [
    | inl e ↦ rw e (fail_run-Settles s id _ w.clock)
    | inr e ↦
        rw e
          (elim (Bool-cases (
            is_vpn_kill_switch_enabled w.health
            && not (is_vpn_healthy w.health w.switching w.clock))) [
              | inl h ↦ rw h (fail_run-Settles s id _ w.clock)
              | inr h ↦ rw h (check_step-Settles input (not (is_some proxy)) s _)
            ])
  ]

  user_step-Settles :
      (user : String) (input : Input) (s : JobStore) (u : String ⊎ Option Bool)
      → Settles id (user_step parse_ip hostname_of protocol_of pathname_of w id user input s u)
  unfolding user_step throw_run
  user_step-Settles user input s (inl message) = λ h. cc
  user_step-Settles user input s (inr is_admin) = gate_step-Settles input s _

  process_job-Settles :
      (user : String) (input : Input) (s : JobStore)
      → Settles id (process_job parse_ip hostname_of protocol_of pathname_of w id user input s)
  unfolding process_job return_run
  process_job-Settles user input s = elim (Bool-cases (is_active s id)) [
    | inl e ↦ rw e (user_step-Settles user input s w.db_user)
    | inr e ↦ rw e (λ h. e)
  ]

  -- However the database, DNS, the browser, the downloader, Darkreel and the file system reply, and
  -- whatever else the store does at each wait of the task, except that no job with this id is created
  -- while the directory is removed, the job is not active when its task ends.
  pub is_active-run_task :
      (user : String) (input : Input) (s : JobStore)
      → is_active (run_task parse_ip hostname_of protocol_of pathname_of w id user input s) id
        ≡ false
  unfolding run_task catch_error
  is_active-run_task user input s =
      let r = process_job parse_ip hostname_of protocol_of pathname_of w id user input s in
      elim (Option-cases r.thrown) [
        | inl e ↦ rw e (process_job-Settles user input s e)
        | inr (m, e) ↦ rw e (is_active-update_failed r.store id m w.at_caught)
      ]
