-- ===== src/Jobs/Pipeline/Guards.antt =====
-- What a run does outside: nothing while it is blocked, only with URLs that passed the check, and
-- the removal of what it downloaded as the last effect.
use ppvda.Base.{
  ℕ, Bool, true, false, List, [], ◌∷◌, ◌++◌, Option, none, some, String, ◌≡◌, refl, ◌⊎◌, inl, inr,
  Bool-cases, Option-cases, any, All, All-append, ◌∙◌, subst,
}
use ppvda.Base.Text.{Text}
use ppvda.Utils.Ranges.{Address}
use ppvda.Utils.Url.{is_private_url}
use ppvda.Extractor.Patterns.{PatternMatch}
use ppvda.Downloader.Select.{VideoEntry, select_best_video}
use ppvda.Jobs.Types.{encrypting}
use ppvda.Jobs.Store.{JobStore, update, is_active}
use ppvda.Jobs.Store.Calls.{run}
use ppvda.Jobs.Pipeline.{
  World, Run, Input, DownloadResult, DownloadReply, fetched, fails, Delegation, UploadReply, Effect,
  checks, extracts, downloads, uploads, removes, uploaded, upload_throws, refused, session_expired,
  decrypt_failed, not_configured, ok, delegation_throws, result_patch, return_run, throw_run,
  fail_run, done_run, after, status_patch, upload_reply, delegated, upload_step, upload_if_active,
  with_removal, after_download, download_reply, download_step, download_best, extraction_reply,
  extract_step, video_step, fetch_step, check_step, given_text, url_to_check, or_url, is_http,
}

abbrev pub is_download : Effect → Bool
is_download (downloads url) = true
is_download _ = false

pub last_effect : List Effect → Option Effect
last_effect [] = none
last_effect (e ∷ es) = elim (last_effect es) [ some x ↦ some x | none ↦ some e ]

last_effect-append : (es : List Effect) (e : Effect) → last_effect (es ++ e ∷ []) ≡ some e
unfolding last_effect
last_effect-append [] e = refl
last_effect-append (x ∷ es) e = rw (last_effect-append es e) refl

last_effect-cons :
    (e x : Effect) (es : List Effect) → last_effect es ≡ some x → last_effect (e ∷ es) ≡ some x
unfolding last_effect
last_effect-cons e x es h = rw h refl

-- A text of the input that counts as true, when the checked one is known.
given_video :
    (mv mu : Option Text) (u v : Text)
    → given_text (or_url mv mu) ≡ some u
    → given_text mv ≡ some v
    → u ≡ v
given_video none mu u v h e = cc
given_video (some []) mu u v h e = cc
given_video (some (c ∷ t)) mu u v h e = cc

given_page :
    (mv mu : Option Text) (u v : Text)
    → given_text (or_url mv mu) ≡ some u
    → given_text mv ≡ none
    → given_text mu ≡ some v
    → u ≡ v
given_page none mu u v h e f = cc
given_page (some []) mu u v h e f = cc
given_page (some (c ∷ t)) mu u v h e f = cc

no_video : (mv mu : Option Text) → given_text (or_url mv mu) ≡ none → given_text mv ≡ none
no_video none mu h = refl
no_video (some []) mu h = refl
no_video (some (c ∷ t)) mu h = cc

unchecked_page :
    (mv mu : Option Text) (v : Text)
    → given_text (or_url mv mu) ≡ none
    → given_text mu ≡ some v
    → mv ≡ some []
unchecked_page none mu v h e = cc
unchecked_page (some []) mu v h e = refl
unchecked_page (some (c ∷ t)) mu v h e = cc

module _ {Proxy : Type 0} (parse_ip : Text → Option Address) (hostname_of : Text → Option Text)
    (protocol_of : Text → Option Text) (pathname_of : Text → Option Text) where
  -- The URL passed `isPrivateUrl`, with the replies of DNS to its first or to its second call.
  abbrev pub Passes : World Proxy → Bool → Text → Type 0
  Passes w resolve url =
      (is_private_url parse_ip hostname_of url resolve w.first_queries ≡ false)
      ⊎ (is_private_url parse_ip hostname_of url resolve w.second_queries ≡ false)

  -- What an effect needs to be allowed.
  pub IsAllowed : World Proxy → Input → Bool → Effect → Type 0
  IsAllowed w input resolve (checks url) = Unit {0}
  IsAllowed w input resolve (downloads url) = Passes w resolve url
  IsAllowed w input resolve (extracts url) = Passes w resolve url ⊎ (input.video_url ≡ some [])
  IsAllowed w input resolve (uploads path) = Unit {0}
  IsAllowed w input resolve (removes dir) = Unit {0}

  -- A run whose effects are allowed, and that removes as its last effect what it downloaded.
  pub record IsGuarded (w : World Proxy) (input : Input) (resolve : Bool) (r : Run) : Type 0 where
    pub allowed : All (IsAllowed w input resolve) r.trace
    pub removed :
        (d : DownloadResult)
        → w.download ≡ fetched d
        → any is_download r.trace ≡ true
        → last_effect r.trace ≡ some (removes d.work_dir)

  pub empty-IsGuarded :
      (w : World Proxy) (input : Input) (resolve : Bool) (r : Run)
      → r.trace ≡ []
      → IsGuarded w input resolve r
  empty-IsGuarded w input resolve r h = record {
    allowed = rw h tt;
    removed = λ d e. rw h (λ a. cc);
  }

  pub fail_run-IsGuarded :
      (w : World Proxy) (input : Input) (resolve : Bool) (s : JobStore) (id message : String)
      (now : ℕ)
      → IsGuarded w input resolve (fail_run s id message now)
  unfolding fail_run return_run
  fail_run-IsGuarded w input resolve s id message now =
      empty-IsGuarded w input resolve (fail_run s id message now) refl

  upload_reply-trace :
      (w : World Proxy) (id : String) (s : JobStore) (u : UploadReply)
      → (upload_reply parse_ip hostname_of protocol_of pathname_of w id s u).trace ≡ []
  unfolding upload_reply fail_run done_run return_run
  upload_reply-trace w id s uploaded = refl
  upload_reply-trace w id s (refused e) = refl
  upload_reply-trace w id s upload_throws = refl

  delegated-IsAllowed :
      (w : World Proxy) (input : Input) (resolve : Bool) (id : String) (path : Text) (s : JobStore)
      (d : Delegation)
      → All
          (IsAllowed w input resolve)
          (delegated parse_ip hostname_of protocol_of pathname_of w id path s d).trace
  unfolding delegated after throw_run fail_run done_run return_run IsAllowed
  delegated-IsAllowed w input resolve id path s session_expired = tt
  delegated-IsAllowed w input resolve id path s decrypt_failed = tt
  delegated-IsAllowed w input resolve id path s not_configured = tt
  delegated-IsAllowed w input resolve id path s (delegation_throws message) = tt
  delegated-IsAllowed w input resolve id path s ok = (
    tt,
    rw
        (upload_reply-trace w id
          (run (update s id (status_patch encrypting) w.at_downloaded).0 w.while_uploading)
          w.upload)
        tt,
  )

  upload_if_active-IsAllowed :
      (w : World Proxy) (input : Input) (resolve : Bool) (id : String) (path : Text) (s : JobStore)
      → All
          (IsAllowed w input resolve)
          (upload_if_active parse_ip hostname_of protocol_of pathname_of w id path s).trace
  unfolding upload_if_active upload_step return_run
  upload_if_active-IsAllowed w input resolve id path s = elim (Bool-cases (is_active s id)) [
    | inl e ↦ rw e (delegated-IsAllowed w input resolve id path s w.delegation)
    | inr e ↦ rw e tt
  ]

  download_reply-IsGuarded :
      (w : World Proxy) (input : Input) (resolve : Bool) (id : String) (url : Text) (s : JobStore)
      (o : DownloadReply)
      → w.download ≡ o
      → Passes w resolve url
      → IsGuarded w input resolve (
          after
            (downloads url)
            (download_reply parse_ip hostname_of protocol_of pathname_of w id s o))
  unfolding after download_reply after_download with_removal fail_run return_run IsAllowed
  download_reply-IsGuarded w input resolve id url s (fails code) h p = record {
    allowed = (p, tt);
    removed = λ d e a. cc;
  }
  download_reply-IsGuarded w input resolve id url s (fetched d) h p =
      let s' = (update s id (result_patch d) w.at_downloaded).0 in
      let r = upload_if_active parse_ip hostname_of protocol_of pathname_of w id d.file_path s' in
      record {
        allowed = (
          p,
          All-append (IsAllowed w input resolve) r.trace (removes d.work_dir ∷ [])
              (upload_if_active-IsAllowed w input resolve id d.file_path s') (tt, tt),
        );
        removed = λ d' e a. last_effect-append (downloads url ∷ r.trace) (removes d.work_dir) ∙ cc;
      }

  download_step-IsGuarded :
      (w : World Proxy) (input : Input) (resolve : Bool) (id : String) (url : Text) (s : JobStore)
      → Passes w resolve url
      → IsGuarded w input resolve
          (download_step parse_ip hostname_of protocol_of pathname_of w id url s)
  unfolding download_step
  download_step-IsGuarded w input resolve id url s p =
      download_reply-IsGuarded w input resolve id url (run s w.while_downloading) w.download refl p

  after_checks-IsGuarded :
      (w : World Proxy) (input : Input) (resolve : Bool) (url : Text) (r : Run)
      → IsGuarded w input resolve r
      → IsGuarded w input resolve (after (checks url) r)
  unfolding after IsAllowed
  after_checks-IsGuarded w input resolve url r g = record {
    allowed = (tt, g.allowed);
    removed = λ d e a. last_effect-cons (checks url) (removes d.work_dir) r.trace (g.removed d e a);
  }

  after_extracts-IsGuarded :
      (w : World Proxy) (input : Input) (resolve : Bool) (url : Text) (r : Run)
      → Passes w resolve url ⊎ (input.video_url ≡ some [])
      → IsGuarded w input resolve r
      → IsGuarded w input resolve (after (extracts url) r)
  unfolding after IsAllowed
  after_extracts-IsGuarded w input resolve url r p g = record {
    allowed = (p, g.allowed);
    removed =
        λ d e a. last_effect-cons (extracts url) (removes d.work_dir) r.trace (g.removed d e a);
  }

  download_best-IsGuarded :
      (w : World Proxy) (input : Input) (resolve : Bool) (id : String) (s : JobStore)
      (o : Option VideoEntry)
      → IsGuarded w input resolve
          (download_best parse_ip hostname_of protocol_of pathname_of w id resolve s o)
  unfolding download_best
  download_best-IsGuarded w input resolve id s none =
      fail_run-IsGuarded w input resolve s id _ w.at_extracted
  download_best-IsGuarded w input resolve id s (some best) =
      after_checks-IsGuarded w input resolve best.url _
        (elim (Bool-cases (is_private_url parse_ip hostname_of best.url resolve w.second_queries)) [
          | inl e ↦ rw e (fail_run-IsGuarded w input resolve _ id _ w.at_rechecked)
          | inr e ↦ rw e (download_step-IsGuarded w input resolve id best.url _ (inr e))
        ])

  extraction_reply-IsGuarded :
      (w : World Proxy) (input : Input) (resolve : Bool) (id : String) (s : JobStore)
      (o : Option (List VideoEntry))
      → IsGuarded w input resolve
          (extraction_reply parse_ip hostname_of protocol_of pathname_of w id resolve s o)
  unfolding extraction_reply
  extraction_reply-IsGuarded w input resolve id s none =
      fail_run-IsGuarded w input resolve s id _ w.at_extracted
  extraction_reply-IsGuarded w input resolve id s (some []) =
      fail_run-IsGuarded w input resolve s id _ w.at_extracted
  extraction_reply-IsGuarded w input resolve id s (some (v ∷ vs)) =
      download_best-IsGuarded w input resolve id s (select_best_video (v ∷ vs))

  video_step-IsGuarded :
      (w : World Proxy) (input : Input) (resolve : Bool) (id : String) (url : Text) (s : JobStore)
      (o : Option PatternMatch)
      → Passes w resolve url
      → IsGuarded w input resolve
          (video_step parse_ip hostname_of protocol_of pathname_of w id url s o)
  unfolding video_step
  video_step-IsGuarded w input resolve id url s none p =
      fail_run-IsGuarded w input resolve s id _ w.at_checked
  video_step-IsGuarded w input resolve id url s (some match) p =
      download_step-IsGuarded w input resolve id url _ p

  fetch_step-IsGuarded :
      (w : World Proxy) (input : Input) (resolve : Bool) (id : String) (s : JobStore)
      (video url : Option Text)
      → ((v : Text) → video ≡ some v → Passes w resolve v)
      → ((u : Text)
          → video ≡ none
          → url ≡ some u
          → Passes w resolve u ⊎ (input.video_url ≡ some []))
      → IsGuarded w input resolve
          (fetch_step parse_ip hostname_of protocol_of pathname_of w id resolve s video url)
  unfolding fetch_step extract_step
  fetch_step-IsGuarded w input resolve id s (some v) url hv hu =
      video_step-IsGuarded w input resolve id v s _ (hv v refl)
  fetch_step-IsGuarded w input resolve id s none (some u) hv hu =
      after_extracts-IsGuarded w input resolve u _ (hu u refl refl)
        (extraction_reply-IsGuarded w input resolve id _ w.extraction)
  fetch_step-IsGuarded w input resolve id s none none hv hu =
      fail_run-IsGuarded w input resolve s id _ w.at_checked

  pub check_step-IsGuarded :
      (w : World Proxy) (input : Input) (resolve : Bool) (id : String) (s : JobStore)
      (o : Option Text)
      → given_text (url_to_check input) ≡ o
      → IsGuarded w input resolve
          (check_step parse_ip hostname_of protocol_of pathname_of w id input resolve s o)
  unfolding check_step
  check_step-IsGuarded w input resolve id s none h =
      fetch_step-IsGuarded w input resolve id s _ _
        (λ v e.
          let n : given_text input.video_url ≡ none = no_video input.video_url input.url h in cc)
        (λ u n e. inr (unchecked_page input.video_url input.url u h e))
  check_step-IsGuarded w input resolve id s (some url) h = elim (Option-cases (protocol_of url)) [
    | inl e ↦ rw (e, check_step) (fail_run-IsGuarded w input resolve s id _ w.clock)
    | inr (protocol, e) ↦
        rw (e, check_step)
          (elim (Bool-cases (is_http protocol)) [
            | inr f ↦ rw f (fail_run-IsGuarded w input resolve s id _ w.clock)
            | inl f ↦ rw f (
                after_checks-IsGuarded w input resolve url _
                  (elim (Bool-cases
                    (is_private_url parse_ip hostname_of url resolve w.first_queries)) [
                      | inl p ↦ rw p (fail_run-IsGuarded w input resolve _ id _ w.at_checked)
                      | inr p ↦ rw p (
                          fetch_step-IsGuarded w input resolve id _ _ _
                            (λ v q. inl (
                              subst
                                (λ x.
                                  is_private_url parse_ip hostname_of x resolve w.first_queries
                                  ≡ false)
                                (given_video input.video_url input.url url v h q) p))
                            (λ u n q. inl (
                              inl (
                                subst
                                  (λ x.
                                    is_private_url parse_ip hostname_of x resolve w.first_queries
                                    ≡ false)
                                  (given_page input.video_url input.url url u h n q) p))))
                    ]))
          ])
  ]
