-- ===== src/Server/JobRoutes.antt =====
-- The routes of src/server/routes/jobs.ts, the schema of their body in src/server/schemas/jobs.ts, and
-- the kill switch before a request, src/server/vpn-killswitch.ts. A handler gives the status and what
-- it sends.
use ppvda.Base.{
  ℕ, Bool, true, ◌&&◌, ◌||◌, Option, none, some, String, List, is_some, if◌then◌else◌, leb, ite,
  string_discrete, length,
}
use ppvda.Base.Text.{Text}
use ppvda.Jobs.Types.{Job, JobResponse}
use ppvda.Jobs.Store.{JobStore, get, list, strip_internal}
use ppvda.Jobs.Pipeline.{Input, submit}
use ppvda.Vpn.Health.{HealthState, is_vpn_healthy}

-- The fields of a body that the schema bounds.
pub record JobBody : Type 0 where
  pub input : Input
  pub filename : Option Text
  pub timeout : Option ℕ

abbrev within : ℕ → ℕ → Option ℕ → Bool
within low high none = true
within low high (some n) = leb low n && leb n high

abbrev length_of : Option Text → Option ℕ
length_of none = none
length_of (some t) = some (length t)

-- `createJobRequestSchema`
pub is_valid_body : JobBody → Bool
is_valid_body b =
    (is_some b.input.url || is_some b.input.video_url)
    && within 0 200 (length_of b.filename)
    && within 1_000 120_000 b.timeout

pub data Reply : Type 0 where
  accepted : String → Reply
  too_many not_found invalid blocked : Reply
  one_job : JobResponse → Reply
  jobs : List JobResponse → Reply

submit_reply : JobStore → String → Option JobStore → JobStore × Reply
submit_reply s id none = (s, too_many)
submit_reply s id (some s') = (s', accepted id)

-- `POST /jobs`
pub post_job : JobStore → String → String → JobBody → ℕ → JobStore × Reply
unfolding submit_reply is_valid_body
post_job s user id body now =
    if is_valid_body body then submit_reply s id (submit s id user now) else (s, invalid)

-- `GET /jobs`
pub get_jobs : JobStore → String → Reply
get_jobs s user = jobs (list s (some user))

job_reply : String → Option Job → Reply
job_reply user none = not_found
job_reply user (some job) =
    ite (string_discrete job.user_id user) (one_job (strip_internal job)) not_found

-- `GET /jobs/:id`
pub get_job : JobStore → String → String → Reply
unfolding job_reply
get_job s user id = job_reply user (get s id)

-- `requireVpnHealthy`, with what follows it where it passes.
pub require_vpn_healthy : Option HealthState → Bool → ℕ → Reply → Reply
require_vpn_healthy health switching now next =
    if is_vpn_healthy health switching now then next else blocked
