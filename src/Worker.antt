-- ===== src/Worker.antt =====
-- A job of the kind site.domain_change on its way from the worker over the broker to the host and
-- back into the store: internal/worker/site_changes.go and worker.go, internal/broker/lifecycle.go and
-- client.go.
pub mod Replies
pub mod Outcomes
pub mod Agreement
use Prim.Native.String.{◌++◌ as append_text}
use wpx.Prelude.{
  ℕ, String, Bool, true, false, not, ◌&&◌, Option, none, some, List, [], ◌∷◌, Result, ok, leb,
  if◌then◌else◌,
}
use wpx.Text.{Text, codes, trim_space, ◌=ᵗ◌}
use wpx.Model.Site.{Site, DomainChange, Url, byte_length, valid_site, valid_domain_change}
use wpx.Provision.Attempt.{Answer, Run, stopped, returned}
use wpx.Provision.Journal.{Host, Reply, changed, previous_restored, failed}
use wpx.Provision.DomainChange.{change_domain, is_awaiting}
use wpx.Store.Rows.{Db, Job, Key, Error, kind_name}
use wpx.Store.Jobs.{FinishDraw, finish_site_job, retry_site_lifecycle_job}
use wpx.Store.Sites.Enqueue.{load_site}
use wpx.Store.Sites.Finish.{
  Outcome, success, failure, plain_error, domain_change_error, decode_domain_change,
}

-- A response: that it worked, or an error with the result that comes with it.
pub data Response : Type 0 where
  changed_response : Response
  error_response : Option Bool → Response

-- How the connection fares: it cannot be made, the response is lost, or all goes well. The host
-- works on in the second case.
pub data Connection : Type 0 where
  unavailable response_lost answered : Connection

-- `validLifecycleKey`
unfoldable pub valid_lifecycle_key : String → Bool
unfolding trim_space
valid_lifecycle_key key = not (trim_space (codes key) =ᵗ []) && leb (byte_length (codes key)) 160

abbrev pub respond : Reply → Response
respond changed = changed_response
respond previous_restored = error_response (some true)
respond failed = error_response none

-- The host as it is left, and the response; none where the broker has ended.
abbrev pub respond_run : Run Host Reply → Host × Option Response
respond_run (stopped host) = (host, none)
respond_run (returned reply host answers) = (host, some (respond reply))

-- The broker's `changeDomain`
unfoldable pub serve_change_domain :
    (String → Option Url)
    → (Site → Text → Option Text)
    → Site
    → DomainChange
    → String
    → Host
    → List Answer
    → Host × Option Response
unfolding change_domain valid_lifecycle_key
serve_change_domain parse_url render site change key host answers =
    if valid_lifecycle_key key
      && valid_site parse_url site
      && valid_domain_change parse_url site change
      && is_awaiting site.status
    then respond_run (change_domain parse_url render site change key host answers)
    else (host, some (error_response none))

-- What a call comes to, as far as `errors.Is` and `errors.As` look into its error: the host has told
-- how it went, the broker was not reached (`ErrUnavailable`), or nobody knows (`ErrOutcomeUnknown`).
pub data CallResult : Type 0 where
  told : Outcome → CallResult
  broker_unavailable : CallResult
  outcome_unknown : CallResult

-- What the client makes of a response; `text` is the message of its error.
abbrev pub outcome_of : String → Option Response → CallResult
outcome_of text none = outcome_unknown
outcome_of text (some changed_response) = told success
outcome_of text (some (error_response none)) = told (failure text plain_error)
outcome_of text (some (error_response (some restored))) =
    told (failure text (domain_change_error restored))

abbrev pub received : Connection → Host → Host × Option Response → String → Host × CallResult
received unavailable before served text = (before, broker_unavailable)
received response_lost before served text = (served.0, outcome_unknown)
received answered before served text = (served.0, outcome_of text served.1)

-- `Client.Call` with OpChangeDomain
unfoldable pub call_change_domain :
    (String → Option Url)
    → (Site → Text → Option Text)
    → Connection
    → String
    → Site
    → DomainChange
    → String
    → Host
    → List Answer
    → Host × CallResult
unfolding serve_change_domain valid_lifecycle_key
call_change_domain parse_url render connection text site change key host answers =
    if valid_lifecycle_key key
    then received connection host
        (serve_change_domain parse_url render site change key host answers) text
    else (host, told (failure text plain_error))

-- The text of an idempotency key.
abbrev pub key_text : Key → String
key_text key =
    append_text (kind_name key.kind)
      (append_text ":" (append_text key.target_id (append_text ":" key.job_id)))

abbrev pub change_loaded :
    (String → Option Url)
    → (Site → Text → Option Text)
    → Connection
    → String
    → Job
    → Host
    → List Answer
    → Option DomainChange
    → Option Site
    → Host × CallResult
change_loaded parse_url render connection text job host answers (some change) (some site) =
    if is_awaiting site.status && valid_domain_change parse_url site change
    then call_change_domain parse_url render connection text site change
        (key_text job.idempotency_key) host answers
    else (host, told (failure text plain_error))
change_loaded parse_url render connection text job host answers _ _ =
    (host, told (failure text plain_error))

-- `Worker.changeDomain`: the host as it is left, and the error.
unfoldable pub run_domain_change :
    (String → Option Url)
    → (Site → Text → Option Text)
    → Connection
    → String
    → Job
    → Db
    → Host
    → List Answer
    → Host × CallResult
unfolding call_change_domain
run_domain_change parse_url render connection text job db host answers =
    change_loaded parse_url render connection text job host answers
      (decode_domain_change job.payload) (load_site job.target_id db)

-- The end of `RunOnce` for such a job: without an answer of the host it waits for another run under
-- the same key, and otherwise it is finished.
unfoldable pub settle_domain_change :
    (String → Option Url) → FinishDraw → Job → String → CallResult → Db → Result Error Db
unfolding finish_site_job retry_site_lifecycle_job
settle_domain_change parse_url draw job text (told outcome) db =
    finish_site_job parse_url draw job "{}" outcome db
settle_domain_change parse_url draw job text _ db = ok (
    retry_site_lifecycle_job job.id (append_text "Waiting for broker confirmation: " text) draw.now
      db)
