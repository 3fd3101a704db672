-- ===== src/Worker/Replies.antt =====
-- What the errors that the worker receives say of the host (internal/broker/lifecycle.go,
-- internal/broker/client.go, internal/worker/site_changes.go).
use mathlib.Core.Path.{subst}
use wpx.Prelude.{
  String, Bool, true, false, ◌≡◌, ◌&&◌, Option, none, some, List, sym, inl, inr, Bool-cases,
  if◌then◌else◌,
}
use wpx.Model.Site.{Url, valid_site, valid_domain_change}
use wpx.Provision.Attempt.{Answer, Run, stopped, returned, Holds}
use wpx.Provision.Journal.{Host, Reply, changed, previous_restored, failed}
use wpx.Provision.DomainChange.{change_domain, is_awaiting}
use wpx.Provision.DomainChange.Phases.{Case, AtRest, Activated, Consistent, Promised}
use wpx.Provision.DomainChange.Crash.{change_domain-Holds}
use wpx.Store.Rows.{Db, Job}
use wpx.Store.Sites.Enqueue.{load_site}
use wpx.Store.Sites.Finish.{
  success, failure, plain_error, domain_change_error, decode_domain_change,
}
use wpx.Worker.{
  Response, changed_response, error_response, Connection, unavailable, response_lost, answered,
  CallResult, told, valid_lifecycle_key, respond_run, serve_change_domain, outcome_of, received,
  call_change_domain, run_domain_change, key_text,
}

-- What the result of a call says of the host.
abbrev pub Tells : Case → Host × CallResult → Type 0
Tells c (host, told success) = Consistent c host × Activated c host
Tells c (host, told (failure text (domain_change_error true))) = Consistent c host × AtRest c host
Tells c (host, _) = Consistent c host

abbrev Answers : Case → Host × Option Response → Type 0
Answers c (host, none) = Consistent c host
Answers c (host, some changed_response) = Consistent c host × Activated c host
Answers c (host, some (error_response (some true))) = Consistent c host × AtRest c host
Answers c (host, some (error_response _)) = Consistent c host

Answers-Consistent :
    (c : Case) (served : Host × Option Response) → Answers c served → Consistent c served.0
Answers-Consistent c (host, none) a = a
Answers-Consistent c (host, some changed_response) a = a.0
Answers-Consistent c (host, some (error_response none)) a = a
Answers-Consistent c (host, some (error_response (some true))) a = a.0
Answers-Consistent c (host, some (error_response (some false))) a = a

respond_run-Answers :
    (c : Case) (run : Run Host Reply)
    → Holds (Consistent c) (Promised c) run
    → Answers c (respond_run run)
respond_run-Answers c (stopped host) h = h
respond_run-Answers c (returned changed host answers) h = h
respond_run-Answers c (returned previous_restored host answers) h = h
respond_run-Answers c (returned failed host answers) h = h

outcome_of-Tells :
    (c : Case) (text : String) (served : Host × Option Response)
    → Answers c served
    → Tells c (served.0, outcome_of text served.1)
outcome_of-Tells c text (host, none) a = a
outcome_of-Tells c text (host, some changed_response) a = a
outcome_of-Tells c text (host, some (error_response none)) a = a
outcome_of-Tells c text (host, some (error_response (some true))) a = a
outcome_of-Tells c text (host, some (error_response (some false))) a = a

received-Tells :
    (c : Case) (connection : Connection) (before : Host) (served : Host × Option Response)
    (text : String)
    → Consistent c before
    → Answers c served
    → Tells c (received connection before served text)
received-Tells c unavailable before served text s a = s
received-Tells c response_lost before served text s a = Answers-Consistent c served a
received-Tells c answered before served text s a = outcome_of-Tells c text served a

module _ (c : Case) (parse_url : String → Option Url) (connection : Connection) (text : String)
    (host : Host) (answers : List Answer) (s : Consistent c host) where
  serve_change_domain-Answers :
      (key : String)
      → Answers c (serve_change_domain parse_url c.render c.site c.change key host answers)
  unfolding serve_change_domain
  serve_change_domain-Answers key =
      elim (Bool-cases (
        valid_lifecycle_key key
        && valid_site parse_url c.site
        && valid_domain_change parse_url c.site c.change
        && is_awaiting c.site.status)) [
          | inr e ↦ rw e s
          | inl e ↦ rw e (
              respond_run-Answers c
                (change_domain parse_url c.render c.site c.change key host answers)
                (change_domain-Holds c parse_url key host answers s))
        ]

  call_change_domain-Tells :
      (key : String)
      → Tells c
          (call_change_domain parse_url c.render connection text c.site c.change key host answers)
  unfolding call_change_domain
  call_change_domain-Tells key = elim (Bool-cases (valid_lifecycle_key key)) [
    | inr e ↦ subst by_key (sym e) s
    | inl e ↦ subst by_key (sym e) (
        received-Tells c connection host
          (serve_change_domain parse_url c.render c.site c.change key host answers) text s
          (serve_change_domain-Answers key))
  ]
    where
      by_key : Bool → Type 0
      by_key is_valid = Tells c (
          if is_valid
          then received connection host
              (serve_change_domain parse_url c.render c.site c.change key host answers) text
          else (host, told (failure text plain_error)))

  pub run_domain_change-Tells :
      (job : Job) (db : Db)
      → decode_domain_change job.payload ≡ some c.change
      → load_site job.target_id db ≡ some c.site
      → Tells c (run_domain_change parse_url c.render connection text job db host answers)
  unfolding run_domain_change
  run_domain_change-Tells job db payload site =
      elim (Bool-cases
        (is_awaiting c.site.status && valid_domain_change parse_url c.site c.change)) [
          | inr e ↦ rw payload (rw site (rw e s))
          | inl e ↦
              rw payload (rw site (rw e (call_change_domain-Tells (key_text job.idempotency_key))))
        ]
