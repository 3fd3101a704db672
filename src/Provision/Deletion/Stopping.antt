-- ===== src/Provision/Deletion/Stopping.antt =====
-- The steps of internal/provision/delete_site.go before anything is erased: traffic, Python, PHP.
use wpx.Prelude.{Bool, true, false, ◌≡◌, refl, inl, inr, Bool-cases, List, ◌==◌, arith}
use wpx.Text.{Text}
use wpx.Model.Site.{Site}
use wpx.Provision.Attempt.{Answer}
use wpx.Provision.Deletion.Files.{remove}
use wpx.Provision.Deletion.Names.{
  Setup, Resources, P, Activity, index, database, database_user, python_socket, python_service,
  step, reads, remove_path, stop, turned_off, http_link, tls_link,
}
use wpx.Provision.Deletion.Checks.{is_python}
use wpx.Provision.Deletion.Removal.{lookup-remove}
use wpx.Provision.Deletion.Quiet.{
  Absent, Off, NodeKnown, is_private_path, Later, Later-refl, Later-trans, is_present-none,
}
use wpx.Provision.Deletion.Effects.{
  NodeKnown-remove, remove-Later, turned_off-Later, load_links-Later,
}
use wpx.Provision.Deletion.Stages.{Apart, NoTraffic, FitsRecord, Safely, step-Holds, reads-Holds}
use wpx.Provision.Deletion.Steps.{load_links, stop_traffic, stop_python}

module _ (setup : Setup) (site : Site) (w0 : Resources) where
  -- Whatever the steps before the erasure come to, the resources fit the record.
  abbrev pub Safe : Resources → Type 0
  Safe w = (v : Resources) → Later setup site w v → FitsRecord setup site w0 v

  -- What follows is safe wherever the steps may end with the fact.
  abbrev pub Continues : Resources → (Resources → Type 0) → P → Type 0
  Continues w Fact next =
      (v : Resources) (rest : List Answer)
      → Later setup site w v
      → Fact v
      → Safely setup site w0 next v rest

  pub Safe-Later : {w v : Resources} → Later setup site w v → Safe w → Safe v
  Safe-Later l safe = λ u m. safe u (Later-trans setup site l m)

  pub Safe-here : (w : Resources) → Safe w → FitsRecord setup site w0 w
  Safe-here w safe = safe w (Later-refl setup site w)

  pub Later-step :
      (effect : Answer → Resources → Resources) (next : P) (w : Resources) (answers : List Answer)
      → Safe w
      → ((a : Answer) → Later setup site w (effect a w))
      → ((a : Answer) (rest : List Answer) → Safely setup site w0 next (effect a w) rest)
      → Safely setup site w0 (step effect next) w answers
  Later-step effect next w answers safe l n =
      step-Holds setup site w0 effect next w answers (Safe-here w safe) (λ a. safe _ (l a)) n

  pub Later-reads :
      (next : P) (w : Resources) (answers : List Answer)
      → Safe w
      → ((rest : List Answer) → Safely setup site w0 next w rest)
      → Safely setup site w0 (reads next) w answers
  Later-reads next w answers safe n = reads-Holds setup site w0 next w answers (Safe-here w safe) n

  -- The removal of a path that holds nothing private.
  pub remove_path-Holds :
      (path : Text) (next : P) (w : Resources) (answers : List Answer)
      → is_private_path setup site path ≡ false
      → (NodeKnown setup site w → NodeKnown setup site (record w { files = remove path w.files }))
      → Safe w
      → Continues w (Absent path) next
      → Safely setup site w0 (remove_path path next) w answers
  remove_path-Holds path next w answers h known safe n =
      Later-step (λ a v. record v { files = remove path v.files }) next w answers safe
        (λ _. remove-Later setup site path w h known)
        (λ _ rest. n _ rest (remove-Later setup site path w h known) (lookup-remove path w.files))

  turned-off : (x : Activity) (runs : Activity → Bool) → turned_off x false runs x ≡ false
  turned-off x runs = ground arith

  -- The end of what is told to stop for good.
  pub stop-Holds :
      (x : Activity) (next : P) (w : Resources) (answers : List Answer)
      → (index database == index x) ≡ false
      → (index database_user == index x) ≡ false
      → Safe w
      → Continues w (Off x) next
      → Safely setup site w0 (stop x next) w answers
  stop-Holds x next w answers h k safe n =
      Later-step (λ a v. record v { runs = turned_off x false v.runs }) next w answers safe
        (λ _. turned_off-Later setup site x false w h k)
        (λ _ rest. n _ rest (turned_off-Later setup site x false w h k) (turned-off x w.runs))

  pub stop_traffic-Holds :
      (apart : Apart setup site) (next : P) (w : Resources) (answers : List Answer)
      → Safe w
      → Continues w (NoTraffic setup site) next
      → Safely setup site w0 (stop_traffic setup site next) w answers
  unfolding stop_traffic
  stop_traffic-Holds apart next w answers safe n =
      remove_path-Holds (http_link setup site)
        (remove_path (tls_link setup site) (reads (step (λ a v. load_links setup site v) next))) w
        answers apart.http (NodeKnown-remove setup site (http_link setup site) w apart.http_unit)
        safe
        (λ v more l http.
          remove_path-Holds (tls_link setup site)
            (reads (step (λ a u. load_links setup site u) next)) v more apart.tls
            (NodeKnown-remove setup site (tls_link setup site) v apart.tls_unit) (Safe-Later l safe)
            (λ u more m tls.
              let far = Later-trans setup site l m in
              reloads u more (Safe-Later far safe) (m.quieter.files _ http) tls
                (λ x rest k t. n x rest (Later-trans setup site far k) t)))
    where
      reloads :
          (u : Resources) (more : List Answer) (safe : Safe u)
          → Absent (http_link setup site) u
          → Absent (tls_link setup site) u
          → Continues u (NoTraffic setup site) next
          → Safely setup site w0 (reads (step (λ a v. load_links setup site v) next)) u more
      reloads u more safe http tls k =
          Later-reads (step (λ a v. load_links setup site v) next) u more safe (λ more.
            Later-step (λ a v. load_links setup site v) next u more safe
              (λ _. load_links-Later setup site u http tls)
              (λ _ rest.
                k (load_links setup site u) rest (load_links-Later setup site u http tls) (record {
                  http = http;
                  tls = tls;
                  traffic = rw (
                    is_present-none (http_link setup site) u http,
                    is_present-none (tls_link setup site) u tls,
                  );
                })))

  abbrev pub PythonOff : Resources → Type 0
  PythonOff w = is_python site.kind ≡ true → Off python_socket w × Off python_service w

  pub stop_python-Holds :
      (next : P) (w : Resources) (answers : List Answer)
      → Safe w
      → Continues w PythonOff next
      → Safely setup site w0 (stop_python setup site next) w answers
  unfolding stop_python
  stop_python-Holds next w answers safe n = elim (Bool-cases (is_python site.kind)) [
    | inr e ↦ rw e (n w answers (Later-refl setup site w) (λ h. cc))
    | inl e ↦ rw e (
        stop-Holds python_socket (stop python_service next) w answers refl refl safe
          (λ v more l off.
            stop-Holds python_service next v more refl refl (Safe-Later l safe) (λ u rest m service.
              n u rest (Later-trans setup site l m) (λ _. (m.quieter.runs _ off, service)))))
  ]
