-- ===== src/Provision/DomainChange/Writing.antt =====
-- The loop over the single changes of a file, and `writeDomainVhosts` as a whole, of
-- internal/provision/domain_change.go.
use wpx.Prelude.{◌≡◌, ◌&&◌, List, [], ◌∷◌, inl, inr, ◌∙◌, Bool-cases, arith, if◌then◌else◌}
use wpx.Provision.Attempt.{Answer, Holds, attempt-Holds, inspects-Holds}
use wpx.Provision.Vhosts.{Vhost, SiteFile, file_of, writes}
use wpx.Provision.Journal.{Host, Reply, P, set_http, set_tls, write_all, write_vhosts, is_readable}

-- Each of the changes keeps the host within a set.
abbrev pub Closed :
    (Host → Type 0) → ((SiteFile → SiteFile) → Host → Host) → List (SiteFile → SiteFile) → Type 0
Closed D set [] = Unit {0}
Closed D set (f ∷ fs) = ((w : Host) → D w → D (set f w)) × Closed D set fs

abbrev pub apply_all :
    ((SiteFile → SiteFile) → Host → Host) → List (SiteFile → SiteFile) → Host → Host
apply_all set [] w = w
apply_all set (f ∷ fs) w = apply_all set fs (set f w)

apply_all-Closed :
    (D : Host → Type 0) (set : (SiteFile → SiteFile) → Host → Host)
    (fs : List (SiteFile → SiteFile)) (w : Host)
    → Closed D set fs
    → D w
    → D (apply_all set fs w)
apply_all-Closed D set [] w k d = d
apply_all-Closed D set (f ∷ fs) w k d = apply_all-Closed D set fs (set f w) k.1 (k.0 w d)

module _ (S : Host → Type 0) (Q : Reply → Host → Type 0) (D : Host → Type 0) where
  write_all-Holds :
      (set : (SiteFile → SiteFile) → Host → Host) (fs : List (SiteFile → SiteFile))
      (on_failure next : P) (w : Host) (answers : List Answer)
      → Closed D set fs
      → ((v : Host) → D v → S v)
      → ((v : Host) (rest : List Answer) → D v → Holds S Q (on_failure v rest))
      → ((rest : List Answer) → Holds S Q (next (apply_all set fs w) rest))
      → D w
      → Holds S Q (write_all set fs on_failure next w answers)
  unfolding write_all
  write_all-Holds set [] on_failure next w answers k s f n d = n answers
  write_all-Holds set (g ∷ gs) on_failure next w answers k s f n d =
      attempt-Holds S Q (λ a v. set g v) on_failure (write_all set gs on_failure next) w answers
        (s w d) (λ a. s (set g w) (k.0 w d)) (λ rest. f w rest d)
        (λ a rest. f (set g w) rest (k.0 w d))
        (λ a rest. write_all-Holds set gs on_failure next (set g w) rest k.1 s f n (k.0 w d))

written_http : (v : Vhost) (w : Host) → (apply_all set_http (writes v) w).http ≡ file_of v
written_http v w = ground arith

written_tls :
    (v : Vhost) (w : Host)
    → ((apply_all set_tls (writes v) w).tls ≡ file_of v)
      × ((apply_all set_tls (writes v) w).http ≡ w.http)
written_tls v w = ground arith

-- The rule of `write_vhosts`: a set that the single writes keep, and what follows from both files
-- having been written.
module _ (S : Host → Type 0) (Q : Reply → Host → Type 0) (D : Host → Type 0) where
  pub write_vhosts-Holds :
      (http tls : Vhost) (on_failure next : P) (w : Host) (answers : List Answer)
      → Closed D set_http (writes http)
      → Closed D set_tls (writes tls)
      → ((v : Host) → D v → S v)
      → ((v : Host) (rest : List Answer) → D v → Holds S Q (on_failure v rest))
      → ((v : Host) (rest : List Answer)
          → D v
          → v.http ≡ file_of http
          → v.tls ≡ file_of tls
          → Holds S Q (next v rest))
      → D w
      → Holds S Q (write_vhosts http tls on_failure next w answers)
  unfolding write_vhosts
  write_vhosts-Holds http tls on_failure next w answers kh kt s f n d =
      inspects-Holds S Q on_failure
        (λ v.
          (if is_readable v.http && is_readable v.tls
              then write_all set_http (writes http) on_failure
                  (write_all set_tls (writes tls) on_failure next)
              else on_failure)
            v)
        w answers (s w d) (λ rest. f w rest d)
        (λ rest. elim (Bool-cases (is_readable w.http && is_readable w.tls)) [
          | inr e ↦ rw e (f w rest d)
          | inl e ↦ rw e (written rest)
        ])
    where
      between : Host
      between = apply_all set_http (writes http) w

      d1 : D between
      d1 = apply_all-Closed D set_http (writes http) w kh d

      last : (rest : List Answer) → Holds S Q (next (apply_all set_tls (writes tls) between) rest)
      last rest =
          n (apply_all set_tls (writes tls) between) rest
            (apply_all-Closed D set_tls (writes tls) between kt d1)
            ((written_tls tls between).1 ∙ written_http http w) ((written_tls tls between).0)

      written :
          (rest : List Answer)
          → Holds S Q (
              write_all set_http
                (writes http)
                on_failure
                (write_all set_tls (writes tls) on_failure next)
                w
                rest)
      written rest =
          write_all-Holds S Q D set_http (writes http) on_failure
            (write_all set_tls (writes tls) on_failure next) w rest kh s f
            (λ after.
              write_all-Holds S Q D set_tls (writes tls) on_failure next between after kt s f last
                d1)
            d
