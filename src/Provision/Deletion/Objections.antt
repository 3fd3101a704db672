-- ===== src/Provision/Deletion/Objections.antt =====
-- What makes `DeleteSite` of internal/provision/delete_site.go refuse, by the state of the host.
use mathlib.Core.List.{Memᴰ}
use wpx.Prelude.{
  ℕ, String, Bool, true, false, ◌&&◌, ◌≡◌, ◌≢◌, refl, ◌∙◌, ap, sym, arith, leb, eq_iff, none, some,
  List, [], ◌∷◌,
}
use wpx.Text.{Text, codes, contains, ◌=ᵗ◌}
use wpx.Text.Laws.{=ᵗ_eq, =ᵗ_refl}
use wpx.Text.Paths.{is_plain_path, is_within, join}
use wpx.Model.Site.{Site, SiteStatus, deleting, delete_failed, byte_length, valid_site}
use wpx.Provision.Attempt.{Answer}
use wpx.Provision.Deletion.Files.{
  Entry, regular, directory, symlink, lookup, has_marker, DeletionFile, is_foreign,
}
use wpx.Provision.Deletion.Names.{
  Identity, Account, Record, Setup, Resources, site_dir, http_name, http_link, account_name,
}
use wpx.Provision.Deletion.Account.{same_identity}
use wpx.Provision.Deletion.Checks.{is_version, is_configured, deletion_configuration}
use wpx.Provision.Deletion.Listing.{is_own_record, site_deletion_files, has_own_links}
use wpx.Provision.Deletion.Refusals.{
  Refuses, may_start, Flaw, not_started, other_operation, other_account, unverified, Flaw-Refuses,
}
use wpx.Provision.Deletion.{owner, awaits_deletion, valid_deletion_key, delete_site}
use wpx.Provision.Deletion.Flaws.{
  all_are_plain, all_deletable-foreign, all_plain, all_versions-unknown, any-meets,
  is_deletable-unmarked, is_recorded-other, is_recorded-unknown, is_valid_tree-device,
  is_valid_tree-owner,
}

module _ (setup : Setup) (site : Site) where
  -- The roots that must be plain paths.
  abbrev pub roots : List Text
  roots =
      setup.access_root
      ∷ (setup.security_root
          ∷ (setup.site_root
              ∷ (setup.nginx_available
                  ∷ (setup.nginx_enabled
                      ∷ (setup.certificate_root
                          ∷ (setup.data_root
                              ∷ (setup.nginx_snippets ∷ (setup.php_snippets ∷ []))))))))

  -- What is wrong with the request, or with the configured roots.
  pub data BadRequest (job_key : String) : Type 0 where
    not_valid : valid_site setup.parse_url site ≡ false → BadRequest job_key
    not_deleting : site.status ≢ deleting → site.status ≢ delete_failed → BadRequest job_key
    empty_key : job_key ≡ "" → BadRequest job_key
    long_key : leb (byte_length (codes job_key)) 160 ≡ false → BadRequest job_key
    broken_key :
        (character : ℕ)
        → Memᴰ character (13 ∷ (10 ∷ []))
        → contains character (codes job_key) ≡ true
        → BadRequest job_key
    bad_root : (root : Text) → Memᴰ root roots → is_plain_path root ≡ false → BadRequest job_key

  -- What is wrong with the record that is found.
  pub data BadRecord (r : Record) (w : Resources) : Type 0 where
    other_site : r.site_id ≢ site.id → BadRecord r w
    other_domain : r.domain ≢ site.domain → BadRecord r w
    other_directory : r.site_dir ≢ site_dir setup site → BadRecord r w
    other_configuration :
        (configuration : Text)
        → deletion_configuration setup site w.files ≡ some configuration
        → r.configuration ≢ configuration
        → BadRecord r w

  -- What is wrong with the host, where the record is not done.
  pub data BadHost (r : Record) (w : Resources) : Type 0 where
    other_user :
        (a : Account) (i : Identity)
        → w.account ≡ some a
        → r.identity ≡ some i
        → a.uid ≢ i.uid
        → BadHost r w
    other_group :
        (a : Account) (i : Identity)
        → w.account ≡ some a
        → r.identity ≡ some i
        → a.gid ≢ i.gid
        → BadHost r w
    unknown_user : (a : Account) → w.account ≡ some a → r.identity ≡ none → BadHost r w
    other_owner :
        (e : Entry) (i : Identity)
        → lookup (site_dir setup site) w.files ≡ some e
        → r.identity ≡ some i
        → e.uid ≢ i.uid
        → BadHost r w
    other_device :
        (e sub : Entry) (path : Text)
        → lookup (site_dir setup site) w.files ≡ some e
        → Memᴰ (path, sub) w.files
        → is_within (site_dir setup site) path ≡ true
        → sub.node ≡ directory
        → sub.device ≢ e.device
        → BadHost r w
    unknown_version : (v : Text) → Memᴰ v r.php_versions → is_version v ≡ false → BadHost r w
    foreign_file :
        (file : DeletionFile) (e : Entry) (content : Text)
        → Memᴰ file (site_deletion_files setup site w.files)
        → lookup file.path w.files ≡ some e
        → e.node ≡ regular content
        → (file.marker =ᵗ []) ≡ false
        → has_marker file.marker content ≡ false
        → BadHost r w
    foreign_link :
        (e : Entry) (target : Text)
        → lookup (http_link setup site) w.files ≡ some e
        → e.node ≡ symlink target
        → target ≢ join setup.nginx_available (http_name setup site)
        → BadHost r w

  -- Why a run is refused.
  pub data Objection (job_key : String) (w : Resources) : Type 0 where
    bad_request : BadRequest job_key → Objection job_key w
    bad_record : (r : Record) → w.saved ≡ some r → BadRecord r w → Objection job_key w
    bad_host :
        (r : Record) → w.saved ≡ some r → r.is_done ≡ false → BadHost r w → Objection job_key w

  waits_not : (s : SiteStatus) → s ≢ deleting → s ≢ delete_failed → awaits_deletion s ≡ false
  waits_not deleting h k = absurd (h refl)
  waits_not delete_failed h k = absurd (k refl)
  waits_not _ h k = refl

  nine :
      (a b c d e f g h i : Bool)
      → (a && b && c && d && e && f && g && h && i)
        ≡ (a && (b && (c && (d && (e && (f && (g && (h && (i && true)))))))))
  nine a b c d e f g h i = ground arith

  bad_roots :
      (root : Text) → Memᴰ root roots → is_plain_path root ≡ false → is_configured setup ≡ false
  unfolding is_configured all_are_plain
  bad_roots root m h =
      nine (is_plain_path setup.access_root) (is_plain_path setup.security_root)
        (is_plain_path setup.site_root) (is_plain_path setup.nginx_available)
        (is_plain_path setup.nginx_enabled) (is_plain_path setup.certificate_root)
        (is_plain_path setup.data_root) (is_plain_path setup.nginx_snippets)
        (is_plain_path setup.php_snippets)
      ∙ all_plain roots root m h

  BadRequest-may_start :
      (job_key : String) → BadRequest job_key → may_start setup site job_key ≡ false
  unfolding valid_deletion_key
  BadRequest-may_start job_key (not_valid e) = rw e refl
  BadRequest-may_start job_key (not_deleting h k) =
      let e = waits_not site.status h k in ground arith
  BadRequest-may_start job_key (empty_key e) =
      let nothing : (codes job_key =ᵗ []) ≡ true = ap (λ key. codes key =ᵗ []) e ∙ =ᵗ_refl [] in
      ground arith
  BadRequest-may_start job_key (long_key e) = ground arith
  BadRequest-may_start job_key (broken_key character (Memᴰ.head e) h) =
      let found : contains 13 (codes job_key) ≡ true =
        ap (λ n. contains n (codes job_key)) (sym e) ∙ h in
      ground arith
  BadRequest-may_start job_key (broken_key character (Memᴰ.tail (Memᴰ.head e)) h) =
      let found : contains 10 (codes job_key) ≡ true =
        ap (λ n. contains n (codes job_key)) (sym e) ∙ h in
      ground arith
  BadRequest-may_start job_key (broken_key character (Memᴰ.tail (Memᴰ.tail m)) h) = elim m [ ]
  BadRequest-may_start job_key (bad_root root m h) = let e = bad_roots root m h in ground arith

  BadRecord-is_own_record :
      (r : Record) (w : Resources)
      → BadRecord r w
      → (configuration : Text) → deletion_configuration setup site w.files ≡ some configuration
      → is_own_record setup site configuration r ≡ false
  unfolding is_own_record
  BadRecord-is_own_record r w (other_site other) c e = ground (arith, eq_iff r.site_id site.id)
  BadRecord-is_own_record r w (other_domain other) c e = ground (arith, =ᵗ_eq r.domain site.domain)
  BadRecord-is_own_record r w (other_directory other) c e =
      ground (arith, =ᵗ_eq r.site_dir (site_dir setup site))
  BadRecord-is_own_record r w (other_configuration d f other) c e =
      ground (arith, =ᵗ_eq r.configuration c)

  BadHost-Flaw :
      (job_key : String) (r : Record) (w : Resources)
      → w.saved ≡ some r
      → r.is_done ≡ false
      → BadHost r w
      → Flaw setup site job_key w
  unfolding same_identity has_own_links
  BadHost-Flaw job_key r w saved is_open (other_user a i there known other) =
      other_account r saved is_open (
        rw known (
          rw there
            (is_recorded-other (account_name setup site) (site_dir setup site) a i (ground arith))))
  BadHost-Flaw job_key r w saved is_open (other_group a i there known other) =
      other_account r saved is_open (
        rw known (
          rw there
            (is_recorded-other (account_name setup site) (site_dir setup site) a i (ground arith))))
  BadHost-Flaw job_key r w saved is_open (unknown_user a there unknown) =
      other_account r saved is_open (
        rw unknown
          (rw there (is_recorded-unknown (account_name setup site) (site_dir setup site) a)))
  BadHost-Flaw job_key r w saved is_open (other_owner e i there known other) =
      unverified r saved is_open (
        rw known (
          rw (is_valid_tree-owner (site_dir setup site) w.mounts w.files e i.uid i.gid there other)
            refl))
  BadHost-Flaw job_key r w saved is_open (other_device e sub path there m within node other) =
      let foreign : is_foreign (site_dir setup site) e.device (path, sub) ≡ true =
        rw within (rw node (ground arith)) in
      let found =
        any-meets (is_foreign (site_dir setup site) e.device) (path, sub) w.files m foreign in
      unverified r saved is_open (
        rw
          (is_valid_tree-device (site_dir setup site) w.mounts w.files e (owner r.identity) there
            found)
          refl)
  BadHost-Flaw job_key r w saved is_open (unknown_version v m unknown) =
      let never = all_versions-unknown v r.php_versions m unknown in
      unverified r saved is_open (ground arith)
  BadHost-Flaw job_key r w saved is_open
        (foreign_file file e content m there node marked unmarked) =
      let never =
        all_deletable-foreign setup.euid w.files file (site_deletion_files setup site w.files) m
          (is_deletable-unmarked setup.euid w.files file e content there node marked unmarked) in
      unverified r saved is_open (ground arith)
  BadHost-Flaw job_key r w saved is_open (foreign_link e target there node other) =
      let never : has_own_links setup site w.files ≡ false = rw there (
        rw node
          (ground (arith, =ᵗ_eq target (join setup.nginx_available (http_name setup site))))) in
      unverified r saved is_open (ground arith)

  -- A run changes nothing on the host and fails where the site is not valid or not being deleted,
  -- where the job key is empty, longer than 160 bytes or holds a line break, or a configured root
  -- is no plain path; where the record found is of another site, domain, directory or
  -- configuration; and, with a record that is not done, where the account has another number or
  -- group than the recorded one or none was recorded, the directory of the site has another owner
  -- or holds a directory of another device, a recorded PHP version is unknown, a listed file lacks
  -- its marker, or the site's link leads elsewhere.
  pub delete_site-Refuses :
      (job_key : String) (w : Resources) (answers : List Answer)
      → Objection job_key w
      → Refuses setup site w (delete_site setup site job_key w answers)
  delete_site-Refuses job_key w answers (bad_request bad) =
      Flaw-Refuses setup site job_key w answers (not_started (BadRequest-may_start job_key bad))
  delete_site-Refuses job_key w answers (bad_record r saved bad) =
      Flaw-Refuses setup site job_key w answers
        (other_operation r saved (BadRecord-is_own_record r w bad))
  delete_site-Refuses job_key w answers (bad_host r saved is_open bad) =
      Flaw-Refuses setup site job_key w answers (BadHost-Flaw job_key r w saved is_open bad)
