-- ===== src/Tests/Data.antt =====
-- What the runs share: a database with one site, rows of accounts, and the arguments of the model.
use wpx.Prelude.{ℕ, String, Option, none, some, Result, ok, err, true, false, List, [], ◌∷◌}
use wpx.Text.{Text, codes}
use wpx.Stamp.{Stamp}
use wpx.Rbac.{Role}
use wpx.Model.Site.{Site, SiteKind, active, not_configured, production, multisite_disabled, Url}
use wpx.Store.Rows.{Db, UserRow, Error}
use wpx.Store.Users.Access.{Draw, Bcrypt}

abbrev pub from_ok {ℓ} : {A : Type ℓ} → Result Error A → A → A
from_ok (ok a) b = a
from_ok (err _) b = b

abbrev pub second : ℕ → Stamp
second n = record { second = n; nano = 0 }

abbrev pub plain_bcrypt : Bcrypt
plain_bcrypt = record { generate = λ p. some "hash"; compare = λ h p. true }

abbrev pub no_url : String → Option Url
no_url s = none

abbrev pub draw_of : ℕ → String → String → Draw
draw_of n id audit_id = record { now = second n; id = id; audit_id = audit_id }

abbrev pub site_id : String
site_id = "0b0e2b0e-1111-4222-8333-444455556666"

abbrev pub shop : Site
shop = record {
  id = site_id;
  domain = codes "shop.example.org";
  kind = SiteKind.word_press;
  php_version = "8.3";
  upstream = "";
  allow_eol = false;
  status = active;
  tls_status = not_configured;
  environment = production;
  parent_site_id = none;
  redis_enabled = true;
  fastcgi_cache_enabled = true;
  wordpress_multisite = multisite_disabled;
  created_at = second 5;
  updated_at = second 5;
}

abbrev pub start : Db
start = record {
  users = [];
  sessions = [];
  login_challenges = [];
  recovery_codes = [];
  grants = [];
  sites = shop ∷ [];
  jobs = [];
  audit_events = [];
  reservations = [];
  deleted_sites = [];
  dns_records = [];
  dns_providers = [];
  ftp_users = [];
  schedules = [];
}

abbrev pub password : List ℕ
password = codes "correct horse battery"

abbrev pub account : String → Text → Role → UserRow
account id username role = record {
  id = id;
  username = username;
  password_hash = "hash";
  role = role;
  disabled = false;
  totp_secret = none;
  totp_pending = none;
  totp_last_counter_plus_one = 0;
  created_at = second 1;
  updated_at = second 1;
}
