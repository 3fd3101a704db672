-- ===== src/Provision/DomainChange/Gate.antt =====
-- What the paused virtual hosts of internal/provision/domain_change.go answer.
use mathlib.Core.Path.{subst}
use mathlib.Core.List.{append_assoc}
use wpx.Prelude.{
  ℕ, Bool, true, false, not, ◌&&◌, ◌||◌, ◌≡◌, refl, ◌∙◌, ap, inl, inr, Bool-cases, none, some, [],
  ◌∷◌, ◌++◌, arith,
}
use wpx.Text.{Text, codes}
use wpx.Text.Search.{has_prefix, contains_text, drop_as, replace_first}
use wpx.Model.Site.{Site, DomainChange}
use wpx.Provision.Vhosts.{Vhost, ownership_marker, SiteFile, file_of}
use wpx.Provision.DomainChange.{gate, maintenance_tls}

has_prefix-append_right : (p a b : Text) → has_prefix p a ≡ true → has_prefix p (a ++ b) ≡ true
unfolding has_prefix
has_prefix-append_right [] a b h = refl
has_prefix-append_right (x ∷ p) [] b h = absurd (ground arith)
has_prefix-append_right (x ∷ p) (y ∷ a) b h = ground (arith, has_prefix-append_right p a b)

has_prefix_refl : (p : Text) → has_prefix p p ≡ true
unfolding has_prefix
has_prefix_refl [] = refl
has_prefix_refl (x ∷ p) = ground (arith, has_prefix_refl p)

contains_text-has_prefix : (p t : Text) → has_prefix p t ≡ true → contains_text p t ≡ true
unfolding contains_text
contains_text-has_prefix p [] h = h
contains_text-has_prefix p (x ∷ t) h = rw h refl

contains_text-append_left :
    (p a b : Text) → contains_text p b ≡ true → contains_text p (a ++ b) ≡ true
unfolding contains_text
contains_text-append_left p [] b h = h
contains_text-append_left p (x ∷ a) b h = ground (arith, contains_text-append_left p a b h)

contains_text-append_right :
    (p a b : Text) → contains_text p a ≡ true → contains_text p (a ++ b) ≡ true
unfolding contains_text
contains_text-append_right p [] b h =
    contains_text-has_prefix p b (has_prefix-append_right p [] b h)
contains_text-append_right p (x ∷ a) b h =
    ground (arith, has_prefix-append_right p (x ∷ a) b, contains_text-append_right p a b)

-- What is put in the place of a part that was there, is there.
contains_text-replace_first :
    (p new : Text) (o : ℕ) (old t : Text)
    → contains_text p new ≡ true
    → contains_text (o ∷ old) t ≡ true
    → contains_text p (replace_first (o ∷ old) new t) ≡ true
unfolding contains_text replace_first has_prefix
contains_text-replace_first p new o old [] k h = absurd (ground arith)
contains_text-replace_first p new o old (x ∷ t) k h =
    elim (Bool-cases (has_prefix (o ∷ old) (x ∷ t))) [
      | inl e ↦ rw e (contains_text-append_right p new (drop_as (o ∷ old) (x ∷ t)) k)
      | inr e ↦ rw e (
          contains_text-append_left p (x ∷ []) (replace_first (o ∷ old) new t)
            (contains_text-replace_first p new o old t k (ground arith)))
    ]

-- The file is linked and has the part.
abbrev pub serves : Text → SiteFile → Bool
serves part file =
    file.is_linked
    && (elim file.available [ none ↦ false | some content ↦ contains_text part content ])

-- The file is linked, is the one of both names and answers 503.
pub record Gated (site : Site) (change : DomainChange) (file : SiteFile) : Type 0 where
  pub names :
      serves
        (codes "server_name " ++ (site.domain ++ (codes " " ++ (change.domain ++ codes ";"))))
        file
      ≡ true
  pub answer : serves (codes "return 503;") file ≡ true

-- The second file is linked like the first, and answers 503 where the first has a server.
pub record Closed (before after : SiteFile) : Type 0 where
  pub linked : after.is_linked ≡ before.is_linked
  pub answer :
      (not (serves (codes "server {\n") before) || serves (codes "return 503;") after) ≡ true

abbrev names_of_gate : Site → DomainChange → Text
names_of_gate site change =
    codes "server_name " ++ (site.domain ++ (codes " " ++ (change.domain ++ codes ";")))

contains_text-gate :
    (site : Site) (change : DomainChange)
    → (contains_text (names_of_gate site change) (gate site change).content ≡ true)
      × (contains_text (codes "return 503;") (gate site change).content ≡ true)
unfolding gate
contains_text-gate site change = (
  contains_text-append_left names ownership_marker _ (
      contains_text-append_left names head (codes "server_name " ++ after_names) (
        subst (λ t. contains_text names t ≡ true) whole
          (contains_text-append_right names names tail
            (contains_text-has_prefix names names (has_prefix_refl names))))),
  contains_text-append_left (codes "return 503;") ownership_marker _ (
      contains_text-append_left (codes "return 503;") (head ++ codes "server_name ") after_names (
        contains_text-append_left (codes "return 503;") site.domain _ (
          contains_text-append_left (codes "return 503;") (codes " ") (change.domain ++ last)
            (contains_text-append_left (codes "return 503;") change.domain last closes)))),
)
  where
    names : Text
    names = names_of_gate site change

    head : Text
    head = codes "server {\n    listen 80;\n    listen [::]:80;\n    "

    tail : Text
    tail = codes "\n    add_header Retry-After 60 always;\n    return 503;\n}\n"

    last : Text
    last = codes ";\n    add_header Retry-After 60 always;\n    return 503;\n}\n"

    after_names : Text
    after_names = site.domain ++ (codes " " ++ (change.domain ++ last))

    closes : contains_text (codes "return 503;") last ≡ true
    closes =
        contains_text-append_left (codes "return 503;")
          (codes ";\n    add_header Retry-After 60 always;\n    ") (codes "return 503;\n}\n")
          (contains_text-append_right (codes "return 503;") (codes "return 503;") (codes "\n}\n") (
            contains_text-has_prefix (codes "return 503;") (codes "return 503;")
              (has_prefix_refl (codes "return 503;"))))

    whole : names ++ tail ≡ codes "server_name " ++ after_names
    whole =
        ap (λ t. codes "server_name " ++ t)
          (append_assoc site.domain (codes " " ++ (change.domain ++ codes ";")) tail
            ∙ ap (λ t. site.domain ++ (codes " " ++ t))
                (append_assoc change.domain (codes ";") tail))

pub gate-Gated :
    (site : Site) (change : DomainChange) → Gated site change (file_of (gate site change))
unfolding gate
gate-Gated site change = record {
  names = shown (names_of_gate site change) (contains_text-gate site change).0;
  answer = shown (codes "return 503;") (contains_text-gate site change).1;
}
  where
    shown :
        (part : Text)
        → contains_text part (gate site change).content ≡ true
        → serves part (file_of (gate site change)) ≡ true
    shown part h = h

closed :
    (content : Text) (there enabled : Bool)
    → Closed (file_of (record { content = content; exists = there; is_enabled = enabled })) (
        file_of
          (maintenance_tls (record { content = content; exists = there; is_enabled = enabled })))
unfolding maintenance_tls
closed content there false = record { linked = refl; answer = refl }
closed content false true = record { linked = refl; answer = refl }
closed content true true = record {
  linked = refl;
  answer = elim (Bool-cases (contains_text (codes "server {\n") content)) [
    | inr e ↦ rw e refl
    | inl e ↦ rw e (
        contains_text-replace_first (codes "return 503;") new b's' (codes "erver {\n") content
          (contains_text-append_left (codes "return 503;")
            (codes "server {\n    add_header Retry-After 60 always;\n    ") (codes "return 503;\n")
            (contains_text-append_right (codes "return 503;") (codes "return 503;") (codes "\n") (
              contains_text-has_prefix (codes "return 503;") (codes "return 503;")
                (has_prefix_refl (codes "return 503;")))))
          e)
  ];
}
  where
    new : Text
    new = codes "server {\n    add_header Retry-After 60 always;\n    return 503;\n"

pub maintenance_tls-Closed : (v : Vhost) → Closed (file_of v) (file_of (maintenance_tls v))
maintenance_tls-Closed v = closed v.content v.exists v.is_enabled
