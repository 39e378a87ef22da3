-- ===== src/Request/Labels.antt =====
-- src/request.rs: two callers with the same fingerprint input are the same, and so are two requests.
use mathlib.Core.List.{append_assoc, append-nil}
use kaiion.Prelude.{
  ℕ, ◌≡◌, ◌≢◌, refl, sym, ap, ◌∙◌, String, List, [], ◌∷◌, ◌++◌, Option, none, some, length-append,
  All, arith, str_eq_iff,
}
use kaiion.Request.Bytes.{utf8, be_digits, hash_bytes, hash_component}
use kaiion.Request.Headers.{UpstreamAuth}
use kaiion.Request.Normalize.{fingerprint_input, optional_component}
use kaiion.Request.Identity.{scope_input, request_input}
use kaiion.Request.Injective.{utf8-inj, IsShort, hash_bytes-inj}

-- Labelled components, one after the other.
abbrev components : List (String × String) → List ℕ
components [] = []
components ((name, value) ∷ rest) = hash_component name value ++ components rest

abbrev AllShort : List (String × String) → Type 0
AllShort = All (λ c. IsShort c.0 × IsShort c.1)

hash_component-nonempty :
    (name value : String) (rest : List ℕ) → hash_component name value ++ rest ≢ []
unfolding hash_component hash_bytes be_digits
hash_component-nonempty name value rest e =
    ground (arith, e, length-append (hash_component name value) rest)

components-inj :
    (cs ds : List (String × String))
    → AllShort cs
    → AllShort ds
    → components cs ≡ components ds
    → cs ≡ ds
unfolding hash_component
components-inj [] [] h k e = refl
components-inj [] ((n, v) ∷ ds) h k e = elim (hash_component-nonempty n v _ (sym e)) [ ]
components-inj ((n, v) ∷ cs) [] h k e = elim (hash_component-nonempty n v _ e) [ ]
components-inj ((n, v) ∷ cs) ((m, w) ∷ ds) h k e =
    let (name, value, rest) =
      hash_bytes-inj (utf8 n) (utf8 v) (utf8 m) (utf8 w) (components cs) (components ds) h.0.0 h.0.1
        k.0.0 k.0.1 e in
    cc (utf8-inj n m name, utf8-inj v w value, components-inj cs ds h.1 k.1 rest)

abbrev optional_label : (name : String) → Option String → List (String × String)
optional_label name none = []
optional_label name (some value) = (name, value) ∷ []

-- The components of a caller's credentials.
abbrev labels : UpstreamAuth → List (String × String)
labels auth =
    ("authorization", auth.authorization)
    ∷ (optional_label "organization" auth.organization ++ optional_label "project" auth.project)

-- Every credential's length fits a u64.
abbrev pub HasShort : UpstreamAuth → Type 0
HasShort auth = AllShort (labels auth)

components-append :
    (cs ds : List (String × String)) → components (cs ++ ds) ≡ components cs ++ components ds
components-append [] ds = refl
components-append ((name, value) ∷ cs) ds =
    ap (λ r. hash_component name value ++ r) (components-append cs ds)
    ∙ sym (append_assoc (hash_component name value) (components cs) (components ds))

optional_component-components :
    (name : String) (o : Option String)
    → optional_component name o ≡ components (optional_label name o)
optional_component-components name none = refl
optional_component-components name (some value) = sym (append-nil (hash_component name value))

fingerprint_input-components :
    (auth : UpstreamAuth) → fingerprint_input auth ≡ components (labels auth)
unfolding fingerprint_input
fingerprint_input-components auth =
    rw
      (
        components-append (optional_label "organization" auth.organization)
            (optional_label "project" auth.project),
        optional_component-components "organization" auth.organization,
        optional_component-components "project" auth.project,
      )
      refl

other_label : ◌≢◌ {A = String} "organization" "project"
other_label = ground (arith, str_eq_iff "organization" "project")

optional_labels-inj :
    (o p o' p' : Option String)
    → optional_label "organization" o ++ optional_label "project" p
      ≡ optional_label "organization" o' ++ optional_label "project" p'
    → (o ≡ o') × (p ≡ p')
optional_labels-inj o p o' p' e = ground (arith, other_label)

labels-inj : (a b : UpstreamAuth) → labels a ≡ labels b → a ≡ b
labels-inj a b e =
    let (organization, project) =
      optional_labels-inj a.organization a.project b.organization b.project (cc e) in
    let authorization : a.authorization ≡ b.authorization = cc e in
    cc (authorization, organization, project)

-- The bytes hashed for a caller determine the credentials: an organization is never taken for a
-- project, nor a part of one credential for another.
pub fingerprint_input-inj :
    (a b : UpstreamAuth)
    → HasShort a
    → HasShort b
    → fingerprint_input a ≡ fingerprint_input b
    → a ≡ b
fingerprint_input-inj a b h k e = labels-inj a b (
    components-inj (labels a) (labels b) h k
      (sym (fingerprint_input-components a) ∙ e ∙ fingerprint_input-components b))

-- The components of a request's fingerprint.
abbrev request_labels :
    (provider session : String) → Option String → (body : String) → List (String × String)
request_labels provider session idempotency body =
    ("provider", provider)
    ∷ ("session", session)
    ∷ (optional_label "idempotency" idempotency ++ (("request", body) ∷ []))

request_input-components :
    (provider session : String) (idempotency : Option String) (body : String)
    → request_input provider session idempotency (utf8 body)
      ≡ components (request_labels provider session idempotency body)
unfolding request_input scope_input hash_component
request_input-components provider session none body = simp (append-nil, append_assoc)
request_input-components provider session (some key) body = simp (append-nil, append_assoc)

idempotency_label : ◌≢◌ {A = String} "idempotency" "request"
idempotency_label = ground (arith, str_eq_iff "idempotency" "request")

-- What a durable request is identified by.
pub record Identity : Type 0 where
  pub provider : String
  pub session : String
  pub idempotency : Option String
  pub body : String

abbrev identity_labels : Identity → List (String × String)
identity_labels i = request_labels i.provider i.session i.idempotency i.body

request_labels-inj :
    (o o' : Option String) (body body' : String)
    → optional_label "idempotency" o ++ (("request", body) ∷ [])
      ≡ optional_label "idempotency" o' ++ (("request", body') ∷ [])
    → (o ≡ o') × (body ≡ body')
request_labels-inj o o' body body' e = ground (arith, idempotency_label)

identity_labels-inj : (i j : Identity) → identity_labels i ≡ identity_labels j → i ≡ j
identity_labels-inj i j e =
    let (idempotency, body) = request_labels-inj i.idempotency j.idempotency i.body j.body (cc e) in
    let provider : i.provider ≡ j.provider = cc e in
    let session : i.session ≡ j.session = cc e in cc (provider, session, idempotency, body)

-- The bytes hashed for a request.
abbrev pub identity_input : Identity → List ℕ
identity_input i = request_input i.provider i.session i.idempotency (utf8 i.body)

-- Where lengths fit a u64, the bytes hashed for a request determine the provider, the session, the
-- idempotency key or its absence, and the text of the body.
pub request_input-inj :
    (i j : Identity)
    → AllShort (identity_labels i)
    → AllShort (identity_labels j)
    → identity_input i ≡ identity_input j
    → i ≡ j
request_input-inj i j h k e = identity_labels-inj i j (
    components-inj (identity_labels i) (identity_labels j) h k (
      sym (request_input-components i.provider i.session i.idempotency i.body)
      ∙ e
      ∙ request_input-components j.provider j.session j.idempotency j.body))
