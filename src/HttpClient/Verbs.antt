-- ===== src/HttpClient/Verbs.antt =====
-- Which verb the requests of a client are sent with.
use mathlib.Core.Path.{subst}
use gamnet.Prelude.{
  ℕ, zero, suc, ◌/◌, ◌≡◌, ◌==◌, refl, if◌then◌else◌, Bool, true, false, Bool-cases, inl, inr, List,
  [], ◌∷◌, ◌++◌, Option, none, some, length, Outcome, ok, throw, fault, ◌>>=◌,
}
use gamnet.HttpClient.{
  Setting, follow_location, post_fields, post_field_size, custom_request, Curl, HttpClient,
  received, set_all, perform_loop, settings, request_set, http_request, answer, path_param, get_on,
  get, fields, after, post_on, post, custom_on, verb_set, put, Answered,
}

-- Every option but the verb
abbrev pub IsOther : Setting → Type 0
IsOther (custom_request verb) = ⊥
IsOther o = Unit {0}

abbrev AreOther : List Setting → Type 0
AreOther [] = Unit {0}
AreOther (o ∷ os) = IsOther o × AreOther os

-- What curl says of CURLOPT_CUSTOMREQUEST: the handle has the verb from then on, whatever else is set
-- or performed.
pub record Documented {Handle : Type 0} (curl : Curl Handle) (Custom : List ℕ → Handle → Type 0)
    : Type 0 where
  pub custom : (h : Handle) (verb : List ℕ) → Custom verb (curl.set_opt h (custom_request verb)).0
  pub set_keeps :
      (h : Handle) (o : Setting) (verb : List ℕ)
      → IsOther o
      → Custom verb h
      → Custom verb (curl.set_opt h o).0
  pub perform_keeps : (h : Handle) (verb : List ℕ) → Custom verb h → Custom verb (curl.perform h).0

-- A later call on the client
pub data Request : Type 0 where
  get_request post_request : List ℕ → List ℕ → Request

module _ {Handle : Type 0} (curl : Curl Handle) where
  unfoldable pub sent : ℕ → HttpClient Handle → Request → Answered curl
  sent fuel c (get_request path param) = get curl fuel c path param
  sent fuel c (post_request path param) = post curl fuel c path param

  -- The client behind a row of calls, where none goes on for ever
  unfoldable pub sent_all :
      ℕ → HttpClient Handle → List Request → Outcome (Option (HttpClient Handle))
  unfolding sent
  sent_all fuel c [] = ok (some c)
  sent_all fuel c (r ∷ rs) =
      sent fuel c r >>= λ o. elim o [ none ↦ ok none | some (c', reply) ↦ sent_all fuel c' rs ]

  module _ {Custom : List ℕ → Handle → Type 0} (doc : Documented curl Custom) (verb : List ℕ) where
    -- The client has a handle with the verb.
    abbrev pub HasVerb : HttpClient Handle → Type 0
    HasVerb c = (h : Handle) × (c.curl ≡ some h) × Custom verb h

    -- So has the client that a request leaves, if it comes to an end.
    abbrev Keeps {ℓ} : {A : Type ℓ} → (A → Type 0) → Outcome (Option A) → Type 0
    Keeps P fault = Unit {0}
    Keeps P (throw e) = Unit {0}
    Keeps P (ok none) = Unit {0}
    Keeps P (ok (some a)) = P a

    Keeps-bind {ℓ κ} :
        {A : Type ℓ} {B : Type κ} (r : Outcome (Option A)) (f : Option A → Outcome (Option B))
        (P : A → Type 0) (Q : B → Type 0)
        → f none ≡ ok none
        → ((a : A) → P a → Keeps Q (f (some a)))
        → Keeps P r
        → Keeps Q (r >>= f)
    Keeps-bind fault f P Q e k h = tt
    Keeps-bind (throw x) f P Q e k h = tt
    Keeps-bind (ok none) f P Q e k h = rw e tt
    Keeps-bind (ok (some a)) f P Q e k h = k a h

    Keeps-comes {ℓ} :
        {A : Type ℓ} (r : Outcome (List ℕ)) (f : List ℕ → Outcome (Option A)) (P : A → Type 0)
        → ((text : List ℕ) → Keeps P (f text))
        → Keeps P (r >>= f)
    Keeps-comes fault f P k = tt
    Keeps-comes (throw e) f P k = tt
    Keeps-comes (ok text) f P k = k text

    Keeps-if {ℓ} :
        {A : Type ℓ} (b : Bool) (x y : Outcome (Option A)) (P : A → Type 0)
        → Keeps P x
        → Keeps P y
        → Keeps P (if b then x else y)
    Keeps-if true x y P p q = p
    Keeps-if false x y P p q = q

    set_all-Custom :
        (h : Handle) (os : List Setting)
        → AreOther os
        → Custom verb h
        → Custom verb (set_all curl h os).0
    unfolding set_all
    set_all-Custom h [] others c = c
    set_all-Custom h (o ∷ os) (other, others) c = elim (Bool-cases ((curl.set_opt h o).1 == 0)) [
      | inl good ↦
          rw good (set_all-Custom (curl.set_opt h o).0 os others (doc.set_keeps h o verb other c))
      | inr bad ↦ rw bad (doc.set_keeps h o verb other c)
    ]

    perform_loop-Custom :
        (fuel : ℕ) (h : Handle) (res : List ℕ)
        → Custom verb h
        → Keeps (λ (r : Handle × List ℕ × ℕ). Custom verb r.0) (perform_loop curl fuel h res)
    unfolding perform_loop
    perform_loop-Custom zero h res c = tt
    perform_loop-Custom (suc fuel) h res c =
        let next = doc.perform_keeps h verb c in
        Keeps-comes (received res (curl.perform h).2) _ _ (λ data'.
          Keeps-if ((curl.perform h).1 == 0) _ _ _
            (Keeps-if ((curl.get_info (curl.perform h).0).0 == 0) _ _ _
              (Keeps-if ((curl.get_info (curl.perform h).0).1 / 100 == 3) _ _ _
                (perform_loop-Custom fuel (curl.set_opt (curl.perform h).0 follow_location).0 data'
                  (doc.set_keeps (curl.perform h).0 follow_location verb tt next))
                next)
              next)
            next)

    request_set-HasVerb :
        (fuel : ℕ) (c : HttpClient Handle) (s : Handle × Option ℕ)
        → Custom verb s.0
        → Keeps (λ (r : HttpClient Handle × ℕ). HasVerb r.0) (request_set curl fuel c s)
    unfolding request_set
    request_set-HasVerb fuel c (h, some code) k = (h, refl, k)
    request_set-HasVerb fuel c (h, none) k =
        Keeps-bind (perform_loop curl fuel h c.res_data) _
          (λ (r : Handle × List ℕ × ℕ). Custom verb r.0)
          (λ (r : HttpClient Handle × ℕ). HasVerb r.0) refl (λ r k'. (r.0, refl, k'))
          (perform_loop-Custom fuel h c.res_data k)

    abbrev Stays : Answered curl → Type 0
    Stays r = Keeps (λ (a : HttpClient Handle × Option (ℕ × List ℕ)). HasVerb a.0) r

    answered :
        (fuel : ℕ) (c : HttpClient Handle) (h : Handle) (path : List ℕ)
        → Custom verb h
        → Stays (answer curl (http_request curl fuel c h path))
    unfolding answer http_request settings
    answered fuel c h path k =
        Keeps-bind (request_set curl fuel c (set_all curl h (settings curl c path))) _
          (λ (r : HttpClient Handle × ℕ). HasVerb r.0)
          (λ (a : HttpClient Handle × Option (ℕ × List ℕ)). HasVerb a.0) refl (λ r k'. k')
          (request_set-HasVerb fuel c (set_all curl h (settings curl c path))
            (set_all-Custom h (settings curl c path) (tt, (tt, (tt, (tt, (tt, (tt, tt)))))) k))

    after-HasVerb :
        (fuel : ℕ) (c : HttpClient Handle) (path : List ℕ) (s : Handle × Option ℕ)
        → Custom verb s.0
        → Stays (after curl fuel c path s)
    unfolding after
    after-HasVerb fuel c path (h, some code) k = (h, refl, k)
    after-HasVerb fuel c path (h, none) k = answered fuel c h path k

    fields-AreOther :
        (param : List ℕ) (os : List Setting) → AreOther os → AreOther (fields curl param ++ os)
    unfolding fields
    fields-AreOther [] os h = h
    fields-AreOther (p ∷ param) os h = (tt, h)

    sent-HasVerb :
        (fuel : ℕ) (c : HttpClient Handle) (r : Request) → HasVerb c → Stays (sent fuel c r)
    unfolding sent get get_on post post_on
    sent-HasVerb fuel c (get_request path param) (h, e, k) =
        rw e (answered fuel c h (path_param curl path param) k)
    sent-HasVerb fuel c (post_request path param) (h, e, k) = rw e (
        after-HasVerb fuel c path
          (set_all curl h (fields curl param ++ (post_field_size (length param) ∷ [])))
          (set_all-Custom h (fields curl param ++ (post_field_size (length param) ∷ []))
            (fields-AreOther param (post_field_size (length param) ∷ []) (tt, tt)) k))

    sent_all-HasVerb :
        (fuel : ℕ) (c : HttpClient Handle) (rs : List Request)
        → HasVerb c
        → Keeps HasVerb (sent_all fuel c rs)
    unfolding sent_all
    sent_all-HasVerb fuel c [] v = v
    sent_all-HasVerb fuel c (r ∷ rs) v =
        Keeps-bind (sent fuel c r) _ (λ (a : HttpClient Handle × Option (ℕ × List ℕ)). HasVerb a.0)
          HasVerb refl (λ a v'. sent_all-HasVerb fuel a.0 rs v') (sent-HasVerb fuel c r v)

    of_Keeps {ℓ} :
        {A : Type ℓ} (P : A → Type 0) (r : Outcome (Option A)) (a : A)
        → r ≡ ok (some a)
        → Keeps P r
        → P a
    of_Keeps P r a e k = subst (Keeps P) e k

  abbrev pub put_verb : List ℕ
  put_verb = b'P' ∷ b'U' ∷ b'T' ∷ []

  put-HasVerb :
      {Custom : List ℕ → Handle → Type 0} (doc : Documented curl Custom) (fuel : ℕ)
      (c : HttpClient Handle) (h : Handle) (path param : List ℕ)
      → ((k : Handle) (o : Setting) → (curl.set_opt k o).1 ≡ 0)
      → c.curl ≡ some h
      → Stays doc put_verb (put curl fuel c path param)
  unfolding put custom_on fields set_all verb_set
  put-HasVerb doc fuel c h path [] accepts e = rw e (
      after-HasVerb doc put_verb fuel c path ((curl.set_opt h (custom_request put_verb)).0, none)
        (doc.custom h put_verb))
  put-HasVerb doc fuel c h path (p ∷ param) accepts e =
      rw (e, accepts h (post_fields (p ∷ param)))
        (after-HasVerb doc put_verb fuel c path
          (
            (curl.set_opt (curl.set_opt h (post_fields (p ∷ param))).0 (custom_request put_verb)).0,
            none,
          )
          (doc.custom (curl.set_opt h (post_fields (p ∷ param))).0 put_verb))

  set_all_ok :
      (h : Handle) (os : List Setting)
      → ((k : Handle) (o : Setting) → (curl.set_opt k o).1 ≡ 0)
      → set_all curl h os ≡ ((set_all curl h os).0, none)
  unfolding set_all
  set_all_ok h [] accepts = refl
  set_all_ok h (o ∷ os) accepts = rw (accepts h o) (set_all_ok (curl.set_opt h o).0 os accepts)

  -- A Put, and then any Gets and Posts, of a client whose handle accepts every option: the handle still
  -- has PUT for its verb. A Get after that goes out as a PUT: its loop begins by performing a handle
  -- that has the verb.
  pub put_stays :
      {Custom : List ℕ → Handle → Type 0}
      → Documented curl Custom
      → (fuel : ℕ) (c c1 c2 : HttpClient Handle) (h : Handle) (path param : List ℕ)
        (reply : Option (ℕ × List ℕ)) (rs : List Request)
      → ((k : Handle) (o : Setting) → (curl.set_opt k o).1 ≡ 0)
      → c.curl ≡ some h
      → put curl fuel c path param ≡ ok (some (c1, reply))
      → sent_all fuel c1 rs ≡ ok (some c2)
      → (h' : Handle) × (c2.curl ≡ some h')
        × Custom put_verb h'
        × ((fuel' : ℕ) (path' param' : List ℕ)
            → (k : Handle) × Custom put_verb k
              × (get curl fuel' c2 path' param'
                  ≡ answer curl (
                      perform_loop curl fuel' k c2.res_data >>= λ o. elim o [
                        | none ↦ ok none
                        | some r ↦ ok (some (record c2 { curl = some r.0; res_data = r.1 }, r.2))
                      ])))
  unfolding get get_on http_request request_set settings
  put_stays doc fuel c c1 c2 h path param reply rs accepts e first later =
      let (h', same, verb) =
        of_Keeps doc put_verb (HasVerb doc put_verb) (sent_all fuel c1 rs) c2 later (
          sent_all-HasVerb doc put_verb fuel c1 rs (
            of_Keeps doc put_verb
              (λ (a : HttpClient Handle × Option (ℕ × List ℕ)). HasVerb doc put_verb a.0)
              (put curl fuel c path param) (c1, reply) first
              (put-HasVerb doc fuel c h path param accepts e))) in
      (
        h',
        same,
        verb,
        λ fuel' path' param'.
            let os = settings curl c2 (path_param curl path' param') in
            (
              (set_all curl h' os).0,
              set_all-Custom doc put_verb h' os (tt, (tt, (tt, (tt, (tt, (tt, tt)))))) verb,
              rw (same, set_all_ok h' os accepts) refl,
            ),
      )
