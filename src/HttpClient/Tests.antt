-- ===== src/HttpClient/Tests.antt =====
-- Concrete inputs for the theorems on the client: servers that redirect once, or for ever, and a curl
-- whose handle is the verb.
use gamnet.Prelude.{
  ◌>>=◌, none, ℕ, zero, suc, ◌/◌, ◌≡◌, refl, arith, List, [], ◌∷◌, ◌++◌, none, some, ok, fault,
}
use gamnet.HttpClient.{
  c_str, answer, perform_loop, post, Setting, http_header, connect_timeout, no_signal, url,
  write_data, write_function, follow_location, post_fields, post_field_size, custom_request, Curl,
  HttpClient, get, put, callback, path_param, settings,
}
use gamnet.HttpClient.Answers.{
  Serves, prepared, last_hop, gathered, get_lem, get_endless, callback_beyond,
}
use gamnet.HttpClient.Verbs.{
  IsOther, Documented, get_request, post_request, sent_all, put_verb, put_stays,
}

-- How many redirections are left, and the last status
abbrev Server : Type 0
Server = ℕ × ℕ

abbrev stepped : Server → Server
stepped (zero, s) = (0, 200)
stepped (suc n, s) = (n, 302)

abbrev redirecting : Curl Server
redirecting = record {
  set_opt = λ h o. (h, 0);
  perform = λ h. (stepped h, 0, record { memory = b'a' ∷ 0 ∷ b'z' ∷ []; count = 1 } ∷ []);
  get_info = λ h. (0, h.1);
}

redirecting-Serves : Serves redirecting (λ h. (stepped h).1) (λ h. (b'a' ∷ []) ∷ [])
redirecting-Serves = record {
  accepts = λ h o. refl;
  performs = λ h. refl;
  info = λ h. refl;
  gives = λ h. (unfold c_str in refl, tt);
}

abbrev client : HttpClient Server
client = record { curl = some (1, 0); host = b'h' ∷ []; map_header = []; res_data = b'x' ∷ [] }

get_lem_example :
    (c' : HttpClient Server) × (get redirecting 2 client (b'p' ∷ []) []
      ≡ ok (some (c', some ((stepped (last_hop redirecting 1 (1, 0))).1, c'.res_data))))
    × (c'.res_data ≡ (b'x' ∷ []) ++ gathered redirecting (λ h. (b'a' ∷ []) ∷ []) 1 (1, 0))
get_lem_example =
    get_lem redirecting redirecting-Serves client (1, 0) (b'p' ∷ []) [] 1 refl (1, 0) started
      (refl, two_hundred)
  where
    started :
        (1, 0)
        ≡ prepared redirecting
            (1, 0)
            (settings redirecting client (path_param redirecting (b'p' ∷ []) []))
    started = unfold prepared settings path_param in refl

    two_hundred : (stepped (last_hop redirecting 1 (1, 0))).1 / 100 ≡ 3 → ⊥
    two_hundred e = absurd (omega (arith, e))

abbrev unmodified : Curl ℕ
unmodified = record { set_opt = λ h o. (h, 0); perform = λ h. (h, 0, []); get_info = λ h. (0, 304) }

unmodified-Serves : Serves unmodified (λ h. 304) (λ h. [])
unmodified-Serves = record {
  accepts = λ h o. refl;
  performs = λ h. refl;
  info = λ h. refl;
  gives = λ h. tt;
}

abbrev plain_client : HttpClient ℕ
plain_client = record { curl = some 0; host = b'h' ∷ []; map_header = []; res_data = [] }

get_endless_example : get unmodified 7 plain_client [] [] ≡ ok none
get_endless_example =
    get_endless unmodified unmodified-Serves plain_client 0 [] [] 7 refl (λ n. refl)

abbrev set_verb : List ℕ → Setting → List ℕ
set_verb h (custom_request verb) = verb
set_verb h o = h

abbrev verbs : Curl (List ℕ)
verbs = record {
  set_opt = λ h o. (set_verb h o, 0);
  perform = λ h. (h, 0, []);
  get_info = λ h. (0, 200);
}

verbs-Documented : Documented verbs (λ verb h. h ≡ verb)
verbs-Documented = record {
  custom = λ h verb. refl;
  set_keeps = keeps;
  perform_keeps = λ h verb k. k;
}
  where
    keeps : (h : List ℕ) (o : Setting) (verb : List ℕ) → IsOther o → h ≡ verb → set_verb h o ≡ verb
    keeps h (custom_request v) verb other k = absurd other
    keeps h (http_header l) verb other k = k
    keeps h (connect_timeout n) verb other k = k
    keeps h no_signal verb other k = k
    keeps h (url u) verb other k = k
    keeps h write_data verb other k = k
    keeps h write_function verb other k = k
    keeps h follow_location verb other k = k
    keeps h (post_fields f) verb other k = k
    keeps h (post_field_size n) verb other k = k

abbrev verb_client : HttpClient (List ℕ)
verb_client = record { curl = some (b'G' ∷ []); host = b'h' ∷ []; map_header = []; res_data = [] }

abbrev put_client : HttpClient (List ℕ)
put_client = record verb_client { curl = some (put_verb verbs) }

put_stays_example :
    (h' : List ℕ) × (put_client.curl ≡ some h')
    × (h' ≡ put_verb verbs)
    × ((fuel' : ℕ) (path' param' : List ℕ)
        → (k : List ℕ) × (k ≡ put_verb verbs)
          × (get verbs fuel' put_client path' param'
              ≡ answer verbs (
                  perform_loop verbs fuel' k put_client.res_data >>= λ o. elim o [
                    | none ↦ ok none
                    | some r ↦
                        ok (some (record put_client { curl = some r.0; res_data = r.1 }, r.2))
                  ])))
put_stays_example =
    put_stays verbs verbs-Documented 1 verb_client put_client put_client (b'G' ∷ []) [] []
      (some (200, [])) (get_request [] [] ∷ post_request [] (b'x' ∷ []) ∷ []) (λ k o. refl) refl
      first later
  where
    first : put verbs 1 verb_client [] [] ≡ ok (some (put_client, some (200, [])))
    first = unfold put in refl

    later :
        sent_all verbs 1 put_client (get_request [] [] ∷ post_request [] (b'x' ∷ []) ∷ [])
        ≡ ok (some put_client)
    later = unfold sent_all get post in refl

callback_beyond_example :
    (callback [] (record { memory = b'a' ∷ b'z' ∷ 0 ∷ []; count = 1 }) ≡ ok (b'a' ∷ b'z' ∷ []))
    × (callback [] (record { memory = b'a' ∷ b'z' ∷ []; count = 1 }) ≡ fault)
callback_beyond_example =
    callback_beyond [] (b'a' ∷ []) (b'z' ∷ []) [] (omega arith, tt) (omega arith, tt)
