-- ===== src/HttpClient.antt =====
-- Gamnet/Network/Http/HttpClient.{h,cpp}: requests to other servers, by curl.
-- Curl is a parameter: a handle is of any type, and `Curl` has the calls on it, with the code that
-- each returns, 0 for CURLE_OK. A text that is NULL is the empty list, which the code treats alike.
-- `curl_slist_append` makes the list of the headers.
pub mod Answers
pub mod Verbs
mod Tests
use gamnet.Prelude.{
  ℕ, zero, suc, ◌/◌, ◌==◌, if◌then◌else◌, List, [], ◌∷◌, ◌++◌, Option, none, some, length, Outcome,
  ok, fault, ◌>>=◌,
}

-- The options that are set
pub data Setting : Type 0 where
  http_header : List (List ℕ) → Setting
  connect_timeout : ℕ → Setting
  no_signal : Setting
  url : List ℕ → Setting
  write_data : Setting
  write_function : Setting
  follow_location : Setting
  post_fields : List ℕ → Setting
  post_field_size : ℕ → Setting
  custom_request : List ℕ → Setting

-- What the write callback is given: the memory from the pointer on, and how many bytes of it are the
-- data.
pub record Block : Type 0 where
  pub memory : List ℕ
  pub count : ℕ

-- curl_easy_setopt, curl_easy_perform with the calls that it makes of the callback, and
-- curl_easy_getinfo of the code of the answer
pub record Curl (Handle : Type 0) : Type 0 where
  pub set_opt : Handle → Setting → Handle × ℕ
  pub perform : Handle → Handle × ℕ × List Block
  pub get_info : Handle → ℕ × ℕ

-- HttpClient, `none` for a NULL `curl_`
pub record HttpClient (Handle : Type 0) : Type 0 where
  pub curl : Option Handle
  pub host : List ℕ
  pub map_header : List (List ℕ × List ℕ)
  pub res_data : List ℕ

-- The text at a pointer, which ends in front of a zero
unfoldable pub c_str : List ℕ → Outcome (List ℕ)
c_str [] = fault
c_str (b ∷ bs) = if b == 0 then ok [] else (c_str bs >>= λ s. ok (b ∷ s))

-- HttpClient::Callback: the count is not used.
unfoldable pub callback : List ℕ → Block → Outcome (List ℕ)
unfolding c_str
callback res_data block = c_str block.memory >>= λ s. ok (res_data ++ s)

unfoldable pub received : List ℕ → List Block → Outcome (List ℕ)
unfolding callback
received res_data [] = ok res_data
received res_data (b ∷ bs) = callback res_data b >>= λ r. received r bs

-- The lines of the header
unfoldable pub header_lines : List (List ℕ × List ℕ) → List (List ℕ)
header_lines [] = []
header_lines ((name, value) ∷ more) = (name ++ (b':' ∷ b' ' ∷ value)) ∷ header_lines more

-- The url of a path
unfoldable pub full_url : List ℕ → List ℕ → List ℕ
full_url host [] = host
full_url host (c ∷ path) = host ++ (b'/' ∷ c ∷ path)

-- The code that is thrown where an option is refused
unfoldable pub refusal : Setting → ℕ → ℕ
refusal (http_header lines) code = code
refusal setting code = 500

module _ {Handle : Type 0} (curl : Curl Handle) where
  -- The options one after the other, up to one that is refused
  unfoldable pub set_all : Handle → List Setting → Handle × Option ℕ
  unfolding refusal
  set_all h [] = (h, none)
  set_all h (o ∷ os) =
      let rest = set_all (curl.set_opt h o).0 os in
      let (h', code) = curl.set_opt h o in if code == 0 then rest else (h', some (refusal o code))

  -- The loop of HttpRequest, with fuel: `none` while it goes on, or the handle, what came in so far
  -- and the code.
  unfoldable pub perform_loop : ℕ → Handle → List ℕ → Outcome (Option (Handle × List ℕ × ℕ))
  unfolding received
  perform_loop zero h res_data = ok none
  perform_loop (suc fuel) h res_data =
      let (h', code, blocks) = curl.perform h in
      let (failure, status) = curl.get_info h' in
      received res_data blocks >>= λ data'.
      let again = perform_loop fuel (curl.set_opt h' follow_location).0 data' in
      if code == 0
      then (if failure == 0
          then (if status / 100 == 3 then again else ok (some (h', data', status)))
          else ok (some (h', data', 500)))
      else ok (some (h', data', 500))

  unfoldable pub settings : HttpClient Handle → List ℕ → List Setting
  unfolding header_lines full_url
  settings c path =
      http_header (header_lines c.map_header)
      ∷ connect_timeout 5
      ∷ no_signal
      ∷ url (full_url c.host path)
      ∷ write_data
      ∷ write_function
      ∷ []

  unfoldable pub request_set :
      ℕ → HttpClient Handle → Handle × Option ℕ → Outcome (Option (HttpClient Handle × ℕ))
  unfolding perform_loop
  request_set fuel c (h, some code) = ok (some (record c { curl = some h }, code))
  request_set fuel c (h, none) = perform_loop fuel h c.res_data >>= λ o. elim o [
    | none ↦ ok none
    | some (h', res, code) ↦ ok (some (record c { curl = some h'; res_data = res }, code))
  ]

  -- HttpClient::HttpRequest, on a handle: every error becomes the code that it returns.
  unfoldable pub http_request :
      ℕ → HttpClient Handle → Handle → List ℕ → Outcome (Option (HttpClient Handle × ℕ))
  unfolding set_all settings request_set
  http_request fuel c h path = request_set fuel c (set_all h (settings c path))

  -- What a request comes to: the client after it and, where the caller's callback is called, the
  -- code and the data that it gets.
  abbrev pub Answered : Type 0
  Answered = Outcome (Option (HttpClient Handle × Option (ℕ × List ℕ)))

  unfoldable pub answer : Outcome (Option (HttpClient Handle × ℕ)) → Answered
  answer r =
      r >>= λ o. elim o [ none ↦ ok none | some (c, code) ↦ ok (some (c, some (code, c.res_data))) ]

  -- The path of a Get with its parameters
  unfoldable pub path_param : List ℕ → List ℕ → List ℕ
  path_param path [] = path
  path_param path (p ∷ param) = path ++ (b'?' ∷ p ∷ param)

  unfoldable pub get_on : ℕ → HttpClient Handle → Option Handle → List ℕ → List ℕ → Answered
  unfolding path_param http_request answer
  get_on fuel c none path param = ok (some (c, none))
  get_on fuel c (some h) path param = answer (http_request fuel c h (path_param path param))

  -- HttpClient::Get
  unfoldable pub get : ℕ → HttpClient Handle → List ℕ → List ℕ → Answered
  unfolding get_on
  get fuel c path param = get_on fuel c c.curl path param

  -- The fields of a request, none where there is no parameter
  unfoldable pub fields : List ℕ → List Setting
  fields [] = []
  fields (p ∷ param) = post_fields (p ∷ param) ∷ []

  -- A request whose options in front may be refused, which returns false
  unfoldable pub after : ℕ → HttpClient Handle → List ℕ → Handle × Option ℕ → Answered
  unfolding http_request answer
  after fuel c path (h, some code) = ok (some (record c { curl = some h }, none))
  after fuel c path (h, none) = answer (http_request fuel c h path)

  unfoldable pub post_on : ℕ → HttpClient Handle → Option Handle → List ℕ → List ℕ → Answered
  unfolding after fields set_all
  post_on fuel c none path param = ok (some (c, none))
  post_on fuel c (some h) path param =
      after fuel c path (set_all h (fields param ++ (post_field_size (length param) ∷ [])))

  -- HttpClient::Post
  unfoldable pub post : ℕ → HttpClient Handle → List ℕ → List ℕ → Answered
  unfolding post_on
  post fuel c path param = post_on fuel c c.curl path param

  -- The verb of a Put or Delete, of which a refusal is not looked at
  unfoldable pub verb_set : List ℕ → Handle × Option ℕ → Handle × Option ℕ
  verb_set verb (h, some code) = (h, some code)
  verb_set verb (h, none) = ((curl.set_opt h (custom_request verb)).0, none)

  unfoldable pub custom_on :
      List ℕ → ℕ → HttpClient Handle → Option Handle → List ℕ → List ℕ → Answered
  unfolding after fields set_all verb_set
  custom_on verb fuel c none path param = ok (some (c, none))
  custom_on verb fuel c (some h) path param =
      after fuel c path (verb_set verb (set_all h (fields param)))

  -- HttpClient::Put and HttpClient::Delete
  unfoldable pub put : ℕ → HttpClient Handle → List ℕ → List ℕ → Answered
  unfolding custom_on
  put fuel c path param = custom_on (b'P' ∷ b'U' ∷ b'T' ∷ []) fuel c c.curl path param

  unfoldable pub delete : ℕ → HttpClient Handle → List ℕ → List ℕ → Answered
  unfolding custom_on
  delete fuel c path param =
      custom_on (b'D' ∷ b'E' ∷ b'L' ∷ b'E' ∷ b'T' ∷ b'E' ∷ []) fuel c c.curl path param
