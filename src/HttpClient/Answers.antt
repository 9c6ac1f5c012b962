-- ===== src/HttpClient/Answers.antt =====
-- What a caller of the client gets, given that curl accepts the options and reaches the server.
use gamnet.Prelude.{
  ℕ, zero, suc, ◌/◌, ◌<◌, ◌≡◌, ◌≢◌, ◌==◌, refl, sym, ap, ◌∙◌, arith, false, List, [], ◌∷◌, ◌++◌,
  none, some, length, ok, fault, append_assoc, append-nil,
}
use gamnet.HttpClient.{
  Setting, follow_location, Block, Curl, HttpClient, c_str, callback, received, set_all,
  perform_loop, settings, path_param, get,
}

abbrev pub HasNoZero : List ℕ → Type 0
HasNoZero [] = Unit {0}
HasNoZero (b ∷ bs) = (0 < b) × HasNoZero bs

-- Where the memory of each block has a zero somewhere, these are the texts in front of the zeros. Curl
-- promises no zero; where memory has none, the callback is undefined.
abbrev pub AreTexts : List Block → List (List ℕ) → Type 0
AreTexts [] [] = Unit {0}
AreTexts [] (piece ∷ more) = ⊥
AreTexts (b ∷ bs) [] = ⊥
AreTexts (b ∷ bs) (piece ∷ more) = (c_str b.memory ≡ ok piece) × AreTexts bs more

abbrev pub joined : List (List ℕ) → List ℕ
joined [] = []
joined (piece ∷ more) = piece ++ joined more

received_lem :
    (res : List ℕ) (blocks : List Block) (pieces : List (List ℕ))
    → AreTexts blocks pieces
    → received res blocks ≡ ok (res ++ joined pieces)
unfolding received callback
received_lem res [] [] h = ap ok (sym (append-nil res))
received_lem res [] (piece ∷ more) h = absurd h
received_lem res (b ∷ blocks) [] h = absurd h
received_lem res (b ∷ blocks) (piece ∷ more) (e, h) =
    rw e (received_lem (res ++ piece) blocks more h ∙ ap ok (append_assoc res piece (joined more)))

-- Curl accepts every option, and the server answers: a code for each handle, and blocks that the
-- callback reads as these texts.
pub record Serves {Handle : Type 0} (curl : Curl Handle) (status : Handle → ℕ)
    (pieces : Handle → List (List ℕ)) : Type 0 where
  pub accepts : (h : Handle) (o : Setting) → (curl.set_opt h o).1 ≡ 0
  pub performs : (h : Handle) → (curl.perform h).1 ≡ 0
  pub info : (h : Handle) → curl.get_info (curl.perform h).0 ≡ (0, status h)
  pub gives : (h : Handle) → AreTexts (curl.perform h).2 (pieces h)

module _ {Handle : Type 0} (curl : Curl Handle) where
  -- The handle of the next round of the loop
  abbrev pub hop : Handle → Handle
  hop h = (curl.set_opt (curl.perform h).0 follow_location).0

  -- That of the last round behind so many redirections, and what came in until then
  abbrev pub last_hop : ℕ → Handle → Handle
  last_hop zero h = h
  last_hop (suc n) h = last_hop n (hop h)

  abbrev pub gathered : (Handle → List (List ℕ)) → ℕ → Handle → List ℕ
  gathered pieces zero h = joined (pieces h)
  gathered pieces (suc n) h = joined (pieces h) ++ gathered pieces n (hop h)

  -- The server redirects so often, and no more.
  abbrev pub Redirects : (Handle → ℕ) → ℕ → Handle → Type 0
  Redirects status zero h = status h / 100 ≢ 3
  Redirects status (suc n) h = (status h / 100 ≡ 3) × Redirects status n (hop h)

  -- The handle that a Get performs first
  unfoldable pub prepared : Handle → List Setting → Handle
  prepared h [] = h
  prepared h (o ∷ os) = prepared (curl.set_opt h o).0 os

  set_all_lem :
      (h : Handle) (os : List Setting)
      → ((h : Handle) (o : Setting) → (curl.set_opt h o).1 ≡ 0)
      → set_all curl h os ≡ (prepared h os, none)
  unfolding set_all prepared
  set_all_lem h [] accepts = refl
  set_all_lem h (o ∷ os) accepts = rw (accepts h o) (set_all_lem (curl.set_opt h o).0 os accepts)

  not_three : (n : ℕ) → n ≢ 3 → (n == 3) ≡ false
  not_three n h = ground (arith, h)

  module _ {status : Handle → ℕ} {pieces : Handle → List (List ℕ)}
      (serves : Serves curl status pieces) where
    perform_loop_lem :
        (n : ℕ) (h : Handle) (res : List ℕ)
        → Redirects status n h
        → perform_loop curl (suc n) h res
          ≡ ok (
              some (
                (curl.perform (last_hop n h)).0,
                res ++ gathered pieces n h,
                status (last_hop n h),
              ))
    unfolding perform_loop
    perform_loop_lem zero h res r =
        rw
          (
            received_lem res (curl.perform h).2 (pieces h) (serves.gives h),
            serves.performs h,
            serves.info h,
            not_three (status h / 100) r,
          )
          refl
    perform_loop_lem (suc n) h res (three, r) =
        rw
          (
            received_lem res (curl.perform h).2 (pieces h) (serves.gives h),
            serves.performs h,
            serves.info h,
            three,
          )
          (perform_loop_lem n (hop h) (res ++ joined (pieces h)) r
            ∙ rw (append_assoc res (joined (pieces h)) (gathered pieces n (hop h))) refl)

    perform_loop_endless :
        (fuel : ℕ) (h : Handle) (res : List ℕ)
        → ((n : ℕ) → status (last_hop n h) / 100 ≡ 3)
        → perform_loop curl fuel h res ≡ ok none
    unfolding perform_loop
    perform_loop_endless zero h res r = refl
    perform_loop_endless (suc fuel) h res r =
        rw
          (
            received_lem res (curl.perform h).2 (pieces h) (serves.gives h),
            serves.performs h,
            serves.info h,
            r 0,
          )
          (perform_loop_endless fuel (hop h) (res ++ joined (pieces h)) (λ n. r (suc n)))

    -- A Get, redirected so often, where curl accepts every option, performs every request, and the
    -- memory of every block has a zero, which ends the text of the block: the caller gets the code of the last answer and, behind what
    -- earlier requests left in the client, the texts of all answers on the way.
    pub get_lem :
        (c : HttpClient Handle) (h : Handle) (path param : List ℕ) (n : ℕ)
        → c.curl ≡ some h
        → (start : Handle) → start ≡ prepared h (settings curl c (path_param curl path param))
        → Redirects status n start
        → (c' : HttpClient Handle) × (get curl (suc n) c path param
            ≡ ok (some (c', some (status (last_hop n start), c'.res_data))))
          × (c'.res_data ≡ c.res_data ++ gathered pieces n start)
    unfolding get
    get_lem c h path param n e start same r = (
      record c {
        curl = some (curl.perform (last_hop n start)).0;
        res_data = c.res_data ++ gathered pieces n start;
      },
      rw
          (
            e,
            set_all_lem h (settings curl c (path_param curl path param)) serves.accepts,
            sym same,
            perform_loop_lem n start c.res_data r,
          )
          refl,
      refl,
    )

    -- Where every answer is a redirection, a Get never comes to an end, given that curl accepts every
    -- option and performs every request, and that the memory of every block has a zero.
    pub get_endless :
        (c : HttpClient Handle) (h : Handle) (path param : List ℕ) (fuel : ℕ)
        → c.curl ≡ some h
        → ((n : ℕ)
            → status (last_hop n (prepared h (settings curl c (path_param curl path param)))) / 100
              ≡ 3)
        → get curl fuel c path param ≡ ok none
    unfolding get
    get_endless c h path param fuel e r =
        rw
          (
            e,
            set_all_lem h (settings curl c (path_param curl path param)) serves.accepts,
            perform_loop_endless fuel (prepared h (settings curl c (path_param curl path param)))
                c.res_data r,
          )
          refl

c_str-append :
    (s t : List ℕ) (rest : List ℕ)
    → HasNoZero s
    → c_str t ≡ ok rest
    → c_str (s ++ t) ≡ ok (s ++ rest)
unfolding c_str
c_str-append [] t rest h e = e
c_str-append (b ∷ s) t rest (p, h) e = ground (arith, c_str-append s t rest h e)

c_str_endless : (s : List ℕ) → HasNoZero s → c_str s ≡ fault
unfolding c_str
c_str_endless [] h = refl
c_str_endless (b ∷ s) (p, h) = ground (arith, c_str_endless s h)

-- Curl puts no zero behind the data that it gives to the callback. Where other bytes stand behind it,
-- they are taken for data up to the next zero, and where the memory has no zero, the callback reads
-- beyond it.
pub callback_beyond :
    (res piece other rest : List ℕ)
    → HasNoZero piece
    → HasNoZero other
    → (callback res (record { memory = piece ++ (other ++ (0 ∷ rest)); count = length piece })
        ≡ ok (res ++ (piece ++ other)))
      × (callback res (record { memory = piece ++ other; count = length piece }) ≡ fault)
unfolding callback
callback_beyond res piece other rest h k = (
  rw (c_str-append piece (other ++ (0 ∷ rest)) other h (zero_behind other k)) refl,
  rw (c_str_endless (piece ++ other) (both piece h)) refl,
)
  where
    zero_behind : (s : List ℕ) → HasNoZero s → c_str (s ++ (0 ∷ rest)) ≡ ok s
    zero_behind s h = unfold c_str in c_str-append s (0 ∷ rest) [] h refl ∙ ap ok (append-nil s)

    both : (s : List ℕ) → HasNoZero s → HasNoZero (s ++ other)
    both [] h = k
    both (b ∷ s) (p, h) = (p, both s h)
