-- ===== src/Web/Requests.antt =====
-- How a call of the fetch wrapper ends, whatever the server replies.
use abyte_tex.Base.{
  ℕ, suc, ◌+◌, ◌≤◌, ◌≡◌, refl, ◌∙◌, ap, Bool, true, false, Option, none, some, List, [], ◌∷◌, ◌++◌,
  ◌&&◌, not, if◌then◌else◌, arith, Bool-cases, Option-cases, inl, inr, ◌⊎◌, subst, sym,
}
use abyte_tex.Web.{
  Url, auth_refresh, is_auth, is_unauthorized, AuthState, clear, set_access_token, Request, Fetch,
  Reply, Outcome, api_error, settle, strip_empty_strings, Page, send, refresh_fetch,
  refresh_access_token, recover, api_fetch, token_of,
}

abbrev is_refresh : Url → Bool
is_refresh auth_refresh = true
is_refresh _ = false

-- How many of the fetches ask for a new access token, and how many do not.
abbrev pub refreshes : List Fetch → ℕ
refreshes [] = 0
refreshes (f ∷ fs) = (if is_refresh f.path then 1 else 0) + refreshes fs

abbrev pub sends : List Fetch → ℕ
sends [] = 0
sends (f ∷ fs) = (if is_refresh f.path then 0 else 1) + sends fs

-- The store afterwards: as before, cleared, or with another access token.
abbrev pub Settled : AuthState → AuthState → Outcome → Type 0
Settled store store' o =
    (store' ≡ store)
    ⊎ ((store' ≡ clear store) × (o ≡ api_error 401))
    ⊎ ((token : ℕ) × (store' ≡ set_access_token token store))

append_snoc : (l : List Fetch) (x y : Fetch) → (l ++ x ∷ []) ++ y ∷ [] ≡ l ++ x ∷ y ∷ []
append_snoc [] x y = refl
append_snoc (z ∷ l) x y = ap (λ m. z ∷ m) (append_snoc l x y)

append_three :
    (l : List Fetch) (x y z : Fetch) → ((l ++ x ∷ []) ++ y ∷ []) ++ z ∷ [] ≡ l ++ x ∷ y ∷ z ∷ []
append_three [] x y z = refl
append_three (a ∷ l) x y z = ap (λ m. a ∷ m) (append_three l x y z)

module _ {S : Type 0} where
  -- A call has ended with an outcome.
  abbrev pub Ends : Page S → Option Outcome × Page S → Type 0
  Ends page r =
      (o : Outcome) × (sent : List Fetch) × (r.0 ≡ some o)
      × (r.1.traffic ≡ page.traffic ++ sent)
      × (refreshes sent ≤ 1)
      × (sends sent ≤ 2)
      × Settled page.store r.1.store o

  module _ (fetch : Fetch → S → Reply × S) where
    unfoldable pub fetch_of : Request → Page S → Fetch
    fetch_of request page = record {
      path = request.path;
      token = page.store.access_token;
      body = strip_empty_strings request.body;
    }

    -- The test for a retry, on the reply to the first fetch.
    abbrev pub retries : Bool → Request → Page S → Bool
    retries is_retry request page =
        is_unauthorized (send fetch (fetch_of request page) page).0
        && not is_retry
        && not (is_auth request.path)

    pub api_fetch_settles :
        (n : ℕ) (is_retry : Bool) (request : Request) (page : Page S)
        → retries is_retry request page ≡ false
        → api_fetch fetch (suc n) is_retry request page ≡ (
          some (settle (send fetch (fetch_of request page) page).0),
          (send fetch (fetch_of request page) page).1,
        )
    unfolding api_fetch fetch_of
    api_fetch_settles n is_retry request page e = rw e refl

    pub api_fetch_recovers :
        (n : ℕ) (is_retry : Bool) (request : Request) (page : Page S)
        → retries is_retry request page ≡ true
        → api_fetch fetch (suc n) is_retry request page
          ≡ recover fetch
              (api_fetch fetch n true request)
              (send fetch (fetch_of request page) page).1
    unfolding api_fetch fetch_of
    api_fetch_recovers n is_retry request page e = rw e refl

    pub recover_clears :
        (retry : Page S → Option Outcome × Page S) (page : Page S)
        → (refresh_access_token fetch page).0 ≡ none
        → recover fetch retry page ≡ (
          some (api_error 401),
          record (refresh_access_token fetch page).1 {
            store = clear (refresh_access_token fetch page).1.store;
          },
        )
    unfolding recover refresh_access_token send
    recover_clears retry page e = ground arith

    pub recover_retries :
        (retry : Page S → Option Outcome × Page S) (page : Page S) (token : ℕ)
        → (refresh_access_token fetch page).0 ≡ some token
        → recover fetch retry page
          ≡ retry (record (refresh_access_token fetch page).1 {
            store = set_access_token token (refresh_access_token fetch page).1.store;
          })
    unfolding recover refresh_access_token send
    recover_retries retry page token e = ground arith

    fetch_of_counts :
        (request : Request) (page : Page S) (fs : List Fetch)
        → is_auth request.path ≡ false
        → (refreshes (fetch_of request page ∷ fs) ≡ refreshes fs)
          × (sends (fetch_of request page ∷ fs) ≡ suc (sends fs))
    unfolding fetch_of
    fetch_of_counts request page fs e = ground arith

    -- A retry is the last fetch.
    pub retry-settles :
        (n : ℕ) (request : Request) (page : Page S)
        → api_fetch fetch (suc n) true request page ≡ (
          some (settle (send fetch (fetch_of request page) page).0),
          (send fetch (fetch_of request page) page).1,
        )
    retry-settles n request page = api_fetch_settles n true request page (ground arith)

    settles-Ends :
        (n : ℕ) (is_retry : Bool) (request : Request) (page : Page S)
        → retries is_retry request page ≡ false
        → Ends page (api_fetch fetch (suc n) is_retry request page)
    unfolding send
    settles-Ends n is_retry request page e =
        subst (Ends page) (sym (api_fetch_settles n is_retry request page e)) (
          settle (send fetch (fetch_of request page) page).0,
          fetch_of request page ∷ [],
          refl,
          refl,
          ground arith,
          ground arith,
          inl refl,
        )

    recovers-Ends :
        (n : ℕ) (request : Request) (page : Page S)
        → is_auth request.path ≡ false
        → Ends page (
            recover fetch
              (api_fetch fetch (suc n) true request)
              (send fetch (fetch_of request page) page).1)
    unfolding send refresh_access_token
    recovers-Ends n request page e =
        let page1 = (send fetch (fetch_of request page) page).1 in
        elim (Option-cases (refresh_access_token fetch page1).0) [
          | inl none_ ↦
              subst (Ends page)
                (sym (recover_clears (api_fetch fetch (suc n) true request) page1 none_))
                (
                  api_error 401,
                  fetch_of request page ∷ refresh_fetch fetch ∷ [],
                  refl,
                  append_snoc page.traffic _ _,
                  ground (arith, fetch_of_counts request page (refresh_fetch fetch ∷ []) e),
                  ground (arith, fetch_of_counts request page (refresh_fetch fetch ∷ []) e),
                  inr (inl (refl, refl)),
                )
          | inr (token, some_) ↦
              let page2 : Page S = record (refresh_access_token fetch page1).1 {
                store = set_access_token token (refresh_access_token fetch page1).1.store;
              } in
              subst (Ends page)
                (sym (
                  recover_retries (api_fetch fetch (suc n) true request) page1 token some_
                  ∙ retry-settles n request page2))
                (
                  settle (send fetch (fetch_of request page2) page2).0,
                  fetch_of request page ∷ refresh_fetch fetch ∷ fetch_of request page2 ∷ [],
                  refl,
                  append_three page.traffic _ _ _,
                  ground (
                    arith,
                    fetch_of_counts request page (refresh_fetch fetch ∷ fetch_of request page2 ∷ [])
                        e,
                    fetch_of_counts request page2 [] e,
                  ),
                  ground (
                    arith,
                    fetch_of_counts request page (refresh_fetch fetch ∷ fetch_of request page2 ∷ [])
                        e,
                    fetch_of_counts request page2 [] e,
                  ),
                  inr (inr (token, refl)),
                )
        ]

    -- Whatever the server replies, a call of the fetch wrapper ends: two rounds are enough. It sends
    -- the request at most twice and asks for a new access token at most once, and it leaves the
    -- store as it was, or with a new access token, or cleared, and then it ends with a 401.
    pub api_fetch-Ends :
        (n : ℕ) (is_retry : Bool) (request : Request) (page : Page S)
        → Ends page (api_fetch fetch (suc (suc n)) is_retry request page)
    api_fetch-Ends n is_retry request page = elim (Bool-cases (retries is_retry request page)) [
      | inl e ↦
          subst (Ends page) (sym (api_fetch_recovers (suc n) is_retry request page e))
            (recovers-Ends n request page (ground arith))
      | inr e ↦ settles-Ends (suc n) is_retry request page e
    ]

    -- A call whose first reply is a 401 and whose renewal succeeds.
    pub api_fetch_renews :
        (n : ℕ) (request : Request) (page : Page S) (r1 r2 r3 : Reply) (s1 s2 s3 : S) (token : ℕ)
        → is_auth request.path ≡ false
        → fetch (fetch_of request page) page.server ≡ (r1, s1)
        → is_unauthorized r1 ≡ true
        → fetch (refresh_fetch fetch) s1 ≡ (r2, s2)
        → token_of fetch r2 ≡ some token
        → fetch
            (record {
              path = request.path;
              token = some token;
              body = strip_empty_strings request.body;
            })
            s2
          ≡ (r3, s3)
        → ((api_fetch fetch (suc (suc n)) false request page).0 ≡ some (settle r3))
          × ((api_fetch fetch (suc (suc n)) false request page).1.store
              ≡ set_access_token token page.store)
          × ((api_fetch fetch (suc (suc n)) false request page).1.server ≡ s3)
    unfolding api_fetch recover refresh_access_token send fetch_of
    api_fetch_renews n request page r1 r2 r3 s1 s2 s3 token below first refused second renewed
          third =
        (ground arith, ground arith, ground arith)
