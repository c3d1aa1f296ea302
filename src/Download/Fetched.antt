-- ===== src/Download/Fetched.antt =====
-- What `DownloadFile` has saved when it returns no error, whatever the system calls do.
use ipaversion.Base.{ℕ, ◌+◌, ◌≡◌, refl, ◌∙◌, sym, ap, some, [], ◌∷◌, ◌++◌, arith}
use ipaversion.Base.Text.{Text, codes, atoi}
use ipaversion.Outcome.{ok, done, outcome}
use ipaversion.Http.{new_request, do_request}
use ipaversion.World.{
  Env, World, Request, Response, Content, create, write_file, lift, ◌>>◌, ◌>>=◌, after,
}
use ipaversion.World.Yields.{
  Yields, Yields-map, after-Yields, lift-Yields, create-Yields, write_file-Yields,
}
use ipaversion.Package.Patched.{outcome-eq-ok}
use ipaversion.Download.Fetch.{
  or_default, user_agent_key, parsed_length, status_is_ok, download_file,
}
use ipaversion.Download.Complete.{download_request}

module _ (env : Env) (n : ℕ) where
  -- The server has answered the n-th request with the status 200 and this body.
  abbrev pub HasServed : Text → Text → Content → Type 0
  HasServed url user_agent c =
      (resp : Response) × (env.server n (download_request url user_agent) ≡ done resp)
      × (resp.status_code ≡ 200)
      × (resp.body ≡ c)

  -- That body is in the file.
  abbrev pub IsFetched : Text → Text → Text → World → Type 0
  IsFetched url path user_agent v =
      (c : Content) × HasServed url user_agent c × (v.files path ≡ some c)

  request_of :
      (url : Text) (req : Request)
      → new_request env (codes "GET") url [] ≡ ok req
      → req ≡ record { method = codes "GET"; url = url; header = []; body = [] }
  unfolding new_request
  request_of url req h = ground arith

  status_200 : (resp : Response) → status_is_ok resp ≡ ok tt → resp.status_code ≡ 200
  unfolding status_is_ok
  status_200 resp h = ground arith

  -- What `DownloadFile` does once the response is there.
  saved :
      (url path user_agent : Text) (resp : Response) (w : World)
      → env.server n (download_request url user_agent) ≡ done resp
      → Yields
          (λ (_ : Unit {0}). IsFetched url path user_agent)
          (after
            (lift (parsed_length (atoi resp.content_length)) w)
            (λ total. lift (status_is_ok resp) >> write_file path resp.body))
  saved url path user_agent resp w answered =
      let R : Unit {0} → World → Type 0 = λ _. IsFetched url path user_agent in
      after-Yields (λ total v. (parsed_length (atoi resp.content_length) ≡ ok total) × Unit {0}) R
        (lift (parsed_length (atoi resp.content_length)) w) _
        (lift-Yields (λ _. Unit {0}) (parsed_length (atoi resp.content_length)) w tt)
        λ total w1 _.
          after-Yields (λ u v. (status_is_ok resp ≡ ok u) × Unit {0}) R
            (lift (status_is_ok resp) w1) _ (lift-Yields (λ _. Unit {0}) (status_is_ok resp) w1 tt)
            λ u w2 (fine, _).
              Yields-map (λ _ v. v.files path ≡ some resp.body) R
                (λ _ v h. (resp.body, (resp, answered, status_200 resp fine, refl), h))
                (write_file path resp.body w2) (write_file-Yields path resp.body w2)

  -- And from the request on.
  sent :
      (url path user_agent : Text) (req : Request) (w : World)
      → req ≡ record { method = codes "GET"; url = url; header = []; body = [] }
      → w.calls ≡ n
      → Yields
          (λ (_ : Unit {0}). IsFetched url path user_agent)
          (after
            (do_request env
              (record req { header = (user_agent_key, or_default user_agent ∷ []) ∷ [] })
              w)
            (λ resp. lift (parsed_length (atoi resp.content_length)) >>= λ total.
              lift (status_is_ok resp) >> write_file path resp.body))
  unfolding do_request
  sent url path user_agent req w made at =
      let R : Unit {0} → World → Type 0 = λ _. IsFetched url path user_agent in
      let full : Request = record req {
        header = (user_agent_key, or_default user_agent ∷ []) ∷ [];
      } in
      let asked : full ≡ download_request url user_agent =
        ap
          (λ (r : Request). record r { header = (user_agent_key, or_default user_agent ∷ []) ∷ [] })
          made in
      after-Yields (λ resp v. (outcome (env.server w.calls full) ≡ ok resp) × Unit {0}) R
        (do_request env full w) _
        (lift-Yields (λ _. Unit {0}) (outcome (env.server w.calls full))
          (record w { calls = w.calls + 1; sent = w.sent ++ (full ∷ []) }) tt)
        λ resp w1 (answered, _). saved url path user_agent resp w1 (
          outcome-eq-ok (env.server n (download_request url user_agent))
            ((λ i. outcome (env.server (sym at i) (sym asked i))) ∙ answered))

  -- If `DownloadFile` returns no error, the server has answered 200 and its body is in the file.
  pub download_file-Yields :
      (url path user_agent : Text) (w : World)
      → w.calls ≡ n
      → Yields (λ _. IsFetched url path user_agent) (download_file env url path user_agent w)
  unfolding download_file do_request
  download_file-Yields url path user_agent w at =
      let R : Unit {0} → World → Type 0 = λ _. IsFetched url path user_agent in
      after-Yields (λ _ v. v.calls ≡ w.calls) R (create path w) _ (create-Yields path w)
        λ _ w1 c1.
          after-Yields (λ req v. (new_request env (codes "GET") url [] ≡ ok req) × (v.calls ≡ n)) R
            (lift (new_request env (codes "GET") url []) w1) _
            (lift-Yields (λ v. v.calls ≡ n) (new_request env (codes "GET") url []) w1 (c1 ∙ at))
            λ req w2 (made, c2). sent url path user_agent req w2 (request_of url req made) c2
