-- ===== src/Addon/Once.antt =====
-- The add-on over a run of the proxy: one flow is handled, and one value is sent on the channel.
use ipaversion.Base.{
  ◌≡◌, inl, inr, refl, ap, Bool, true, false, Bool-cases, Option, none, some, List, [], ◌∷◌, ◌++◌,
  arith, if◌then◌else◌,
}
use ipaversion.Base.Text.{contains}
use ipaversion.Outcome.{Outcome-cases}
use ipaversion.Http.{clone_request_lem}
use ipaversion.World.{Env, Request}
use ipaversion.Addon.State.{Addon, Session}
use ipaversion.Addon.Retry.{answer}
use ipaversion.Addon.Handle.{
  user_agent_of, send_done, query_latest, handle_body, handle_buy_request, target_url_substr,
  on_request,
}
use ipaversion.Addon.Buy.{handle_buy_request-served, handle_buy_request_refused}

-- A request that `http.NewRequest` does not take: the clone is nil, and `false` is sent.
pub handle_buy_request_invalid :
    (env : Env) (req : Request) (s : Session)
    → env.request_is_valid req.method req.url ≡ false
    → let a = record s.addon { client_user_agent = user_agent_of req.header } in
      handle_buy_request env req s ≡ record s { addon = send_done false a }
unfolding handle_buy_request handle_body query_latest
handle_buy_request_invalid env req s h = rw (clone_request_lem env req, h)

-- One value more is on the channel, and the mutex is as it was.
abbrev pub Signals : Session → Session → Type 0
Signals s t = (b : Bool) × (t.addon.done ≡ s.addon.done ++ (b ∷ [])) × (t.addon.lock ≡ s.addon.lock)

-- One value is sent for a flow, whatever the server answers, and the mutex stays as it is.
pub handle_buy_request-Signals :
    (env : Env) (req : Request) (s : Session) → Signals s (handle_buy_request env req s)
handle_buy_request-Signals env req s = elim (Bool-cases (env.request_is_valid req.method req.url)) [
  | inr invalid ↦ (
    false,
    rw (handle_buy_request_invalid env req s invalid),
    rw (handle_buy_request_invalid env req s invalid),
  )
  | inl valid ↦ elim (Outcome-cases (answer env req s.world.calls)) [
    | inl (app, h) ↦
        let t = handle_buy_request-served env req valid s app h in
        (true, ap (λ (a : Addon). a.done) t.0, ap (λ (a : Addon). a.lock) t.0)
    | inr (inl (e, h)) ↦
        let t = handle_buy_request_refused env req valid s (λ app q. cc) in
        (false, ap (λ (u : Session). u.addon.done) t, ap (λ (u : Session). u.addon.lock) t)
    | inr (inr (p, h)) ↦
        let t = handle_buy_request_refused env req valid s (λ app q. cc) in
        (false, ap (λ (u : Session). u.addon.done) t, ap (λ (u : Session). u.addon.lock) t)
  ]
]

-- The proxy calls the add-on for one flow after the other.
unfoldable pub serve : Env → List Request → Session → Session
serve env [] s = s
serve env (req ∷ reqs) s = serve env reqs (on_request env req s)

-- The first flow to the store's buy address.
unfoldable pub first_buy : List Request → Option Request
first_buy [] = none
first_buy (req ∷ reqs) = if contains req.url target_url_substr then some req else first_buy reqs

abbrev pub locked : Session → Session
locked s = record s { addon = record s.addon { lock = true } }

on_request_locked :
    (env : Env) (req : Request) (s : Session) → s.addon.lock ≡ true → on_request env req s ≡ s
unfolding on_request
on_request_locked env req s h = ground arith

serve_locked :
    (env : Env) (reqs : List Request) (s : Session) → s.addon.lock ≡ true → serve env reqs s ≡ s
unfolding serve
serve_locked env [] s h = refl
serve_locked env (req ∷ reqs) s h = rw (on_request_locked env req s h) (serve_locked env reqs s h)

abbrev pub handle_first : Env → Session → Option Request → Session
handle_first env s none = s
handle_first env s (some req) = handle_buy_request env req (locked s)

-- While the mutex is free, a run of the proxy does what the handling of the first buy flow does, and
-- nothing if there is none: every later flow finds the mutex held.
pub serve_lem :
    (env : Env) (reqs : List Request) (s : Session)
    → s.addon.lock ≡ false
    → serve env reqs s ≡ handle_first env s (first_buy reqs)
unfolding serve first_buy on_request
serve_lem env [] s h = refl
serve_lem env (req ∷ reqs) s h = elim (Bool-cases (contains req.url target_url_substr)) [
  | inl hit ↦
      let t = handle_buy_request env req (locked s) in
      rw (hit, h) (serve_locked env reqs t (handle_buy_request-Signals env req (locked s)).2)
  | inr miss ↦ rw miss (serve_lem env reqs s h)
]
