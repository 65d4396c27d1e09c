-- ===== src/LambdaApi/Identity.antt =====
-- The extension's identifier, over any sequence of calls of the API.
use mathlib.Core.List.{append-nil, append_assoc}
use sumologic_lambda_extensi.Base.{
  ◌≡◌, refl, ◌∙◌, ap, sym, subst, ◌⊎◌, inl, inr, Bool, ◌==◌, List, [], ◌∷◌, ◌++◌, String,
  if◌then◌else◌, Member, Result, ok, err, Result-cases, Option-cases, ℤ, arith,
}
use sumologic_lambda_extensi.Base.Text.{Text, codes}
use sumologic_lambda_extensi.SumoClient.Services.{Bytes, Request}
use sumologic_lambda_extensi.LambdaApi.HttpClient.{
  Response, Subscription, Network, Client, Call, ApiState, identifier_after, accept, perform,
  make_api_request,
}
use sumologic_lambda_extensi.LambdaApi.Calls.{
  events, register_extension, next_event, init_error, exit_error, subscribe,
  subscribe_to_telemetry_api, subscribe_to_logs_api,
}

-- The identifier behind an answer: only an answer 200 that was read to its end can set it.
abbrev pub identified_by : Text → Result Response → Text
identified_by id (err e) = id
identified_by id (ok response) = elim response.body [
  | err e ↦ id
  | ok body ↦ if response.status_code == 200 then identifier_after id response.identifier else id
]

unfoldable pub identifier_of : Text → List Call → Text
identifier_of id [] = id
identifier_of id (c ∷ cs) = identifier_of (identified_by id c.response) cs

-- Where the extension registers.
abbrev pub registration_url : Text → Text
registration_url base = base ++ codes "2020-01-01/extension/" ++ codes "register"

-- The request goes to the registration's URL and carries the name, or it carries the identifier.
abbrev pub Carries : Text → Text → Text → Request → Type 0
Carries base name id request =
    ((request.url ≡ registration_url base)
      × (request.headers
          ≡ ("Content-Type", codes "application/json") ∷ ("Lambda-Extension-Name", name) ∷ []))
    ⊎ Member ("Lambda-Extension-Identifier", id) request.headers

-- Each request carries the identifier that the answers before it have set.
unfoldable pub AllCarry : Text → Text → Text → List Call → Type 0
AllCarry base name id [] = Unit
AllCarry base name id (c ∷ cs) =
    Carries base name id c.request × AllCarry base name (identified_by id c.response) cs

AllCarry-append :
    (base name id : Text) (cs ds : List Call)
    → AllCarry base name id cs
    → AllCarry base name (identifier_of id cs) ds
    → AllCarry base name id (cs ++ ds)
unfolding AllCarry identifier_of
AllCarry-append base name id [] ds h k = k
AllCarry-append base name id (c ∷ cs) ds h k =
    (h.0, AllCarry-append base name (identified_by id c.response) cs ds h.1 k)

identifier_of-append :
    (id : Text) (cs ds : List Call)
    → identifier_of id (cs ++ ds) ≡ identifier_of (identifier_of id cs) ds
unfolding identifier_of
identifier_of-append id [] ds = refl
identifier_of-append id (c ∷ cs) ds = identifier_of-append (identified_by id c.response) cs ds

module _ (N : Network) where
  -- From `s` to `t`: the calls, what they carry, and the client that they leave.
  pub record Tracked (s t : ApiState N) : Type 0 where
    pub made : List Call
    pub calls : t.calls ≡ s.calls ++ made
    pub carried : AllCarry s.client.base_url s.client.extension_name s.client.extension_id made
    pub client :
        t.client ≡ record s.client { extension_id = identifier_of s.client.extension_id made }

  Tracked-refl : (s : ApiState N) → Tracked s s
  unfolding AllCarry identifier_of
  Tracked-refl s = record {
    made = [];
    calls = sym (append-nil s.calls);
    carried = tt;
    client = refl;
  }

  accept-client :
      (r : Result Response) (s : ApiState N)
      → ((accept N r s).1.client
          ≡ record s.client { extension_id = identified_by s.client.extension_id r })
        × ((accept N r s).1.calls ≡ s.calls)
  accept-client (err e) s = (refl, refl)
  accept-client (ok response) s = elim (Result-cases response.body) [
    | inr (e, bad) ↦ rw bad (refl, refl)
    | inl (body, good) ↦ rw good (ground arith)
  ]

  perform-Tracked :
      (request : Request) (s : ApiState N)
      → Carries s.client.base_url s.client.extension_name s.client.extension_id request
      → Tracked s (perform N request s).1
  unfolding perform AllCarry identifier_of
  perform-Tracked request s h =
      let r = N.http_do request s.world in
      let c : Call = record { request = request; response = r.0 } in
      let a = accept-client r.0 (record s { world = r.1; calls = s.calls ++ c ∷ [] }) in
      record { made = c ∷ []; calls = a.1; carried = (h, tt); client = a.0 }

  -- The extension's headers, for either kind of request.
  abbrev Headed : ApiState N → Text → List (String × Text) → Type 0
  Headed s url headers =
      ((url ≡ registration_url s.client.base_url)
        × (headers ≡ ("Lambda-Extension-Name", s.client.extension_name) ∷ []))
      ⊎ Member ("Lambda-Extension-Identifier", s.client.extension_id) headers

  make_api_request-Tracked :
      (headers : List (String × Text)) (body : Bytes) (method : String) (url : Text)
      (s : ApiState N)
      → Headed s url headers
      → Tracked s (make_api_request N headers body method url s).1
  unfolding make_api_request
  make_api_request-Tracked headers body method url s h = elim (Option-cases (N.request_error url)) [
    | inr (e, bad) ↦ rw (bad, make_api_request) (Tracked-refl s)
    | inl good ↦ rw (good, make_api_request) (perform-Tracked _ s (carried h))
  ]
    where
      carried :
          Headed s url headers
          → Carries s.client.base_url s.client.extension_name s.client.extension_id (record {
            method = method;
            url = url;
            headers = ("Content-Type", codes "application/json") ∷ headers;
            body = body;
          })
      carried (inl (u, e)) = inl (u, ap (λ hs. ("Content-Type", codes "application/json") ∷ hs) e)
      carried (inr m) = inr (inr m)

  Tracked-trans : (s t u : ApiState N) → Tracked s t → Tracked t u → Tracked s u
  Tracked-trans s t u a b = record {
    made = a.made ++ b.made;
    calls = b.calls ∙ ap (λ cs. cs ++ b.made) a.calls ∙ append_assoc s.calls a.made b.made;
    carried =
        AllCarry-append s.client.base_url s.client.extension_name s.client.extension_id a.made
          b.made a.carried
          (subst (λ (c : Client). AllCarry c.base_url c.extension_name c.extension_id b.made)
            a.client b.carried);
    client =
        b.client
        ∙ ap (λ (c : Client). record c { extension_id = identifier_of c.extension_id b.made })
            a.client
        ∙ ap (λ id. record s.client { extension_id = id })
            (sym (identifier_of-append s.client.extension_id a.made b.made));
  }

  register_extension-Tracked :
      (managed : Bool) (s : ApiState N) → Tracked s (register_extension N managed s).1
  unfolding register_extension
  register_extension-Tracked managed s = elim (Result-cases (N.marshal_events (events managed))) [
    | inl (body, e) ↦ rw e (make_api_request-Tracked _ body "POST" _ s (inl (refl, refl)))
    | inr (e', e) ↦ rw e (Tracked-refl s)
  ]

  subscribe-Tracked :
      (path : Text) (value : Subscription) (s : ApiState N) → Tracked s (subscribe N path value s).1
  subscribe-Tracked path value s = elim (Result-cases (N.marshal_subscription value)) [
    | inl (body, e) ↦ rw e (make_api_request-Tracked _ body "PUT" _ s (inr (inl refl)))
    | inr (e', e) ↦ rw e (Tracked-refl s)
  ]

  -- The calls of the API.
  pub data ApiCall : Type 0 where
    registers : Bool → ApiCall
    awaits_event : ApiCall
    reports_init_error reports_exit_error : Text → ApiCall
    subscribes_to_telemetry : List Text → ℤ → ℤ → ℤ → Bool → ApiCall
    subscribes_to_logs : List Text → ApiCall

  abbrev pub after_call : ApiCall → ApiState N → ApiState N
  after_call (registers managed) s = (register_extension N managed s).1
  after_call awaits_event s = (next_event N s).1
  after_call (reports_init_error t) s = (init_error N t s).1
  after_call (reports_exit_error t) s = (exit_error N t s).1
  after_call (subscribes_to_telemetry types timeout_ms max_bytes max_items managed) s =
      (subscribe_to_telemetry_api N types timeout_ms max_bytes max_items managed s).1
  after_call (subscribes_to_logs types) s = (subscribe_to_logs_api N types s).1

  after_call-Tracked : (c : ApiCall) (s : ApiState N) → Tracked s (after_call c s)
  unfolding next_event init_error exit_error subscribe_to_telemetry_api subscribe_to_logs_api
  after_call-Tracked (registers managed) s = register_extension-Tracked managed s
  after_call-Tracked awaits_event s = make_api_request-Tracked _ [] "GET" _ s (inr (inl refl))
  after_call-Tracked (reports_init_error t) s =
      make_api_request-Tracked _ [] "POST" _ s (inr (inl refl))
  after_call-Tracked (reports_exit_error t) s =
      make_api_request-Tracked _ [] "POST" _ s (inr (inl refl))
  after_call-Tracked (subscribes_to_telemetry types timeout_ms max_bytes max_items managed) s =
      subscribe-Tracked _ _ s
  after_call-Tracked (subscribes_to_logs types) s = subscribe-Tracked _ _ s

  unfoldable pub after_calls : List ApiCall → ApiState N → ApiState N
  after_calls [] s = s
  after_calls (c ∷ cs) s = after_calls cs (after_call c s)

  -- Over any sequence of calls of the API, whatever the network answers: every request carries
  -- the identifier that the answers before it have set, that of the last answer 200 that had one, unless
  -- it goes to the URL of the registration and carries the extension's name; and the client's identifier is that of the last such answer, with its name and URL as before.
  pub after_calls-Tracked : (cs : List ApiCall) (s : ApiState N) → Tracked s (after_calls cs s)
  unfolding after_calls
  after_calls-Tracked [] s = Tracked-refl s
  after_calls-Tracked (c ∷ cs) s =
      Tracked-trans s (after_call c s) _ (after_call-Tracked c s)
        (after_calls-Tracked cs (after_call c s))
