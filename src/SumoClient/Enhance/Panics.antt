-- ===== src/SumoClient/Enhance/Panics.antt =====
-- When `enhanceLogs` panics, and what it leaves alone otherwise.
use sumologic_lambda_extensi.Base.{
  ℕ, suc, ◌≡◌, refl, ◌∙◌, ap, sym, ◌↔◌, ◌⊎◌, inl, inr, Option, none, some, List, [], ◌∷◌, length,
  arith,
}
use sumologic_lambda_extensi.Json.{JsonMap, nil_map, entries, Fields, lookup, get}
use sumologic_lambda_extensi.Config.Defs.{LambdaExtensionConfig}
use sumologic_lambda_extensi.SumoClient.Services.{Services, ClientState}
use sumologic_lambda_extensi.SumoClient.Endpoint.{now, get_cold_start, log_stream}
use sumologic_lambda_extensi.SumoClient.Enhance.{
  Outcome, done, panic, LogType, function, report, runtime_done, other, log_type, as_map,
  with_metrics, record_map, create_cw_log_line, by_type, tag_item, enhance_item, join_items,
  enhance_logs,
}
use sumologic_lambda_extensi.SumoClient.Enhance.Frame.{OnDone, lookup-tag_item}

module _ (S : Services) (cfg : LambdaExtensionConfig) where
  -- A nil map, or a platform report with no map of metrics in its record.
  abbrev pub PanicsOn : JsonMap → Type 0
  PanicsOn nil_map = Unit
  PanicsOn (entries fs) =
      (log_type (lookup "type" fs) ≡ report) × (as_map (get "metrics" (record_map S cfg fs)) ≡ none)

  with_metrics-panic :
      (fs : Fields) (m : JsonMap) (metric : Option JsonMap)
      → (with_metrics S cfg fs m metric ≡ panic) ↔ (metric ≡ none)
  with_metrics-panic fs m none = (λ h. refl, λ h. refl)
  with_metrics-panic fs m (some metric) = (λ h. cc, λ h. cc)

  by_type-panic :
      (t : LogType) (fs : Fields)
      → (by_type S cfg t fs ≡ panic)
        ↔ ((t ≡ report) × (as_map (get "metrics" (record_map S cfg fs)) ≡ none))
  unfolding create_cw_log_line
  by_type-panic report fs =
      let r =
        with_metrics-panic fs (record_map S cfg fs)
          (as_map (get "metrics" (record_map S cfg fs))) in
      (λ h. (refl, r.0 h), λ h. r.1 h.1)
  by_type-panic function fs = (λ h. cc, λ h. cc (h.0))
  by_type-panic runtime_done fs = (λ h. cc, λ h. cc (h.0))
  by_type-panic other fs = (λ h. cc, λ h. cc (h.0))

  record_map-tag_item :
      (fs : Fields) (s : ClientState S)
      → record_map S cfg (tag_item S cfg fs s).0 ≡ record_map S cfg fs
  unfolding get
  record_map-tag_item fs s = rw (lookup-tag_item S cfg "record" fs s)

  -- The body of the loop panics exactly on a nil map, and on an item of the type "platform.report"
  -- whose record has no map under "metrics".
  pub enhance_item-panic :
      (item : JsonMap) (s : ClientState S) → ((enhance_item S cfg item s).0 ≡ panic) ↔ PanicsOn item
  unfolding enhance_item
  enhance_item-panic nil_map s = (λ h. tt, λ h. refl)
  enhance_item-panic (entries fs) s =
      let p =
        by_type-panic (log_type (lookup "type" (tag_item S cfg fs s).0)) (tag_item S cfg fs s).0 in
      let e = ap log_type (lookup-tag_item S cfg "type" fs s) in
      let m = ap (λ r. as_map (get "metrics" r)) (record_map-tag_item fs s) in
      (λ h. (sym e ∙ (p.0 h).0, sym m ∙ (p.0 h).1), λ h. p.1 (e ∙ h.0, m ∙ h.1))

  -- The same for the whole slice.
  abbrev pub Any : (JsonMap → Type 0) → List JsonMap → Type 0
  Any P [] = ⊥
  Any P (x ∷ xs) = P x ⊎ Any P xs

  abbrev cons_outcome : Outcome JsonMap → Outcome (List JsonMap) → Outcome (List JsonMap)
  cons_outcome = join_items S cfg

  enhance_logs-cons :
      (item : JsonMap) (items : List JsonMap) (s : ClientState S)
      → (enhance_logs S cfg (item ∷ items) s).0
        ≡ cons_outcome
            (enhance_item S cfg item s).0
            (enhance_logs S cfg items (enhance_item S cfg item s).1).0
  unfolding enhance_logs
  enhance_logs-cons item items s = ground arith

  join_items-panic :
      (o : Outcome JsonMap) (r : Outcome (List JsonMap))
      → (cons_outcome o r ≡ panic) ↔ ((o ≡ panic) ⊎ (r ≡ panic))
  join_items-panic panic r = (λ h. inl refl, λ h. refl)
  join_items-panic (done i) panic = (λ h. inr refl, λ h. refl)
  join_items-panic (done i) (done is) = (λ h. cc, λ h. ground arith)

  -- The slice makes the loop panic exactly if one of its items does.
  pub enhance_logs-panic :
      (items : List JsonMap) (s : ClientState S)
      → ((enhance_logs S cfg items s).0 ≡ panic) ↔ Any PanicsOn items
  enhance_logs-panic [] s = unfold enhance_logs in (λ h. cc, λ h. absurd h)
  enhance_logs-panic (item ∷ items) s =
      let i = enhance_item-panic item s in
      let rest = enhance_logs-panic items (enhance_item S cfg item s).1 in
      let j =
        join_items-panic (enhance_item S cfg item s).0
          (enhance_logs S cfg items (enhance_item S cfg item s).1).0 in
      rw (enhance_logs-cons item items s) (
        λ h. elim (j.0 h) [ inl p ↦ inl (i.0 p) | inr p ↦ inr (rest.0 p) ],
        λ h. elim h [ inl p ↦ j.1 (inl (i.1 p)) | inr p ↦ j.1 (inr (rest.1 p)) ],
      )

  join_items-length :
      (n : ℕ) (o : Outcome JsonMap) (r : Outcome (List JsonMap))
      → OnDone (λ l. length l ≡ n) r
      → OnDone (λ l. length l ≡ suc n) (cons_outcome o r)
  join_items-length n panic r h = tt
  join_items-length n (done i) panic h = tt
  join_items-length n (done i) (done is) h = ap suc h

  -- No item is added or dropped.
  pub length-enhance_logs :
      (items : List JsonMap) (s : ClientState S)
      → OnDone (λ r. length r ≡ length items) (enhance_logs S cfg items s).0
  length-enhance_logs [] s = unfold enhance_logs in refl
  length-enhance_logs (item ∷ items) s = rw (enhance_logs-cons item items s) (
      join_items-length _ (enhance_item S cfg item s).0 _
        (length-enhance_logs items (enhance_item S cfg item s).1))

  -- Nothing is sent or stored meanwhile.
  abbrev pub Untouched : ClientState S → ClientState S → Type 0
  Untouched s t = (t.requests ≡ s.requests) × (t.uploads ≡ s.uploads)

  enhance_item-Untouched :
      (item : JsonMap) (s : ClientState S) → Untouched s (enhance_item S cfg item s).1
  unfolding enhance_item tag_item log_stream now get_cold_start
  enhance_item-Untouched nil_map s = (refl, refl)
  enhance_item-Untouched (entries fs) s = ground arith

  pub enhance_logs-Untouched :
      (items : List JsonMap) (s : ClientState S) → Untouched s (enhance_logs S cfg items s).1
  unfolding enhance_logs
  enhance_logs-Untouched [] s = (refl, refl)
  enhance_logs-Untouched (item ∷ items) s = ground (
    arith,
    enhance_item-Untouched item s,
    enhance_logs-Untouched items (enhance_item S cfg item s).1,
  )
