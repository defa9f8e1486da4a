-- ===== src/S2e/Endpoint/Audience.antt =====
-- services/simulation-server/src/s2e.rs: to whom `run_endpoint` sends.
use scrap_monitoring_simulat.Float.{Float}
use scrap_monitoring_simulat.Prelude.{
  ℕ, ◌≡◌, refl, sym, ap, ◌∙◌, inl, inr, Bool, true, false, Option, none, some, List, [], ◌∷◌, ◌++◌,
  if◌then◌else◌, arith, Bool-cases, Option-cases, same, append_assoc, append-nil, take,
}
use mathlib.Core.List.{map-append}
use scrap_monitoring_simulat.S2e.Command.{Command, parse_command}
use scrap_monitoring_simulat.S2e.Encoder.{PublishedScan, encode}
use scrap_monitoring_simulat.S2e.Response.{
  EndpointConfig, response, answer_measurement_hq, answer_device_health, answer_get_lidar_conf,
  device_info_response, lidar_configuration_response,
}
use scrap_monitoring_simulat.S2e.Endpoint.{
  Endpoint, Datagram, Outcome, running, finished, failed, panicked, Event, shutdown_changed,
  received, receive_error, scans_changed, published, count_received, count_rejected, count_capsule,
  stop_streaming, publish, switch_peer, begin_streaming, observe, see, max_command_bytes, send_to,
  send_capsules, transmit_scan, transmit_new, transmit_latest, transmit_to_active, scan_published,
  configure, command_received, start_scan, on_scans_changed, dispatch, on_received, step, ◌>>=◌,
}
use scrap_monitoring_simulat.S2e.Endpoint.Transmit.{to_peer, send_to_cases}

abbrev pub state_of : Outcome → Endpoint
state_of (running s) = s
state_of (finished s) = s
state_of (failed s) = s
state_of (panicked s) = s

-- The log grows by datagrams to one client.
pub record GrowsTo (peer : ℕ) (log : List Datagram) (o : Outcome) : Type 0 where
  pub 0 as datagrams : List (List ℕ)
  pub 1 : (state_of o).sent ≡ log ++ to_peer peer datagrams

-- Without a client it stays as it is.
abbrev pub Grows : Option ℕ → List Datagram → Outcome → Type 0
Grows none log o = (state_of o).sent ≡ log
Grows (some peer) log o = GrowsTo peer log o

-- The client that a round may send to: the one whose command it handles, or the active one of a
-- stream when there is a new scan.
abbrev pub audience : Event → Endpoint → Option ℕ
audience (shutdown_changed gone value) s = none
audience (received frame peer) s = some peer
audience receive_error s = none
audience (scans_changed gone) s = if s.streaming then s.active_peer else none
audience (published scan) s = none

grows_by_nothing :
    (peer : ℕ) (s : Endpoint) (log : List Datagram) (o : Outcome)
    → (state_of o).sent ≡ log
    → GrowsTo peer log o
grows_by_nothing peer s log o e = ([], e ∙ sym (append-nil log))

Grows-by_none :
    (audience : Option ℕ) (s s' : Endpoint) → s'.sent ≡ s.sent → Grows audience s.sent (running s')
Grows-by_none none s s' e = e
Grows-by_none (some peer) s s' e = grows_by_nothing peer s s.sent (running s') e

Grows-by_end : (audience : Option ℕ) (s : Endpoint) → Grows audience s.sent (finished s)
Grows-by_end none s = refl
Grows-by_end (some peer) s = grows_by_nothing peer s s.sent (finished s) refl

if-GrowsTo :
    (b : Bool) (x y : Outcome) {peer : ℕ} {log : List Datagram}
    → GrowsTo peer log x
    → GrowsTo peer log y
    → GrowsTo peer log (if b then x else y)
if-GrowsTo true x y h k = h
if-GrowsTo false x y h k = k

more :
    (peer : ℕ) (log log' : List Datagram) (a b : List (List ℕ)) (l : List Datagram)
    → log' ≡ log ++ to_peer peer a
    → l ≡ log' ++ to_peer peer b
    → l ≡ log ++ to_peer peer (a ++ b)
more peer log log' a b l e f =
    f
    ∙ ap (λ t. t ++ to_peer peer b) e
    ∙ append_assoc log (to_peer peer a) (to_peer peer b)
    ∙ ap (◌++◌ log) (sym (map-append _ a b))

bind-GrowsTo :
    (peer : ℕ) (log : List Datagram) (o : Outcome) (f : Endpoint → Outcome)
    → GrowsTo peer log o
    → ((s : Endpoint) → GrowsTo peer s.sent (f s))
    → GrowsTo peer log (o >>= f)
bind-GrowsTo peer log (running s) f h k =
    let a = h.0 in
    let b = (k s).0 in (a ++ b, more peer log s.sent a b (state_of (f s)).sent h.1 (k s).1)
bind-GrowsTo peer log (finished s) f h k = h
bind-GrowsTo peer log (failed s) f h k = h
bind-GrowsTo peer log (panicked s) f h k = h

module _ (net : List Datagram → Datagram → Bool) where
  send_to-GrowsTo :
      (peer : ℕ) (bytes : List ℕ) (s : Endpoint)
      → GrowsTo peer s.sent (send_to net (record { peer = peer; bytes = bytes }) s)
  send_to-GrowsTo peer bytes s =
      elim (send_to_cases net (record { peer = peer; bytes = bytes }) s) [
        | inl e ↦ rw e (grows_by_nothing peer s s.sent (failed s) refl)
        | inr e ↦ rw e (bytes ∷ [], refl)
      ]

  send_capsules-GrowsTo :
      (peer : ℕ) (cs : List (List ℕ)) (s : Endpoint)
      → GrowsTo peer s.sent (send_capsules net peer cs s)
  unfolding send_capsules count_capsule
  send_capsules-GrowsTo peer [] s = grows_by_nothing peer s s.sent (running s) refl
  send_capsules-GrowsTo peer (c ∷ cs) s =
      elim (send_to_cases net (record { peer = peer; bytes = c }) s) [
        | inl e ↦ rw (e, send_capsules) (grows_by_nothing peer s s.sent (failed s) refl)
        | inr e ↦
            let rest = send_capsules-GrowsTo peer cs (
              count_capsule
                (record s { sent = s.sent ++ record { peer = peer; bytes = c } ∷ [] })) in
            rw (e, send_capsules)
              (
                c ∷ rest.0,
                rest.1
                    ∙ append_assoc s.sent (record { peer = peer; bytes = c } ∷ [])
                        (to_peer peer rest.0),
              )
      ]

  transmit_scan-GrowsTo :
      (peer : ℕ) (scan : PublishedScan) (s : Endpoint)
      → GrowsTo peer s.sent (transmit_scan net peer scan s)
  unfolding transmit_scan
  transmit_scan-GrowsTo peer scan s = elim (Option-cases (encode s.encoder scan)) [
    | inl e ↦ rw (e, transmit_scan) (grows_by_nothing peer s s.sent (panicked s) refl)
    | inr (r, e) ↦
        rw (e, transmit_scan) (send_capsules-GrowsTo peer r.1 (record s { encoder = r.0 }))
  ]

  transmit_new-GrowsTo :
      (peer : ℕ) (scan : PublishedScan) (s : Endpoint)
      → GrowsTo peer s.sent (transmit_new net peer scan s)
  unfolding transmit_new
  transmit_new-GrowsTo peer scan s =
      elim (Bool-cases (same s.last_transmitted_scan_id (some scan.scan_id))) [
        | inl old ↦ rw (old, transmit_new) (grows_by_nothing peer s s.sent (running s) refl)
        | inr new ↦
            rw (new, transmit_new)
              (bind-GrowsTo peer s.sent (transmit_scan net peer scan s) _
                (transmit_scan-GrowsTo peer scan s)
                (λ s'.
                  grows_by_nothing peer s' s'.sent
                    (running (record s' { last_transmitted_scan_id = some scan.scan_id })) refl))
      ]

  transmit_latest-GrowsTo :
      (peer : ℕ) (latest : Option PublishedScan) (s : Endpoint)
      → GrowsTo peer s.sent (transmit_latest net peer latest s)
  transmit_latest-GrowsTo peer none s = grows_by_nothing peer s s.sent (running s) refl
  transmit_latest-GrowsTo peer (some scan) s = transmit_new-GrowsTo peer scan s

  start_scan-GrowsTo : (peer : ℕ) (s : Endpoint) → GrowsTo peer s.sent (start_scan net peer s)
  unfolding start_scan begin_streaming see
  start_scan-GrowsTo peer s =
      bind-GrowsTo peer s.sent
        (send_to net (record { peer = peer; bytes = response answer_measurement_hq [] true })
          (begin_streaming s))
        (λ s'. transmit_latest net peer s'.latest (see s'))
        (send_to-GrowsTo peer (response answer_measurement_hq [] true) (begin_streaming s))
        (λ s'. transmit_latest-GrowsTo peer s'.latest (see s'))

  published_arm :
      (on : Bool) (peer : Option ℕ) (scan : PublishedScan) (s : Endpoint)
      → Grows
          (if on then peer else none)
          s.sent
          (if on then transmit_to_active net peer scan s else running s)
  published_arm true none scan s = refl
  published_arm true (some peer) scan s = transmit_new-GrowsTo peer scan s
  published_arm false peer scan s = refl

  scan_published-Grows :
      (latest : Option PublishedScan) (s : Endpoint)
      → Grows (if s.streaming then s.active_peer else none) s.sent (scan_published net latest s)
  unfolding observe
  scan_published-Grows none s = Grows-by_none (if s.streaming then s.active_peer else none) s s refl
  scan_published-Grows (some scan) s = published_arm s.streaming s.active_peer scan (observe scan s)

  on_scans_changed-Grows :
      (s : Endpoint)
      → Grows (if s.streaming then s.active_peer else none) s.sent (on_scans_changed net s)
  unfolding on_scans_changed see
  on_scans_changed-Grows s = elim (Bool-cases s.unseen) [
    | inl new ↦ simp new (scan_published-Grows s.latest (see s))
    | inr old ↦ simp old (Grows-by_none (if s.streaming then s.active_peer else none) s s refl)
  ]

  module _ (fl : Float) (sha256 : List ℕ → List ℕ) (config : EndpointConfig fl) where
    configure-GrowsTo :
        (peer : ℕ) (payload : Option (List ℕ)) (s : Endpoint)
        → GrowsTo peer s.sent (configure net fl sha256 config peer payload s)
    unfolding count_rejected
    configure-GrowsTo peer none s = grows_by_nothing peer s s.sent (running (count_rejected s)) refl
    configure-GrowsTo peer (some payload) s =
        send_to-GrowsTo peer (response answer_get_lidar_conf payload false) s

    dispatch-GrowsTo :
        (peer : ℕ) (c : Command) (s : Endpoint)
        → GrowsTo peer s.sent (dispatch net fl sha256 config peer c s)
    unfolding dispatch stop_streaming count_rejected
    dispatch-GrowsTo peer c s = if-GrowsTo _ _ _ (stays (stop_streaming s) refl) (
        if-GrowsTo _ _ _
          (send_to-GrowsTo peer (device_info_response sha256 config.sensor_id) (stop_streaming s))
          (if-GrowsTo _ _ _
            (send_to-GrowsTo peer (response answer_device_health (0 ∷ 0 ∷ 0 ∷ []) false)
              (stop_streaming s))
            (if-GrowsTo _ _ _
              (configure-GrowsTo peer (lidar_configuration_response fl config c.payload)
                (stop_streaming s))
              (if-GrowsTo _ _ _ (stays s refl)
                (if-GrowsTo _ _ _ (start_scan-GrowsTo peer s) (stays (count_rejected s) refl))))))
      where
        stays : (s' : Endpoint) → s'.sent ≡ s.sent → GrowsTo peer s.sent (running s')
        stays s' e = grows_by_nothing peer s s.sent (running s') e

    command_received-GrowsTo :
        (peer : ℕ) (c : Option Command) (s : Endpoint)
        → GrowsTo peer s.sent (command_received net fl sha256 config peer c s)
    unfolding count_rejected switch_peer stop_streaming
    command_received-GrowsTo peer none s =
        grows_by_nothing peer s s.sent (running (count_rejected s)) refl
    command_received-GrowsTo peer (some c) s =
        let g = dispatch-GrowsTo peer c (switch_peer peer s) in
        (g.0, g.1 ∙ ap (λ l. l ++ to_peer peer g.0) kept)
      where
        kept : (switch_peer peer s).sent ≡ s.sent
        kept = ground arith

    -- A round of the loop sends only to the client whose command it handles, or, when there is a new
    -- scan and a stream runs, to the active client; in all other rounds nothing is sent.
    pub step-Grows :
        (e : Event) (s : Endpoint) → Grows (audience e s) s.sent (step net fl sha256 config e s)
    unfolding step on_received count_received publish
    step-Grows (shutdown_changed gone value) s = ground arith
    step-Grows (received frame peer) s =
        command_received-GrowsTo peer (parse_command (take max_command_bytes frame))
          (count_received s)
    step-Grows receive_error s = refl
    step-Grows (scans_changed gone) s = elim (Bool-cases gone) [
      | inl closed ↦ simp closed (Grows-by_end (if s.streaming then s.active_peer else none) s)
      | inr open_still ↦ simp open_still (on_scans_changed-Grows s)
    ]
    step-Grows (published scan) s = refl
