-- ===== src/S2e/Endpoint/Invariant.antt =====
-- services/simulation-server/src/s2e.rs: what holds between any two rounds of `run_endpoint`.
use scrap_monitoring_simulat.Float.{Float}
use scrap_monitoring_simulat.Prelude.{
  ℕ, ◌≡◌, ◌≢◌, refl, sym, inl, inr, Bool, true, false, Option, none, some, List, [], ◌∷◌, ◌++◌,
  arith, All, take,
}
use scrap_monitoring_simulat.S2e.Command.{Command, parse_command}
use scrap_monitoring_simulat.S2e.Encoder.{PublishedScan, reset, default}
use scrap_monitoring_simulat.S2e.Encoder.Buffer.{IsSample}
use scrap_monitoring_simulat.S2e.Encoder.Stream.{IsPartial, default-IsPartial, reset-IsPartial}
use scrap_monitoring_simulat.S2e.Response.{
  EndpointConfig, response, answer_measurement_hq, answer_device_health, device_info_response,
  lidar_configuration_response,
}
use scrap_monitoring_simulat.S2e.Endpoint.{
  Endpoint, Datagram, Outcome, running, finished, failed, panicked, Event, shutdown_changed,
  received, receive_error, scans_changed, published, start, max_command_bytes, count_received,
  count_rejected, stop_streaming, publish, switch_peer, begin_streaming, observe, see, send_to,
  transmit_new, transmit_latest, transmit_to_active, scan_published, configure, command_received,
  start_scan, on_scans_changed, dispatch, on_received, step, run, ◌>>=◌,
}
use scrap_monitoring_simulat.S2e.Endpoint.Transmit.{Transmitted, transmit_new_cases, send_to_cases}

abbrev pub HasSamples : Option PublishedScan → Type 0
HasSamples none = Unit
HasSamples (some scan) = All IsSample scan.samples

-- The encoder holds a partial capsule; the scan that was transmitted last is the one that the
-- encoder saw last; while no stream runs neither has one, and the capsule is empty; a stream has a
-- client.
pub record IsServing (s : Endpoint) : Type 0 where
  pub encoder_partial : IsPartial s.encoder
  pub agree : s.last_transmitted_scan_id ≡ s.encoder.last_scan_id
  pub idle : s.streaming ≡ false → (s.last_transmitted_scan_id ≡ none) × (s.encoder.node_count ≡ 0)
  pub owned : s.streaming ≡ true → s.active_peer ≢ none
  pub latest_ok : HasSamples s.latest

-- The endpoint serves on, has ended, or was stopped by the socket; it has not panicked.
abbrev pub Serves : Outcome → Type 0
Serves (running s) = IsServing s
Serves (finished s) = IsServing s
Serves (failed s) = Unit
Serves (panicked s) = ⊥

bind-Serves :
    (o : Outcome) (f : Endpoint → Outcome)
    → Serves o
    → ((s : Endpoint) → IsServing s → Serves (f s))
    → Serves (o >>= f)
bind-Serves (running s) f h k = k s h
bind-Serves (finished s) f h k = h
bind-Serves (failed s) f h k = h
bind-Serves (panicked s) f h k = h

start-IsServing : IsServing start
unfolding start default
start-IsServing = record {
  encoder_partial = default-IsPartial;
  agree = refl;
  idle = λ e. (refl, refl);
  owned = λ e. cc;
  latest_ok = tt;
}

stop_streaming-IsServing : (s : Endpoint) → IsServing s → IsServing (stop_streaming s)
unfolding stop_streaming reset
stop_streaming-IsServing s v = record {
  encoder_partial = reset-IsPartial s.encoder v.encoder_partial;
  agree = refl;
  idle = λ e. (refl, refl);
  owned = λ e. cc;
  latest_ok = v.latest_ok;
}

switch_peer-IsServing : (peer : ℕ) (s : Endpoint) → IsServing s → IsServing (switch_peer peer s)
unfolding switch_peer
switch_peer-IsServing peer s v = ground (arith, stop_streaming-IsServing s v)

switch_peer-owned : (peer : ℕ) (s : Endpoint) → (switch_peer peer s).active_peer ≢ none
unfolding switch_peer
switch_peer-owned peer s e = cc

begin_streaming-IsServing :
    (s : Endpoint) → IsServing s → s.active_peer ≢ none → IsServing (begin_streaming s)
unfolding begin_streaming reset
begin_streaming-IsServing s v owned = ground (arith, reset-IsPartial s.encoder v.encoder_partial)

see-IsServing : (s : Endpoint) → IsServing s → IsServing (see s)
unfolding see
see-IsServing s v = ground arith

observe-IsServing : (scan : PublishedScan) (s : Endpoint) → IsServing s → IsServing (observe scan s)
unfolding observe
observe-IsServing scan s v = ground arith

publish-IsServing :
    (scan : PublishedScan) (s : Endpoint)
    → IsServing s
    → All IsSample scan.samples
    → IsServing (publish scan s)
unfolding publish
publish-IsServing scan s v a = ground arith

count_received-IsServing : (s : Endpoint) → IsServing s → IsServing (count_received s)
unfolding count_received
count_received-IsServing s v = ground arith

count_rejected-IsServing : (s : Endpoint) → IsServing s → IsServing (count_rejected s)
unfolding count_rejected
count_rejected-IsServing s v = ground arith

module _ (net : List Datagram → Datagram → Bool) where
  Transmitted-IsServing :
      (peer : ℕ) (scan : PublishedScan) (s s' : Endpoint)
      → IsServing s
      → s.streaming ≡ true
      → Transmitted net peer scan s s'
      → IsServing s'
  Transmitted-IsServing peer scan s s' v on t = rw t.state (record {
    encoder_partial = t.encoded.still_partial;
    agree = sym t.encoded.noted;
    idle = λ e. cc;
    owned = v.owned;
    latest_ok = v.latest_ok;
  })

  transmit_new-Serves :
      (peer : ℕ) (scan : PublishedScan) (s : Endpoint)
      → IsServing s
      → s.streaming ≡ true
      → All IsSample scan.samples
      → Serves (transmit_new net peer scan s)
  transmit_new-Serves peer scan s v on a =
      elim (transmit_new_cases net peer scan s v.encoder_partial a) [
        | inl (old, e) ↦ rw e v
        | inr (inl (s', e)) ↦ rw e tt
        | inr (inr (s', new, e, t)) ↦ rw e (Transmitted-IsServing peer scan s s' v on t)
      ]

  send_to-Serves : (d : Datagram) (s : Endpoint) → IsServing s → Serves (send_to net d s)
  unfolding send_to
  send_to-Serves d s v = ground arith

  transmit_latest-Serves :
      (peer : ℕ) (latest : Option PublishedScan) (s : Endpoint)
      → IsServing s
      → s.streaming ≡ true
      → HasSamples latest
      → Serves (transmit_latest net peer latest s)
  transmit_latest-Serves peer none s v on a = v
  transmit_latest-Serves peer (some scan) s v on a = transmit_new-Serves peer scan s v on a

  start_scan-Serves :
      (peer : ℕ) (s : Endpoint)
      → IsServing s
      → s.active_peer ≢ none
      → Serves (start_scan net peer s)
  unfolding start_scan begin_streaming see
  start_scan-Serves peer s v owned = elim (send_to_cases net first (begin_streaming s)) [
    | inl e ↦ rw e tt
    | inr e ↦
        rw (e, ◌>>=◌)
          (transmit_latest-Serves peer s.latest (see logged) (see-IsServing logged logged-IsServing)
            refl v.latest_ok)
  ]
    where
      first : Datagram
      first = record { peer = peer; bytes = response answer_measurement_hq [] true }

      logged : Endpoint
      logged = record (begin_streaming s) { sent = s.sent ++ first ∷ [] }

      logged-IsServing : IsServing logged
      logged-IsServing =
          let b = begin_streaming-IsServing s v owned in
          record {
            encoder_partial = b.encoder_partial;
            agree = b.agree;
            idle = b.idle;
            owned = b.owned;
            latest_ok = b.latest_ok;
          }

  transmit_to_active-Serves :
      (peer : Option ℕ) (scan : PublishedScan) (s : Endpoint)
      → IsServing s
      → s.streaming ≡ true
      → All IsSample scan.samples
      → Serves (transmit_to_active net peer scan s)
  transmit_to_active-Serves none scan s v on a = v
  transmit_to_active-Serves (some peer) scan s v on a = transmit_new-Serves peer scan s v on a

  scan_published-Serves :
      (latest : Option PublishedScan) (s : Endpoint)
      → IsServing s
      → HasSamples latest
      → Serves (scan_published net latest s)
  scan_published-Serves none s v a = v
  scan_published-Serves (some scan) s v a =
      let s' = observe scan s in
      let v' = observe-IsServing scan s v in
      ground (
        arith,
        v',
        λ (on : s'.streaming ≡ true). transmit_to_active-Serves s'.active_peer scan s' v' on a,
      )

  on_scans_changed-Serves : (s : Endpoint) → IsServing s → Serves (on_scans_changed net s)
  unfolding on_scans_changed
  on_scans_changed-Serves s v =
      ground (arith, scan_published-Serves s.latest (see s) (see-IsServing s v) v.latest_ok, v)

  module _ (fl : Float) (sha256 : List ℕ → List ℕ) (config : EndpointConfig fl) where
    configure-Serves :
        (peer : ℕ) (payload : Option (List ℕ)) (s : Endpoint)
        → IsServing s
        → Serves (configure net fl sha256 config peer payload s)
    configure-Serves peer none s v = count_rejected-IsServing s v
    configure-Serves peer (some payload) s v = send_to-Serves _ s v

    dispatch-Serves :
        (peer : ℕ) (c : Command) (s : Endpoint)
        → IsServing s
        → s.active_peer ≢ none
        → Serves (dispatch net fl sha256 config peer c s)
    unfolding dispatch
    dispatch-Serves peer c s v owned =
        let stopped = stop_streaming-IsServing s v in
        ground (
          arith,
          stopped,
          send_to-Serves
              (record { peer = peer; bytes = device_info_response sha256 config.sensor_id })
              (stop_streaming s) stopped,
          send_to-Serves
              (record { peer = peer; bytes = response answer_device_health (0 ∷ 0 ∷ 0 ∷ []) false })
              (stop_streaming s) stopped,
          configure-Serves peer (lidar_configuration_response fl config c.payload)
              (stop_streaming s) stopped,
          start_scan-Serves peer s v owned,
          count_rejected-IsServing s v,
          v,
        )

    command_received-Serves :
        (peer : ℕ) (c : Option Command) (s : Endpoint)
        → IsServing s
        → Serves (command_received net fl sha256 config peer c s)
    command_received-Serves peer none s v = count_rejected-IsServing s v
    command_received-Serves peer (some c) s v =
        dispatch-Serves peer c (switch_peer peer s) (switch_peer-IsServing peer s v)
          (switch_peer-owned peer s)

    on_received-Serves :
        (frame : List ℕ) (peer : ℕ) (s : Endpoint)
        → IsServing s
        → Serves (on_received net fl sha256 config frame peer s)
    unfolding on_received
    on_received-Serves frame peer s v =
        command_received-Serves peer (parse_command (take max_command_bytes frame))
          (count_received s) (count_received-IsServing s v)

    -- The scans that the other task publishes have samples in range.
    abbrev pub PublishesSamples : Event → Type 0
    PublishesSamples (published scan) = All IsSample scan.samples
    PublishesSamples e = Unit

    step-Serves :
        (e : Event) (s : Endpoint)
        → PublishesSamples e
        → IsServing s
        → Serves (step net fl sha256 config e s)
    unfolding step
    step-Serves (shutdown_changed gone value) s p v = ground arith
    step-Serves (received frame peer) s p v = on_received-Serves frame peer s v
    step-Serves receive_error s p v = tt
    step-Serves (scans_changed gone) s p v = ground (arith, on_scans_changed-Serves s v)
    step-Serves (published scan) s p v = publish-IsServing scan s v p

    run-Serves :
        (es : List Event) (s : Endpoint)
        → All PublishesSamples es
        → IsServing s
        → Serves (run net fl sha256 config es s)
    unfolding run
    run-Serves [] s p v = v
    run-Serves (e ∷ es) s p v =
        go (step net fl sha256 config e s) refl (step-Serves e s p.0 v) (λ s'. run-Serves es s' p.1)
      where
        go :
            (o : Outcome)
            → step net fl sha256 config e s ≡ o
            → Serves o
            → ((s' : Endpoint) → IsServing s' → Serves (run net fl sha256 config es s'))
            → Serves (run net fl sha256 config (e ∷ es) s)
        go (running s') eq h next = rw (eq, run) (next s' h)
        go (finished s') eq h next = rw (eq, run) h
        go (failed s') eq h next = rw (eq, run) h
        go (panicked s') eq h next = absurd h

    -- While the samples of every published scan fit the fields of a capsule (an angle of 16 bits, a
    -- distance of 32 and a quality of 8), and whatever the clients send: an endpoint does not panic, and
    -- between two rounds its encoder, its note of the last scan and its stream agree.
    pub run-start-Serves :
        (es : List Event) → All PublishesSamples es → Serves (run net fl sha256 config es start)
    run-start-Serves es p = run-Serves es start p start-IsServing
