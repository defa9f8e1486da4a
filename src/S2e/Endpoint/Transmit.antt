-- ===== src/S2e/Endpoint/Transmit.antt =====
-- services/simulation-server/src/s2e.rs: how `transmit_scan` and the code around it leave the endpoint.
use scrap_monitoring_simulat.Prelude.{
  ℕ, ◌≡◌, refl, ap, ◌∙◌, ◌⊎◌, inl, inr, Bool, true, false, some, List, [], ◌∷◌, ◌++◌, map, arith,
  All, Bool-cases, same, append_assoc, append-nil,
}
use scrap_monitoring_simulat.S2e.Encoder.{HqEncoder, PublishedScan}
use scrap_monitoring_simulat.S2e.Encoder.Buffer.{IsSample}
use scrap_monitoring_simulat.S2e.Encoder.Stream.{
  IsPartial, Promise, continued, scan_nodes, encode-Promise,
}
use scrap_monitoring_simulat.S2e.Endpoint.{
  Endpoint, EndpointStats, Datagram, running, failed, send_to, send_capsules, count_capsule,
  transmit_scan, transmit_new,
}

-- The datagrams of capsules to a client.
abbrev pub to_peer : ℕ → List (List ℕ) → List Datagram
to_peer peer = map (λ bytes. record { peer = peer; bytes = bytes })

module _ (net : List Datagram → Datagram → Bool) where
  pub send_to_cases :
      (d : Datagram) (s : Endpoint)
      → (send_to net d s ≡ failed s)
        ⊎ (send_to net d s ≡ running (record s { sent = s.sent ++ d ∷ [] }))
  unfolding send_to
  send_to_cases d s = ground arith

  -- Either the socket fails, or the capsules are appended to the log and nothing but the log and the
  -- counters changes.
  send_capsules_cases :
      (peer : ℕ) (cs : List (List ℕ)) (s : Endpoint)
      → ((s' : Endpoint) × (send_capsules net peer cs s ≡ failed s'))
        ⊎ ((c : EndpointStats) × (send_capsules net peer cs s
              ≡ running (record s { sent = s.sent ++ to_peer peer cs; counters = c })))
  unfolding send_capsules send_to count_capsule
  send_capsules_cases peer [] s = inr (s.counters, simp append-nil)
  send_capsules_cases peer (c ∷ cs) s =
      elim (Bool-cases (net s.sent (record { peer = peer; bytes = c }))) [
        | inl out ↦ elim (send_capsules_cases peer cs counted) [
          | inl (s', e) ↦ inl (s', rw (out, send_capsules) e)
          | inr (n, e) ↦ inr (
            n,
            rw (out, send_capsules)
                (e
                  ∙ ap (λ l. running (record s { counters = n; sent = l }))
                      (append_assoc s.sent (record { peer = peer; bytes = c } ∷ [])
                        (to_peer peer cs))),
          )
        ]
        | inr stuck ↦ inl (s, rw (stuck, send_capsules) refl)
      ]
    where
      counted : Endpoint
      counted = count_capsule (record s { sent = s.sent ++ record { peer = peer; bytes = c } ∷ [] })

  -- A scan was transmitted: its capsules went to the client, the encoder is as `encode` leaves it,
  -- and the scan is noted.
  pub record Transmitted (peer : ℕ) (scan : PublishedScan) (s s' : Endpoint) : Type 0 where
    pub capsules : List (List ℕ)
    pub counters : EndpointStats
    pub encoder : HqEncoder
    pub encoded :
        Promise
          (continued s.encoder scan.scan_id ++ scan_nodes 0 scan.samples)
          (some scan.scan_id)
          (encoder, capsules)
    pub state : s' ≡ record s {
      encoder = encoder;
      counters = counters;
      sent = s.sent ++ to_peer peer capsules;
      last_transmitted_scan_id = some scan.scan_id;
    }

  -- All outcomes of `transmit_new` on a scan in range.
  pub transmit_new_cases :
      (peer : ℕ) (scan : PublishedScan) (s : Endpoint)
      → IsPartial s.encoder
      → All IsSample scan.samples
      → ((same s.last_transmitted_scan_id (some scan.scan_id) ≡ true)
          × (transmit_new net peer scan s ≡ running s))
        ⊎ ((s' : Endpoint) × (transmit_new net peer scan s ≡ failed s'))
        ⊎ ((s' : Endpoint) × (same s.last_transmitted_scan_id (some scan.scan_id) ≡ false)
            × (transmit_new net peer scan s ≡ running s')
            × Transmitted peer scan s s')
  unfolding transmit_new transmit_scan
  transmit_new_cases peer scan s v a =
      elim (Bool-cases (same s.last_transmitted_scan_id (some scan.scan_id))) [
        | inl old ↦ inl (old, rw (old, transmit_new) refl)
        | inr new ↦
            let (r, done, p) = encode-Promise s.encoder scan v a in
            elim (send_capsules_cases peer r.1 (record s { encoder = r.0 })) [
              | inl (s', e) ↦
                  inr (inl (s', rw (new, transmit_new) (rw (done, transmit_scan) (rw e refl))))
              | inr (n, e) ↦ inr (
                  inr (
                    record s {
                      encoder = r.0;
                      counters = n;
                      sent = s.sent ++ to_peer peer r.1;
                      last_transmitted_scan_id = some scan.scan_id;
                    },
                    new,
                    rw (new, transmit_new) (rw (done, transmit_scan) (rw e refl)),
                    record {
                      capsules = r.1;
                      counters = n;
                      encoder = r.0;
                      encoded = p;
                      state = refl;
                    },
                  ))
            ]
      ]
