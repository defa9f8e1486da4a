-- ===== src/S2e/Encoder/Rotations.antt =====
-- services/simulation-server/src/s2e.rs: the encoder over many rotations.
use scrap_monitoring_simulat.Prelude.{
  ℕ, ◌≡◌, refl, sym, ap, ◌∙◌, false, Option, none, some, List, [], ◌∷◌, ◌++◌, All, if◌then◌else◌,
  append_assoc, append-nil, All-append_lem,
}
use scrap_monitoring_simulat.S2e.Encoder.{HqEncoder, PublishedScan, is_gap, encode}
use scrap_monitoring_simulat.S2e.Encoder.Buffer.{Node, IsSample}
use scrap_monitoring_simulat.S2e.Encoder.Stream.{
  IsPartial, IsCapsule, pending, stream_nodes, scan_nodes, stream_nodes-append, encode-Promise,
}

-- The scans that an endpoint hands to its encoder, one after the other.
unfoldable pub encode_all : HqEncoder → List PublishedScan → Option (HqEncoder × List (List ℕ))
encode_all e [] = some (e, [])
encode_all e (scan ∷ scans) = elim (encode e scan) [
  | none ↦ none
  | some (e', out) ↦ elim (encode_all e' scans) [
    | none ↦ none
    | some (e'', out') ↦ some (e'', out ++ out')
  ]
]

-- No scan is missing.
abbrev pub Follows : Option ℕ → List PublishedScan → Type 0
Follows last [] = Unit
Follows last (scan ∷ scans) = (is_gap last scan.scan_id ≡ false) × Follows (some scan.scan_id) scans

abbrev pub AreSamples : List PublishedScan → Type 0
AreSamples scans = All (λ scan. All IsSample scan.samples) scans

unfoldable pub all_nodes : List PublishedScan → List Node
all_nodes [] = []
all_nodes (scan ∷ scans) = scan_nodes 0 scan.samples ++ all_nodes scans

-- Over scans of which none is missing, the nodes of the capsules and those that wait at the end are
-- the tail at the start and then all samples, once and in order: no padding, no loss, no repetition.
pub stream_nodes-encode_all :
    (e : HqEncoder) (scans : List PublishedScan)
    → IsPartial e
    → Follows e.last_scan_id scans
    → AreSamples scans
    → (r : HqEncoder × List (List ℕ)) × (encode_all e scans ≡ some r)
      × All IsCapsule r.1
      × IsPartial r.0
      × (stream_nodes r.1 ++ pending r.0 ≡ pending e ++ all_nodes scans)
unfolding encode_all all_nodes stream_nodes
stream_nodes-encode_all e [] v f s = ((e, []), refl, tt, v, sym (append-nil (pending e)))
stream_nodes-encode_all e (scan ∷ scans) v f s =
    let (r, done, p) = encode-Promise e scan v s.0 in
    let (r', done', sealed, v', nodes) =
      stream_nodes-encode_all r.0 scans p.still_partial (rw p.noted f.1) s.1 in
    (
      (r'.0, r.1 ++ r'.1),
      rw (done, encode_all) (rw (done', encode_all) refl),
      All-append_lem IsCapsule r.1 r'.1 p.sealed sealed,
      v',
      ap (λ t. t ++ pending r'.0) (stream_nodes-append r.1 r'.1)
          ∙ append_assoc (stream_nodes r.1) (stream_nodes r'.1) (pending r'.0)
          ∙ ap (◌++◌ (stream_nodes r.1)) nodes
          ∙ sym (append_assoc (stream_nodes r.1) (pending r.0) (all_nodes scans))
          ∙ ap (λ t. t ++ all_nodes scans)
              (p.nodes ∙ ap (λ b. (if b then [] else pending e) ++ scan_nodes 0 scan.samples) f.0)
          ∙ append_assoc (pending e) (scan_nodes 0 scan.samples) (all_nodes scans),
    )
