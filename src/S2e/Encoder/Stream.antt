-- ===== src/S2e/Encoder/Stream.antt =====
-- services/simulation-server/src/s2e.rs: `HqEncoder::encode` hands every node on, once and in order.
use scrap_monitoring_simulat.Prelude.{
  ℕ, suc, ◌+◌, ◌*◌, ◌<◌, ◌≡◌, refl, sym, ap, ◌∙◌, Option, some, List, [], ◌∷◌, ◌++◌, ◌==◌,
  if◌then◌else◌, length, take, slice, le_bytes, arith, All, inl, inr, Bool-cases, length-replicate,
  append_assoc, append-nil, All-append_lem, take-take,
}
use scrap_monitoring_simulat.S2e.Crc.{padded_crc32}
use scrap_monitoring_simulat.S2e.Encoder.{
  HqSample, HqEncoder, PublishedScan, hq_capsule_bytes, hq_nodes_per_capsule, hq_capsule_sync,
  is_gap, default, reset, write_header, write_node, seal, begin_capsule, store_sample, advance,
  encode_sample, encode_samples, begin_scan, encode,
}
use scrap_monitoring_simulat.S2e.Encoder.Buffer.{
  Node, IsSample, node_of, capsule_nodes, capsule_nodes-write_node, capsule_nodes-seal,
  length-write_node, length-write_header, length-seal, take-write_node, take-write_header,
  take-seal, slice-seal, capsule_nodes_zero,
}

-- The encoder between two samples: a partial capsule of at most 95 nodes.
pub record IsPartial (e : HqEncoder) : Type 0 where
  pub size : length e.capsule ≡ hq_capsule_bytes
  pub partial : e.node_count < hq_nodes_per_capsule
  pub started : 0 < e.node_count → take 1 e.capsule ≡ hq_capsule_sync ∷ []

-- A capsule as it is sent: its size, its first byte and its checksum.
pub record IsCapsule (c : List ℕ) : Type 0 where
  pub size : length c ≡ hq_capsule_bytes
  pub sync : take 1 c ≡ hq_capsule_sync ∷ []
  pub checksum : slice 777 4 c ≡ le_bytes 4 (padded_crc32 (take 777 c))

-- The nodes that wait for the next rotation.
unfoldable pub pending : HqEncoder → List Node
pending e = capsule_nodes e.node_count e.capsule

-- The nodes of capsules, one after the other.
unfoldable pub stream_nodes : List (List ℕ) → List Node
stream_nodes [] = []
stream_nodes (c ∷ cs) = capsule_nodes hq_nodes_per_capsule c ++ stream_nodes cs

-- The nodes of the samples from an index on.
unfoldable pub scan_nodes : ℕ → List HqSample → List Node
scan_nodes index [] = []
scan_nodes index (x ∷ xs) = node_of x index ∷ scan_nodes (index + 1) xs

seal-IsCapsule :
    (c : List ℕ)
    → length c ≡ hq_capsule_bytes
    → take 1 c ≡ hq_capsule_sync ∷ []
    → IsCapsule (seal c)
seal-IsCapsule c h s = record {
  size = length-seal c h;
  sync = take-seal 1 c h (omega arith) ∙ s;
  checksum =
      slice-seal c h
      ∙ ap (λ t. le_bytes 4 (padded_crc32 t)) (sym (take-seal 777 c h (omega arith)));
}

module _ (scan_id index : ℕ) (x : HqSample) (e : HqEncoder) (v : IsPartial e) where
  length-begin_capsule : length (begin_capsule scan_id e) ≡ hq_capsule_bytes
  unfolding begin_capsule
  length-begin_capsule =
      ground (arith, length-write_header scan_id e.capsule (omega (arith, v.size)), v.size)

  take-begin_capsule : take 1 (begin_capsule scan_id e) ≡ hq_capsule_sync ∷ []
  unfolding begin_capsule
  take-begin_capsule = ground (
    arith,
    v.started,
    ap (take 1) (take-write_header scan_id e.capsule (omega (arith, v.size))),
    take-take 1 9 (write_header scan_id e.capsule) (omega arith),
  )

  nodes-begin_capsule : capsule_nodes e.node_count (begin_capsule scan_id e) ≡ pending e
  unfolding begin_capsule pending
  nodes-begin_capsule =
      ground
        (arith, capsule_nodes_zero e.capsule, capsule_nodes_zero (write_header scan_id e.capsule))

  length-store_sample : length (store_sample scan_id index x e) ≡ hq_capsule_bytes
  unfolding store_sample
  length-store_sample =
      length-write_node (9 + e.node_count * 8) x index (begin_capsule scan_id e)
        (omega (arith, length-begin_capsule, v.partial))
      ∙ length-begin_capsule

  take-store_sample : take 1 (store_sample scan_id index x e) ≡ hq_capsule_sync ∷ []
  unfolding store_sample
  take-store_sample =
      take-write_node 1 (9 + e.node_count * 8) x index (begin_capsule scan_id e) (omega arith)
        (omega (arith, length-begin_capsule, v.partial))
      ∙ take-begin_capsule

  nodes-store_sample :
      IsSample x
      → capsule_nodes (suc e.node_count) (store_sample scan_id index x e)
        ≡ pending e ++ node_of x index ∷ []
  unfolding store_sample
  nodes-store_sample s =
      ap (λ k. capsule_nodes (suc e.node_count) (write_node k x index (begin_capsule scan_id e)))
        offset
      ∙ capsule_nodes-write_node e.node_count x index (begin_capsule scan_id e) s
          (omega (arith, length-begin_capsule, v.partial))
      ∙ ap (λ t. t ++ node_of x index ∷ []) nodes-begin_capsule
    where
      offset : 9 + e.node_count * 8 ≡ 9 + 8 * e.node_count
      offset = omega arith

-- What a round promises of the encoder and of the capsules that it hands over.
pub record Promise (before : List Node) (last : Option ℕ) (r : HqEncoder × List (List ℕ))
    : Type 0 where
  pub still_partial : IsPartial r.0
  pub sealed : All IsCapsule r.1
  pub nodes : stream_nodes r.1 ++ pending r.0 ≡ before
  pub noted : r.0.last_scan_id ≡ last

advance-Promise :
    (c : List ℕ) (e : HqEncoder) (before : List Node)
    → length c ≡ hq_capsule_bytes
    → take 1 c ≡ hq_capsule_sync ∷ []
    → e.node_count < hq_nodes_per_capsule
    → capsule_nodes (suc e.node_count) c ≡ before
    → Promise before e.last_scan_id (advance c e)
unfolding advance pending stream_nodes
advance-Promise c e before h s k ns = elim (Bool-cases (e.node_count + 1 == 96)) [
  | inl full ↦
      let count : suc e.node_count ≡ 96 = ground arith in
      rw (full, advance)
        (record {
          still_partial = record {
            size = length-seal c h;
            partial = omega arith;
            started = λ p. absurd (omega arith);
          };
          sealed = (seal-IsCapsule c h s, tt);
          nodes =
              simp (append-nil, capsule_nodes_zero, capsule_nodes-seal c h)
                (ap (λ n. capsule_nodes n c) (sym count) ∙ ns);
          noted = refl;
        })
  | inr more ↦
      let count : e.node_count + 1 ≡ suc e.node_count = omega arith in
      rw (more, advance)
        (record {
          still_partial = record { size = h; partial = ground arith; started = λ p. s };
          sealed = tt;
          nodes = ap (λ n. capsule_nodes n c) count ∙ ns;
          noted = refl;
        })
]

-- One round: the node joins the stream.
encode_sample-Promise :
    (scan_id index : ℕ) (x : HqSample) (e : HqEncoder)
    → IsPartial e
    → IsSample x
    → (r : HqEncoder × List (List ℕ)) × (encode_sample scan_id index x e ≡ some r)
      × Promise (pending e ++ node_of x index ∷ []) e.last_scan_id r
unfolding encode_sample
encode_sample-Promise scan_id index x e v s = (
  advance (store_sample scan_id index x e) e,
  ground (arith, s.distance),
  advance-Promise (store_sample scan_id index x e) e (pending e ++ node_of x index ∷ [])
      (length-store_sample scan_id index x e v) (take-store_sample scan_id index x e v) v.partial
      (nodes-store_sample scan_id index x e v s),
)

pub stream_nodes-append :
    (a b : List (List ℕ)) → stream_nodes (a ++ b) ≡ stream_nodes a ++ stream_nodes b
unfolding stream_nodes
stream_nodes-append [] b = refl
stream_nodes-append (c ∷ cs) b =
    ap (◌++◌ (capsule_nodes 96 c)) (stream_nodes-append cs b)
    ∙ sym (append_assoc (capsule_nodes 96 c) (stream_nodes cs) (stream_nodes b))

regroup {ℓ} :
    {A : Type ℓ} (a b c p s : List A) (n : A)
    → b ++ c ≡ p ++ n ∷ []
    → (a ++ b) ++ (c ++ s) ≡ a ++ (p ++ n ∷ s)
regroup a b c p s n h =
    append_assoc a b (c ++ s)
    ∙ ap (◌++◌ a) (sym (append_assoc b c s) ∙ ap (λ t. t ++ s) h ∙ append_assoc p (n ∷ []) s)

-- The loop over the samples, from any index and behind any capsules.
encode_samples-Promise :
    (scan_id index : ℕ) (xs : List HqSample) (e : HqEncoder) (out : List (List ℕ))
    → IsPartial e
    → All IsSample xs
    → All IsCapsule out
    → (r : HqEncoder × List (List ℕ)) × (encode_samples scan_id index xs e out ≡ some r)
      × Promise (stream_nodes out ++ (pending e ++ scan_nodes index xs)) e.last_scan_id r
unfolding encode_samples scan_nodes
encode_samples-Promise scan_id index [] e out v s o = (
  (e, out),
  refl,
  record {
    still_partial = v;
    sealed = o;
    nodes = ap (◌++◌ (stream_nodes out)) (sym (append-nil (pending e)));
    noted = refl;
  },
)
encode_samples-Promise scan_id index (x ∷ xs) e out v s o =
    let (r, done, p) = encode_sample-Promise scan_id index x e v s.0 in
    let (r', done', p') =
      encode_samples-Promise scan_id (index + 1) xs r.0 (out ++ r.1) p.still_partial s.1
        (All-append_lem IsCapsule out r.1 o p.sealed) in
    (
      r',
      rw (done, encode_samples) done',
      record {
        still_partial = p'.still_partial;
        sealed = p'.sealed;
        nodes =
            p'.nodes
            ∙ ap (λ t. t ++ (pending r.0 ++ scan_nodes (index + 1) xs))
                (stream_nodes-append out r.1)
            ∙ regroup (stream_nodes out) (stream_nodes r.1) (pending r.0) (pending e)
                (scan_nodes (index + 1) xs) (node_of x index) p.nodes;
        noted = p'.noted ∙ p.noted;
      },
    )

-- The tail of the last scan that a scan continues.
abbrev pub continued : HqEncoder → ℕ → List Node
continued e scan_id = if is_gap e.last_scan_id scan_id then [] else pending e

begin_scan-continued :
    (scan_id : ℕ) (e : HqEncoder) → pending (begin_scan scan_id e) ≡ continued e scan_id
unfolding begin_scan pending
begin_scan-continued scan_id e = ground (arith, capsule_nodes_zero e.capsule)

begin_scan-noted :
    (scan_id : ℕ) (e : HqEncoder) → (begin_scan scan_id e).last_scan_id ≡ some scan_id
unfolding begin_scan
begin_scan-noted scan_id e = refl

begin_scan-IsPartial :
    (scan_id : ℕ) (e : HqEncoder) → IsPartial e → IsPartial (begin_scan scan_id e)
unfolding begin_scan
begin_scan-IsPartial scan_id e v = ground arith

-- `encode` succeeds on samples in range. What it hands over are whole capsules with their sync byte
-- and checksum; their nodes, with those that now wait, are the tail that the scan continues (none
-- after a gap) and then every sample of the scan, once and in order, the first one flagged.
pub encode-Promise :
    (e : HqEncoder) (scan : PublishedScan)
    → IsPartial e
    → All IsSample scan.samples
    → (r : HqEncoder × List (List ℕ)) × (encode e scan ≡ some r)
      × Promise (continued e scan.scan_id ++ scan_nodes 0 scan.samples) (some scan.scan_id) r
unfolding encode stream_nodes
encode-Promise e scan v s =
    let e' = begin_scan scan.scan_id e in
    let (r, done, p) =
      encode_samples-Promise scan.scan_id 0 scan.samples e' []
        (begin_scan-IsPartial scan.scan_id e v) s tt in
    (
      r,
      done,
      record {
        still_partial = p.still_partial;
        sealed = p.sealed;
        nodes =
            p.nodes
            ∙ ap (λ t. t ++ scan_nodes 0 scan.samples) (begin_scan-continued scan.scan_id e);
        noted = p.noted ∙ begin_scan-noted scan.scan_id e;
      },
    )

pub default-IsPartial : IsPartial default
unfolding default
default-IsPartial = record {
  size = length-replicate {A = ℕ} 781 0;
  partial = omega arith;
  started = λ p. absurd (omega arith);
}

pub reset-IsPartial : (e : HqEncoder) → IsPartial e → IsPartial (reset e)
unfolding reset
reset-IsPartial e v = record {
  size = v.size;
  partial = omega arith;
  started = λ p. absurd (omega arith);
}

-- A reset leaves no tail for the next scan.
pub continued-reset : (e : HqEncoder) (scan_id : ℕ) → continued (reset e) scan_id ≡ []
unfolding reset pending
continued-reset e scan_id = capsule_nodes_zero e.capsule
