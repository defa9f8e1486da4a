-- ===== src/S2e/Encoder/Buffer.antt =====
-- services/simulation-server/src/s2e.rs: what stands in the buffer of the encoder, read back as
-- a client reads a capsule.
use scrap_monitoring_simulat.Prelude.{
  ℕ, zero, suc, ◌+◌, ◌-◌, ◌*◌, ◌^◌, ◌≤◌, ◌<◌, ◌≡◌, refl, sym, ap, ◌∙◌, List, [], ◌∷◌, ◌++◌, length,
  take, drop, slice, get_or, le_bytes, from_le_bytes, write_at, arith, length-write_at,
  take-write_at, take-write_at_before, write_at-write_at, drop-drop, drop-take, slice-write_at,
  take-take, from_le_bytes-le_bytes,
}
use mathlib.Core.Path.{ap₂}
use scrap_monitoring_simulat.S2e.Crc.{padded_crc32}
use scrap_monitoring_simulat.S2e.Encoder.{
  HqSample, hq_capsule_bytes, sync_flag, write_header, write_node, seal, hq_capsule_sync,
}

-- A node as a client sees it.
pub record Node : Type 0 where
  pub angle_z_q14 : ℕ
  pub dist_mm_q2 : ℕ
  pub quality : ℕ
  pub sync : ℕ

unfoldable pub decode_node : List ℕ → Node
decode_node bytes = record {
  angle_z_q14 = from_le_bytes (slice 0 2 bytes);
  dist_mm_q2 = from_le_bytes (slice 2 4 bytes);
  quality = get_or bytes 6 0;
  sync = get_or bytes 7 0;
}

-- So many nodes of eight bytes each.
unfoldable pub decode_nodes : ℕ → List ℕ → List Node
decode_nodes zero bytes = []
decode_nodes (suc n) bytes = decode_node (take 8 bytes) ∷ decode_nodes n (drop 8 bytes)

-- The first nodes of a capsule, behind its sync byte and the identifier of its scan.
unfoldable pub capsule_nodes : ℕ → List ℕ → List Node
unfolding decode_nodes
capsule_nodes n capsule = decode_nodes n (drop 9 capsule)

-- The bytes of a node.
abbrev pub node_bytes : HqSample → ℕ → List ℕ
node_bytes sample index =
    le_bytes 2 sample.angle_z_q14
    ++ (le_bytes 4 sample.dist_mm_q2 ++ (sample.quality ∷ sync_flag index ∷ []))

abbrev pub node_of : HqSample → ℕ → Node
node_of sample index = record {
  angle_z_q14 = sample.angle_z_q14;
  dist_mm_q2 = sample.dist_mm_q2;
  quality = sample.quality;
  sync = sync_flag index;
}

-- The ranges of the types of the source, and the one that the encoder demands of a distance.
pub record IsSample (x : HqSample) : Type 0 where
  pub angle : x.angle_z_q14 < 2 ^ 16
  pub distance : x.dist_mm_q2 < 2 ^ 32
  pub quality_byte : x.quality < 256

decode_node-node_bytes :
    (x : HqSample) (index : ℕ) → IsSample x → decode_node (node_bytes x index) ≡ node_of x index
unfolding decode_node
decode_node-node_bytes x index h = ground (
  arith,
  from_le_bytes-le_bytes 2 x.angle_z_q14 (omega (arith, h.angle)),
  from_le_bytes-le_bytes 4 x.dist_mm_q2 (omega (arith, h.distance)),
)

-- The four writes of a node are one write of its bytes.
write_node-write_at :
    (offset : ℕ) (x : HqSample) (index : ℕ) (capsule : List ℕ)
    → offset + 8 ≤ length capsule
    → write_node offset x index capsule ≡ write_at offset (node_bytes x index) capsule
unfolding write_node
write_node-write_at offset x index capsule h =
    ap (λ t. write_at (offset + 7) flag (write_at (offset + 6) quality t))
      (write_at-write_at offset angle distance capsule (offset + 2) (omega arith) (omega arith))
    ∙ ap (write_at (offset + 7) flag) (
        write_at-write_at offset (angle ++ distance) quality capsule (offset + 6) (omega arith)
          (omega arith))
    ∙ write_at-write_at offset ((angle ++ distance) ++ quality) flag capsule (offset + 7)
        (omega arith) (omega arith)
  where
    angle : List ℕ
    angle = le_bytes 2 x.angle_z_q14

    distance : List ℕ
    distance = le_bytes 4 x.dist_mm_q2

    quality : List ℕ
    quality = x.quality ∷ []

    flag : List ℕ
    flag = sync_flag index ∷ []

-- Nodes are read from their own bytes only.
decode_nodes-take :
    (n m : ℕ) (bytes : List ℕ) → 8 * n ≤ m → decode_nodes n (take m bytes) ≡ decode_nodes n bytes
unfolding decode_nodes
decode_nodes-take zero m bytes h = refl
decode_nodes-take (suc n) m bytes h =
    ap₂ (λ a b. decode_node a ∷ b) (take-take 8 m bytes (omega arith))
      (ap (decode_nodes n) (drop-take 8 (m - 8) m bytes (omega arith))
        ∙ decode_nodes-take n (m - 8) (drop 8 bytes) (omega arith))

-- The node behind the first n.
decode_nodes-suc :
    (n : ℕ) (bytes : List ℕ)
    → decode_nodes (suc n) bytes
      ≡ decode_nodes n bytes ++ decode_node (take 8 (drop (8 * n) bytes)) ∷ []
unfolding decode_nodes
decode_nodes-suc zero bytes = refl
decode_nodes-suc (suc n) bytes = ap (◌∷◌ (decode_node (take 8 bytes))) (
    decode_nodes-suc n (drop 8 bytes)
    ∙ ap (λ t. decode_nodes n (drop 8 bytes) ++ decode_node (take 8 t) ∷ [])
        (drop-drop 8 (8 * n) (8 * suc n) bytes (omega arith)))

-- Buffers with one prefix hold the same nodes.
pub capsule_nodes-prefix :
    (n m : ℕ) (a b : List ℕ)
    → 9 + 8 * n ≤ m
    → take m a ≡ take m b
    → capsule_nodes n a ≡ capsule_nodes n b
unfolding capsule_nodes
capsule_nodes-prefix n m a b h e = sym (cut a) ∙ ap (λ t. decode_nodes n (drop 9 t)) e ∙ cut b
  where
    cut : (c : List ℕ) → decode_nodes n (drop 9 (take m c)) ≡ decode_nodes n (drop 9 c)
    cut c =
        ap (decode_nodes n) (drop-take 9 (m - 9) m c (omega arith))
        ∙ decode_nodes-take n (m - 9) (drop 9 c) (omega arith)

pub capsule_nodes_zero : (c : List ℕ) → capsule_nodes 0 c ≡ []
unfolding capsule_nodes
capsule_nodes_zero c = refl

pub capsule_nodes-suc :
    (n : ℕ) (c : List ℕ)
    → capsule_nodes (suc n) c ≡ capsule_nodes n c ++ decode_node (slice (9 + 8 * n) 8 c) ∷ []
unfolding capsule_nodes
capsule_nodes-suc n c =
    decode_nodes-suc n (drop 9 c)
    ∙ ap (λ t. decode_nodes n (drop 9 c) ++ decode_node (take 8 t) ∷ [])
        (drop-drop 9 (8 * n) (9 + 8 * n) c refl)

-- A node that is written behind n nodes joins them at the end.
pub capsule_nodes-write_node :
    (n : ℕ) (x : HqSample) (index : ℕ) (c : List ℕ)
    → IsSample x
    → 9 + 8 * n + 8 ≤ length c
    → capsule_nodes (suc n) (write_node (9 + 8 * n) x index c)
      ≡ capsule_nodes n c ++ node_of x index ∷ []
capsule_nodes-write_node n x index c s h =
    ap (capsule_nodes (suc n)) (write_node-write_at (9 + 8 * n) x index c h)
    ∙ capsule_nodes-suc n written
    ∙ ap₂ (λ a b. a ++ b ∷ [])
        (capsule_nodes-prefix n (9 + 8 * n) written c (omega arith) (
          take-write_at_before (9 + 8 * n) (node_bytes x index) c (9 + 8 * n) (omega arith)
            (omega arith)))
        (ap decode_node (slice-write_at (9 + 8 * n) 8 (node_bytes x index) c (omega arith) refl)
          ∙ decode_node-node_bytes x index s)
  where
    written : List ℕ
    written = write_at (9 + 8 * n) (node_bytes x index) c

pub length-write_node :
    (offset : ℕ) (x : HqSample) (index : ℕ) (c : List ℕ)
    → offset + 8 ≤ length c
    → length (write_node offset x index c) ≡ length c
length-write_node offset x index c h =
    ap length (write_node-write_at offset x index c h)
    ∙ length-write_at offset (node_bytes x index) c h

pub length-write_header :
    (scan_id : ℕ) (c : List ℕ) → 9 ≤ length c → length (write_header scan_id c) ≡ length c
unfolding write_header
length-write_header scan_id c h = omega (
  arith,
  length-write_at 0 (hq_capsule_sync ∷ []) c (omega arith),
  length-write_at 1 (le_bytes 8 scan_id) (write_at 0 (hq_capsule_sync ∷ []) c)
      (omega (arith, length-write_at 0 (hq_capsule_sync ∷ []) c (omega arith))),
)

pub length-seal : (c : List ℕ) → length c ≡ hq_capsule_bytes → length (seal c) ≡ hq_capsule_bytes
unfolding seal
length-seal c h = length-write_at 777 (le_bytes 4 (padded_crc32 (take 777 c))) c (omega arith) ∙ h

-- The checksum stands behind the nodes.
pub capsule_nodes-seal :
    (c : List ℕ) → length c ≡ hq_capsule_bytes → capsule_nodes 96 (seal c) ≡ capsule_nodes 96 c
unfolding seal
capsule_nodes-seal c h =
    capsule_nodes-prefix 96 777 (write_at 777 (le_bytes 4 (padded_crc32 (take 777 c))) c) c
      (omega arith)
      (take-write_at_before 777 (le_bytes 4 (padded_crc32 (take 777 c))) c 777 (omega arith)
        (omega arith))

pub take-write_node :
    (n offset : ℕ) (x : HqSample) (index : ℕ) (c : List ℕ)
    → n ≤ offset
    → offset + 8 ≤ length c
    → take n (write_node offset x index c) ≡ take n c
take-write_node n offset x index c k h =
    ap (take n) (write_node-write_at offset x index c h)
    ∙ take-write_at_before offset (node_bytes x index) c n (omega arith) k

pub take-write_header :
    (scan_id : ℕ) (c : List ℕ)
    → 9 ≤ length c
    → take 9 (write_header scan_id c) ≡ hq_capsule_sync ∷ le_bytes 8 scan_id
unfolding write_header
take-write_header scan_id c h =
    ap (take 9) (
      write_at-write_at 0 (hq_capsule_sync ∷ []) (le_bytes 8 scan_id) c 1 (omega arith)
        (omega arith))
    ∙ take-write_at 0 (hq_capsule_sync ∷ le_bytes 8 scan_id) c 9 (omega arith) (omega arith)

pub take-seal :
    (n : ℕ) (c : List ℕ) → length c ≡ hq_capsule_bytes → n ≤ 777 → take n (seal c) ≡ take n c
unfolding seal
take-seal n c h k =
    take-write_at_before 777 (le_bytes 4 (padded_crc32 (take 777 c))) c n (omega arith) k

pub slice-seal :
    (c : List ℕ)
    → length c ≡ hq_capsule_bytes
    → slice 777 4 (seal c) ≡ le_bytes 4 (padded_crc32 (take 777 c))
unfolding seal
slice-seal c h = slice-write_at 777 4 (le_bytes 4 (padded_crc32 (take 777 c))) c (omega arith) refl
