-- ===== src/S2e/Encoder.antt =====
-- services/simulation-server/src/s2e.rs: `HqEncoder`, which packs the samples of successive scans
-- into capsules of 96 nodes. The capsule buffer is a list of bytes that is written in place, as in
-- the source: old bytes stay until they are overwritten. `none` stands for the panic on a distance
-- that does not fit 32 bits.
pub mod Buffer
pub mod Stream
pub mod Rotations
use scrap_monitoring_simulat.Prelude.{
  ℕ, ◌+◌, ◌-◌, ◌*◌, ◌^◌, Bool, false, not, Option, none, some, List, [], ◌∷◌, ◌++◌, ◌==◌, ltb,
  if◌then◌else◌, same, checked_add, replicate, take, write_at, le_bytes,
}
use scrap_monitoring_simulat.S2e.Crc.{padded_crc32}

abbrev pub hq_capsule_sync : ℕ
hq_capsule_sync = 0xa5

abbrev pub hq_nodes_per_capsule : ℕ
hq_nodes_per_capsule = 96

abbrev pub hq_node_bytes : ℕ
hq_node_bytes = 8

abbrev pub hq_capsule_bytes : ℕ
hq_capsule_bytes = 1 + 8 + hq_nodes_per_capsule * hq_node_bytes + 4

-- The fields of a sample that the encoder reads: a `u16`, a `u64` and a `u8`.
pub record HqSample : Type 0 where
  pub angle_z_q14 : ℕ
  pub dist_mm_q2 : ℕ
  pub quality : ℕ

pub record PublishedScan : Type 0 where
  pub scan_id : ℕ
  pub samples : List HqSample

pub record HqEncoder : Type 0 where
  pub capsule : List ℕ
  pub node_count : ℕ
  pub last_scan_id : Option ℕ

unfoldable pub default : HqEncoder
default = record { capsule = replicate hq_capsule_bytes 0; node_count = 0; last_scan_id = none }

unfoldable pub reset : HqEncoder → HqEncoder
reset e = record e { node_count = 0; last_scan_id = none }

-- A scan that does not follow the last one.
abbrev pub is_gap : Option ℕ → ℕ → Bool
is_gap none scan_id = false
is_gap (some previous) scan_id = not (same (checked_add previous 1) (some scan_id))

unfoldable pub write_header : ℕ → List ℕ → List ℕ
write_header scan_id capsule =
    write_at 1 (le_bytes 8 scan_id) (write_at 0 (hq_capsule_sync ∷ []) capsule)

abbrev pub sync_flag : ℕ → ℕ
sync_flag index = if index == 0 then 1 else 0

-- The four writes of a node at an offset.
unfoldable pub write_node : ℕ → HqSample → ℕ → List ℕ → List ℕ
write_node offset sample index capsule = write_at (offset + 7) (sync_flag index ∷ []) (
    write_at (offset + 6) (sample.quality ∷ []) (
      write_at (offset + 2) (le_bytes 4 sample.dist_mm_q2)
        (write_at offset (le_bytes 2 sample.angle_z_q14) capsule)))

unfoldable pub seal : List ℕ → List ℕ
seal capsule =
    let crc_offset = hq_capsule_bytes - 4 in
    write_at crc_offset (le_bytes 4 (padded_crc32 (take crc_offset capsule))) capsule

-- The first node of a capsule comes behind a new header.
unfoldable pub begin_capsule : ℕ → HqEncoder → List ℕ
begin_capsule scan_id e = if e.node_count == 0 then write_header scan_id e.capsule else e.capsule

-- The buffer after the header, for the first node of a capsule, and the node are written.
unfoldable pub store_sample : ℕ → ℕ → HqSample → HqEncoder → List ℕ
store_sample scan_id index sample e =
    write_node (9 + e.node_count * hq_node_bytes) sample index (begin_capsule scan_id e)

-- Counts the node, and hands a full capsule over.
unfoldable pub advance : List ℕ → HqEncoder → HqEncoder × List (List ℕ)
advance written e =
    if e.node_count + 1 == hq_nodes_per_capsule
    then (record e { capsule = seal written; node_count = 0 }, seal written ∷ [])
    else (record e { capsule = written; node_count = e.node_count + 1 }, [])

-- One round of the loop over the samples: the encoder after it, and the capsule if it is full.
unfoldable pub encode_sample : ℕ → ℕ → HqSample → HqEncoder → Option (HqEncoder × List (List ℕ))
encode_sample scan_id index sample e =
    if ltb sample.dist_mm_q2 (2 ^ 32)
    then some (advance (store_sample scan_id index sample e) e)
    else none

unfoldable pub encode_samples :
    ℕ → ℕ → List HqSample → HqEncoder → List (List ℕ) → Option (HqEncoder × List (List ℕ))
encode_samples scan_id index [] e capsules = some (e, capsules)
encode_samples scan_id index (sample ∷ samples) e capsules =
    elim (encode_sample scan_id index sample e) [
      | none ↦ none
      | some (e', full) ↦ encode_samples scan_id (index + 1) samples e' (capsules ++ full)
    ]

-- Forgets the pending tail on a gap, and notes the scan.
unfoldable pub begin_scan : ℕ → HqEncoder → HqEncoder
begin_scan scan_id e = record e {
  node_count = if is_gap e.last_scan_id scan_id then 0 else e.node_count;
  last_scan_id = some scan_id;
}

unfoldable pub encode : HqEncoder → PublishedScan → Option (HqEncoder × List (List ℕ))
encode e scan = encode_samples scan.scan_id 0 scan.samples (begin_scan scan.scan_id e) []
