-- ===== src/Bridge/Session/Invariant.antt =====
-- services/camera-edge-bridge/src/bridge.rs: what a session writes.
use scrap_monitoring_simulat.Prelude.{
  ℕ, ◌+◌, ◌≤◌, ◌≡◌, Bool, true, false, Option, none, some, List, [], ◌∷◌, All,
}
use scrap_monitoring_simulat.Bridge.Descriptor.{StreamDescriptor}
use scrap_monitoring_simulat.Bridge.Jpeg.{ok, validate_jpeg}
use scrap_monitoring_simulat.Bridge.Session.{
  frame_interval, Session, Stepped, went_on, failed, crashed, shutdown, disconnected,
}
use scrap_monitoring_simulat.Bridge.Session.Rounds.{Round, Turn, again, ended, erred, aborted}

abbrev pub IsJpeg : List ℕ → Type 0
IsJpeg frame = validate_jpeg frame ≡ ok tt

abbrev pub is_some {ℓ} : {A : Type ℓ} → Option A → Bool
is_some none = false
is_some (some a) = true

abbrev pub has_any {ℓ} : {A : Type ℓ} → List A → Bool
has_any [] = false
has_any (x ∷ xs) = true

abbrev pub IsStored : Bool → Option (List ℕ) → Type 0
IsStored received none = Unit
IsStored received (some frame) = IsJpeg frame × (received ≡ true)

-- Every frame that was written is valid, and so is the latest frame, which is there only behind a
-- descriptor; there is a deadline exactly if there is a frame; a frame was written only behind a
-- descriptor; and `wrote_frame` tells whether one was.
pub record IsSound (s : Session) : Type 0 where
  pub frames_valid : All IsJpeg s.frames
  pub latest_valid : IsStored s.processor.descriptor_received s.processor.latest_frame
  pub scheduled : is_some s.processor.next_write ≡ is_some s.processor.latest_frame
  pub described : has_any s.frames ≡ true → s.processor.descriptor_received ≡ true
  pub told : s.processor.wrote_frame ≡ has_any s.frames

abbrev IsSoundStep : Stepped → Type 0
IsSoundStep (went_on s) = IsSound s
IsSoundStep (failed e s) = IsSound s
IsSoundStep crashed = ⊥

-- The loop did not panic, its session is sound, and a disconnection tells whether a frame was written.
abbrev pub IsSoundTurn : Turn → Type 0
IsSoundTurn (again l) = IsSound l.session
IsSoundTurn (ended shutdown l) = IsSound l.session
IsSoundTurn (ended (disconnected wrote_frame) l) =
    IsSound l.session × (wrote_frame ≡ has_any l.session.frames)
IsSoundTurn (erred e l) = IsSound l.session
IsSoundTurn aborted = ⊥

module _ (from_str : List ℕ → Option StreamDescriptor) (latest_instant : ℕ)
    (write : List (List ℕ) → List ℕ → Option ℕ) where
  -- An instant with an interval to spare.
  abbrev IsEarly : ℕ → Type 0
  IsEarly now = now + frame_interval ≤ latest_instant

  -- The clock of a round, at both polls and behind the read.
  abbrev pub IsTimely : Round → Type 0
  IsTimely r = IsEarly r.first_poll × IsEarly r.received_at × IsEarly r.last_poll
