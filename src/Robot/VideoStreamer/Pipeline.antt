-- ===== src/Robot/VideoStreamer/Pipeline.antt =====
-- robot-container/robot_agent/video_streamer.py: what stands behind the encode chain of the pipeline,
-- the throwaway sink or the webrtcbin of an offer, and the packets that pass. GStreamer is outside:
-- whether it links two pads, and the bytes of a packet, are arguments. A webrtcbin is the number of
-- those made before it.
pub mod Elements
use Prim.Native.Nat.{◌%◌}
use cloud_robotics.Prelude.{
  ℕ, suc, Text, lit, ◌==◌, Bool, true, false, Option, none, some, List, [], ◌∷◌, nat_beq,
  if◌then◌else◌,
}
use cloud_robotics.Exec.{
  Exec, Result, ok, err, lift, modify, ◌>>=◌, ◌>>◌, runtime_error, value_error,
}

pub data Element : Type 0 where
  presink : Element
  webrtcbin : ℕ → Element

-- The elements behind the chain, the one that the chain is linked to, `_presink`, `_webrtcbin`, the
-- payload types of `_payloader` and `_rtpcaps`, and the two readings of `_on_rtp_buffer`.
pub record Pipeline : Type 0 where
  pub elements : List Element
  pub linked : Option Element
  pub has_presink : Bool
  pub webrtcbin_made : Option ℕ
  pub pay_pt : ℕ
  pub caps_pt : ℕ
  pub made : ℕ
  pub rtp_packets_sent : ℕ
  pub last_rtp_payload_type : Option ℕ

-- `_ENCODING_TO_GST_FORMAT`
abbrev formats : List (Text × Text)
formats =
    (lit "rgb8", lit "RGB")
    ∷ (lit "bgr8", lit "BGR")
    ∷ (lit "rgba8", lit "RGBA")
    ∷ (lit "bgra8", lit "BGRA")
    ∷ (lit "mono8", lit "GRAY8")
    ∷ []

abbrev get_format : Text → List (Text × Text) → Option Text
get_format encoding [] = none
get_format encoding ((key, format) ∷ rest) =
    if key == encoding then some format else get_format encoding rest

-- The pipeline of `_build_pipeline`, which ends in the throwaway sink.
abbrev pub new_pipeline : Pipeline
new_pipeline = record {
  elements = presink ∷ [];
  linked = some presink;
  has_presink = true;
  webrtcbin_made = none;
  pay_pt = 96;
  caps_pt = 96;
  made = 0;
  rtp_packets_sent = 0;
  last_rtp_payload_type = none;
}

-- The format in the caps of the source, and the pipeline.
unfoldable pub build_pipeline : Text → Result (Text × Pipeline)
build_pipeline encoding = elim (get_format encoding formats) [
  | none ↦ err value_error
  | some format ↦ ok (format, new_pipeline)
]

abbrev pub same : Element → Element → Bool
same presink presink = true
same presink (webrtcbin n) = false
same (webrtcbin m) presink = false
same (webrtcbin m) (webrtcbin n) = nat_beq m n

-- `pipeline.remove(element)`
abbrev pub remove : Element → List Element → List Element
remove e [] = []
remove e (x ∷ xs) = if same e x then xs else x ∷ remove e xs

-- The element of the last offer is taken out of the pipeline, or else the throwaway sink.
abbrev pub remove_old : Pipeline → Pipeline
remove_old p = elim p.webrtcbin_made [
  | some n ↦ record p { webrtcbin_made = none; elements = remove (webrtcbin n) p.elements }
  | none ↦
      if p.has_presink
      then record p { has_presink = false; elements = remove presink p.elements }
      else p
]

-- A fresh webrtcbin in the pipeline, not linked yet.
abbrev pub add_fresh : ℕ → Pipeline → Pipeline
add_fresh fresh p = record p { elements = webrtcbin fresh ∷ p.elements; made = suc fresh }

abbrev pub link_fresh : ℕ → Bool → Exec Pipeline (Unit {0})
link_fresh fresh true p =
    (ok tt, record p { linked = some (webrtcbin fresh); webrtcbin_made = some fresh })
link_fresh fresh false p = (err runtime_error, p)

abbrev pub set_pt : ℕ → Pipeline → Pipeline
set_pt pt p = record p { pay_pt = pt; caps_pt = pt }

-- `_prepare_fresh_webrtcbin`; `links` is whether the last link is made.
unfoldable pub prepare_fresh_webrtcbin : ℕ → Bool → Exec Pipeline (Unit {0})
prepare_fresh_webrtcbin pt links p =
    let unlinked = record (set_pt pt p) { linked = none } in
    link_fresh p.made links (add_fresh p.made (remove_old unlinked))

-- `mapinfo.data[1] & 0x7F`, where the buffer could be mapped and has two bytes.
abbrev payload_type_of : Option ℕ → Option (List ℕ) → Option ℕ
payload_type_of last none = last
payload_type_of last (some []) = last
payload_type_of last (some (a ∷ [])) = last
payload_type_of last (some (a ∷ b ∷ bytes)) = some (b % 128)

unfoldable pub on_rtp_buffer : Option (List ℕ) → Pipeline → Pipeline
on_rtp_buffer mapped p = elim p.webrtcbin_made [
  | none ↦ p
  | some n ↦ record p {
    rtp_packets_sent = suc p.rtp_packets_sent;
    last_rtp_payload_type = payload_type_of p.last_rtp_payload_type mapped;
  }
]

-- An offer's payload type and whether its webrtcbin is linked, or a packet.
pub data Event : Type 0 where
  offer : ℕ → Bool → Event
  packet : Option (List ℕ) → Event

unfoldable pub run : List Event → Pipeline → Pipeline
run [] p = p
run (offer pt links ∷ events) p = run events (prepare_fresh_webrtcbin pt links p).1
run (packet mapped ∷ events) p = run events (on_rtp_buffer mapped p)
