-- ===== src/Spts/Frame/Expected.antt =====
-- What a program of frames is to show to its receivers, said without the code: the video frames,
-- the audio frames behind the first video frame, and the number of groups.
use sptsmuxer.Base.{
  ◌-◌, ◌/◌, ◌≤◌, ◌≡◌, ℕ, ◌+◌, ◌%◌, ◌^◌, List, [], ◌∷◌, ◌++◌, Bool, true, false, Bytes, length,
  if◌then◌else◌,
}
use sptsmuxer.Pes.Decode.{PesHeader}
use sptsmuxer.Spts.State.{Buffer, CapsName, video_h264, audio_mpeg, other_caps}

abbrev pub video_of {ℓ} : {A : Type ℓ} → CapsName → A → List A
video_of video_h264 frame = frame ∷ []
video_of audio_mpeg frame = []
video_of other_caps frame = []

abbrev pub audio_of {ℓ} : {A : Type ℓ} → CapsName → Bool → A → List A
audio_of audio_mpeg true frame = frame ∷ []
audio_of audio_mpeg false frame = []
audio_of video_h264 started frame = []
audio_of other_caps started frame = []

abbrev pub groups_of : CapsName → Bool → ℕ
groups_of video_h264 delta = if delta then 0 else 1
groups_of audio_mpeg delta = 0
groups_of other_caps delta = 0

-- The first video frame starts the program.
abbrev pub started_behind : CapsName → Bool → Bool
started_behind video_h264 started = true
started_behind audio_mpeg started = started
started_behind other_caps started = started

module _ (uint64_scale : ℕ → ℕ → ℕ → ℕ) where
  -- A frame with its PES header: time stamps in units of 90 kHz, 33 bits wide.
  abbrev pub video_frame : Buffer → PesHeader × Bytes
  video_frame buffer = (
    record {
      stream_id = 0xe0;
      packet_length = 0;
      pts = uint64_scale buffer.timestamp 90000 1_000_000_000 % 2 ^ 33;
    },
    buffer.bytes,
  )

  abbrev pub audio_frame : Buffer → PesHeader × Bytes
  audio_frame buffer = (
    record {
      stream_id = 0xc0;
      packet_length = (length buffer.bytes + 8) % 2 ^ 16;
      pts = uint64_scale buffer.timestamp 90000 1_000_000_000 % 2 ^ 33;
    },
    buffer.bytes,
  )

  abbrev pub video_frames : List Buffer → List (PesHeader × Bytes)
  video_frames [] = []
  video_frames (buffer ∷ buffers) =
      video_of buffer.caps (video_frame buffer) ++ video_frames buffers

  abbrev pub audio_frames : Bool → List Buffer → List (PesHeader × Bytes)
  audio_frames started [] = []
  audio_frames started (buffer ∷ buffers) =
      audio_of buffer.caps started (audio_frame buffer)
      ++ audio_frames (started_behind buffer.caps started) buffers

abbrev pub groups : List Buffer → ℕ
groups [] = 0
groups (buffer ∷ buffers) = groups_of buffer.caps buffer.delta_unit + groups buffers

-- The packets of a frame: the first holds 162 bytes of it behind the clock and else 170, each
-- other 184.
abbrev pub frame_packets : Bool → ℕ → ℕ
frame_packets clock size = 1 + (size - (if clock then 162 else 170) + 183) / 184

-- How many of the packets of its group are used behind a frame, the null packets of the group
-- before not counted. The Booleans say which of the streams carries the clock, and whether a packet
-- has been counted.
abbrev pub used_by : Bool → Bool → Bool → CapsName → Bool → ℕ → ℕ → ℕ
used_by video audio started video_h264 delta size used =
    (if delta then used else 2) + frame_packets video size
used_by video audio started audio_mpeg delta size used =
    if started then used + frame_packets audio size else used
used_by video audio started other_caps delta size used = used

abbrev pub used_behind : Bool → Bool → Bool → Buffer → ℕ → ℕ
used_behind video audio started buffer used =
    used_by video audio started buffer.caps buffer.delta_unit (length buffer.bytes) used

-- A group is over when the next begins.
abbrev pub HasPlace : Buffer → ℕ → Type 0
HasPlace buffer used = buffer.caps ≡ video_h264 → buffer.delta_unit ≡ false → used ≤ 2102

-- The same along a list of frames.
abbrev pub HavePlace : Bool → Bool → Bool → ℕ → List Buffer → Type 0
HavePlace video audio started used [] = Unit
HavePlace video audio started used (buffer ∷ buffers) =
    HasPlace buffer used
    × HavePlace video audio (started_behind buffer.caps started)
        (used_behind video audio started buffer used) buffers

abbrev pub used_in_the_end : Bool → Bool → Bool → ℕ → List Buffer → ℕ
used_in_the_end video audio started used [] = used
used_in_the_end video audio started used (buffer ∷ buffers) =
    used_in_the_end video audio (started_behind buffer.caps started)
      (used_behind video audio started buffer used) buffers
