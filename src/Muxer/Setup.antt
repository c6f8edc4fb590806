-- ===== src/Muxer/Setup.antt =====
-- The requests for pads, and the stream of the clock that the first frame sets.
use sptsmuxer.Base.{
  ℕ, sym, ◌+◌, ◌^◌, ◌≤◌, ◌<◌, ◌≡◌, refl, inl, inr, arith, List, [], ◌∷◌, ◌++◌, append-nil, Bool,
  true, false, Option, none, some, Result, ok, ◌>>=◌, length, replicate, u32, if◌then◌else◌,
}
use sptsmuxer.Psi.{PsiPmtSection, note_stream}
use sptsmuxer.Psi.Pmt.Defs.{Pmt, Holds}
use sptsmuxer.Psi.Pmt.Add.{IsStreamType, after_add, stream_add_lem, stream_add-Holds}
use sptsmuxer.Spts.State.{SpTs, video_pid, audio_pid}
use sptsmuxer.Spts.Fresh.{set_up, new_video, new_audio, add_video_lem, add_audio_lem}
use sptsmuxer.Muxer.{
  MuxerState, Template, video_pad, audio_pad, unknown_pad, request_stream,
  sptsmuxer_request_new_pad,
}

-- Requests that succeed, one after the other.
unfoldable pub request_pads : MuxerState → List Template → Result MuxerState
request_pads muxer [] = ok muxer
request_pads muxer (templ ∷ templates) = do
  (next, _) ← sptsmuxer_request_new_pad true true muxer templ
  request_pads next templates

-- What a request is to add to the program.
abbrev pub streams_of : List Template → List (ℕ × ℕ)
streams_of [] = []
streams_of (video_pad ∷ templates) = (0x1b, video_pid) ∷ streams_of templates
streams_of (audio_pad ∷ templates) = (0x0f, audio_pid) ∷ streams_of templates
streams_of (unknown_pad ∷ templates) = streams_of templates

abbrev pub any_video : List Template → Bool
any_video [] = false
any_video (video_pad ∷ templates) = true
any_video (audio_pad ∷ templates) = any_video templates
any_video (unknown_pad ∷ templates) = any_video templates

abbrev pub any_audio : List Template → Bool
any_audio [] = false
any_audio (video_pad ∷ templates) = any_audio templates
any_audio (audio_pad ∷ templates) = true
any_audio (unknown_pad ∷ templates) = any_audio templates

abbrev pub if_there {ℓ} : {A : Type ℓ} → Bool → A → Option A
if_there there x = if there then some x else none

-- The program has these streams, no clock yet, and a stream of a kind if there is one.
pub record HasStreams (spts : SpTs) (streams : List (ℕ × ℕ)) (video audio : Bool) : Type 0 where
  pub section : PsiPmtSection
  pub at : spts ≡ set_up section (if_there video new_video) (if_there audio new_audio)
  pub holds : Holds section (record { program = 0x16; pcr = 0; streams = streams })
  pub video_noted : section.section_info.video_pid ≡ (if video then video_pid else 0)
  pub audio_noted : section.section_info.audio_pid ≡ (if audio then audio_pid else 0)

-- What a request leaves alone.
abbrev pub IsKept : MuxerState → MuxerState → Type 0
IsKept muxer out =
    (out.first ≡ muxer.first)
    × (out.pushbufsize ≡ muxer.pushbufsize)
    × (out.pushbufused ≡ muxer.pushbufused)
    × (out.pushbuf ≡ muxer.pushbuf)

pub record Requested (muxer : MuxerState) (streams : List (ℕ × ℕ)) (video audio : Bool) (pads : ℕ)
    (Returns : MuxerState → Type 0) : Type 0 where
  pub out : MuxerState
  pub returns : Returns out
  pub program : HasStreams out.spts streams video audio
  pub queues : out.collect ≡ muxer.collect ++ replicate pads []
  pub kept : IsKept muxer out

module _ (muxer : MuxerState) (streams : List (ℕ × ℕ)) (video audio : Bool)
    (h : HasStreams muxer.spts streams video audio) (few : length streams ≤ 32) where
  abbrev table : Pmt
  table = record { program = 0x16; pcr = 0; streams = streams }

  room : 9 ≤ length h.holds.rest
  room = omega (arith, h.holds.size)

  -- The section with one more stream.
  abbrev added : (kind pid : ℕ) → IsStreamType kind → pid < 2 ^ 13 → PsiPmtSection
  added kind pid known hp = after_add h.section table h.holds kind pid known hp room

  abbrev after_video : PsiPmtSection
  after_video = added 0x1b video_pid (inl refl) (omega arith)

  abbrev after_audio : PsiPmtSection
  after_audio = added 0x0f audio_pid (inr refl) (omega arith)

  pub request_video :
      Requested muxer
        (streams ++ ((0x1b, video_pid) ∷ []))
        true
        audio
        0
        (λ out. request_stream muxer video_pad ≡ ok out)
  unfolding request_stream note_stream
  request_video = record {
    out = record muxer {
      numvideosinkpads = u32 (muxer.numvideosinkpads + 1);
      spts = set_up after_video (some new_video) (if_there audio new_audio);
    };
    returns =
        rw
          (
            h.at,
            add_video_lem h.section (if_there video new_video) (if_there audio new_audio) video_pid,
            stream_add_lem h.section table h.holds 0x1b video_pid (inl refl) (omega arith) room,
          )
          refl;
    program = record {
      section = after_video;
      at = refl;
      holds = stream_add-Holds h.section table h.holds 0x1b video_pid (inl refl) (omega arith) room;
      video_noted = refl;
      audio_noted = h.audio_noted;
    };
    queues = sym (append-nil muxer.collect);
    kept = (refl, refl, refl, refl);
  }

  pub request_audio :
      Requested muxer
        (streams ++ ((0x0f, audio_pid) ∷ []))
        video
        true
        0
        (λ out. request_stream muxer audio_pad ≡ ok out)
  unfolding request_stream note_stream
  request_audio = record {
    out = record muxer {
      numaudiosinkpads = u32 (muxer.numaudiosinkpads + 1);
      spts = set_up after_audio (if_there video new_video) (some new_audio);
    };
    returns =
        rw
          (
            h.at,
            add_audio_lem h.section (if_there video new_video) (if_there audio new_audio) audio_pid,
            stream_add_lem h.section table h.holds 0x0f audio_pid (inr refl) (omega arith) room,
          )
          refl;
    program = record {
      section = after_audio;
      at = refl;
      holds = stream_add-Holds h.section table h.holds 0x0f audio_pid (inr refl) (omega arith) room;
      video_noted = h.video_noted;
      audio_noted = refl;
    };
    queues = sym (append-nil muxer.collect);
    kept = (refl, refl, refl, refl);
  }
