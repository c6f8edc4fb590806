-- ===== src/Muxer/Started.antt =====
-- From a new element and some requests to the state in which the first frame is written.
use sptsmuxer.Base.{
  ℕ, ◌≤◌, ◌<◌, ◌≡◌, ◌≢◌, refl, arith, List, [], ◌∷◌, Bool, true, false, ◌||◌, none, ok, All, length,
}
use sptsmuxer.Spts.Fresh.{set_up, first_section-Holds, first_section, spts_new-set_up}
use sptsmuxer.Muxer.{MuxerState, Template, video_pad, audio_pad, unknown_pad, sptsmuxer_init}
use sptsmuxer.Muxer.Setup.{HasStreams, request_pads, streams_of, any_video, any_audio, Requested}
use sptsmuxer.Muxer.Requests.{if_any, request_pads-Requested}
use sptsmuxer.Muxer.Clock.{Clocked, HasStreams-Clocked}

abbrev pub new_element : MuxerState
new_element = record {
  numvideosinkpads = 0;
  numaudiosinkpads = 0;
  collect = [];
  first = true;
  pushbufsize = 0;
  pushbufused = 0;
  pushbuf = none;
  spts = set_up first_section none none;
}

pub init_lem : sptsmuxer_init none ≡ ok new_element
unfolding sptsmuxer_init
init_lem = rw spts_new-set_up refl

pub new-HasStreams : HasStreams (set_up first_section none none) [] false false
new-HasStreams = record {
  section = first_section;
  at = refl;
  holds = first_section-Holds;
  video_noted = refl;
  audio_noted = refl;
}

or_false : (b : Bool) → (b || false) ≡ b
or_false true = refl
or_false false = refl

any-stream :
    (templates : List Template)
    → All (λ t. t ≢ unknown_pad) templates
    → 0 < length templates
    → (any_video templates || any_audio templates) ≡ true
any-stream [] known some_request = absurd (omega arith)
any-stream (video_pad ∷ templates) known some_request = refl
any-stream (audio_pad ∷ templates) known some_request = if_any (any_video templates)
any-stream (unknown_pad ∷ templates) known some_request = absurd (known.0 refl)

pub any_video-positive :
    (templates : List Template) → any_video templates ≡ true → 0 < length templates
any_video-positive [] has_video = absurd cc
any_video-positive (templ ∷ templates) has_video = omega arith

-- The program of a new element behind some requests, with a property of its push buffer set.
module _ (templates : List Template) (known : All (λ t. t ≢ unknown_pad) templates)
    (few : length templates ≤ 33) where
  pub sized-Requested :
      (size : ℕ)
      → Requested
          (record new_element { pushbufsize = size })
          (streams_of templates)
          (any_video templates)
          (any_audio templates)
          (length templates)
          (λ out. request_pads (record new_element { pushbufsize = size }) templates ≡ ok out)
  sized-Requested size =
      rw (or_false (any_video templates), or_false (any_audio templates)) at
        (request_pads-Requested (record new_element { pushbufsize = size }) templates [] false false
          new-HasStreams known (omega arith))

  pub requested-Clocked :
      {Returns : MuxerState → Type 0} {muxer : MuxerState}
      → 0 < length templates
      → (r : Requested muxer
          (streams_of templates)
          (any_video templates)
          (any_audio templates)
          (length templates)
          Returns)
      → Clocked r.out.spts (streams_of templates) (any_video templates) (any_audio templates)
  requested-Clocked some_request r =
      HasStreams-Clocked r.out.spts (streams_of templates) (any_video templates)
        (any_audio templates) r.program (any-stream templates known some_request)
