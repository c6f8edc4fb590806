-- ===== src/Muxer/Whole/Outcome.antt =====
-- What a run of the element is to be, from `sptsmuxer_init` to the receivers.
use sptsmuxer.Base.{
  ℕ, ◌*◌, ◌%◌, ◌++◌, ◌/◌, ◌≡◌, List, [], ◌∷◌, Bool, false, Option, none, some, Bytes, ok, ◌>>=◌,
  length, map, replicate,
}
use sptsmuxer.Psi.Pat.{decode_pat}
use sptsmuxer.Psi.Pmt.Defs.{Pmt, decode_pmt}
use sptsmuxer.Ts.Demux.{demux}
use sptsmuxer.Spts.State.{SpTs, Buffer, video_pid, audio_pid, pmt_pid}
use sptsmuxer.Spts.Frame.Expected.{video_frames, audio_frames, groups}
use sptsmuxer.Spts.Frame.Faults.{write_frames}
use sptsmuxer.Spts.Frame.Program.{Receives}
use sptsmuxer.Muxer.{
  MuxerState, Template, set_pcr_reference, set_caps, push_segment, push_buffer, pushbuf_size,
  sptsmuxer_init, sptsmuxer_set_property,
}
use sptsmuxer.Muxer.Allocate.{Contains}
use sptsmuxer.Muxer.Setup.{request_pads, streams_of}
use sptsmuxer.Muxer.Queue.{Merged, waiting}
use sptsmuxer.Muxer.Drain.{collect_rounds}

module _ (g_malloc : ℕ → Option Bytes) (gst_buffer_new_and_alloc : ℕ → Bytes)
    (uint64_scale : ℕ → ℕ → ℕ → ℕ) (handled : Bool) (size : ℕ) (templates : List Template)
    (queues : List (List Buffer)) where
  -- What the receivers of the two tables read.
  abbrev pub table : Pmt
  table = record { program = 0x16; pcr = video_pid; streams = streams_of templates }

  -- The element behind the requests, and what is left of it when no frame waits.
  pub record Run : Type 0 where
    pub muxer : MuxerState
    pub made :
        (sptsmuxer_init none >>= λ new.
        request_pads (sptsmuxer_set_property new pushbuf_size size) templates)
        ≡ ok muxer
    pub out : MuxerState
    pub packets : List Bytes
    pub returns :
        collect_rounds g_malloc gst_buffer_new_and_alloc uint64_scale handled
          (waiting queues)
          (record muxer { collect = queues })
        ≡ ok (
          out,
          set_caps 188
              ∷ push_segment
              ∷ map push_buffer
                  (replicate (length packets / size) (gst_buffer_new_and_alloc (size * 188))),
        )
    -- The packets that are gone with the GstBuffers that were pushed, and those that stand at the
    -- beginning of the push buffer.
    pub gone : List Bytes
    pub held : List Bytes
    pub order : gone ++ held ≡ packets
    pub held_count : length held ≡ length packets % size
    pub in_buffer : Contains g_malloc out.pushbuf held
    pub emptied : waiting out.collect ≡ 0
    pub frames : List Buffer
    pub merged : Merged queues frames out.collect
    pub sent : SpTs
    pub writes :
        (set_pcr_reference muxer.spts >>= λ started. write_frames uint64_scale started frames)
        ≡ ok (sent, packets)
    pub video : Receives video_pid 0 packets (video_frames uint64_scale frames)
    pub audio : Receives audio_pid 0 packets (audio_frames uint64_scale false frames)
    pub pat_section : Bytes
    pub pat : demux 0 0 packets ≡ some ([], replicate (groups frames) pat_section)
    pub pat_read : decode_pat pat_section ≡ some ((0x16, pmt_pid) ∷ [])
    pub pmt_section : Bytes
    pub pmt : demux pmt_pid 0 packets ≡ some ([], replicate (groups frames) pmt_section)
    pub pmt_read : decode_pmt pmt_section ≡ some table
