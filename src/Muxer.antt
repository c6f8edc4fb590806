-- ===== src/Muxer.antt =====
-- src/sptsmuxer.c, the GStreamer element: its state, the push buffer, the choice among the pads
-- and the requests for pads. GLib and GStreamer are parameters.
pub mod Push
pub mod Unsized
pub mod Silent
pub mod Allocate
pub mod Choice
pub mod Life
pub mod Class
pub mod Pads
pub mod Whole
pub mod Reach
pub mod Drain
pub mod Element
pub mod Collect
pub mod Queue
pub mod Setup
pub mod Requests
pub mod Clock
pub mod Started
pub mod Callback
pub mod Names
use sptsmuxer.Base.{
  ℕ, zero, suc, ◌+◌, ◌-◌, ◌*◌, ◌^◌, List, [], ◌∷◌, ◌++◌, Bool, true, false, Option, none, some,
  Bytes, Result, ok, fault, assertion, deref, ◌>>=◌, store, length, u32, ltb, ◌==◌, if◌then◌else◌,
  map,
}
use sptsmuxer.Psi.{
  psi_pmt_section_pcr_pid_set, psi_pmt_section_stream_add, stream_type_video_h264,
  stream_type_audio_aac,
}
use sptsmuxer.Ts.{tspacket_length}
use sptsmuxer.Spts.State.{SpTs, Buffer, on_pmt_section, video_pid, audio_pid}
use sptsmuxer.Spts.Setup.{spts_new, spts_add_stream}
use sptsmuxer.Spts.Frame.{spts_write_frame}

-- What the functions of one element work on: the element (struct _SpTsMuxer), and `pushbuf`, the
-- global variable of sptsmuxer.c, which all elements of the process share. A pad is the queue of
-- the buffers that wait on it.
pub record MuxerState : Type 0 where
  pub numvideosinkpads : ℕ
  pub numaudiosinkpads : ℕ
  pub collect : List (List Buffer)
  pub first : Bool
  pub pushbufsize : ℕ
  pub pushbufused : ℕ
  pub pushbuf : Option Bytes
  pub spts : SpTs

-- The object is zeroed when it is made: no line sets `pushbufsize`. `pushbuf` is as the elements
-- before this one have left it, NULL if none has pushed.
unfoldable pub sptsmuxer_init : Option Bytes → Result MuxerState
sptsmuxer_init pushbuf = do
  spts ← spts_new
  ok (record {
    numvideosinkpads = 0;
    numaudiosinkpads = 0;
    collect = [];
    first = true;
    pushbufsize = 0;
    pushbufused = 0;
    pushbuf = pushbuf;
    spts = spts;
  })

pub data Property : Type 0 where
  prop_muxrate : Property
  pushbuf_size : Property
  unknown_property : Property

-- A gulong is cut to the guint `muxrate`.
unfoldable pub sptsmuxer_set_property : MuxerState → Property → ℕ → MuxerState
sptsmuxer_set_property muxer prop_muxrate value = record muxer {
  spts = record muxer.spts { muxrate = u32 value };
}
sptsmuxer_set_property muxer pushbuf_size value = record muxer { pushbufsize = value }
sptsmuxer_set_property muxer unknown_property value = muxer

unfoldable pub sptsmuxer_get_property : MuxerState → Property → Option ℕ
sptsmuxer_get_property muxer prop_muxrate = some muxer.spts.muxrate
sptsmuxer_get_property muxer pushbuf_size = some muxer.pushbufsize
sptsmuxer_get_property muxer unknown_property = none

-- The template of a requested pad.
pub data Template : Type 0 where
  video_pad : Template
  audio_pad : Template
  unknown_pad : Template

-- The stream of the template, before there is a pad. Muxer/Names has the name of the pad.
unfoldable pub request_stream : MuxerState → Template → Result MuxerState
request_stream muxer video_pad = do
  with_stream ← spts_add_stream muxer.spts stream_type_video_h264 video_pid
  spts ←
      on_pmt_section with_stream
        (λ section. psi_pmt_section_stream_add section stream_type_video_h264 video_pid)
  ok (record muxer { numvideosinkpads = u32 (muxer.numvideosinkpads + 1); spts = spts })
request_stream muxer audio_pad = do
  with_stream ← spts_add_stream muxer.spts stream_type_audio_aac audio_pid
  spts ←
      on_pmt_section with_stream
        (λ section. psi_pmt_section_stream_add section stream_type_audio_aac audio_pid)
  ok (record muxer { numaudiosinkpads = u32 (muxer.numaudiosinkpads + 1); spts = spts })
request_stream muxer unknown_pad = ok muxer

-- `gst_collect_pads_add_pad` and `gst_element_add_pad`: whether they succeed.
module _ (gst_collect_pads_add_pad gst_element_add_pad : Bool) where
  -- The pad is one more queue. The Boolean says whether a pad is returned, not NULL.
  unfoldable pub request_pad : MuxerState → MuxerState × Bool
  request_pad muxer =
      if gst_collect_pads_add_pad
      then (record muxer { collect = muxer.collect ++ ([] ∷ []) }, gst_element_add_pad)
      else (muxer, false)

  unfoldable pub sptsmuxer_request_new_pad : MuxerState → Template → Result (MuxerState × Bool)
  sptsmuxer_request_new_pad muxer templ = do
    with_stream ← request_stream muxer templ
    ok (request_pad with_stream)

-- `g_malloc` and `gst_buffer_new_and_alloc`: the bytes of a new block, and of a new GstBuffer.
module _ (g_malloc : ℕ → Option Bytes) (gst_buffer_new_and_alloc : ℕ → Bytes) where
  -- A full push buffer is pushed: a new GstBuffer of its size, which nothing is written to.
  unfoldable pub flush : MuxerState → MuxerState × List Bytes × Bool
  flush muxer =
      if muxer.pushbufused == muxer.pushbufsize
      then (
        record muxer { pushbufused = 0 },
        gst_buffer_new_and_alloc (u32 (muxer.pushbufsize * tspacket_length)) ∷ [],
        true,
      )
      else (muxer, [], true)

  -- With the push buffer that is there.
  unfoldable pub collect_packet :
      MuxerState → Bytes → Bytes → Result (MuxerState × List Bytes × Bool)
  collect_packet muxer pushbuf packet =
      if ltb muxer.pushbufused muxer.pushbufsize
      then (do
        filled ← store pushbuf (u32 (muxer.pushbufused * tspacket_length)) packet
        ok (
            flush
              (record muxer { pushbuf = some filled; pushbufused = u32 (muxer.pushbufused + 1) })))
      else ok (flush muxer)

  -- The state, the GstBuffers that are pushed, and the result.
  unfoldable pub sptsmuxer_push_packet_cb :
      MuxerState → Bytes → Result (MuxerState × List Bytes × Bool)
  sptsmuxer_push_packet_cb muxer packet =
      if length packet == tspacket_length
      then (elim muxer.pushbuf [
        | some pushbuf ↦ collect_packet muxer pushbuf packet
        | none ↦ elim (g_malloc (u32 (muxer.pushbufsize * tspacket_length))) [
          | none ↦ ok (record muxer { pushbufused = 0 }, [], false)
          | some pushbuf ↦
              collect_packet (record muxer { pushbuf = some pushbuf; pushbufused = 0 }) pushbuf
                packet
        ]
      ])
      else fault assertion

  -- Each packet that spts.c writes goes to the callback, whose result is dropped.
  unfoldable pub push_packets : MuxerState → List Bytes → Result (MuxerState × List Bytes)
  push_packets muxer [] = ok (muxer, [])
  push_packets muxer (packet ∷ packets) = do
    (next, pushed, _) ← sptsmuxer_push_packet_cb muxer packet
    (last, others) ← push_packets next packets
    ok (last, pushed ++ others)

abbrev pub gst_clock_time_none : ℕ
gst_clock_time_none = 2 ^ 64 - 1

-- The loop over the pads: the time stamp at the head of each queue, the number of the next pad,
-- and the pad chosen so far with its time stamp.
unfoldable pub next_collectdata : ℕ → List (Option ℕ) → Option (ℕ × ℕ) → Option (ℕ × ℕ)
next_collectdata i [] chosen = chosen
next_collectdata i (none ∷ heads) chosen = next_collectdata (i + 1) heads chosen
next_collectdata i (some time ∷ heads) none =
    let others = next_collectdata (i + 1) heads (some (i, time)) in
    if time == gst_clock_time_none then some (i, time) else others
next_collectdata i (some time ∷ heads) (some (j, next_time)) =
    let best = if ltb time next_time then (i, time) else (j, next_time) in
    next_collectdata (i + 1) heads (some best)

-- gst_collect_pads_peek on every pad.
unfoldable pub peek_times : List (List Buffer) → List (Option ℕ)
peek_times [] = []
peek_times ([] ∷ pads) = none ∷ peek_times pads
peek_times ((buffer ∷ buffers) ∷ pads) = some buffer.timestamp ∷ peek_times pads

-- gst_collect_pads_pop: NULL for a pad on which nothing waits.
unfoldable pub pop : ℕ → List (List Buffer) → Option (Buffer × List (List Buffer))
pop i [] = none
pop zero ([] ∷ pads) = none
pop zero ((buffer ∷ buffers) ∷ pads) = some (buffer, buffers ∷ pads)
pop (suc i) (pad ∷ pads) = elim (pop i pads) [
  | none ↦ none
  | some (buffer, rest) ↦ some (buffer, pad ∷ rest)
]

-- The stream whose packets carry the clock, set at the first call.
unfoldable pub set_pcr_reference : SpTs → Result SpTs
set_pcr_reference spts =
    let info = spts.pmt_section_info in
    if info.video_pid == 0
    then (if info.audio_pid == 0 then ok spts else (do
      next ← on_pmt_section spts (λ section. psi_pmt_section_pcr_pid_set section info.audio_pid)
      stream ← deref next.audio_stream
      ok (record next { audio_stream = some (record stream { pcr_reference = true }) })))
    else (do
      next ← on_pmt_section spts (λ section. psi_pmt_section_pcr_pid_set section info.video_pid)
      stream ← deref next.video_stream
      ok (record next { video_stream = some (record stream { pcr_reference = true }) }))

-- What the source pad is asked to do.
pub data SrcCall : Type 0 where
  set_caps : ℕ → SrcCall
  push_segment : SrcCall
  push_buffer : Bytes → SrcCall

abbrev pub mp2t_packet_length : ℕ
mp2t_packet_length = 188

-- video/mpegts with the size of its packets, and a segment of GST_FORMAT_TIME.
-- `gst_pad_push_event` says whether the event is handled.
unfoldable pub sptsmuxer_srcpad_setcaps : Bool → Bool × List SrcCall
sptsmuxer_srcpad_setcaps gst_pad_push_event =
    (gst_pad_push_event, set_caps mp2t_packet_length ∷ push_segment ∷ [])

-- What the first call does before it looks for a frame.
unfoldable pub begin_stream : Bool → MuxerState → Result (MuxerState × List SrcCall)
begin_stream gst_pad_push_event muxer =
    if muxer.first
    then (do
      spts ← set_pcr_reference muxer.spts
      ok (
        record muxer { spts = spts; first = false },
        (sptsmuxer_srcpad_setcaps gst_pad_push_event).1,
      ))
    else ok (muxer, [])

module _ (g_malloc : ℕ → Option Bytes) (gst_buffer_new_and_alloc : ℕ → Bytes)
    (uint64_scale : ℕ → ℕ → ℕ → ℕ) where
  -- The frame that waits on the pad with the earliest goes to `spts_write_frame`, whose packets
  -- go to the callback.
  unfoldable pub write_next : MuxerState → Result (MuxerState × List Bytes)
  write_next muxer = elim (next_collectdata 0 (peek_times muxer.collect) none) [
    | none ↦ ok (muxer, [])
    | some (i, time) ↦ (do
      (buffer, pads) ← deref (pop i muxer.collect)
      (sent, packets) ← spts_write_frame uint64_scale muxer.spts buffer
      push_packets g_malloc gst_buffer_new_and_alloc (record muxer { spts = sent; collect = pads })
          packets)
  ]

  -- The state and the calls on the source pad.
  unfoldable pub sptsmuxer_collected : Bool → MuxerState → Result (MuxerState × List SrcCall)
  sptsmuxer_collected gst_pad_push_event muxer = do
    (started, calls) ← begin_stream gst_pad_push_event muxer
    (out, pushed) ← write_next started
    ok (out, calls ++ map push_buffer pushed)
