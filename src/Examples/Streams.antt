-- ===== src/Examples/Streams.antt =====
-- Frames through the packetiser, from the states of `Examples`.
use sptsmuxer.Spts.State.{pmt_pid}
use sptsmuxer.Base.{
  ◌-◌, ◌^◌, ◌<◌, ◌≡◌, refl, arith, [], ◌∷◌, true, false, none, some, Bytes, ok, fault, null_pointer,
  replicate, length,
}
use sptsmuxer.Pes.{PesHeaderInfo}
use sptsmuxer.Pes.Decode.{decode_pes}
use sptsmuxer.Ts.Header.{packet}
use sptsmuxer.Ts.Decode.{decode_ts}
use sptsmuxer.Spts.State.{SpTsStream, video_pid, audio_pid}
use sptsmuxer.Spts.Packets.{Sender, start_packet, put_payload, rest_packets, write_stream}
use sptsmuxer.Spts.Packets.First.{Fits, Begun, begun, first_view}
use sptsmuxer.Spts.Packets.Shift.{shifted, start_packet-shifted}
use sptsmuxer.Spts.Packets.Loop.{Sent, rest_packets-Sent}
use sptsmuxer.Spts.Packets.Whole.{Delivered, write_stream-Delivered}
use sptsmuxer.Spts.Frame.{begin_gop, spts_write_frame}
use sptsmuxer.Spts.Frame.Valid.{IsMuxing}
use sptsmuxer.Spts.Frame.Gop.{begin_gop_lem}
use sptsmuxer.Spts.Frame.Audio.{AudioSent, audio-AudioSent}
use sptsmuxer.Spts.Frame.Video.Sent.{VideoSent}
use sptsmuxer.Spts.Frame.Video.{video-VideoSent}
use sptsmuxer.Spts.Frame.Faults.{video_only_faults}
use sptsmuxer.Examples.{scale, two_streams, pmt_body, ready, running, idr_frame}
use sptsmuxer.Examples as Examples
use sptsmuxer.Spts.Fresh.{fresh_info, stream, stream-IsReady, pat_body}

abbrev pub ready-IsMuxing : IsMuxing ready
ready-IsMuxing = record {
  video = stream 0xe0 video_pid true;
  audio = stream 0xc0 audio_pid false;
  video_counter = 0;
  audio_counter = 0;
  has_video = refl;
  has_audio = refl;
  video_ready = stream-IsReady 0xe0 video_pid true (omega arith);
  audio_ready = stream-IsReady 0xc0 audio_pid false (omega arith);
  video_id = refl;
  audio_id = refl;
  pat_counter = 0;
  pat_body = pat_body;
  pat_at = refl;
  pat_full = refl;
  pat_bits = omega arith;
  pmt_counter = 0;
  pmt_body = pmt_body;
  pmt_at = refl;
  pmt_full = refl;
  pmt_bits = omega arith;
  null_at = refl;
  count_bits = omega arith;
}

pub idr_small : length idr_frame.bytes < 2 ^ 32 - 22
idr_small = omega arith

video-VideoSent_example : VideoSent scale ready ready-IsMuxing idr_frame idr_small
video-VideoSent_example =
    video-VideoSent scale ready ready-IsMuxing idr_frame idr_small refl tt (omega arith)

abbrev running-IsMuxing : IsMuxing running
running-IsMuxing = record {
  video = stream 0xe0 video_pid true;
  audio = stream 0xc0 audio_pid false;
  video_counter = 0;
  audio_counter = 0;
  has_video = refl;
  has_audio = refl;
  video_ready = stream-IsReady 0xe0 video_pid true (omega arith);
  audio_ready = stream-IsReady 0xc0 audio_pid false (omega arith);
  video_id = refl;
  audio_id = refl;
  pat_counter = 0;
  pat_body = pat_body;
  pat_at = refl;
  pat_full = refl;
  pat_bits = omega arith;
  pmt_counter = 0;
  pmt_body = pmt_body;
  pmt_at = refl;
  pmt_full = refl;
  pmt_bits = omega arith;
  null_at = refl;
  count_bits = omega arith;
}

pub audio_small : length Examples.audio_frame.bytes < 2 ^ 32 - 22
audio_small = omega arith

pub audio_fits : Fits false (length Examples.audio_frame.bytes)
audio_fits = omega arith

audio-AudioSent_example : AudioSent scale running running-IsMuxing Examples.audio_frame audio_small
audio-AudioSent_example =
    audio-AudioSent scale running running-IsMuxing Examples.audio_frame audio_small refl
      (omega arith) audio_fits

abbrev plain_stream : SpTsStream
plain_stream = stream 0xc0 audio_pid false

write_stream-Delivered_example :
    Delivered plain_stream audio_pid 0 5 90_000 Examples.audio_frame.bytes
      (write_stream plain_stream 5 90_000 Examples.audio_frame.bytes)
write_stream-Delivered_example =
    write_stream-Delivered plain_stream audio_pid 0 5 90_000 Examples.audio_frame.bytes
      (stream-IsReady 0xc0 audio_pid false (omega arith)) audio_small audio_fits

abbrev sender : Sender
sender = record {
  tspacket = packet 0 audio_pid 1 4 (replicate 184 0xff);
  pes_packet_length = 200;
  buf = 100;
  stream_packets = 1;
  all_packets = 7;
}

rest_packets-Sent_example :
    Sent audio_pid 4 sender Examples.audio_frame.bytes
      (rest_packets 201 sender Examples.audio_frame.bytes)
rest_packets-Sent_example =
    rest_packets-Sent audio_pid 201 4 sender Examples.audio_frame.bytes 1 (replicate 184 0xff)
      (omega arith) (omega arith) (omega arith) (λ _. refl) (omega arith) (omega arith) refl refl
      (omega arith) (λ _. refl)

abbrev frame_169 : Bytes
frame_169 = replicate 169 9

abbrev info_169 : PesHeaderInfo
info_169 = record (fresh_info 0xc0) { pes_packet_length = 169 }

start_packet-shifted_example :
    (adapted : Bytes) × (rest : Bytes) × (start_packet
        (packet 1 0x41 1 0 (replicate 184 0xff))
        false
        info_169
      ≡ ok (adapted, 6))
    × (put_payload adapted 6 info_169 frame_169 ≡ ok (packet 1 0x41 3 0 rest, 168))
    × (decode_ts (packet 1 0x41 3 0 rest)
        ≡ some (first_view 0x41 0 [] (shifted info_169 frame_169)))
    × (decode_pes (shifted info_169 frame_169) ≡ none)
start_packet-shifted_example =
    start_packet-shifted 0x41 1 0 (replicate 184 0xff) info_169 frame_169 (omega arith)
      (omega arith) (omega arith) refl refl refl

begun_example : Begun (packet 1 0x40 1 0 (replicate 184 0xff)) true 0x40 0 info_169 frame_169
begun_example =
    begun true 0x40 1 0 (replicate 184 0xff) info_169 frame_169 (omega arith) (omega arith)
      (omega arith) refl refl (omega arith) tt

begin_gop_lem_example :
    begin_gop ready plain_stream
    ≡ ok (
      record ready {
        pat = record ready.pat { content = packet 1 0 1 1 pat_body };
        pmt_tspacket = record ready.pmt_tspacket {
          content = packet 1 pmt_pid 1 1 ready-IsMuxing.pmt_body;
        };
        packets_counter = 2;
        gop_counter = 1;
        audio_stream = some ready-IsMuxing.audio;
      },
      plain_stream,
      ready.pat.content ∷ ready.pmt_tspacket.content ∷ [],
    )
begin_gop_lem_example = begin_gop_lem ready ready-IsMuxing plain_stream (omega arith)

video_only_faults_example :
    spts_write_frame scale (record ready { audio_stream = none }) idr_frame ≡ fault null_pointer
video_only_faults_example =
    video_only_faults scale (record ready { audio_stream = none }) idr_frame
      (stream 0xe0 video_pid true) 0 0 pat_body pmt_body refl refl refl (omega arith) refl
      (omega arith) (omega arith) refl refl
