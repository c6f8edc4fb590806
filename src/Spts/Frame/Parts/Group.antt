-- ===== src/Spts/Frame/Parts/Group.antt =====
-- What comes before the packets of a frame, for each receiver.
use sptsmuxer.Base.{
  All-replicate, ℕ, ◌+◌, ◌%◌, ◌^◌, ◌<◌, ◌≡◌, ◌≢◌, refl, sym, arith, List, [], ◌∷◌, ◌++◌, Bool, true,
  false, Bytes, All, All-append, length, replicate, if◌then◌else◌, append-nil,
}
use mathlib.Core.Path.{subst}
use sptsmuxer.Ts.Header.{packet}
use sptsmuxer.Ts.Decode.{decode_ts, decode_payload_packet}
use sptsmuxer.Ts.Receive.{receive}
use sptsmuxer.Ts.Demux.{Gives, Gives-append, IsOther, Gives-other, Gives-unit}
use sptsmuxer.Spts.State.{SpTs, pmt_pid}
use sptsmuxer.Spts.Frame.Valid.{IsMuxing, null_packet}

-- A packet of a table, for the receiver of its PID and for the others.
pub table_unit :
    {pid counter : ℕ} {p body : Bytes}
    → p ≡ packet 1 pid 1 counter body
    → pid < 2 ^ 13
    → counter < 16
    → length body ≡ 184
    → Gives pid counter (p ∷ []) (body ∷ []) ((counter + 1) % 16)
unfolding receive
table_unit {pid} {counter} {p} {body} at hp hc full = Gives-unit hc (
    rw at (
      rw (decode_payload_packet 1 pid counter (omega arith) hp hc body full)
        (ground (arith, append-nil body))))

pub table-IsOther :
    {pid other counter : ℕ} {p body : Bytes}
    → p ≡ packet 1 pid 1 counter body
    → pid < 2 ^ 13
    → counter < 16
    → length body ≡ 184
    → pid ≢ other
    → IsOther other p
table-IsOther {pid} {other} {counter} {p} {body} at hp hc full ne = record {
  view = record { unit_start = 1; pid = pid; counter = counter; adaptation = []; payload = body };
  decoded = rw at (decode_payload_packet 1 pid counter (omega arith) hp hc body full);
  other = ne;
}

pub null_packet-IsOther : (pid : ℕ) → 0x1fff ≢ pid → IsOther pid null_packet
unfolding decode_ts
null_packet-IsOther pid ne = record {
  view = record {
    unit_start = 0;
    pid = 0x1fff;
    counter = 0;
    adaptation = [];
    payload = replicate 184 0xff;
  };
  decoded = refl;
  other = ne;
}

module _ (spts : SpTs) (m : IsMuxing spts) (gap : ℕ) where
  abbrev pub nulls : List Bytes
  nulls = replicate gap spts.nullpacket

  abbrev pub group : List Bytes
  group = nulls ++ (spts.pat.content ∷ spts.pmt_tspacket.content ∷ [])

  pub nulls-IsOther : (pid : ℕ) → 0x1fff ≢ pid → All (IsOther pid) nulls
  nulls-IsOther pid ne =
      All-replicate (IsOther pid) gap spts.nullpacket
        (subst (IsOther pid) (sym m.null_at) (null_packet-IsOther pid ne))

  pub group-IsOther : (pid : ℕ) → 0x1fff ≢ pid → 0 ≢ pid → pmt_pid ≢ pid → All (IsOther pid) group
  group-IsOther pid n1 n2 n3 =
      All-append (IsOther pid) nulls (spts.pat.content ∷ spts.pmt_tspacket.content ∷ [])
        (nulls-IsOther pid n1)
        (
          table-IsOther m.pat_at (omega arith) m.pat_bits m.pat_full n2,
          (table-IsOther m.pmt_at (omega arith) m.pmt_bits m.pmt_full n3, tt),
        )

  pub group_pat : Gives 0 m.pat_counter group (m.pat_body ∷ []) ((m.pat_counter + 1) % 16)
  group_pat = Gives-append (Gives-other m.pat_counter nulls (nulls-IsOther 0 (omega arith))) (
      Gives-append (table_unit m.pat_at (omega arith) m.pat_bits m.pat_full) (
        Gives-other ((m.pat_counter + 1) % 16) (spts.pmt_tspacket.content ∷ []) (
          table-IsOther {pid = pmt_pid} m.pmt_at (omega arith) m.pmt_bits m.pmt_full (omega arith),
          tt,
        )))

  pub group_pmt : Gives pmt_pid m.pmt_counter group (m.pmt_body ∷ []) ((m.pmt_counter + 1) % 16)
  group_pmt = Gives-append (Gives-other m.pmt_counter nulls (nulls-IsOther pmt_pid (omega arith))) (
      Gives-append
        (Gives-other m.pmt_counter (spts.pat.content ∷ [])
          (table-IsOther {pid = 0} m.pat_at (omega arith) m.pat_bits m.pat_full (omega arith), tt))
        (table_unit m.pmt_at (omega arith) m.pmt_bits m.pmt_full))

  -- What comes before the packets of a video frame, and the next counter of a table.
  abbrev pub preface : Bool → List Bytes
  preface delta = if delta then [] else group

  abbrev pub counter_behind : Bool → ℕ → ℕ
  counter_behind delta counter = if delta then counter else (counter + 1) % 16

  abbrev pub group_count : Bool → ℕ
  group_count delta = if delta then 0 else 1

  pub preface-IsOther :
      (delta : Bool) (pid : ℕ)
      → 0x1fff ≢ pid
      → 0 ≢ pid
      → pmt_pid ≢ pid
      → All (IsOther pid) (preface delta)
  preface-IsOther true pid n1 n2 n3 = tt
  preface-IsOther false pid n1 n2 n3 = group-IsOther pid n1 n2 n3

  pub preface_pat :
      (delta : Bool)
      → Gives 0 m.pat_counter
          (preface delta)
          (replicate (group_count delta) m.pat_body)
          (counter_behind delta m.pat_counter)
  preface_pat true = Gives-other m.pat_counter [] tt
  preface_pat false = group_pat

  pub preface_pmt :
      (delta : Bool)
      → Gives pmt_pid m.pmt_counter
          (preface delta)
          (replicate (group_count delta) m.pmt_body)
          (counter_behind delta m.pmt_counter)
  preface_pmt true = Gives-other m.pmt_counter [] tt
  preface_pmt false = group_pmt
