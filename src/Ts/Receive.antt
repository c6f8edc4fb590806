-- ===== src/Ts/Receive.antt =====
-- A receiver of the packets of one PID: it checks the PID, the continuity counter and the unit
-- start bit of each, and puts the payloads together.
use sptsmuxer.Base.{
  ℕ, ◌+◌, ◌%◌, ◌≡◌, refl, arith, List, [], ◌∷◌, ◌++◌, Option, some, none, Bytes, ◌==◌,
  if◌then◌else◌, ◌&&◌,
}
use sptsmuxer.Ts.Decode.{TsView, decode_ts}

abbrev join : ℕ → ℕ → ℕ → Option TsView → Option Bytes → Option Bytes
join pid start counter (some v) (some rest) =
    if v.pid == pid && v.unit_start == start && v.counter == counter
    then some (v.payload ++ rest)
    else none
join pid start counter _ _ = none

-- `start` is the unit start bit that the first packet must have; the others must have 0.
unfoldable pub receive : ℕ → ℕ → ℕ → List Bytes → Option Bytes
receive pid start counter [] = some []
receive pid start counter (p ∷ packets) =
    join pid start counter (decode_ts p) (receive pid 0 ((counter + 1) % 16) packets)

pub receive-cons :
    (pid start counter : ℕ) (ad payload p rest : Bytes) (packets : List Bytes)
    → decode_ts p
      ≡ some (record {
        unit_start = start;
        pid = pid;
        counter = counter;
        adaptation = ad;
        payload = payload;
      })
    → receive pid 0 ((counter + 1) % 16) packets ≡ some rest
    → receive pid start counter (p ∷ packets) ≡ some (payload ++ rest)
unfolding receive
receive-cons pid start counter ad payload p rest packets d r = rw (d, r) (ground arith)

-- What a receiver that gets its packets has seen of the first.
pub record FirstReceived (pid start counter : ℕ) (p : Bytes) (packets : List Bytes) (unit : Bytes)
    : Type 0 where
  pub view : TsView
  pub rest : Bytes
  pub decoded : decode_ts p ≡ some view
  pub received : receive pid 0 ((counter + 1) % 16) packets ≡ some rest
  pub its_pid : view.pid ≡ pid
  pub its_start : view.unit_start ≡ start
  pub its_counter : view.counter ≡ counter
  pub together : unit ≡ view.payload ++ rest

pub receive-eq-some :
    (pid start counter : ℕ) (p : Bytes) (packets : List Bytes) (unit : Bytes)
    → receive pid start counter (p ∷ packets) ≡ some unit
    → FirstReceived pid start counter p packets unit
unfolding receive
receive-eq-some pid start counter p packets unit e =
    from (decode_ts p) (receive pid 0 ((counter + 1) % 16) packets) refl refl e
  where
    from :
        (seen : Option TsView) (behind : Option Bytes)
        → decode_ts p ≡ seen
        → receive pid 0 ((counter + 1) % 16) packets ≡ behind
        → join pid start counter seen behind ≡ some unit
        → FirstReceived pid start counter p packets unit
    from none behind d r h = absurd (cc)
    from (some v) none d r h = absurd (cc)
    from (some v) (some rest) d r h = record {
      view = v;
      rest = rest;
      decoded = d;
      received = r;
      its_pid = ground arith;
      its_start = ground arith;
      its_counter = ground arith;
      together = ground arith;
    }
