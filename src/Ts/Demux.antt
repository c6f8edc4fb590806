-- ===== src/Ts/Demux.antt =====
-- A receiver of one PID in a whole transport stream: it skips the packets of the other PIDs, and
-- cuts those of its own at the unit start bit.
use sptsmuxer.Base.{
  ℕ, suc, ◌+◌, ◌%◌, ◌<◌, ◌≡◌, ◌≢◌, refl, sym, ◌∙◌, arith, List, [], ◌∷◌, ◌++◌, Option, none, some,
  Bytes, true, false, ◌==◌, if◌then◌else◌, All, length, append_assoc,
}
use sptsmuxer.Ts.Decode.{TsView, decode_ts}
use sptsmuxer.Ts.Receive.{receive, receive-eq-some}

-- Behind a packet of the PID: its payload starts a unit, or belongs to the one before.
abbrev attach : TsView → Option (Bytes × List Bytes) → Option (Bytes × List Bytes)
attach v none = none
attach v (some (open_unit, units)) =
    if v.unit_start == 1
    then some ([], (v.payload ++ open_unit) ∷ units)
    else some (v.payload ++ open_unit, units)

abbrev route : ℕ → ℕ → Option TsView → Option (Bytes × List Bytes) → Option (Bytes × List Bytes)
route pid counter none behind = none
route pid counter (some v) behind =
    if v.pid == pid then (if v.counter == counter then attach v behind else none) else behind

-- The counter that the PID is to have behind a packet.
abbrev counter_behind : ℕ → ℕ → Option TsView → ℕ
counter_behind pid counter none = counter
counter_behind pid counter (some v) = if v.pid == pid then (counter + 1) % 16 else counter

-- What comes before the first start of a unit, and the units. A packet that is none, or a gap in
-- the continuity counter of the PID, is an error.
unfoldable pub demux : ℕ → ℕ → List Bytes → Option (Bytes × List Bytes)
demux pid counter [] = some ([], [])
demux pid counter (p ∷ packets) =
    route pid counter (decode_ts p) (demux pid (counter_behind pid counter (decode_ts p)) packets)

-- The packets bring these units to the PID, and take its counter from the one to the other.
pub record Gives (pid counter : ℕ) (packets units : List Bytes) (next : ℕ) : Type 0 where
  pub gives :
      (more later : List Bytes)
      → demux pid next more ≡ some ([], later)
      → demux pid counter (packets ++ more) ≡ some ([], units ++ later)

pub Gives-append :
    {pid a b c : ℕ} {xs ys us vs : List Bytes}
    → Gives pid a xs us b
    → Gives pid b ys vs c
    → Gives pid a (xs ++ ys) (us ++ vs) c
Gives-append {xs = xs} {ys = ys} {us = us} {vs = vs} g h = record {
  gives = λ more later e.
      rw (append_assoc xs ys more, append_assoc us vs later)
        (g.gives (ys ++ more) (vs ++ later) (h.gives more later e));
}

-- A packet of another PID.
pub record IsOther (pid : ℕ) (p : Bytes) : Type 0 where
  pub view : TsView
  pub decoded : decode_ts p ≡ some view
  pub other : view.pid ≢ pid

demux-other :
    (pid counter : ℕ) (packets more later : List Bytes)
    → All (IsOther pid) packets
    → demux pid counter more ≡ some ([], later)
    → demux pid counter (packets ++ more) ≡ some ([], later)
unfolding demux
demux-other pid counter [] more later all e = e
demux-other pid counter (p ∷ packets) more later all e =
    let other : all.0.view.pid ≢ pid = all.0.other in
    let skip : (all.0.view.pid == pid) ≡ false = ground arith in
    rw (all.0.decoded, skip) (demux-other pid counter packets more later all.1 e)

pub Gives-other :
    {pid : ℕ} (counter : ℕ) (packets : List Bytes)
    → All (IsOther pid) packets
    → Gives pid counter packets [] counter
Gives-other {pid} counter packets all = record {
  gives = λ more later e. demux-other pid counter packets more later all e;
}

-- The packets of a unit, the first of which may start it.
demux-unit :
    (pid start counter : ℕ) (p : Bytes) (packets more later : List Bytes) (unit : Bytes)
    → receive pid start counter (p ∷ packets) ≡ some unit
    → start < 2
    → ((rest : Bytes)
        → receive pid 0 ((counter + 1) % 16) packets ≡ some rest
        → demux pid ((counter + 1) % 16) (packets ++ more) ≡ some (rest, later))
    → demux pid counter (p ∷ packets ++ more)
      ≡ (if start == 1 then some ([], unit ∷ later) else some (unit, later))
unfolding demux
demux-unit pid start counter p packets more later unit r hs rest =
    let f = receive-eq-some pid start counter p packets unit r in
    let its_pid : (f.view.pid == pid) ≡ true = ground (arith, f.its_pid) in
    let its_counter : (f.view.counter == counter) ≡ true = ground (arith, f.its_counter) in
    rw (f.decoded, its_pid, its_counter, rest f.rest f.received, f.its_start, f.together) refl

demux-tail :
    (pid counter : ℕ) (packets more later : List Bytes) (rest : Bytes)
    → counter < 16
    → receive pid 0 counter packets ≡ some rest
    → demux pid ((counter + length packets) % 16) more ≡ some ([], later)
    → demux pid counter (packets ++ more) ≡ some (rest, later)
unfolding receive
demux-tail pid counter [] more later rest h r e =
    let nothing : [] ≡ rest = cc in
    let same : (counter + 0) % 16 ≡ counter = omega arith in rw (← nothing) (rw same at e)
demux-tail pid counter (p ∷ packets) more later rest h r e =
    let number : (counter + suc (length packets)) % 16
        ≡ ((counter + 1) % 16 + length packets) % 16 =
      omega arith in
    demux-unit pid 0 counter p packets more later rest r (omega arith) (λ behind received.
      demux-tail pid ((counter + 1) % 16) packets more later behind (omega arith) received
        (rw number at e))

-- A unit that a receiver of its packets alone gets.
pub Gives-unit :
    {pid counter : ℕ} {p : Bytes} {packets : List Bytes} {unit : Bytes}
    → counter < 16
    → receive pid 1 counter (p ∷ packets) ≡ some unit
    → Gives pid counter (p ∷ packets) (unit ∷ []) ((counter + length (p ∷ packets)) % 16)
Gives-unit {pid} {counter} {p} {packets} {unit} h r = record {
  gives = λ more later e.
      let number : (counter + suc (length packets)) % 16
          ≡ ((counter + 1) % 16 + length packets) % 16 =
        omega arith in
      demux-unit pid 1 counter p packets more later unit r (omega arith) (λ behind received.
        demux-tail pid ((counter + 1) % 16) packets more later behind (omega arith) received
          (rw number at e));
}

-- They are none of another PID's.
pub All-IsOther :
    (pid other start counter : ℕ) (packets : List Bytes) (unit : Bytes)
    → receive pid start counter packets ≡ some unit
    → pid ≢ other
    → All (IsOther other) packets
All-IsOther pid other start counter [] unit r ne = tt
All-IsOther pid other start counter (p ∷ packets) unit r ne =
    let f = receive-eq-some pid start counter p packets unit r in
    (
      record { view = f.view; decoded = f.decoded; other = λ e. ne (sym f.its_pid ∙ e) },
      All-IsOther pid other 0 ((counter + 1) % 16) packets f.rest f.received ne,
    )

decode_ts-length : (p : Bytes) (v : TsView) → decode_ts p ≡ some v → length p ≡ 188
unfolding decode_ts
decode_ts-length [] v e = absurd cc
decode_ts-length (b0 ∷ []) v e = absurd cc
decode_ts-length (b0 ∷ b1 ∷ []) v e = absurd cc
decode_ts-length (b0 ∷ b1 ∷ b2 ∷ []) v e = absurd cc
decode_ts-length (b0 ∷ b1 ∷ b2 ∷ b3 ∷ body) v e = ground arith

-- A receiver that accepts a stream has seen packets of 188 bytes.
pub demux-length :
    (pid counter : ℕ) (packets : List Bytes) (seen : Bytes × List Bytes)
    → demux pid counter packets ≡ some seen
    → All (λ p. length p ≡ 188) packets
unfolding demux
demux-length pid counter [] seen e = tt
demux-length pid counter (p ∷ packets) seen e =
    from (demux-length pid (counter_behind pid counter (decode_ts p)) packets) (decode_ts p)
      (demux pid (counter_behind pid counter (decode_ts p)) packets) refl refl e
  where
    from :
        ((later : Bytes × List Bytes)
          → demux pid (counter_behind pid counter (decode_ts p)) packets ≡ some later
          → All (λ q. length q ≡ 188) packets)
        → (view : Option TsView) (behind : Option (Bytes × List Bytes)) → decode_ts p ≡ view
        → demux pid (counter_behind pid counter (decode_ts p)) packets ≡ behind
        → route pid counter view behind ≡ some seen
        → (length p ≡ 188) × All (λ q. length q ≡ 188) packets
    from rest none behind d r h = absurd cc
    from rest (some v) none d r h = absurd (ground arith)
    from rest (some v) (some later) d r h = (decode_ts-length p v d, rest later r)
