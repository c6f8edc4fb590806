-- ===== src/Spts/Frame/Shown.antt =====
-- What receivers of the four PIDs of the program get from a run of packets.
use sptsmuxer.Base.{
  ◌≢◌, All-append, ℕ, ◌+◌, ◌%◌, ◌<◌, ◌≡◌, refl, sym, ◌∙◌, List, [], ◌∷◌, ◌++◌, Option, none, some,
  Bytes, All, length, replicate, append-replicate,
}
use mathlib.Core.Path.{subst}
use sptsmuxer.Pes.Decode.{PesHeader, decode_pes}
use sptsmuxer.Ts.Receive.{receive}
use sptsmuxer.Ts.Demux.{Gives, Gives-append, IsOther, Gives-other, Gives-unit}
use sptsmuxer.Spts.State.{SpTs, video_pid, audio_pid, pmt_pid}
use sptsmuxer.Spts.Frame.Carry.{Carries, HasClock}
use sptsmuxer.Spts.Frame.Valid.{IsMuxing}

abbrev both :
    Option (PesHeader × Bytes)
    → Option (List (PesHeader × Bytes))
    → Option (List (PesHeader × Bytes))
both none rest = none
both (some frame) none = none
both (some frame) (some frames) = some (frame ∷ frames)

-- The frames in the units of a PID.
unfoldable pub decode_units : List Bytes → Option (List (PesHeader × Bytes))
decode_units [] = some []
decode_units (unit ∷ units) = both (decode_pes unit) (decode_units units)

decode_units-append :
    (us vs : List Bytes) (xs ys : List (PesHeader × Bytes))
    → decode_units us ≡ some xs
    → decode_units vs ≡ some ys
    → decode_units (us ++ vs) ≡ some (xs ++ ys)
unfolding decode_units
decode_units-append [] vs xs ys hx hy = let nothing : [] ≡ xs = cc in rw (← nothing) hy
decode_units-append (u ∷ us) vs xs ys hx hy =
    from (λ fs r. decode_units-append us vs fs ys r hy) (decode_pes u) (decode_units us) refl refl
      hx
  where
    from :
        ((fs : List (PesHeader × Bytes))
          → decode_units us ≡ some fs
          → decode_units (us ++ vs) ≡ some (fs ++ ys))
        → (frame : Option (PesHeader × Bytes)) (frames : Option (List (PesHeader × Bytes)))
        → decode_pes u ≡ frame
        → decode_units us ≡ frames
        → both frame frames ≡ some xs
        → both (decode_pes u) (decode_units (us ++ vs)) ≡ some (xs ++ ys)
    from rest none frames d r e = absurd (cc)
    from rest (some f) none d r e = absurd (cc)
    from rest (some f) (some fs) d r e =
        let parts : f ∷ fs ≡ xs = cc in rw (d, rest fs r, ← parts) refl

-- The PID gets these frames, behind these PES headers.
pub record Frames (pid counter : ℕ) (packets : List Bytes) (frames : List (PesHeader × Bytes))
    (next : ℕ) : Type 0 where
  pub units : List Bytes
  pub gives : Gives pid counter packets units next
  pub read : decode_units units ≡ some frames

pub Frames-append :
    {pid a b c : ℕ} {xs ys : List Bytes} {us vs : List (PesHeader × Bytes)}
    → Frames pid a xs us b
    → Frames pid b ys vs c
    → Frames pid a (xs ++ ys) (us ++ vs) c
Frames-append {us = us} {vs = vs} f g = record {
  units = f.units ++ g.units;
  gives = Gives-append f.gives g.gives;
  read = decode_units-append f.units g.units us vs f.read g.read;
}

pub Frames-other :
    {pid : ℕ} (counter : ℕ) (packets : List Bytes)
    → All (IsOther pid) packets
    → Frames pid counter packets [] counter
unfolding decode_units
Frames-other counter packets all = record {
  units = [];
  gives = Gives-other counter packets all;
  read = refl;
}

pub Carries-Frames :
    {pid counter : ℕ} {packets : List Bytes} {header : PesHeader} {bytes : Bytes} {pcr : Option ℕ}
    → counter < 16
    → Carries pid counter packets header bytes
    → HasClock packets pcr
    → Frames pid counter packets ((header, bytes) ∷ []) ((counter + length packets) % 16)
unfolding decode_units
Carries-Frames {pid} {counter} {packets} {header} {bytes} h c k = record {
  units = c.pes ∷ [];
  gives =
      subst (λ ps. Gives pid counter ps (c.pes ∷ []) ((counter + length ps) % 16)) (sym k.begins)
        (Gives-unit h (subst (λ ps. receive pid 1 counter ps ≡ some c.pes) k.begins c.received));
  read = rw c.read refl;
}

-- A PID that the program does not use, nor the null packets.
abbrev pub IsForeign : ℕ → Type 0
IsForeign pid = (0x1fff ≢ pid) × (0 ≢ pid) × (pmt_pid ≢ pid) × (video_pid ≢ pid) × (audio_pid ≢ pid)

-- Between two states, the receivers of the two streams get these frames, and those of the tables
-- the same section as often.
pub record Shown {spts out : SpTs} (m : IsMuxing spts) (n : IsMuxing out) (packets : List Bytes)
    (video audio : List (PesHeader × Bytes)) (groups : ℕ) : Type 0 where
  pub video_shown : Frames video_pid m.video_counter packets video n.video_counter
  pub audio_shown : Frames audio_pid m.audio_counter packets audio n.audio_counter
  pub pat_shown : Gives 0 m.pat_counter packets (replicate groups m.pat_body) n.pat_counter
  pub pmt_shown : Gives pmt_pid m.pmt_counter packets (replicate groups m.pmt_body) n.pmt_counter
  pub foreign : (pid : ℕ) → IsForeign pid → All (IsOther pid) packets
  pub bodies : (n.pat_body ≡ m.pat_body) × (n.pmt_body ≡ m.pmt_body)

pub Shown-append :
    {s t u : SpTs} {l : IsMuxing s} {m : IsMuxing t} {n : IsMuxing u} {xs ys : List Bytes}
    {v1 a1 v2 a2 : List (PesHeader × Bytes)} {g1 g2 : ℕ}
    → Shown l m xs v1 a1 g1
    → Shown m n ys v2 a2 g2
    → Shown l n (xs ++ ys) (v1 ++ v2) (a1 ++ a2) (g1 + g2)
Shown-append {l = l} {m = m} {n = n} {xs = xs} {ys = ys} {g1 = g1} {g2 = g2} x y = record {
  video_shown = Frames-append x.video_shown y.video_shown;
  audio_shown = Frames-append x.audio_shown y.audio_shown;
  pat_shown = tables-append x.bodies.0 x.pat_shown y.pat_shown;
  pmt_shown = tables-append x.bodies.1 x.pmt_shown y.pmt_shown;
  foreign = λ pid f. All-append (IsOther pid) xs ys (x.foreign pid f) (y.foreign pid f);
  bodies = (y.bodies.0 ∙ x.bodies.0, y.bodies.1 ∙ x.bodies.1);
}
  where
    tables-append :
        {pid a b c : ℕ} {first second : Bytes}
        → second ≡ first
        → Gives pid a xs (replicate g1 first) b
        → Gives pid b ys (replicate g2 second) c
        → Gives pid a (xs ++ ys) (replicate (g1 + g2) first) c
    tables-append {pid} {a} {b} {c} {first} same g h =
        subst (λ us. Gives pid a (xs ++ ys) us c) (append-replicate g1 g2 first)
          (Gives-append g (subst (λ body. Gives pid b ys (replicate g2 body) c) same h))
