-- ===== src/Spts/Frame/Multiplexed.antt =====
-- A whole program of frames: the calls, and what their packets show.
use sptsmuxer.Base.{
  ℕ, suc, ◌+◌, ◌-◌, ◌*◌, ◌^◌, ◌≤◌, ◌<◌, ◌≡◌, refl, ◌∙◌, ap, arith, List, [], ◌∷◌, ◌++◌, Bool, some,
  Bytes, ok, All, ltb, length, length-append, append-nil,
}
use mathlib.Core.Path.{subst, sym}
use sptsmuxer.Ts.Demux.{demux, Gives}
use sptsmuxer.Spts.State.{SpTs, Buffer}
use sptsmuxer.Spts.Frame.{gop_packets}
use sptsmuxer.Spts.Frame.Faults.{write_frames}
use sptsmuxer.Spts.Frame.Expected.{
  used_behind, HavePlace, used_in_the_end, video_frames, audio_frames, groups, started_behind,
}
use sptsmuxer.Spts.Frame.Shown.{Shown, Shown-append}
use sptsmuxer.Spts.Frame.Parts.{nothing-Shown}
use sptsmuxer.Spts.Frame.Stepped.{IsPlayable, IsRunning, Stepped}
use sptsmuxer.Spts.Frame.Run.{write_frame-Stepped}

-- Neither the count of the packets nor the place of a group can wrap in this many frames.
pub record HasSpace (spts : SpTs) (number : ℕ) : Type 0 where
  pub packets_space : spts.packets_counter + number * 2 ^ 32 < 2 ^ 64
  pub groups_space : (spts.gop_counter + number) * gop_packets + number * 2 ^ 32 < 2 ^ 64

pub Gives-whole :
    {pid counter next : ℕ} {packets units : List Bytes}
    → Gives pid counter packets units next
    → demux pid counter packets ≡ some ([], units)
unfolding demux
Gives-whole {pid} {counter} {packets = packets} {units = units} g =
    subst (λ ps. demux pid counter ps ≡ some ([], units)) (append-nil packets)
      (subst (λ us. demux pid counter (packets ++ []) ≡ some ([], us)) (append-nil units)
        (g.gives [] [] refl))

module _ (uint64_scale : ℕ → ℕ → ℕ → ℕ) (video audio : Bool) where
  -- The space that one frame needs.
  module _ {spts : SpTs} {r : IsRunning uint64_scale video audio spts} {buffer : Buffer}
      (one : Stepped uint64_scale video audio r buffer) where
    abbrev bound : ℕ
    bound = spts.packets_counter + (spts.gop_counter * gop_packets - spts.packets_counter)

    pub Stepped-count :
        {number : ℕ}
        → HasSpace spts (suc number)
        → one.out.packets_counter ≡ spts.packets_counter + length one.packets
    Stepped-count space = omega (
      arith,
      one.count,
      one.few bound (omega arith) (omega arith),
      space.packets_space,
      space.groups_space,
    )

    pub Stepped-grows :
        HasSpace spts 1
        → (one.out.packets_counter
            ≤ spts.packets_counter
              + (spts.gop_counter * gop_packets - spts.packets_counter)
              + 2 ^ 32)
          × (one.out.gop_counter ≤ spts.gop_counter + 1)
    Stepped-grows space =
        (omega (arith, Stepped-count space, one.few bound (omega arith) (omega arith)), one.gops)

    pub Stepped-HasSpace : {number : ℕ} → HasSpace spts (suc number) → HasSpace one.out number
    Stepped-HasSpace space = record {
      packets_space = omega (
        arith,
        Stepped-count space,
        one.few bound (omega arith) (omega arith),
        space.packets_space,
        space.groups_space,
      );
      groups_space = omega (arith, one.gops, space.groups_space);
    }

  pub record Multiplexed {spts : SpTs} (r : IsRunning uint64_scale video audio spts)
      (buffers : List Buffer) : Type 0 where
    pub out : SpTs
    pub packets : List Bytes
    pub returns : write_frames uint64_scale spts buffers ≡ ok (out, packets)
    pub next : IsRunning uint64_scale video audio out
    pub shown :
        Shown r.muxing next.muxing packets
          (video_frames uint64_scale buffers)
          (audio_frames uint64_scale (ltb 0 spts.packets_counter) buffers)
          (groups buffers)
    pub counted : out.packets_counter ≡ spts.packets_counter + length packets
    pub exact :
        (used : ℕ)
        → spts.packets_counter + gop_packets ≡ spts.gop_counter * gop_packets + used
        → HavePlace video audio (ltb 0 spts.packets_counter) used buffers
        → out.packets_counter + gop_packets
          ≡ out.gop_counter * gop_packets
            + used_in_the_end video audio (ltb 0 spts.packets_counter) used buffers
    pub gop_count : out.gop_counter ≡ spts.gop_counter + groups buffers
    pub paced :
        spts.gop_counter * gop_packets ≤ spts.packets_counter + 2100
        → out.gop_counter * gop_packets ≤ spts.packets_counter + length packets + 2100

  pub write_frames-Multiplexed :
      (spts : SpTs) (buffers : List Buffer) (r : IsRunning uint64_scale video audio spts)
      → All (IsPlayable video audio) buffers
      → HasSpace spts (length buffers)
      → Multiplexed r buffers
  unfolding write_frames
  write_frames-Multiplexed spts [] r all space = record {
    out = spts;
    packets = [];
    returns = refl;
    next = r;
    shown = nothing-Shown r.muxing;
    counted = omega arith;
    exact = λ used at place. at;
    gop_count = omega arith;
    paced = λ h. omega arith;
  }
  write_frames-Multiplexed spts (buffer ∷ buffers) r all space =
      let one =
        write_frame-Stepped uint64_scale video audio spts buffer r all.0
          (omega (arith, space.groups_space)) in
      let rest =
        write_frames-Multiplexed one.out buffers one.next all.1 (Stepped-HasSpace one space) in
      record {
        out = rest.out;
        packets = one.packets ++ rest.packets;
        returns = rw (one.returns, rest.returns) refl;
        next = rest.next;
        shown = Shown-append one.shown (
            subst
              (λ started.
                Shown one.next.muxing rest.next.muxing rest.packets
                  (video_frames uint64_scale buffers) (audio_frames uint64_scale started buffers)
                  (groups buffers))
              (began one) rest.shown);
        counted =
            omega (
              arith,
              Stepped-count one space,
              rest.counted,
              length-append one.packets rest.packets,
            );
        exact = λ used at place.
            let early : spts.gop_counter * gop_packets < 2 ^ 64 =
              omega (arith, space.groups_space) in
            let behind = used_behind video audio (ltb 0 spts.packets_counter) buffer used in
            let there = one.exact used at place.0 early in
            let others = rest.exact behind (omega (arith, there, Stepped-count one space)) (
              subst (λ started. HavePlace video audio started behind buffers) (sym (began one))
                place.1) in
            others
            ∙ ap
                (λ started.
                  rest.out.gop_counter * gop_packets
                  + used_in_the_end video audio started behind buffers)
                (began one);
        gop_count =
            omega (arith, one.gop_count (omega (arith, space.groups_space)), rest.gop_count);
        paced = λ h. omega (
          arith,
          rest.paced (omega (arith, one.paced h, Stepped-count one space)),
          Stepped-count one space,
          length-append one.packets rest.packets,
        );
      }
    where
      began :
          (one : Stepped uint64_scale video audio r buffer)
          → ltb 0 one.out.packets_counter ≡ started_behind buffer.caps (ltb 0 spts.packets_counter)
      began one = ap (ltb 0) (Stepped-count one space) ∙ one.begins
