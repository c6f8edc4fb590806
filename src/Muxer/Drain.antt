-- ===== src/Muxer/Drain.antt =====
-- Calls of `sptsmuxer_collected` one after the other, until no frame waits.
use sptsmuxer.Base.{
  ℕ, zero, suc, ◌+◌, ◌*◌, ◌≡◌, inl, inr, refl, sym, ◌∙◌, append-nil, ap, arith, List, [], ◌∷◌, ◌++◌,
  Bool, false, Option, Bytes, Result, ok, ◌>>=◌, All, length, length-append, map, replicate,
  append_assoc,
}
use native.Mathlib.Nat.{add-mul}
use sptsmuxer.Spts.State.{SpTs, Buffer}
use sptsmuxer.Spts.Frame.{spts_write_frame}
use sptsmuxer.Spts.Frame.Stepped.{IsPlayable}
use sptsmuxer.Spts.Frame.Faults.{write_frames}
use sptsmuxer.Spts.Frame.Multiplexed.{HasSpace}
use sptsmuxer.Muxer.{MuxerState, SrcCall, push_buffer, sptsmuxer_collected}
use sptsmuxer.Muxer.Allocate.{used_of, held_of}
use sptsmuxer.Muxer.Queue.{Merged, Merged-IsSorted, IsSorted, done, taken, waiting, Pops-waiting}
use sptsmuxer.Muxer.Element.{Called-HasSpace, IsElement, Called, Wrote, Collects, first_calls}
use sptsmuxer.Muxer.Collect.{sptsmuxer_collected-Called}

map-replicate {ℓ κ} :
    {A : Type ℓ} {B : Type κ} (f : A → B) (m n : ℕ) (x : A)
    → map f (replicate m x) ++ map f (replicate n x) ≡ map f (replicate (m + n) x)
map-replicate f zero n x =
    let same : n ≡ 0 + n = omega arith in ap (λ k. map f (replicate k x)) same
map-replicate f (suc m) n x =
    let same : suc (m + n) ≡ suc m + n = omega arith in
    ap (λ l. f x ∷ l) (map-replicate f m n x) ∙ ap (λ k. map f (replicate k x)) same

-- What comes before the first buffer, if there is a call.
abbrev pub calls_before : ℕ → Bool → List SrcCall
calls_before zero first = []
calls_before (suc n) first = first_calls first

pub calls_before_lem : (n : ℕ) → calls_before n false ≡ []
calls_before_lem zero = refl
calls_before_lem (suc n) = refl

-- The calls on the source pad of the first round and of the others.
calls_together :
    (first : List SrcCall) (n a b : ℕ) (later : Bool) (bytes : Bytes)
    → later ≡ false
    → (first ++ map push_buffer (replicate a bytes))
        ++ (calls_before n later ++ map push_buffer (replicate b bytes))
      ≡ first ++ map push_buffer (replicate (a + b) bytes)
calls_together first n a b later bytes e =
    rw
      (
        e,
        calls_before_lem n,
        append_assoc first (map push_buffer (replicate a bytes))
            (map push_buffer (replicate b bytes)),
        map-replicate push_buffer a b bytes,
      )
      refl

write_frames-cons :
    (uint64_scale : ℕ → ℕ → ℕ → ℕ) (spts : SpTs) {next out : SpTs} (buffer : Buffer)
    (buffers : List Buffer) {packets others : List Bytes}
    → spts_write_frame uint64_scale spts buffer ≡ ok (next, packets)
    → write_frames uint64_scale next buffers ≡ ok (out, others)
    → write_frames uint64_scale spts (buffer ∷ buffers) ≡ ok (out, packets ++ others)
unfolding write_frames
write_frames-cons uint64_scale spts buffer buffers one rest = rw (one, rest) refl

module _ (g_malloc : ℕ → Option Bytes) (gst_buffer_new_and_alloc : ℕ → Bytes)
    (uint64_scale : ℕ → ℕ → ℕ → ℕ) (handled : Bool) where
  -- A number of calls.
  unfoldable pub collect_rounds : ℕ → MuxerState → Result (MuxerState × List SrcCall)
  collect_rounds zero muxer = ok (muxer, [])
  collect_rounds (suc n) muxer = do
    (next, calls) ← sptsmuxer_collected g_malloc gst_buffer_new_and_alloc uint64_scale handled muxer
    (out, others) ← collect_rounds n next
    ok (out, calls ++ others)

  pub collect_rounds-suc :
      (n : ℕ) (muxer : MuxerState) {next out : MuxerState} {calls others : List SrcCall}
      → sptsmuxer_collected g_malloc gst_buffer_new_and_alloc uint64_scale handled muxer
        ≡ ok (next, calls)
      → collect_rounds n next ≡ ok (out, others)
      → collect_rounds (suc n) muxer ≡ ok (out, calls ++ others)
  unfolding collect_rounds
  collect_rounds-suc n muxer one rest = rw (one, rest) refl

  module _ (video audio : Bool) where
    -- All that waits has been written, in order.
    pub record Drained {muxer : MuxerState} {size : ℕ}
        (e : IsElement g_malloc uint64_scale video audio muxer size) (n : ℕ) : Type 0 where
      pub out : MuxerState
      pub number : ℕ
      pub returns :
          collect_rounds n muxer
          ≡ ok (
            out,
            calls_before n muxer.first
                ++ map push_buffer (replicate number (gst_buffer_new_and_alloc (size * 188))),
          )
      pub next : IsElement g_malloc uint64_scale video audio out size
      pub emptied : waiting out.collect ≡ 0
      pub frames : List Buffer
      pub merged : Merged muxer.collect frames out.collect
      pub playable : All (IsPlayable video audio) frames
      pub as_many : length frames ≡ n
      pub packets : List Bytes
      pub writes : write_frames uint64_scale e.started frames ≡ ok (next.started, packets)
      pub count :
          number * size + used_of g_malloc next.can_push
          ≡ used_of g_malloc e.can_push + length packets
      pub gone : List Bytes
      pub order : gone ++ held_of g_malloc next.can_push ≡ held_of g_malloc e.can_push ++ packets

    pub collect_rounds-Drained :
        (n : ℕ) (muxer : MuxerState) (size : ℕ)
        (e : IsElement g_malloc uint64_scale video audio muxer size)
        → waiting muxer.collect ≡ n
        → HasSpace e.started n
        → Drained e n
    collect_rounds-Drained zero muxer size e w space = record {
      out = muxer;
      number = 0;
      returns = unfold collect_rounds in refl;
      next = e;
      emptied = w;
      frames = [];
      merged = done;
      playable = tt;
      as_many = refl;
      packets = [];
      writes = unfold write_frames in refl;
      count = omega arith;
      gone = [];
      order = sym (append-nil (held_of g_malloc e.can_push));
    }
    collect_rounds-Drained (suc n) muxer size e w space =
        let one =
          sptsmuxer_collected-Called g_malloc gst_buffer_new_and_alloc uint64_scale video audio
            handled muxer size e enough in
        let f = frame one in
        let left : waiting one.out.collect ≡ n = omega (arith, w, Pops-waiting f.pops) in
        let rest =
          collect_rounds-Drained n one.out size one.next left (
            Called-HasSpace g_malloc gst_buffer_new_and_alloc uint64_scale video audio one space) in
        record {
          out = rest.out;
          number = one.number + rest.number;
          returns =
              collect_rounds-suc n muxer one.returns rest.returns
              ∙ ap (λ l. ok (rest.out, l))
                  (calls_together (first_calls muxer.first) n one.number rest.number one.out.first
                    (gst_buffer_new_and_alloc (size * 188)) one.begun);
          next = rest.next;
          emptied = rest.emptied;
          frames = f.buffer ∷ rest.frames;
          merged = taken f.pops f.earliest rest.merged;
          playable = (f.is_frame.0, rest.playable);
          as_many = ap suc rest.as_many;
          packets = one.packets ++ rest.packets;
          writes =
              write_frames-cons uint64_scale e.started f.buffer rest.frames f.writes rest.writes;
          count = omega (
            arith,
            one.count,
            rest.count,
            add-mul one.number rest.number size,
            length-append one.packets rest.packets,
          );
          gone = one.gone ++ rest.gone;
          order =
              append_assoc one.gone rest.gone (held_of g_malloc rest.next.can_push)
              ∙ ap (λ l. one.gone ++ l) rest.order
              ∙ sym (append_assoc one.gone (held_of g_malloc one.next.can_push) rest.packets)
              ∙ ap (λ l. l ++ rest.packets) one.order
              ∙ append_assoc (held_of g_malloc e.can_push) one.packets rest.packets;
        }
      where
        enough : HasSpace e.started 1
        enough = record {
          packets_space = omega (arith, space.packets_space);
          groups_space = omega (arith, space.groups_space);
        }

        frame :
            (c : Called g_malloc gst_buffer_new_and_alloc uint64_scale video audio e
              (Collects g_malloc gst_buffer_new_and_alloc uint64_scale handled muxer))
            → Wrote uint64_scale video audio muxer.collect c.out.collect e.started c.next.started
                c.packets
        frame c = elim c.effect [ inl nothing ↦ absurd (omega (arith, nothing.0, w)) | inr f ↦ f ]

    -- From an element that satisfies its invariant, with n frames on its pads and space for their
    -- packets, where every queue is in the order of its time stamps: the frames that n calls of
    -- sptsmuxer_collected write are in the order of their time stamps.
    pub collect_rounds-IsSorted :
        (n : ℕ) (muxer : MuxerState) (size : ℕ)
        (e : IsElement g_malloc uint64_scale video audio muxer size)
        → waiting muxer.collect ≡ n
        → HasSpace e.started n
        → All IsSorted muxer.collect
        → (d : Drained e n) × IsSorted d.frames
    collect_rounds-IsSorted n muxer size e w space sorted =
        let d = collect_rounds-Drained n muxer size e w space in
        (d, Merged-IsSorted d.merged sorted)
